-- ===== src/Pool.antt =====
-- The shielded pool of nodes/src/verifier.rs: `ShieldedPool`, `ShieldedPoolError` and `submit`,
-- with the `Transaction` of nodes/src/client.rs. A call returns the pool as it leaves it, on errors
-- too, since what was written stays written.
pub mod Outcome
pub mod State
pub mod Check
pub mod Submit
pub mod Ledger
pub mod History
pub mod Samples
mod Tests
