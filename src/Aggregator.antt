-- ===== src/Aggregator.antt =====
-- What the aggregators of nodes/src/aggregator.rs share: fresh IDs, and the batches they accept. The
-- iterator of IDs is an argument. `none` is a panic.
pub mod Batches
pub mod Merkle
use arm_noir.Prelude.{
  is_power_of_two, ℕ, zero, suc, ◌^◌, Bool, ◌&&◌, ◌||◌, Option, none, some, List, length, ltb, ◌==◌,
  if◌then◌else◌,
}

-- An iterator with state I.
abbrev pub Ids : Type 0 → Type 0 → Type 0
Ids I BatchId = I → Option (BatchId × I)

-- `expect` panics where there is no ID left.
unfoldable pub gen_id : {I BatchId : Type 0} → Ids I BatchId → I → Option (BatchId × I)
gen_id next i = next i

-- The two assertions on a batch.
unfoldable pub is_batch : {A : Type 0} → List A → Bool
is_batch proofs = is_power_of_two (length proofs) && ltb 1 (length proofs)
