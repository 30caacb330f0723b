-- ===== src/Aggregator/Batches.antt =====
-- The sizes of the batches that are accepted.
use arm_noir.Prelude.{
  IsPower, suc_le_pow, is_power_up_to, is_power_of_two, is_power_up_to-IsPower, is_power_up_to_pow,
  ℕ, zero, suc, ◌^◌, ◌≤◌, ◌<◌, ◌≡◌, true, ◌&&◌, ◌↔◌, List, length, ltb, arith,
}
use arm_noir.Aggregator.{is_batch}

-- A batch has 2 ^ (k + 1) members.
abbrev pub IsBatch : {A : Type 0} → List A → Type 0
IsBatch proofs = (k : ℕ) × (length proofs ≡ 2 ^ suc k)

above_one : (n : ℕ) → 1 < n → IsPower n → (k : ℕ) × (n ≡ 2 ^ suc k)
above_one n p (zero, e) = absurd (omega arith)
above_one n p (suc k, e) = (k, e)

-- The assertions hold of exactly the batches of 2 ^ (k + 1) members.
pub is_batch_iff : {A : Type 0} (proofs : List A) → (is_batch proofs ≡ true) ↔ IsBatch proofs
unfolding is_batch is_power_of_two
is_batch_iff proofs = (to, from)
  where
    to :
        is_power_up_to (length proofs) (length proofs) && ltb 1 (length proofs) ≡ true
        → IsBatch proofs
    to e =
        let more : 1 < length proofs = ground arith in
        let power : is_power_up_to (length proofs) (length proofs) ≡ true = ground arith in
        above_one (length proofs) more
          (is_power_up_to-IsPower (length proofs) (length proofs) power)

    from :
        IsBatch proofs
        → is_power_up_to (length proofs) (length proofs) && ltb 1 (length proofs) ≡ true
    from (k, f) =
        let small : suc k ≤ length proofs = omega (arith, suc_le_pow (suc k)) in
        let power : is_power_up_to (length proofs) (length proofs) ≡ true =
          rw f (is_power_up_to_pow (2 ^ suc k) (suc k) (rw f at small)) in
        let more : 1 < length proofs = omega (arith, suc_le_pow (suc k)) in ground arith
