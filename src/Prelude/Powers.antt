-- ===== src/Prelude/Powers.antt =====
-- `is_power_of_two`, and the powers of two.
use native.Mathlib.Nat.{pow-suc}
use native.Mathlib.Omega.{arith}
use Prim.Native.Nat.{ℕ, zero, suc, ◌^◌, ◌≤◌}
use mathlib.Core.Path.{◌≡◌}
use mathlib.Core.Logic.{inl, inr}
use mathlib.Core.Bool.{Bool, true, ◌||◌}
use arm_noir.Prelude.Tests.{◌==◌, Bool-cases}

-- n is 2 ^ j for some j up to k.
unfoldable pub is_power_up_to : ℕ → ℕ → Bool
is_power_up_to zero n = n == 1
is_power_up_to (suc k) n = (n == 2 ^ suc k) || is_power_up_to k n

unfoldable pub is_power_of_two : ℕ → Bool
unfolding is_power_up_to
is_power_of_two n = is_power_up_to n n

abbrev pub IsPower : ℕ → Type 0
IsPower n = (k : ℕ) × (n ≡ 2 ^ k)

pub suc_le_pow : (k : ℕ) → suc k ≤ 2 ^ k
suc_le_pow zero = omega arith
suc_le_pow (suc k) = omega (arith, suc_le_pow k, pow-suc 2 k)

pub is_power_up_to-IsPower : (k n : ℕ) → is_power_up_to k n ≡ true → IsPower n
unfolding is_power_up_to
is_power_up_to-IsPower zero n e = (0, ground arith)
is_power_up_to-IsPower (suc k) n e = elim (Bool-cases (n == 2 ^ suc k)) [
  | inl same ↦ (suc k, ground arith)
  | inr other ↦ is_power_up_to-IsPower k n (rw other at e)
]

pub is_power_up_to_pow : (k j : ℕ) → j ≤ k → is_power_up_to k (2 ^ j) ≡ true
unfolding is_power_up_to
is_power_up_to_pow zero j p = let e : j ≡ 0 = omega arith in rw e
is_power_up_to_pow (suc k) j p = elim (Bool-cases (2 ^ j == 2 ^ suc k)) [
  | inl same ↦ rw same
  | inr other ↦
      let q : j ≤ k = elim (Bool-cases (j == suc k)) [
        | inl e ↦ (let f : j ≡ suc k = ground arith in absurd (ground (arith, f)))
        | inr e ↦ ground arith
      ] in
      rw other (is_power_up_to_pow k j q)
]

pub is_power_of_two-pow : (k : ℕ) → is_power_of_two (2 ^ k) ≡ true
unfolding is_power_of_two
is_power_of_two-pow k = is_power_up_to_pow (2 ^ k) k (let p = suc_le_pow k in omega arith)
