-- ===== src/SignMagnitude.antt =====
-- `SignMagnitude` of nodes/src/lib.rs, for magnitudes below a bound, as those of `u128` are, which
-- the `delta_map` of nodes/src/client.rs counts with. `none` is the panic of an overflow.
pub mod Value
mod Tests
use arm_noir.Prelude.{
  ℕ, ◌+◌, ◌-◌, Option, none, some, Bool, true, false, not, ◌&&◌, ◌||◌, ◌==◌, leb, ltb,
  if◌then◌else◌,
}

-- `sign` is true for a minus sign.
pub record SignMagnitude : Type 0 where
  pub sign : Bool
  pub magnitude : ℕ

-- `From<T>`
unfoldable pub from_magnitude : ℕ → SignMagnitude
from_magnitude n = record { sign = false; magnitude = n }

-- `Default`
unfoldable pub default : SignMagnitude
default = record { sign = false; magnitude = 0 }

-- `==` of two Booleans
abbrev pub same_sign : Bool → Bool → Bool
same_sign a b = if a then b else not b

-- `==`: a zero has two signs
unfoldable pub eq : SignMagnitude → SignMagnitude → Bool
eq self other =
    let is_identical = same_sign self.sign other.sign && self.magnitude == other.magnitude in
    let both_zero = self.magnitude == 0 && other.magnitude == 0 in is_identical || both_zero

pub data Ordering : Type 0 where
  less : Ordering
  equal : Ordering
  greater : Ordering

abbrev pub reverse_ordering : Ordering → Ordering
reverse_ordering less = greater
reverse_ordering equal = equal
reverse_ordering greater = less

-- `cmp` of two magnitudes
abbrev pub cmp_magnitude : ℕ → ℕ → Ordering
cmp_magnitude a b = if ltb a b then less else if a == b then equal else greater

unfoldable pub cmp : SignMagnitude → SignMagnitude → Ordering
unfolding eq
cmp self other =
    if eq self other
    then equal
    else if same_sign self.sign other.sign && not self.sign
    then cmp_magnitude self.magnitude other.magnitude
    else if same_sign self.sign other.sign
    then reverse_ordering (cmp_magnitude self.magnitude other.magnitude)
    else if not self.sign
    then greater
    else less

module _ (bound : ℕ) where
  -- `+` of two magnitudes, which overflows at the bound
  abbrev pub checked_add : ℕ → ℕ → Option ℕ
  checked_add a b = if ltb (a + b) bound then some (a + b) else none

  abbrev pub with_sign : Bool → Option ℕ → Option SignMagnitude
  with_sign s none = none
  with_sign s (some m) = some (record { sign = s; magnitude = m })

  unfoldable pub add : SignMagnitude → SignMagnitude → Option SignMagnitude
  add self rhs =
      if same_sign self.sign rhs.sign
      then with_sign self.sign (checked_add self.magnitude rhs.magnitude)
      else if leb rhs.magnitude self.magnitude
      then some (record { sign = self.sign; magnitude = self.magnitude - rhs.magnitude })
      else some (record { sign = rhs.sign; magnitude = rhs.magnitude - self.magnitude })

  -- `+=`, which swaps the numbers where the other one is larger
  unfoldable pub add_assign : SignMagnitude → SignMagnitude → Option SignMagnitude
  add_assign self rhs =
      if same_sign self.sign rhs.sign
      then with_sign self.sign (checked_add self.magnitude rhs.magnitude)
      else if leb rhs.magnitude self.magnitude
      then some (record self { magnitude = self.magnitude - rhs.magnitude })
      else some (record rhs { magnitude = rhs.magnitude - self.magnitude })

  unfoldable pub sub : SignMagnitude → SignMagnitude → Option SignMagnitude
  unfolding add
  sub self rhs = add self (record rhs { sign = not rhs.sign })

  -- `-=`
  unfoldable pub sub_assign : SignMagnitude → SignMagnitude → Option SignMagnitude
  unfolding add_assign
  sub_assign self rhs = add_assign self (record rhs { sign = not rhs.sign })
