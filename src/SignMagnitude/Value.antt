-- ===== src/SignMagnitude/Value.antt =====
-- The integer that a `SignMagnitude` stands for, and the operations as those of the integers.
use arm_noir.Prelude.{
  ℕ, suc, ◌+◌, ◌-◌, ◌<◌, ◌≡◌, Option, none, some, Bool, true, ◌↔◌, leb, ltb, if◌then◌else◌, arith,
}
use arm_noir.SignMagnitude.{
  SignMagnitude, Ordering, less, equal, greater, eq, cmp, add, sub, add_assign, sub_assign,
}

-- `negsuc n` is -(n + 1).
pub data ℤ : Type 0 where
  pos : ℕ → ℤ
  negsuc : ℕ → ℤ

-- a - b, as an integer.
abbrev pub sub_ℕ : ℕ → ℕ → ℤ
sub_ℕ a b = if leb b a then pos (a - b) else negsuc (b - a - 1)

-- The parts of an integer that are above and below zero.
abbrev pub pos_part : ℤ → ℕ
pos_part (pos n) = n
pos_part (negsuc n) = 0

abbrev pub neg_part : ℤ → ℕ
neg_part (pos n) = 0
neg_part (negsuc n) = suc n

infixl 65 ◌+ℤ◌ ◌-ℤ◌
abbrev pub ◌+ℤ◌ : ℤ → ℤ → ℤ
a +ℤ b = sub_ℕ (pos_part a + pos_part b) (neg_part a + neg_part b)

abbrev pub ◌-ℤ◌ : ℤ → ℤ → ℤ
a -ℤ b = sub_ℕ (pos_part a + neg_part b) (neg_part a + pos_part b)

abbrev pub ltb_ℤ : ℤ → ℤ → Bool
ltb_ℤ a b = ltb (pos_part a + neg_part b) (pos_part b + neg_part a)

-- The integer lies strictly between -bound and bound.
abbrev pub Fits : ℕ → ℤ → Type 0
Fits bound a = pos_part a + neg_part a < bound

unfoldable pub value : SignMagnitude → ℤ
value x = if x.sign then sub_ℕ 0 x.magnitude else pos x.magnitude

-- What a result must be for the integer it should stand for: a number of that value, or a panic
-- exactly where the integer is out of range.
abbrev pub Computes : ℕ → Option SignMagnitude → ℤ → Type 0
Computes bound none a = ¬ (Fits bound a)
Computes bound (some r) a = Fits bound a × (value r ≡ a)

-- For magnitudes below the bound, `add` computes the sum of the integers, and panics exactly where
-- the sum does not fit.
pub add-value :
    (bound : ℕ) (x y : SignMagnitude)
    → x.magnitude < bound
    → y.magnitude < bound
    → Computes bound (add bound x y) (value x +ℤ value y)
unfolding add value
add-value bound x y p q = ground arith

-- For magnitudes below the bound, `sub` computes the difference of the integers, and panics exactly
-- where the difference does not fit.
pub sub-value :
    (bound : ℕ) (x y : SignMagnitude)
    → x.magnitude < bound
    → y.magnitude < bound
    → Computes bound (sub bound x y) (value x -ℤ value y)
unfolding sub add value
sub-value bound x y p q = ground arith

-- The operations that assign return what the others do, the swap of the numbers included.
pub assign_lem :
    (bound : ℕ) (x y : SignMagnitude)
    → (add_assign bound x y ≡ add bound x y) × (sub_assign bound x y ≡ sub bound x y)
unfolding sub sub_assign add add_assign
assign_lem bound x y = (ground arith, ground arith)

-- `==` holds of two numbers exactly where they stand for the same integer, so the two zeros are
-- equal.
pub eq-value : (x y : SignMagnitude) → (eq x y ≡ true) ↔ (value x ≡ value y)
unfolding eq value
eq-value x y = (λ e. ground arith, λ e. ground arith)

-- The order of integers.
abbrev pub compare : ℤ → ℤ → Ordering
compare a b = if ltb_ℤ a b then less else if ltb_ℤ b a then greater else equal

-- `cmp` orders two numbers as the integers they stand for are ordered.
pub cmp-value : (x y : SignMagnitude) → cmp x y ≡ compare (value x) (value y)
unfolding cmp eq value
cmp-value x y = ground arith
