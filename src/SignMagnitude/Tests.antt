-- ===== src/SignMagnitude/Tests.antt =====
-- Sums, differences and comparisons of small numbers.
use arm_noir.Prelude.{◌≡◌, true, false, arith}
use arm_noir.SignMagnitude.{SignMagnitude, add, cmp}
use arm_noir.SignMagnitude.Value.{◌+ℤ◌, value, Computes, compare, add-value, cmp-value}

abbrev seven : SignMagnitude
seven = record { sign = false; magnitude = 7 }

abbrev minus_nine : SignMagnitude
minus_nine = record { sign = true; magnitude = 9 }

abbrev minus_zero : SignMagnitude
minus_zero = record { sign = true; magnitude = 0 }

add-value_example : Computes 10 (add 10 seven minus_nine) (value seven +ℤ value minus_nine)
add-value_example = add-value 10 seven minus_nine (omega arith) (omega arith)

cmp-value_example : cmp minus_nine seven ≡ compare (value minus_nine) (value seven)
cmp-value_example = cmp-value minus_nine seven
