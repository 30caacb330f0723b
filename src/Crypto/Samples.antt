-- ===== src/Crypto/Samples.antt =====
-- Functions that satisfy the laws of the libraries, for the tests: hashes that add up, a field of
-- two elements, and a field whose elements are their bytes.
use arm_noir.Prelude.{ℕ, ◌+◌, ◌-◌, ◌≡◌, refl, Bool, true, false, not, [], ◌∷◌, ◌++◌, length, ◌==◌}
use arm_noir.Bytes.{Bytes, be_bytes, le_bytes, flag_byte, zeros}
use arm_noir.Bytes.Laws.{length-be_bytes, length-le_bytes}
use arm_noir.Crypto.{Hashes, FieldOps, HashLaws, FieldLaws}

abbrev pub sum : Bytes → ℕ
sum [] = 0
sum (x ∷ xs) = x + sum xs

abbrev pub adding : Hashes
adding = record { keccak256 = λ m. be_bytes 32 (sum m + 1); sha256 = λ m. be_bytes 32 (sum m + 2) }

pub adding-HashLaws : HashLaws adding
adding-HashLaws = record {
  length-keccak256 = λ m. length-be_bytes 32 (sum m + 1);
  length-sha256 = λ m. length-be_bytes 32 (sum m + 2);
}

abbrev pub two : FieldOps Bool
two = record {
  zero = false;
  is_zero = λ x. not x;
  to_be_bytes = λ x. be_bytes 32 (flag_byte x);
  to_le_bytes = λ x. le_bytes 32 (flag_byte x);
  from_be_bytes_reduce = λ m. not (sum m == 0);
  from_le_bytes_reduce = λ m. not (sum m == 0);
}

from_be : (x : Bool) → not (sum (be_bytes 32 (flag_byte x)) == 0) ≡ x
unfolding be_bytes
from_be true = refl
from_be false = refl

from_le : (x : Bool) → not (sum (le_bytes 32 (flag_byte x)) == 0) ≡ x
unfolding le_bytes
from_le true = refl
from_le false = refl

pub two-FieldLaws : FieldLaws two
two-FieldLaws = record {
  length-to_be_bytes = λ x. length-be_bytes 32 (flag_byte x);
  length-to_le_bytes = λ x. length-le_bytes 32 (flag_byte x);
  from_be-to_be = from_be;
  from_le-to_le = from_le;
}

abbrev pub strings : FieldOps Bytes
strings = record {
  zero = [];
  is_zero = λ x. sum x == 0;
  to_be_bytes = λ x. x ++ zeros (32 - length x);
  to_le_bytes = λ x. x ++ zeros (32 - length x);
  from_be_bytes_reduce = λ m. m;
  from_le_bytes_reduce = λ m. m;
}
