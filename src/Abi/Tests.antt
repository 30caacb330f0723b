-- ===== src/Abi/Tests.antt =====
-- The conversions with a type of values that has just these constructors.
use Prim.Native.String.{String}
use arm_noir.Prelude.{
  ◌*◌, ◌+◌, take, reverse, replicate, Bool, false, ℕ, ◌≡◌, refl, ap, ap₂, fun_ext, Option, none,
  some, List, [], ◌∷◌, true, arith,
}
use arm_noir.Bytes.{Bytes, be_bytes}
use arm_noir.Bytes.Laws.{length-be_bytes}
use arm_noir.Crypto.Samples.{sum, two, two-FieldLaws}
use arm_noir.Merkle.Path.{apply_path}
use arm_noir.Abi.Witness.{MerklePath, path_root}
use arm_noir.Abi.Path.{poseidon_node, steps_of, PathLaws, path_root_lem}
use arm_noir.Resource.{Resource}
use arm_noir.Instance.{ComplianceInstance}
use arm_noir.Abi.{InputValues}
use arm_noir.Abi.Laws.{AbiLaws, HoldsBytes, resource_value-injective}
use arm_noir.Abi.Publics.{HoldsPublics, compliance_value-injective}

mutual
  data Value : Type 0 where
    field_of : ℕ → Value
    vec_of : Values → Value
    struct_of : (String → Entry) → Value

  data Values : Type 0 where
    no_values : Values
    more_values : Value → Values → Values

  data Entry : Type 0 where
    absent : Entry
    present : Value → Entry

abbrev values_of : List Value → Values
values_of [] = no_values
values_of (x ∷ xs) = more_values x (values_of xs)

abbrev entry_of : Option Value → Entry
entry_of none = absent
entry_of (some v) = present v

abbrev abi : InputValues ℕ Value
abi = record {
  field_value = field_of;
  vec_value = λ xs. vec_of (values_of xs);
  struct_value = λ m. struct_of (λ k. entry_of (m k));
  from_integer = λ n. n;
}

field_of-injective : (x y : ℕ) → field_of x ≡ field_of y → x ≡ y
field_of-injective x y e = cc

values_of-injective : (xs ys : List Value) → values_of xs ≡ values_of ys → xs ≡ ys
values_of-injective [] [] e = refl
values_of-injective [] (y ∷ ys) e = cc
values_of-injective (x ∷ xs) [] e = cc
values_of-injective (x ∷ xs) (y ∷ ys) e = ap₂ ◌∷◌ (cc) (values_of-injective xs ys (cc))

vec_of-injective : (xs ys : Values) → vec_of xs ≡ vec_of ys → xs ≡ ys
vec_of-injective xs ys e = cc

entry_of-injective : (x y : Option Value) → entry_of x ≡ entry_of y → x ≡ y
entry_of-injective none none e = refl
entry_of-injective none (some v) e = cc
entry_of-injective (some v) none e = cc
entry_of-injective (some v) (some w) e = cc

struct_of-injective : (f g : String → Entry) → struct_of f ≡ struct_of g → f ≡ g
struct_of-injective f g e = cc

abi-AbiLaws : AbiLaws abi
abi-AbiLaws = record {
  field_value-injective = field_of-injective;
  vec_value-injective = λ x y e. values_of-injective x y (vec_of-injective _ _ e);
  struct_value-injective = λ f g e. fun_ext (λ k.
      entry_of-injective (f k) (g k)
        (ap (λ (h : String → Entry). h k) (struct_of-injective _ _ e)));
  from_integer-injective = λ x y _ _ e. e;
}

abbrev seven : Option ℕ
seven = some 7

abbrev coin : Resource
coin = record {
  logic_ref = 1 ∷ [];
  label_ref = 2 ∷ [];
  value_ref = 3 ∷ [];
  quantity = 500;
  nonce = 4 ∷ [];
  nk_commitment = 5 ∷ [];
  rand_seed = 6 ∷ [];
  is_ephemeral = true;
}

coin-HoldsBytes : HoldsBytes coin
coin-HoldsBytes = record {
  logic = (omega arith, tt);
  label = (omega arith, tt);
  value = (omega arith, tt);
  amount = omega arith;
  nonce_bytes = (omega arith, tt);
  nk = (omega arith, tt);
  seed = (omega arith, tt);
}

resource_value-injective_example : coin ≡ coin
resource_value-injective_example =
    resource_value-injective abi abi-AbiLaws coin coin coin-HoldsBytes coin-HoldsBytes refl

abbrev compliance : ComplianceInstance ℕ
compliance = record {
  consumed_publics =
      record {
        resource_nullifier = 1 ∷ [];
        resource_logic_ref = 2 ∷ [];
        commitment_tree_root = 3 ∷ [];
      }
      ∷ [];
  consumed_count = 1;
  created_publics = record { resource_commitment = 4 ∷ []; resource_logic_ref = 5 ∷ [] } ∷ [];
  created_count = 1;
  delta = record { x = 6; y = 7 };
}

compliance-HoldsPublics : HoldsPublics compliance
compliance-HoldsPublics = record {
  consumed = ((omega arith, tt), (omega arith, tt), (omega arith, tt), tt);
  consumed_fits = omega arith;
  created = ((omega arith, tt), (omega arith, tt), tt);
  created_fits = omega arith;
}

compliance_value-injective_example : compliance ≡ compliance
compliance_value-injective_example =
    compliance_value-injective abi abi-AbiLaws compliance compliance compliance-HoldsPublics
      compliance-HoldsPublics refl

abbrev hash : Bytes → Bytes → Bytes
hash lhs rhs = be_bytes 32 (3 * sum lhs + 5 * sum rhs)

hash-PathLaws : PathLaws two hash
hash-PathLaws = record {
  length-poseidon2_hash = λ lhs rhs. length-be_bytes 32 (3 * sum lhs + 5 * sum rhs);
  length-to_be_bytes = two-FieldLaws.length-to_be_bytes;
}

-- Two siblings in use, of which the leaf is on the right of the second.
abbrev short_path : MerklePath Bool
short_path = record { path = (true, false) ∷ (true, true) ∷ replicate 30 (false, false); depth = 2 }

path_root_lem_example :
    path_root two hash short_path (replicate 32 7)
    ≡ some (
        reverse (
          apply_path
            (poseidon_node two hash)
            0
            (two.to_be_bytes (two.from_le_bytes_reduce (replicate 32 7)))
            (steps_of two hash (take short_path.depth short_path.path))))
path_root_lem_example = path_root_lem two hash hash-PathLaws short_path (replicate 32 7) refl
