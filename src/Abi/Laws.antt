-- ===== src/Abi/Laws.antt =====
-- What a circuit is handed determines the value it was made from.
use Prim.Native.String.{String}
use arm_noir.Prelude.{
  ℕ, ◌<◌, ◌^◌, ◌≡◌, refl, sym, ap, ap₂, ◌∙◌, Option, none, some, List, [], ◌∷◌, map, Bool, true,
  false, arith,
}
use arm_noir.Bytes.{Bytes, flag_byte}
use arm_noir.Bytes.Reads.{AreBytes}
use arm_noir.Resource.{Resource}
use arm_noir.Abi.{
  InputMap, InputValues, integer_value, bool_value, array_value, option_value, resource_value,
}

-- The constructors are injective, and integers of up to 128 bits are distinct field elements.
pub record AbiLaws {F V : Type 0} (abi : InputValues F V) : Type 0 where
  pub field_value-injective : (x y : F) → abi.field_value x ≡ abi.field_value y → x ≡ y
  pub vec_value-injective : (x y : List V) → abi.vec_value x ≡ abi.vec_value y → x ≡ y
  pub struct_value-injective : (x y : InputMap V) → abi.struct_value x ≡ abi.struct_value y → x ≡ y
  pub from_integer-injective :
      (x y : ℕ) → x < 2 ^ 128 → y < 2 ^ 128 → abi.from_integer x ≡ abi.from_integer y → x ≡ y

-- The arrays of a resource hold bytes, and the quantity fits a u128.
pub record HoldsBytes (r : Resource) : Type 0 where
  pub logic : AreBytes r.logic_ref
  pub label : AreBytes r.label_ref
  pub value : AreBytes r.value_ref
  pub amount : r.quantity < 2 ^ 128
  pub nonce_bytes : AreBytes r.nonce
  pub nk : AreBytes r.nk_commitment
  pub seed : AreBytes r.rand_seed

some_eq : {A : Type 0} {a b : A} → some a ≡ some b → a ≡ b
some_eq e = cc

module _ {F V : Type 0} (abi : InputValues F V) (laws : AbiLaws abi) where
  open abi use {field_value, vec_value, struct_value, from_integer}
  open laws use {
    field_value-injective, vec_value-injective, struct_value-injective, from_integer-injective,
  }

  pub integer_value-injective :
      (x y : ℕ) → x < 2 ^ 128 → y < 2 ^ 128 → integer_value abi x ≡ integer_value abi y → x ≡ y
  integer_value-injective x y p q e = from_integer-injective x y p q (field_value-injective _ _ e)

  pub bool_value-injective : (a b : Bool) → bool_value abi a ≡ bool_value abi b → a ≡ b
  bool_value-injective a b e =
      let flags =
        integer_value-injective (flag_byte a) (flag_byte b) (ground arith) (ground arith) e in
      ground arith

  bytes-injective :
      (xs ys : Bytes)
      → AreBytes xs
      → AreBytes ys
      → map (integer_value abi) xs ≡ map (integer_value abi) ys
      → xs ≡ ys
  bytes-injective [] [] p q e = refl
  bytes-injective [] (y ∷ ys) p q e = absurd (cc)
  bytes-injective (x ∷ xs) [] p q e = absurd (cc)
  bytes-injective (x ∷ xs) (y ∷ ys) (p, ps) (q, qs) e =
      ap₂ ◌∷◌ (integer_value-injective x y (omega arith) (omega arith) (cc))
        (bytes-injective xs ys ps qs (cc))

  pub array_value-injective :
      (xs ys : Bytes)
      → AreBytes xs
      → AreBytes ys
      → array_value abi xs ≡ array_value abi ys
      → xs ≡ ys
  unfolding array_value
  array_value-injective xs ys p q e = bytes-injective xs ys p q (vec_value-injective _ _ e)

  -- The value under a key of two equal structures.
  pub at_key :
      (k : String) (m m' : InputMap V) {v v' : V}
      → struct_value m ≡ struct_value m'
      → m k ≡ some v
      → m' k ≡ some v'
      → v ≡ v'
  at_key k m m' e p q =
      some_eq (sym p ∙ ap (λ (f : InputMap V). f k) (struct_value-injective m m' e) ∙ q)

  -- Where the constructors of `InputValue` are injective and integers of 128 bits are distinct
  -- field elements, and for a conversion that is injective, two options that are handed to a
  -- circuit as the same value are equal; so `None` differs from `Some` of the default.
  pub option_value-injective :
      {A : Type 0} (value : A → V) (default : A) (o o' : Option A)
      → ((a a' : A) → value a ≡ value a' → a ≡ a')
      → option_value abi value default o ≡ option_value abi value default o'
      → o ≡ o'
  unfolding option_value
  option_value-injective value default none none inj e = refl
  option_value-injective value default none (some b) inj e =
      absurd (cc (bool_value-injective false true (at_key "_is_some" _ _ e refl refl)))
  option_value-injective value default (some a) none inj e =
      absurd (cc (bool_value-injective true false (at_key "_is_some" _ _ e refl refl)))
  option_value-injective value default (some a) (some b) inj e =
      ap some (inj a b (at_key "_value" _ _ e refl refl))

  -- Where the constructors of `InputValue` are injective and integers of 128 bits are distinct
  -- field elements, two resources of bytes and a u128 quantity (`HoldsBytes`) that are handed to a
  -- circuit as the same value are equal.
  pub resource_value-injective :
      (r r' : Resource)
      → HoldsBytes r
      → HoldsBytes r'
      → resource_value abi r ≡ resource_value abi r'
      → r ≡ r'
  unfolding resource_value
  resource_value-injective r r' v w e =
      let bytes = array_value-injective in
      let a = bytes r.logic_ref r'.logic_ref v.logic w.logic (at_key "logic_ref" _ _ e refl refl) in
      let b = bytes r.label_ref r'.label_ref v.label w.label (at_key "label_ref" _ _ e refl refl) in
      let c = bytes r.value_ref r'.value_ref v.value w.value (at_key "value_ref" _ _ e refl refl) in
      let d = bytes r.nonce r'.nonce v.nonce_bytes w.nonce_bytes (at_key "nonce" _ _ e refl refl) in
      let f =
        bytes r.nk_commitment r'.nk_commitment v.nk w.nk (at_key "nk_commitment" _ _ e refl refl) in
      let g = bytes r.rand_seed r'.rand_seed v.seed w.seed (at_key "rand_seed" _ _ e refl refl) in
      let h =
        bool_value-injective r.is_ephemeral r'.is_ephemeral
          (at_key "is_ephemeral" _ _ e refl refl) in
      let i =
        integer_value-injective r.quantity r'.quantity v.amount w.amount
          (at_key "quantity" _ _ e refl refl) in
      cc
