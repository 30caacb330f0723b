-- ===== src/Abi.antt =====
-- The conversions to `InputValue` in nodes/src/types.rs, which hand values to the circuits. The type
-- `InputValue` of noirc_abi is an argument, with its constructors; an `InputMap` is a function from
-- keys.
pub mod Witness
pub mod Laws
pub mod Publics
pub mod Path
mod Tests
use text.Mathlib.Text.{◌==◌ as str_eq}
use Prim.Native.String.{String}
use arm_noir.Prelude.{
  ℕ, Option, none, some, List, [], ◌∷◌, map, replicate, Bool, true, false, if◌then◌else◌,
}
use arm_noir.Bytes.{Bytes, flag_byte}
use arm_noir.Resource.{Resource, NullifierKey}
use arm_noir.Instance.{
  ConsumedResourcePublic, CreatedResourcePublic, EmbeddedCurvePoint, ComplianceInstance,
}
use arm_noir.Curve.{EmbeddedCurveScalar}

abbrev pub InputMap : Type 0 → Type 0
InputMap V = String → Option V

-- `InputMap::new` and `insert`
abbrev pub no_input : {V : Type 0} → InputMap V
no_input key = none

abbrev pub input : {V : Type 0} → String → V → InputMap V → InputMap V
input key value inputs k = if str_eq k key then some value else inputs k

-- The constructors of `InputValue`, and `FieldElement::from` of an integer.
pub record InputValues (F V : Type 0) : Type 0 where
  pub field_value : F → V
  pub vec_value : List V → V
  pub struct_value : InputMap V → V
  pub from_integer : ℕ → F

module _ {F V : Type 0} (abi : InputValues F V) where
  open abi use {field_value, vec_value, struct_value, from_integer}

  abbrev pub integer_value : ℕ → V
  integer_value n = field_value (from_integer n)

  -- `FieldElement::from` of a Boolean
  abbrev pub bool_value : Bool → V
  bool_value b = integer_value (flag_byte b)

  -- `From<Array<N>>`
  unfoldable pub array_value : Bytes → V
  array_value res = vec_value (map integer_value res)

  -- `option_to_input_value`, with the conversion and the default of the type
  unfoldable pub option_value : {A : Type 0} → (A → V) → A → Option A → V
  option_value value default none =
      struct_value (input "_value" (value default) (input "_is_some" (bool_value false) no_input))
  option_value value default (some a) =
      struct_value (input "_value" (value a) (input "_is_some" (bool_value true) no_input))

  unfoldable pub resource_value : Resource → V
  unfolding array_value
  resource_value res = struct_value (
      input "quantity" (integer_value res.quantity) (
        input "is_ephemeral" (bool_value res.is_ephemeral) (
          input "rand_seed" (array_value res.rand_seed) (
            input "nk_commitment" (array_value res.nk_commitment) (
              input "nonce" (array_value res.nonce) (
                input "value_ref" (array_value res.value_ref) (
                  input "label_ref" (array_value res.label_ref)
                    (input "logic_ref" (array_value res.logic_ref) no_input))))))))

  unfoldable pub nullifier_key_value : NullifierKey → V
  nullifier_key_value res = struct_value (input "bytes" (array_value res.bytes) no_input)

  unfoldable pub consumed_public_value : ConsumedResourcePublic → V
  unfolding array_value
  consumed_public_value res = struct_value (
      input "commitment_tree_root" (array_value res.commitment_tree_root) (
        input "resource_logic_ref" (array_value res.resource_logic_ref)
          (input "resource_nullifier" (array_value res.resource_nullifier) no_input)))

  unfoldable pub created_public_value : CreatedResourcePublic → V
  unfolding array_value
  created_public_value res = struct_value (
      input "resource_logic_ref" (array_value res.resource_logic_ref)
        (input "resource_commitment" (array_value res.resource_commitment) no_input))

  unfoldable pub point_value : EmbeddedCurvePoint F → V
  point_value res =
      struct_value (input "y" (field_value res.y) (input "x" (field_value res.x) no_input))

  unfoldable pub scalar_value : EmbeddedCurveScalar F → V
  scalar_value res =
      struct_value (input "hi" (field_value res.hi) (input "lo" (field_value res.lo) no_input))

  unfoldable pub compliance_value : ComplianceInstance F → V
  unfolding consumed_public_value created_public_value point_value
  compliance_value res = struct_value (
      input "delta" (point_value res.delta) (
        input "created_count" (integer_value res.created_count) (
          input "created_publics" (vec_value (map created_public_value res.created_publics)) (
            input "consumed_count" (integer_value res.consumed_count) (
              input "consumed_publics" (vec_value (map consumed_public_value res.consumed_publics))
                no_input)))))
