-- ===== src/Abi/Publics.antt =====
-- The compliance instance as the public input of the compliance circuit.
use arm_noir.Prelude.{◌<◌, ◌^◌, ◌≡◌, refl, ap₂, List, [], ◌∷◌, map, arith}
use arm_noir.Bytes.Reads.{AreBytes}
use arm_noir.Instance.{ConsumedResourcePublic, CreatedResourcePublic, ComplianceInstance}
use arm_noir.Abi.{
  InputValues, consumed_public_value, created_public_value, point_value, compliance_value,
}
use arm_noir.Abi.Laws.{AbiLaws, at_key, array_value-injective, integer_value-injective}

abbrev pub ConsumedBytes : List ConsumedResourcePublic → Type 0
ConsumedBytes [] = Unit
ConsumedBytes (c ∷ cs) =
    AreBytes c.resource_nullifier
    × AreBytes c.resource_logic_ref
    × AreBytes c.commitment_tree_root
    × ConsumedBytes cs

abbrev pub CreatedBytes : List CreatedResourcePublic → Type 0
CreatedBytes [] = Unit
CreatedBytes (c ∷ cs) =
    AreBytes c.resource_commitment × AreBytes c.resource_logic_ref × CreatedBytes cs

-- The arrays hold bytes, and the counts fit a u32.
pub record HoldsPublics {F : Type 0} (c : ComplianceInstance F) : Type 0 where
  pub consumed : ConsumedBytes c.consumed_publics
  pub consumed_fits : c.consumed_count < 2 ^ 32
  pub created : CreatedBytes c.created_publics
  pub created_fits : c.created_count < 2 ^ 32

module _ {F V : Type 0} (abi : InputValues F V) (laws : AbiLaws abi) where
  open abi use {vec_value, field_value}
  open laws use {vec_value-injective, field_value-injective}

  consumed-injective :
      (cs ds : List ConsumedResourcePublic)
      → ConsumedBytes cs
      → ConsumedBytes ds
      → map (consumed_public_value abi) cs ≡ map (consumed_public_value abi) ds
      → cs ≡ ds
  unfolding consumed_public_value
  consumed-injective [] [] v w e = refl
  consumed-injective [] (d ∷ ds) v w e = absurd (cc)
  consumed-injective (c ∷ cs) [] v w e = absurd (cc)
  consumed-injective (c ∷ cs) (d ∷ ds) (n, r, t, v) (n', r', t', w) e =
      let bytes = array_value-injective abi laws in
      let head : consumed_public_value abi c ≡ consumed_public_value abi d = cc e in
      let tail : map (consumed_public_value abi) cs ≡ map (consumed_public_value abi) ds = cc e in
      let a =
        bytes c.resource_nullifier d.resource_nullifier n n'
          (at_key abi laws "resource_nullifier" _ _ head refl refl) in
      let b =
        bytes c.resource_logic_ref d.resource_logic_ref r r'
          (at_key abi laws "resource_logic_ref" _ _ head refl refl) in
      let f =
        bytes c.commitment_tree_root d.commitment_tree_root t t'
          (at_key abi laws "commitment_tree_root" _ _ head refl refl) in
      let same : c ≡ d = cc in ap₂ ◌∷◌ same (consumed-injective cs ds v w tail)

  created-injective :
      (cs ds : List CreatedResourcePublic)
      → CreatedBytes cs
      → CreatedBytes ds
      → map (created_public_value abi) cs ≡ map (created_public_value abi) ds
      → cs ≡ ds
  unfolding created_public_value
  created-injective [] [] v w e = refl
  created-injective [] (d ∷ ds) v w e = absurd (cc)
  created-injective (c ∷ cs) [] v w e = absurd (cc)
  created-injective (c ∷ cs) (d ∷ ds) (n, r, v) (n', r', w) e =
      let bytes = array_value-injective abi laws in
      let head : created_public_value abi c ≡ created_public_value abi d = cc e in
      let tail : map (created_public_value abi) cs ≡ map (created_public_value abi) ds = cc e in
      let a =
        bytes c.resource_commitment d.resource_commitment n n'
          (at_key abi laws "resource_commitment" _ _ head refl refl) in
      let b =
        bytes c.resource_logic_ref d.resource_logic_ref r r'
          (at_key abi laws "resource_logic_ref" _ _ head refl refl) in
      let same : c ≡ d = cc in ap₂ ◌∷◌ same (created-injective cs ds v w tail)

  -- Where the constructors of `InputValue` are injective and integers of 128 bits are distinct
  -- field elements, two compliance instances of bytes and u32 counts (`HoldsPublics`) that are
  -- handed to the circuit as the same value are equal.
  pub compliance_value-injective :
      (c d : ComplianceInstance F)
      → HoldsPublics c
      → HoldsPublics d
      → compliance_value abi c ≡ compliance_value abi d
      → c ≡ d
  unfolding compliance_value point_value
  compliance_value-injective c d v w e =
      let consumed =
        consumed-injective c.consumed_publics d.consumed_publics v.consumed w.consumed
          (vec_value-injective _ _ (at_key abi laws "consumed_publics" _ _ e refl refl)) in
      let created =
        created-injective c.created_publics d.created_publics v.created w.created
          (vec_value-injective _ _ (at_key abi laws "created_publics" _ _ e refl refl)) in
      let count =
        integer_value-injective abi laws c.consumed_count d.consumed_count
          (ground (arith, v.consumed_fits)) (ground (arith, w.consumed_fits))
          (at_key abi laws "consumed_count" _ _ e refl refl) in
      let count' =
        integer_value-injective abi laws c.created_count d.created_count
          (ground (arith, v.created_fits)) (ground (arith, w.created_fits))
          (at_key abi laws "created_count" _ _ e refl refl) in
      let delta : point_value abi c.delta ≡ point_value abi d.delta =
        at_key abi laws "delta" _ _ e refl refl in
      let x = field_value-injective c.delta.x d.delta.x (at_key abi laws "x" _ _ delta refl refl) in
      let y = field_value-injective c.delta.y d.delta.y (at_key abi laws "y" _ _ delta refl refl) in
      cc
