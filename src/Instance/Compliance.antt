-- ===== src/Instance/Compliance.antt =====
-- The pre-image of the compliance instance's digest: when it is computed, and that it determines
-- the instance.
use arm_noir.Prelude.{
  ◌*◌, ◌^◌, ◌<◌, ◌≡◌, refl, sym, ap, ◌∙◌, some, none, List, [], ◌∷◌, ◌++◌, false, length,
  length-append, append-nil, if◌then◌else◌, arith,
}
use arm_noir.Bytes.{Bytes, join, le_bytes}
use arm_noir.Bytes.Laws.{write_parts_lem, length-le_bytes, le_bytes-injective, append-injective}
use arm_noir.Bytes.Parts.{SameShape, join-injective, length-join-append, SameShape-append}
use arm_noir.Crypto.{FieldOps, FieldLaws}
use arm_noir.Instance.{
  ConsumedResourcePublic, CreatedResourcePublic, ComplianceInstance, consumed_parts, created_parts,
  compliance_parts, compliance_preimage, is_infinite,
}

-- Every array has 32 bytes.
abbrev pub AreConsumed : List ConsumedResourcePublic → Type 0
AreConsumed [] = Unit
AreConsumed (c ∷ cs) =
    (length c.resource_nullifier ≡ 32)
    × (length c.resource_logic_ref ≡ 32)
    × (length c.commitment_tree_root ≡ 32)
    × AreConsumed cs

abbrev pub AreCreated : List CreatedResourcePublic → Type 0
AreCreated [] = Unit
AreCreated (c ∷ cs) =
    (length c.resource_commitment ≡ 32) × (length c.resource_logic_ref ≡ 32) × AreCreated cs

length-consumed_parts :
    (cs : List ConsumedResourcePublic)
    → AreConsumed cs
    → (length (consumed_parts cs) ≡ 3 * length cs)
      × (length (join (consumed_parts cs)) ≡ 96 * length cs)
length-consumed_parts [] v = (refl, refl)
length-consumed_parts (c ∷ cs) (n, r, t, v) =
    let (a, b) = length-consumed_parts cs v in
    (omega (arith, a), omega (arith, length-append {0}, n, r, t, b))

length-created_parts :
    (cs : List CreatedResourcePublic)
    → AreCreated cs
    → (length (created_parts cs) ≡ 2 * length cs)
      × (length (join (created_parts cs)) ≡ 64 * length cs)
length-created_parts [] v = (refl, refl)
length-created_parts (c ∷ cs) (n, r, v) =
    let (a, b) = length-created_parts cs v in
    (omega (arith, a), omega (arith, length-append {0}, n, r, b))

consumed_parts-SameShape :
    (cs ds : List ConsumedResourcePublic)
    → AreConsumed cs
    → AreConsumed ds
    → length cs ≡ length ds
    → SameShape (consumed_parts cs) (consumed_parts ds)
consumed_parts-SameShape [] [] v w e = tt
consumed_parts-SameShape [] (d ∷ ds) v w e = absurd (omega arith)
consumed_parts-SameShape (c ∷ cs) [] v w e = absurd (omega arith)
consumed_parts-SameShape (c ∷ cs) (d ∷ ds) (n, r, t, v) (n', r', t', w) e =
    (n ∙ sym n', (r ∙ sym r', (t ∙ sym t', consumed_parts-SameShape cs ds v w (omega arith))))

created_parts-SameShape :
    (cs ds : List CreatedResourcePublic)
    → AreCreated cs
    → AreCreated ds
    → length cs ≡ length ds
    → SameShape (created_parts cs) (created_parts ds)
created_parts-SameShape [] [] v w e = tt
created_parts-SameShape [] (d ∷ ds) v w e = absurd (omega arith)
created_parts-SameShape (c ∷ cs) [] v w e = absurd (omega arith)
created_parts-SameShape (c ∷ cs) (d ∷ ds) (n, r, v) (n', r', w) e =
    (n ∙ sym n', (r ∙ sym r', created_parts-SameShape cs ds v w (omega arith)))

consumed_parts-injective :
    (cs ds : List ConsumedResourcePublic) → consumed_parts cs ≡ consumed_parts ds → cs ≡ ds
consumed_parts-injective [] [] e = refl
consumed_parts-injective [] (d ∷ ds) e = absurd (cc)
consumed_parts-injective (c ∷ cs) [] e = absurd (cc)
consumed_parts-injective (c ∷ cs) (d ∷ ds) e = let rest = consumed_parts-injective cs ds (cc) in cc

created_parts-injective :
    (cs ds : List CreatedResourcePublic) → created_parts cs ≡ created_parts ds → cs ≡ ds
created_parts-injective [] [] e = refl
created_parts-injective [] (d ∷ ds) e = absurd (cc)
created_parts-injective (c ∷ cs) [] e = absurd (cc)
created_parts-injective (c ∷ cs) (d ∷ ds) e = let rest = created_parts-injective cs ds (cc) in cc

-- Four publics of each kind, and counts that fit a u32.
pub record IsComplianceInstance {F : Type 0} (c : ComplianceInstance F) : Type 0 where
  pub consumed : AreConsumed c.consumed_publics
  pub four_consumed : length c.consumed_publics ≡ 4
  pub consumed_fits : c.consumed_count < 256 ^ 4
  pub created : AreCreated c.created_publics
  pub four_created : length c.created_publics ≡ 4
  pub created_fits : c.created_count < 256 ^ 4

module _ {F : Type 0} (field : FieldOps F) (laws : FieldLaws field) where
  open field use {to_le_bytes, from_le_bytes_reduce}
  open laws use {length-to_le_bytes, from_le-to_le}

  length-compliance_parts :
      (c : ComplianceInstance F)
      → IsComplianceInstance c
      → length (join (compliance_parts field c)) ≡ 712
  length-compliance_parts c v =
      let (_, a) = length-consumed_parts c.consumed_publics v.consumed in
      let (_, b) = length-created_parts c.created_publics v.created in
      omega (
        arith,
        length-append {0},
        length-join-append,
        a,
        b,
        v.four_consumed,
        v.four_created,
        length-le_bytes 4 c.consumed_count,
        length-le_bytes 4 c.created_count,
        length-to_le_bytes c.delta.x,
        length-to_le_bytes c.delta.y,
      )

  -- Where field elements are written in 32 bytes, the pre-image of the digest of a well-formed
  -- compliance instance (`IsComplianceInstance`) is the parts one behind the other, unless the
  -- delta is the point at infinity, where the assertion fails.
  pub compliance_preimage_lem :
      (c : ComplianceInstance F)
      → IsComplianceInstance c
      → compliance_preimage field c
        ≡ (if is_infinite field c.delta then none else some (join (compliance_parts field c)))
  unfolding compliance_preimage
  compliance_preimage_lem c v =
      rw (write_parts_lem 712 (compliance_parts field c) (length-compliance_parts c v))

  to_le-injective : (x y : F) → to_le_bytes x ≡ to_le_bytes y → x ≡ y
  to_le-injective x y e = sym (from_le-to_le x) ∙ ap from_le_bytes_reduce e ∙ from_le-to_le y

  compliance_parts-SameShape :
      (c d : ComplianceInstance F)
      → IsComplianceInstance c
      → IsComplianceInstance d
      → SameShape (compliance_parts field c) (compliance_parts field d)
  compliance_parts-SameShape c d v w =
      let a =
        consumed_parts-SameShape c.consumed_publics d.consumed_publics v.consumed w.consumed
          (v.four_consumed ∙ sym w.four_consumed) in
      let b =
        created_parts-SameShape c.created_publics d.created_publics v.created w.created
          (v.four_created ∙ sym w.four_created) in
      (
        length-le_bytes 4 c.consumed_count ∙ sym (length-le_bytes 4 d.consumed_count),
        SameShape-append (consumed_parts c.consumed_publics) _ (consumed_parts d.consumed_publics) _
            a
            (
              length-le_bytes 4 c.created_count ∙ sym (length-le_bytes 4 d.created_count),
              SameShape-append (created_parts c.created_publics)
                  (to_le_bytes c.delta.x ∷ to_le_bytes c.delta.y ∷ [])
                  (created_parts d.created_publics)
                  (to_le_bytes d.delta.x ∷ to_le_bytes d.delta.y ∷ []) b
                  (
                    length-to_le_bytes c.delta.x ∙ sym (length-to_le_bytes d.delta.x),
                    (length-to_le_bytes c.delta.y ∙ sym (length-to_le_bytes d.delta.y), tt),
                  ),
            ),
      )

  abbrev delta_parts : ComplianceInstance F → List Bytes
  delta_parts c = to_le_bytes c.delta.x ∷ to_le_bytes c.delta.y ∷ []

  -- The parts behind the consumed publics.
  abbrev later_parts : ComplianceInstance F → List Bytes
  later_parts c = le_bytes 4 c.created_count ∷ (created_parts c.created_publics ++ delta_parts c)

  compliance_parts-injective :
      (c d : ComplianceInstance F)
      → IsComplianceInstance c
      → IsComplianceInstance d
      → compliance_parts field c ≡ compliance_parts field d
      → c ≡ d
  compliance_parts-injective c d v w e =
      let counts =
        le_bytes-injective 4 c.consumed_count d.consumed_count v.consumed_fits w.consumed_fits
          (cc e) in
      let (p, _) = length-consumed_parts c.consumed_publics v.consumed in
      let (q, _) = length-consumed_parts d.consumed_publics w.consumed in
      let (head, tail) =
        append-injective (consumed_parts c.consumed_publics) (consumed_parts d.consumed_publics)
          (later_parts c) (later_parts d) (omega (arith, p, q, v.four_consumed, w.four_consumed))
          (cc e) in
      let consumed = consumed_parts-injective c.consumed_publics d.consumed_publics head in
      let counts' =
        le_bytes-injective 4 c.created_count d.created_count v.created_fits w.created_fits
          (cc tail) in
      let (r, _) = length-created_parts c.created_publics v.created in
      let (s, _) = length-created_parts d.created_publics w.created in
      let (head', tail') =
        append-injective (created_parts c.created_publics) (created_parts d.created_publics)
          (delta_parts c) (delta_parts d) (omega (arith, r, s, v.four_created, w.four_created))
          (cc tail) in
      let created = created_parts-injective c.created_publics d.created_publics head' in
      let xs = to_le-injective c.delta.x d.delta.x (cc tail') in
      let ys = to_le-injective c.delta.y d.delta.y (cc tail') in cc

  -- Where field elements are written in 32 bytes and read back, two well-formed compliance
  -- instances (`IsComplianceInstance`) whose deltas are not the point at infinity and whose digest
  -- pre-images are the same are equal.
  pub compliance_preimage-injective :
      (c d : ComplianceInstance F)
      → IsComplianceInstance c
      → IsComplianceInstance d
      → is_infinite field c.delta ≡ false
      → is_infinite field d.delta ≡ false
      → compliance_preimage field c ≡ compliance_preimage field d
      → c ≡ d
  compliance_preimage-injective c d v w fc fd e =
      let pc : compliance_preimage field c ≡ some (join (compliance_parts field c)) =
        rw fc at (compliance_preimage_lem c v) in
      let pd : compliance_preimage field d ≡ some (join (compliance_parts field d)) =
        rw fd at (compliance_preimage_lem d w) in
      let bytes : join (compliance_parts field c) ++ [] ≡ join (compliance_parts field d) ++ [] =
        rw
          (
            append-nil (join (compliance_parts field c)),
            append-nil (join (compliance_parts field d)),
          )
          (cc (pc, pd)) in
      compliance_parts-injective c d v w (
        join-injective (compliance_parts field c) (compliance_parts field d) [] []
          (compliance_parts-SameShape c d v w) bytes)
