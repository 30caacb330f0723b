-- ===== src/Pool/Submit/Tags.antt =====
-- The maps of the checks in `submit`: their keys are the nullifiers and commitments of the compliance
-- instance, and each is claimed by a logic instance.
use arm_noir.Prelude.{
  ◌≡◌, refl, Bool, true, false, not, ◌||◌, Bool-cases, inl, inr, List, [], ◌∷◌, some, map,
  if◌then◌else◌, bytes_eq, bytes_eq_iff, bytes_Eq, contains, lookup, put, contains_key, lookup-put,
  lookup-erase, Distinct, arith,
}
use arm_noir.Bytes.{Bytes}
use arm_noir.Circuit.{BarretenbergCircuit}
use arm_noir.Instance.{
  ConsumedResourcePublic, CreatedResourcePublic, ResourceLogicInstance, logic_digest,
}
use arm_noir.Pool.Outcome.{
  ok, reject_if, or_panic, or_err, >>=-eq-ok, reject_if-ok, or_err-ok, or_panic-ok,
  circuit_not_registered, logic_proof, duplicate_nullifier, duplicate_commitment,
  non_existent_anchor,
}
use arm_noir.Pool.State.{Backend, Proof}
use arm_noir.Pool.Check.{track_nullifiers, track_commitments, claim, check_logics, verify_with}

abbrev pub Map : Type 0
Map = List (Bytes × Bytes)

-- The tags of the logic instances of consumed resources, and of created ones.
abbrev pub consumed_tags : List (ResourceLogicInstance × Proof) → List Bytes
consumed_tags [] = []
consumed_tags ((l, _) ∷ ls) =
    let rest = consumed_tags ls in if l.is_consumed then l.tag ∷ rest else rest

abbrev pub created_tags : List (ResourceLogicInstance × Proof) → List Bytes
created_tags [] = []
created_tags ((l, _) ∷ ls) =
    let rest = created_tags ls in if l.is_consumed then rest else l.tag ∷ rest

abbrev pub nullifiers_of : List ConsumedResourcePublic → List Bytes
nullifiers_of = map (λ c. c.resource_nullifier)

abbrev pub commitments_of : List CreatedResourcePublic → List Bytes
commitments_of = map (λ c. c.resource_commitment)

contains_key-put :
    (j k : Bytes) (v : Bytes) (m : Map)
    → contains_key j (put k v m) ≡ (bytes_eq j k || contains_key j m)
contains_key-put j k v m = ground (arith, lookup-put j k v m)

-- The keys that the loop has tracked: those that were there, and the nullifiers.
pub track_nullifiers-keys :
    (node : Bytes → Bytes) (anchors : List Bytes) (cs : List ConsumedResourcePublic) (m : Map)
    {m' : Map}
    → track_nullifiers node anchors cs m ≡ ok m'
    → (k : Bytes) → contains_key k m' ≡ (contains k (nullifiers_of cs) || contains_key k m)
unfolding track_nullifiers
track_nullifiers-keys node anchors [] m e k = cc
track_nullifiers-keys node anchors (c ∷ cs) m {m'} e k =
    let (_, new_key, e1) =
      >>=-eq-ok (reject_if (contains_key c.resource_nullifier m) duplicate_nullifier) _ e in
    let (_, anchored, e2) =
      >>=-eq-ok
        (reject_if (not (contains (node c.commitment_tree_root) anchors)) non_existent_anchor) _
        e1 in
    let ih =
      track_nullifiers-keys node anchors cs (put c.resource_nullifier c.resource_logic_ref m) e2
        k in
    rw ih (rw (contains_key-put k c.resource_nullifier c.resource_logic_ref m) (ground arith))

-- The loop accepts no nullifier twice, nor one that the map had before.
pub track_nullifiers-Distinct :
    (node : Bytes → Bytes) (anchors : List Bytes) (cs : List ConsumedResourcePublic) (m : Map)
    {m' : Map}
    → track_nullifiers node anchors cs m ≡ ok m'
    → Distinct (nullifiers_of cs)
      × ((k : Bytes) → contains_key k m ≡ true → contains k (nullifiers_of cs) ≡ false)
unfolding track_nullifiers
track_nullifiers-Distinct node anchors [] m e = (tt, λ k p. refl)
track_nullifiers-Distinct node anchors (c ∷ cs) m e =
    let (_, new_key, e1) =
      >>=-eq-ok (reject_if (contains_key c.resource_nullifier m) duplicate_nullifier) _ e in
    let (_, anchored, e2) =
      >>=-eq-ok
        (reject_if (not (contains (node c.commitment_tree_root) anchors)) non_existent_anchor) _
        e1 in
    let m1 = put c.resource_nullifier c.resource_logic_ref m in
    let (distinct, disjoint) = track_nullifiers-Distinct node anchors cs m1 e2 in
    let added = λ (k : Bytes). contains_key-put k c.resource_nullifier c.resource_logic_ref m in
    let absent = reject_if-ok _ _ new_key in
    (
      (
        disjoint c.resource_nullifier (
            rw (added c.resource_nullifier)
              (ground (arith, bytes_eq_iff c.resource_nullifier c.resource_nullifier))),
        distinct,
      ),
      λ k p.
          ground
            (arith, bytes_eq_iff k c.resource_nullifier, disjoint k (rw (added k) (ground arith))),
    )

-- Every root that the consumed resources name is an anchor of the pool.
abbrev pub Anchored : (Bytes → Bytes) → List Bytes → List ConsumedResourcePublic → Type 0
Anchored node anchors [] = Unit
Anchored node anchors (c ∷ cs) =
    (contains (node c.commitment_tree_root) anchors ≡ true) × Anchored node anchors cs

not-false : (b : Bool) → not b ≡ false → b ≡ true
not-false b e = ground arith

pub track_nullifiers-Anchored :
    (node : Bytes → Bytes) (anchors : List Bytes) (cs : List ConsumedResourcePublic) (m : Map)
    {m' : Map}
    → track_nullifiers node anchors cs m ≡ ok m'
    → Anchored node anchors cs
unfolding track_nullifiers
track_nullifiers-Anchored node anchors [] m e = tt
track_nullifiers-Anchored node anchors (c ∷ cs) m e =
    let (_, new_key, e1) =
      >>=-eq-ok (reject_if (contains_key c.resource_nullifier m) duplicate_nullifier) _ e in
    let (_, anchored, e2) =
      >>=-eq-ok
        (reject_if (not (contains (node c.commitment_tree_root) anchors)) non_existent_anchor) _
        e1 in
    (
      not-false _ (reject_if-ok _ _ anchored),
      track_nullifiers-Anchored node anchors cs (put c.resource_nullifier c.resource_logic_ref m)
          e2,
    )

pub track_commitments-keys :
    (cs : List CreatedResourcePublic) (m : Map) {m' : Map}
    → track_commitments cs m ≡ ok m'
    → (k : Bytes) → contains_key k m' ≡ (contains k (commitments_of cs) || contains_key k m)
unfolding track_commitments
track_commitments-keys [] m e k = cc
track_commitments-keys (c ∷ cs) m e k =
    let (_, new_key, e1) =
      >>=-eq-ok (reject_if (contains_key c.resource_commitment m) duplicate_commitment) _ e in
    let ih = track_commitments-keys cs (put c.resource_commitment c.resource_logic_ref m) e1 k in
    rw ih (rw (contains_key-put k c.resource_commitment c.resource_logic_ref m) (ground arith))

-- What one claim takes from the maps.
claim_lem :
    (l : ResourceLogicInstance) (nfs cms : Map) {hash : Bytes} {nfs' cms' : Map}
    → claim l nfs cms ≡ ok (hash, nfs', cms')
    → (k : Bytes)
    → (contains_key k nfs ≡ (contains k (consumed_tags ((l, []) ∷ [])) || contains_key k nfs'))
      × (contains_key k cms ≡ (contains k (created_tags ((l, []) ∷ [])) || contains_key k cms'))
unfolding claim
claim_lem l nfs cms e k =
    ground (arith, bytes_eq_iff k l.tag, lookup-erase k l.tag nfs, lookup-erase k l.tag cms)

module _ {F : Type 0} (backend : Backend F) where
  -- What a successful round of the loop has found.
  pub check_logics-cons :
      (circuits : List (Bytes × BarretenbergCircuit)) (l : ResourceLogicInstance) (proof : Proof)
      (ls : List (ResourceLogicInstance × Proof)) (nfs cms : Map) {r : Map × Map}
      → check_logics backend circuits ((l, proof) ∷ ls) nfs cms ≡ ok r
      → (hash : Bytes) × (nfs1 : Map) × (cms1 : Map) × (circuit : BarretenbergCircuit)
        × (digest : F) × (claim l nfs cms ≡ ok (hash, nfs1, cms1))
        × (lookup hash circuits ≡ some circuit)
        × (logic_digest backend.field backend.hashes l ≡ some digest)
        × (verify_with backend circuit proof digest logic_proof ≡ ok tt)
        × (check_logics backend circuits ls nfs1 cms1 ≡ ok r)
  unfolding check_logics
  check_logics-cons circuits l proof ls nfs cms e =
      let ((hash, nfs1, cms1), claimed, e1) = >>=-eq-ok (claim l nfs cms) _ e in
      let (circuit, found, e2) =
        >>=-eq-ok (or_err (lookup hash circuits) circuit_not_registered) _ e1 in
      let (digest, hashed, e3) =
        >>=-eq-ok (or_panic (logic_digest backend.field backend.hashes l)) _ e2 in
      let (_, accepted, e4) =
        >>=-eq-ok (verify_with backend circuit proof digest logic_proof) _ e3 in
      (
        hash,
        nfs1,
        cms1,
        circuit,
        digest,
        claimed,
        or_err-ok _ _ found,
        or_panic-ok _ hashed,
        accepted,
        e4,
      )

  -- The keys of each map are the tags that are claimed, and the keys that are left.
  pub check_logics-keys :
      (circuits : List (Bytes × BarretenbergCircuit)) (ls : List (ResourceLogicInstance × Proof))
      (nfs cms : Map) {nfs' cms' : Map}
      → check_logics backend circuits ls nfs cms ≡ ok (nfs', cms')
      → (k : Bytes)
      → (contains_key k nfs ≡ (contains k (consumed_tags ls) || contains_key k nfs'))
        × (contains_key k cms ≡ (contains k (created_tags ls) || contains_key k cms'))
  unfolding check_logics
  check_logics-keys circuits [] nfs cms e k = (cc, cc)
  check_logics-keys circuits ((l, proof) ∷ ls) nfs cms {nfs'} {cms'} e k =
      let (hash, nfs1, cms1, circuit, digest, claimed, _, _, _, rest) =
        check_logics-cons circuits l proof ls nfs cms e in
      let (n1, c1) = claim_lem l nfs cms claimed k in
      let (n2, c2) = check_logics-keys circuits ls nfs1 cms1 rest k in
      elim (Bool-cases l.is_consumed) [ inl consumed ↦ ground arith | inr created ↦ ground arith ]
