-- ===== src/Pool/Check.antt =====
-- The checks of `ShieldedPool::submit`, in its order; they change nothing.
use arm_noir.Prelude.{
  ℕ, zero, suc, ◌-◌, ◌/◌, ◌+◌, Bool, true, false, not, ◌&&◌, List, [], ◌∷◌, ◌++◌, Option, none,
  some, map, length, leb, ◌==◌, if◌then◌else◌, bytes_eq, bytes_Eq, contains, lookup, erase, put,
  contains_key,
}
use arm_noir.Bytes.{Bytes}
use arm_noir.Circuit.{BarretenbergCircuit, VerifyResult, circuit_verify}
use arm_noir.Instance.{
  ConsumedResourcePublic, CreatedResourcePublic, ResourceLogicInstance, logic_digest,
  compliance_digest,
}
use arm_noir.Merkle.Root.{root_of}
use arm_noir.Pool.Outcome.{
  Error, Outcome, ok, err, ◌>>=◌, ◌>>◌, reject_if, or_panic, or_err, duplicate_nullifier,
  duplicate_commitment, non_existent_anchor, unpaired_nullifier, unpaired_commitment,
  circuit_not_registered, logic_proof, compliance_proof, invalid_signature,
  invalid_action_tree_root, barretenberg_error,
}
use arm_noir.Pool.State.{Transaction, ShieldedPool, Backend, Proof, act_node, cmt_node_new}

-- A loop that reads `items[i]` for `i` in `0..count`.
unfoldable pub first_n {ℓ} : {A : Type ℓ} → ℕ → List A → Option (List A)
first_n zero items = some []
first_n (suc count) [] = none
first_n (suc count) (x ∷ items) = elim (first_n count items) [
  | none ↦ none
  | some xs ↦ some (x ∷ xs)
]

-- `ilog2`, with fuel above the number; it panics at 0.
unfoldable pub ilog2_fuel : ℕ → ℕ → ℕ
ilog2_fuel zero n = 0
ilog2_fuel (suc fuel) n = let rest = suc (ilog2_fuel fuel (n / 2)) in if leb n 1 then 0 else rest

-- The depth of the action tree: `(0 - 1)` underflows for no tag.
unfoldable pub action_tree_depth : ℕ → Option ℕ
unfolding ilog2_fuel
action_tree_depth tags =
    if tags == 0
    then none
    else if tags == 1
    then some 0
    else some (ilog2_fuel (tags - 1) (tags - 1) + 1)

-- A logic instance with a tag of the action must carry the action's root.
unfoldable pub check_roots :
    List Bytes → Bytes → List (ResourceLogicInstance × Proof) → Outcome (Unit {0})
check_roots tags root [] = ok tt
check_roots tags root ((l, _) ∷ ls) = do
  reject_if (contains l.tag tags && not (bytes_eq l.action_root root)) invalid_action_tree_root
  check_roots tags root ls

-- The maps from nullifier, and from commitment, to logic reference.
unfoldable pub track_nullifiers :
    (Bytes → Bytes)
    → List Bytes
    → List ConsumedResourcePublic
    → List (Bytes × Bytes)
    → Outcome (List (Bytes × Bytes))
track_nullifiers node anchors [] nullifiers = ok nullifiers
track_nullifiers node anchors (c ∷ cs) nullifiers = do
  reject_if (contains_key c.resource_nullifier nullifiers) duplicate_nullifier
  reject_if (not (contains (node c.commitment_tree_root) anchors)) non_existent_anchor
  track_nullifiers node anchors cs (put c.resource_nullifier c.resource_logic_ref nullifiers)

unfoldable pub track_commitments :
    List CreatedResourcePublic → List (Bytes × Bytes) → Outcome (List (Bytes × Bytes))
track_commitments [] commitments = ok commitments
track_commitments (c ∷ cs) commitments = do
  reject_if (contains_key c.resource_commitment commitments) duplicate_commitment
  track_commitments cs (put c.resource_commitment c.resource_logic_ref commitments)

-- Removes the tag of a logic instance from its map, and returns the logic reference.
unfoldable pub claim :
    ResourceLogicInstance
    → List (Bytes × Bytes)
    → List (Bytes × Bytes)
    → Outcome (Bytes × List (Bytes × Bytes) × List (Bytes × Bytes))
claim l nullifiers commitments =
    if l.is_consumed
    then (do
      hash ← or_err (lookup l.tag nullifiers) unpaired_nullifier
      ok (hash, erase l.tag nullifiers, commitments))
    else (do
      hash ← or_err (lookup l.tag commitments) unpaired_commitment
      ok (hash, nullifiers, erase l.tag commitments))

-- The answer of the verifier as an error or success.
unfoldable pub accept : VerifyResult → Error → Outcome (Unit {0})
accept VerifyResult.backend_error e = err barretenberg_error
accept (VerifyResult.verified b) e = reject_if (not b) e

is_empty : List (Bytes × Bytes) → Bool
is_empty [] = true
is_empty (x ∷ xs) = false

-- `if !map.is_empty() { return Err(e) }`
unfoldable pub require_empty : List (Bytes × Bytes) → Error → Outcome (Unit {0})
unfolding is_empty
require_empty m e = reject_if (not (is_empty m)) e

module _ {F : Type 0} (backend : Backend F) where
  open backend use {hashes, field, verify_api, schnorr_verify, transaction_to_vec}

  -- The transaction that is hashed and stored: `signature.take()` leaves none in it.
  abbrev pub unsigned : Transaction F → Transaction F
  unsigned tx = record tx { signature = none }

  unfoldable pub check_signature : Transaction F → Outcome (Unit {0})
  check_signature tx = do
    (s, e) ← or_panic tx.signature
    let msg = field.from_le_bytes_reduce (hashes.keccak256 (transaction_to_vec (unsigned tx)))
    let delta = tx.compliance_instance.delta
    verified ← or_panic (
        schnorr_verify (field.to_be_bytes msg) (field.to_be_bytes delta.x)
          (field.to_be_bytes delta.y) s e)
    reject_if (not verified) invalid_signature

  -- The publics in use, and the check of the action roots.
  unfoldable pub check_action :
      Transaction F → Outcome (List ConsumedResourcePublic × List CreatedResourcePublic)
  unfolding first_n action_tree_depth check_roots
  check_action tx = do
    consumed ←
        or_panic
          (first_n tx.compliance_instance.consumed_count tx.compliance_instance.consumed_publics)
    created ←
        or_panic
          (first_n tx.compliance_instance.created_count tx.compliance_instance.created_publics)
    let tags = map (λ c. c.resource_nullifier) consumed ++ map (λ c. c.resource_commitment) created
    depth ← or_panic (action_tree_depth (length tags))
    action_root ← or_panic (root_of (act_node backend) depth tags)
    check_roots tags action_root tx.logic_instances
    ok (consumed, created)

  -- Verifies a proof for a digest with a circuit.
  unfoldable pub verify_with : BarretenbergCircuit → Proof → F → Error → Outcome (Unit {0})
  unfolding accept
  verify_with circuit proof digest e =
      accept
        (circuit_verify verify_api circuit (record {
          proof = proof;
          public_inputs = field.to_be_bytes digest ∷ [];
          vk = circuit.compute_vk_response;
        }))
        e

  -- The loop over the logic instances; the entries of the two maps that no instance claims.
  unfoldable pub check_logics :
      List (Bytes × BarretenbergCircuit)
      → List (ResourceLogicInstance × Proof)
      → List (Bytes × Bytes)
      → List (Bytes × Bytes)
      → Outcome (List (Bytes × Bytes) × List (Bytes × Bytes))
  unfolding claim verify_with
  check_logics circuits [] nullifiers commitments = ok (nullifiers, commitments)
  check_logics circuits ((l, proof) ∷ ls) nullifiers commitments = do
    (hash, nullifiers', commitments') ← claim l nullifiers commitments
    circuit ← or_err (lookup hash circuits) circuit_not_registered
    digest ← or_panic (logic_digest field hashes l)
    verify_with circuit proof digest logic_proof
    check_logics circuits ls nullifiers' commitments'

  -- Every check, up to the first change of the pool.
  unfoldable pub validate :
      ShieldedPool F → BarretenbergCircuit → Transaction F → Outcome (Unit {0})
  unfolding check_signature check_action verify_with track_nullifiers track_commitments check_logics
      require_empty
  validate self compliance_circuit tx = do
    check_signature tx
    (consumed, created) ← check_action tx
    digest ← or_panic (compliance_digest field hashes tx.compliance_instance)
    verify_with compliance_circuit tx.compliance_proof digest compliance_proof
    nullifiers ← track_nullifiers (cmt_node_new backend) self.anchors consumed []
    commitments ← track_commitments created []
    (nullifiers', commitments') ←
        check_logics self.logic_circuits tx.logic_instances nullifiers commitments
    require_empty nullifiers' unpaired_nullifier
    require_empty commitments' unpaired_commitment
