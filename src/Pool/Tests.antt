-- ===== src/Pool/Tests.antt =====
-- Runs of the pool on the samples.
use arm_noir.Prelude.{
  ℕ, ◌≡◌, ◌||◌, ◌&&◌, refl, map, Distinct, insert, true, false, [], ◌∷◌, ◌++◌, some, bytes_eq,
  bytes_Eq, replicate, contains,
}
use arm_noir.Bytes.{Bytes, zeros, be_bytes, le_bytes, write_bytes, write_parts}
use arm_noir.Circuit.{circuit_verify}
use arm_noir.Instance.{
  ComplianceInstance, ResourceLogicInstance, logic_digest, compliance_digest, logic_preimage,
  compliance_preimage,
}
use arm_noir.Pool.Outcome.{ok, err, duplicate_nullifier, invalid_signature}
use arm_noir.Pool.History.{accepted, Consistent, Reached-Consistent}
use arm_noir.Pool.State.{Transaction, ShieldedPool, commitment_root, cmt_node_new}
use arm_noir.Pool.Check.{first_n, unsigned, validate}
use arm_noir.Merkle.Root.{root_of}
use arm_noir.Pool.Submit.{submit}
use arm_noir.Pool.Submit.Tags.{nullifiers_of, commitments_of, created_tags, Anchored}
use arm_noir.Pool.Submit.Spends.{submit-spends, submit-creates, submit-anchors}
use arm_noir.Pool.Submit.Errors.{submit_error_unchanged, submit_partial_spend}
use arm_noir.Pool.Samples.{
  hashes, field, backend, circuit, from_some, pool, nullifier, commitment, no_consumed, consumed,
  created, compliance_instance, consumed_logic, logic_proof_of, tx, after, tx-accepted,
  pool-Reached,
}

submit-spends_example :
    (contains nullifier after.nullifiers
      ≡ (contains nullifier (nullifiers_of (consumed ∷ [])) || contains nullifier pool.nullifiers))
    × ((contains nullifier (nullifiers_of (consumed ∷ [])) && contains nullifier pool.nullifiers)
        ≡ false)
    × Distinct (nullifiers_of (consumed ∷ []))
unfolding first_n
submit-spends_example =
    submit-spends backend pool circuit tx tx-accepted (consumed ∷ []) refl nullifier

submit-creates_example :
    (after.commitments
      ≡ pool.commitments ++ map (cmt_node_new backend) (created_tags tx.logic_instances))
    × (contains commitment (created_tags tx.logic_instances)
        ≡ contains commitment (commitments_of (created ∷ [])))
unfolding first_n
submit-creates_example =
    submit-creates backend pool circuit tx tx-accepted (created ∷ []) refl commitment

submit-anchors_example :
    Anchored (cmt_node_new backend) pool.anchors (consumed ∷ [])
    × ((root : Bytes) × (commitment_root backend after.commitments ≡ some root)
        × (contains root after.anchors ≡ true)
        × ((a : Bytes) → contains a after.anchors ≡ (bytes_eq a root || contains a pool.anchors)))
    × (after.transactions ≡ pool.transactions ++ unsigned backend tx ∷ [])
unfolding first_n
submit-anchors_example = submit-anchors backend pool circuit tx tx-accepted (consumed ∷ []) refl

-- The same transaction with another signature.
abbrev forged_tx : Transaction ℕ
forged_tx = record tx { signature = some (7 ∷ [], 8 ∷ []) }

submit_error_unchanged_example : (submit backend pool circuit forged_tx).0 ≡ pool
unfolding submit
submit_error_unchanged_example =
    submit_error_unchanged backend pool circuit forged_tx invalid_signature refl (λ e. cc)

-- The pool where the nullifier of the transaction is spent.
abbrev spent_pool : ShieldedPool ℕ
spent_pool = record pool { nullifiers = nullifier ∷ [] }

-- A transaction that spends a second nullifier before the first.
abbrev second_nullifier : Bytes
second_nullifier = replicate 32 5

abbrev two_consumed : ComplianceInstance ℕ
two_consumed = record compliance_instance {
  consumed_publics =
      consumed
      ∷ record consumed { resource_nullifier = second_nullifier }
      ∷ no_consumed
      ∷ no_consumed
      ∷ [];
  consumed_count = 2;
  created_count = 0;
}

abbrev two_root : Bytes
two_root = hashes.keccak256 (nullifier ++ second_nullifier)

abbrev first_logic : ResourceLogicInstance
first_logic = record consumed_logic { tag = second_nullifier; action_root = two_root }

abbrev second_logic : ResourceLogicInstance
second_logic = record consumed_logic { action_root = two_root }

abbrev two_tx : Transaction ℕ
two_tx = record {
  logic_instances =
      (first_logic, logic_proof_of first_logic) ∷ (second_logic, logic_proof_of second_logic) ∷ [];
  compliance_instance = two_consumed;
  compliance_proof = be_bytes 32 (from_some 0 (compliance_digest field hashes two_consumed)) ∷ [];
  signature = some (7 ∷ [], 7 ∷ []);
}

two_tx-passes : validate backend spent_pool circuit two_tx ≡ ok tt
unfolding validate root_of be_bytes compliance_digest compliance_preimage write_parts write_bytes
    le_bytes zeros commitment_root circuit_verify cmt_node_new logic_digest logic_preimage
two_tx-passes = refl

submit_partial_spend_example : submit backend spent_pool circuit two_tx ≡ (
  record spent_pool { nullifiers = insert second_nullifier spent_pool.nullifiers },
  err duplicate_nullifier,
)
submit_partial_spend_example =
    submit_partial_spend backend spent_pool circuit two_tx first_logic second_logic
      (logic_proof_of first_logic) (logic_proof_of second_logic) [] two_tx-passes refl refl refl
      refl refl

Reached-Consistent_example : Consistent backend after
Reached-Consistent_example =
    Reached-Consistent backend (accepted circuit tx pool-Reached tx-accepted)
