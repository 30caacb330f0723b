-- ===== src/Pool/Submit/Safety.antt =====
-- What an accepted transaction has done: what it spends, what it creates, what was verified.
use arm_noir.Merkle.Root.{root_of}
use arm_noir.Prelude.{
  ℕ, length, ◌≡◌, refl, sym, ap, ap₂, ◌∙◌, List, [], ◌∷◌, ◌++◌, some, bytes_Eq, insert,
  Option-cases, inl, inr,
}
use arm_noir.Bytes.{Bytes}
use arm_noir.Circuit.{BarretenbergCircuit}
use arm_noir.Instance.{ConsumedResourcePublic, CreatedResourcePublic, compliance_digest}
use arm_noir.Pool.Outcome.{
  Outcome, ok, err, panic, from_>>=, Error, or_panic, or_panic-ok, compliance_proof,
  unpaired_nullifier, unpaired_commitment,
}
use arm_noir.Pool.State.{
  Transaction, ShieldedPool, Backend, act_node, cmt_node_new, commitment_root,
}
use arm_noir.Pool.Check.{
  first_n, action_tree_depth, check_roots, unsigned, check_signature, check_action, verify_with,
  track_nullifiers, track_commitments, check_logics, require_empty, validate,
}
use arm_noir.Pool.Submit.{record_logics, record_transaction, and_then, submit}
use arm_noir.Pool.Submit.Tags.{Map, nullifiers_of, commitments_of}
use arm_noir.Pool.Submit.Recorded.{Recorded, record_logics-Recorded}

require_empty-ok : (m : Map) (e : Error) → require_empty m e ≡ ok tt → m ≡ []
unfolding require_empty
require_empty-ok [] e h = refl
require_empty-ok (x ∷ m) e h = cc

-- Two steps that succeed.
from_and_then {ℓ} :
    {F : Type 0} (backend : Backend F) {R : Type ℓ} (r : ShieldedPool F × Outcome (Unit {0}))
    (next : ShieldedPool F → ShieldedPool F × Outcome (Unit {0})) {s' : ShieldedPool F}
    → and_then backend r next ≡ (s', ok tt)
    → ((s : ShieldedPool F) → r ≡ (s, ok tt) → next s ≡ (s', ok tt) → R)
    → R
unfolding and_then
from_and_then backend (s, panic) next e k = absurd (cc (ap (λ x. x.1) e))
from_and_then backend (s, err x) next e k = absurd (cc (ap (λ x. x.1) e))
from_and_then backend (s, ok _) next e k = k s refl e

module _ {F : Type 0} (backend : Backend F) (self : ShieldedPool F)
    (compliance_circuit : BarretenbergCircuit) (tx : Transaction F) where
  -- What the checks have found, when all of them pass.
  pub record Validated : Type 0 where
    pub consumed : List ConsumedResourcePublic
    pub created : List CreatedResourcePublic
    pub nullifiers : Map
    pub commitments : Map
    pub digest : F
    pub signed : check_signature backend tx ≡ ok tt
    pub action : check_action backend tx ≡ ok (consumed, created)
    pub digested :
        compliance_digest backend.field backend.hashes tx.compliance_instance ≡ some digest
    pub compliant :
        verify_with backend compliance_circuit tx.compliance_proof digest compliance_proof ≡ ok tt
    pub tracked_nullifiers :
        track_nullifiers (cmt_node_new backend) self.anchors consumed [] ≡ ok nullifiers
    pub tracked_commitments : track_commitments created [] ≡ ok commitments
    pub claimed :
        check_logics backend self.logic_circuits tx.logic_instances nullifiers commitments
        ≡ ok ([], [])

  pub validate-Validated : validate backend self compliance_circuit tx ≡ ok tt → Validated
  unfolding validate
  validate-Validated e = from_>>= (check_signature backend tx) _ e λ _ signed e1.
      from_>>= (check_action backend tx) _ e1 λ publics action e2.
        from_>>= (or_panic (compliance_digest backend.field backend.hashes tx.compliance_instance))
          _ e2
          λ digest digested e3.
            from_>>=
              (verify_with backend compliance_circuit tx.compliance_proof digest compliance_proof) _
              e3
              λ _ compliant e4.
                from_>>= (track_nullifiers (cmt_node_new backend) self.anchors publics.0 []) _ e4
                  λ nullifiers n e5.
                    from_>>= (track_commitments publics.1 []) _ e5 λ commitments c e6.
                      from_>>=
                        (check_logics backend self.logic_circuits tx.logic_instances nullifiers
                          commitments)
                        _ e6
                        λ left claimed e7.
                          from_>>= (require_empty left.0 unpaired_nullifier) _ e7
                            λ _ n_empty c_empty. record {
                              consumed = publics.0;
                              created = publics.1;
                              nullifiers = nullifiers;
                              commitments = commitments;
                              digest = digest;
                              signed = signed;
                              action = action;
                              digested = or_panic-ok _ digested;
                              compliant = compliant;
                              tracked_nullifiers = n;
                              tracked_commitments = c;
                              claimed =
                                  claimed
                                  ∙ ap ok (
                                      ap₂ {A = Map} {B = Map} (λ x y. (x, y))
                                        (require_empty-ok left.0 unpaired_nullifier n_empty)
                                        (require_empty-ok left.1 unpaired_commitment c_empty));
                            }

  -- The pool that the changes start from, and the anchor that they end with.
  pub record Accepted (self' : ShieldedPool F) : Type 0 where
    pub checks : Validated
    pub changed : ShieldedPool F
    pub anchor : Bytes
    pub recorded : Recorded backend tx.logic_instances self changed
    pub rooted : commitment_root backend changed.commitments ≡ some anchor
    pub result : self' ≡ record changed {
      anchors = insert anchor changed.anchors;
      transactions = changed.transactions ++ unsigned backend tx ∷ [];
    }

  record_transaction-ok :
      (pool : ShieldedPool F) {self' : ShieldedPool F}
      → record_transaction backend tx pool ≡ (self', ok tt)
      → (anchor : Bytes) × (commitment_root backend pool.commitments ≡ some anchor)
        × (self' ≡ record pool {
          anchors = insert anchor pool.anchors;
          transactions = pool.transactions ++ unsigned backend tx ∷ [];
        })
  unfolding record_transaction
  record_transaction-ok pool e = elim (Option-cases (commitment_root backend pool.commitments)) [
    | inl failed ↦ absurd (cc (ap (λ x. x.1) (rw (failed, record_transaction) at e)))
    | inr (anchor, rooted) ↦
        (anchor, rooted, sym (ap (λ x. x.0) (rw (rooted, record_transaction) at e)))
  ]

  pub submit-Accepted :
      {self' : ShieldedPool F}
      → submit backend self compliance_circuit tx ≡ (self', ok tt)
      → Accepted self'
  unfolding submit
  submit-Accepted e =
      from_and_then backend (self, validate backend self compliance_circuit tx) _ e
        λ s v e1.
          from_and_then backend (record_logics backend tx.logic_instances s) _ e1 λ pool r e2.
            let same : self ≡ s = ap (λ x. x.0) v in
            let (anchor, rooted, result) = record_transaction-ok pool e2 in
            record {
              checks = validate-Validated (ap (λ x. x.1) v);
              changed = pool;
              anchor = anchor;
              recorded = record_logics-Recorded backend tx.logic_instances self (rw (← same) at r);
              rooted = rooted;
              result = result;
            }

  -- What the check of the action has found.
  pub record Action (consumed : List ConsumedResourcePublic) (created : List CreatedResourcePublic)
      : Type 0 where
    pub depth : ℕ
    pub action_root : Bytes
    pub consumed_first :
        first_n tx.compliance_instance.consumed_count tx.compliance_instance.consumed_publics
        ≡ some consumed
    pub created_first :
        first_n tx.compliance_instance.created_count tx.compliance_instance.created_publics
        ≡ some created
    pub deep :
        action_tree_depth (length (nullifiers_of consumed ++ commitments_of created)) ≡ some depth
    pub rooted :
        root_of (act_node backend) depth (nullifiers_of consumed ++ commitments_of created)
        ≡ some action_root
    pub matching :
        check_roots
          (nullifiers_of consumed ++ commitments_of created)
          action_root
          tx.logic_instances
        ≡ ok tt

  pub check_action-Action :
      {consumed : List ConsumedResourcePublic} {created : List CreatedResourcePublic}
      → check_action backend tx ≡ ok (consumed, created)
      → Action consumed created
  unfolding check_action
  check_action-Action {consumed} {created} e =
      from_>>=
        (or_panic
          (first_n tx.compliance_instance.consumed_count tx.compliance_instance.consumed_publics))
        _ e
        λ cs p e1.
          from_>>=
            (or_panic
              (first_n tx.compliance_instance.created_count tx.compliance_instance.created_publics))
            _ e1
            λ ds q e2.
              from_>>=
                (or_panic (action_tree_depth (length (nullifiers_of cs ++ commitments_of ds)))) _ e2
                λ depth r e3.
                  from_>>=
                    (or_panic
                      (root_of (act_node backend) depth (nullifiers_of cs ++ commitments_of ds)))
                    _ e3
                    λ root u e4.
                      from_>>=
                        (check_roots (nullifiers_of cs ++ commitments_of ds) root
                          tx.logic_instances)
                        _ e4
                        λ _ v e5.
                          let same_consumed : cs ≡ consumed = cc in
                          let same_created : ds ≡ created = cc in
                          rw (← same_consumed, ← same_created)
                            (record {
                              depth = depth;
                              action_root = root;
                              consumed_first = or_panic-ok _ p;
                              created_first = or_panic-ok _ q;
                              deep = or_panic-ok _ r;
                              rooted = or_panic-ok _ u;
                              matching = v;
                            })
