-- ===== src/Pool/Submit/Spends.antt =====
-- What an accepted transaction spends, creates and rests on.
use arm_noir.Prelude.{
  ◌≡◌, refl, ap, ◌∙◌, ◌||◌, ◌&&◌, true, false, List, [], ◌∷◌, ◌++◌, map, some, bytes_eq,
  bytes_eq_iff, bytes_Eq, contains, Option, contains-insert, Distinct, arith,
}
use arm_noir.Bytes.{Bytes}
use arm_noir.Circuit.{BarretenbergCircuit}
use arm_noir.Instance.{ConsumedResourcePublic, CreatedResourcePublic}
use arm_noir.Pool.Outcome.{ok}
use arm_noir.Pool.State.{Transaction, ShieldedPool, Backend, cmt_node_new, commitment_root}
use arm_noir.Pool.Check.{first_n, unsigned}
use arm_noir.Pool.Submit.{submit}
use arm_noir.Pool.Submit.Tags.{
  consumed_tags, created_tags, nullifiers_of, commitments_of, Anchored, track_nullifiers-keys,
  track_nullifiers-Distinct, track_nullifiers-Anchored, track_commitments-keys, check_logics-keys,
}
use arm_noir.Pool.Submit.Safety.{Accepted, submit-Accepted, check_action-Action}

module _ {F : Type 0} (backend : Backend F) (self : ShieldedPool F)
    (compliance_circuit : BarretenbergCircuit) (tx : Transaction F) {self' : ShieldedPool F}
    (accepted : submit backend self compliance_circuit tx ≡ (self', ok tt)) where
  abbrev facts : Accepted backend self compliance_circuit tx self'
  facts = submit-Accepted backend self compliance_circuit tx accepted

  some_eq : {A : Type 0} {o : Option A} {a b : A} → o ≡ some a → o ≡ some b → a ≡ b
  some_eq p q = cc

  -- The nullifiers are those of the consumed logic instances, each once, on roots that are anchors.
  consumed_tags-nullifiers :
      (consumed : List ConsumedResourcePublic)
      → first_n tx.compliance_instance.consumed_count tx.compliance_instance.consumed_publics
        ≡ some consumed
      → ((k : Bytes)
          → contains k (consumed_tags tx.logic_instances) ≡ contains k (nullifiers_of consumed))
        × Distinct (nullifiers_of consumed)
        × Anchored (cmt_node_new backend) self.anchors consumed
  consumed_tags-nullifiers consumed e =
      let checks = facts.checks in
      let action = check_action-Action backend self compliance_circuit tx checks.action in
      rw (some_eq e action.consumed_first) (
        (λ k.
            let tracked =
              track_nullifiers-keys _ _ checks.consumed [] checks.tracked_nullifiers k in
            let claimed = (check_logics-keys backend _ tx.logic_instances _ _ checks.claimed k).0 in
            ground (arith, tracked, claimed)),
        (track_nullifiers-Distinct _ _ checks.consumed [] checks.tracked_nullifiers).0,
        track_nullifiers-Anchored _ _ checks.consumed [] checks.tracked_nullifiers,
      )

  created_tags-commitments :
      (created : List CreatedResourcePublic)
      → first_n tx.compliance_instance.created_count tx.compliance_instance.created_publics
        ≡ some created
      → (k : Bytes)
      → contains k (created_tags tx.logic_instances) ≡ contains k (commitments_of created)
  created_tags-commitments created e k =
      let checks = facts.checks in
      let action = check_action-Action backend self compliance_circuit tx checks.action in
      let tracked = track_commitments-keys checks.created [] checks.tracked_commitments k in
      let claimed = (check_logics-keys backend _ tx.logic_instances _ _ checks.claimed k).1 in
      rw (some_eq e action.created_first) (ground (arith, tracked, claimed))

  -- An accepted transaction has spent the nullifiers of the consumed publics in use (the first
  -- `consumed_count`) and nothing else; none of them was spent before, and no two of them are the
  -- same.
  pub submit-spends :
      (consumed : List ConsumedResourcePublic)
      → first_n tx.compliance_instance.consumed_count tx.compliance_instance.consumed_publics
        ≡ some consumed
      → (k : Bytes)
      → (contains k self'.nullifiers
          ≡ (contains k (nullifiers_of consumed) || contains k self.nullifiers))
        × ((contains k (nullifiers_of consumed) && contains k self.nullifiers) ≡ false)
        × Distinct (nullifiers_of consumed)
  submit-spends consumed e k =
      let (same, distinct, _) = consumed_tags-nullifiers consumed e in
      let spent = facts.recorded.spent k in
      let unspent = facts.recorded.unspent k in
      (
        ap (λ p. contains k p.nullifiers) facts.result
            ∙ spent
            ∙ ap (λ b. b || contains k self.nullifiers) (same k),
        ground (arith, same k, unspent),
        distinct,
      )

  -- An accepted transaction has appended to the commitments one node for each created logic
  -- instance, in their order; their tags are the commitments of the created publics in use (the
  -- first `created_count`).
  pub submit-creates :
      (created : List CreatedResourcePublic)
      → first_n tx.compliance_instance.created_count tx.compliance_instance.created_publics
        ≡ some created
      → (k : Bytes)
      → (self'.commitments
          ≡ self.commitments ++ map (cmt_node_new backend) (created_tags tx.logic_instances))
        × (contains k (created_tags tx.logic_instances) ≡ contains k (commitments_of created))
  submit-creates created e k = (
    ap (λ p. p.commitments) facts.result ∙ facts.recorded.appended,
    created_tags-commitments created e k,
  )

  -- An accepted transaction rests on roots that are anchors of the pool: each consumed public in
  -- use (the first `consumed_count`) names one. Afterwards the anchors are the root of the new
  -- commitments and the anchors from before, and the transaction is stored last, without its
  -- signature.
  pub submit-anchors :
      (consumed : List ConsumedResourcePublic)
      → first_n tx.compliance_instance.consumed_count tx.compliance_instance.consumed_publics
        ≡ some consumed
      → Anchored (cmt_node_new backend) self.anchors consumed
        × ((root : Bytes) × (commitment_root backend self'.commitments ≡ some root)
            × (contains root self'.anchors ≡ true)
            × ((a : Bytes)
                → contains a self'.anchors ≡ (bytes_eq a root || contains a self.anchors)))
        × (self'.transactions ≡ self.transactions ++ unsigned backend tx ∷ [])
  submit-anchors consumed e =
      let (_, _, anchored) = consumed_tags-nullifiers consumed e in
      let root = facts.anchor in
      let kept : (a : Bytes)
          → contains a self'.anchors ≡ (bytes_eq a root || contains a self.anchors) =
        λ a.
          ap (λ p. contains a p.anchors) facts.result
          ∙ contains-insert a root facts.changed.anchors
          ∙ ap (λ s. bytes_eq a root || contains a s) facts.recorded.same_anchors in
      (
        anchored,
        (
          root,
          ap (λ p. commitment_root backend p.commitments) facts.result ∙ facts.rooted,
          kept root ∙ ap (λ b. b || contains root self.anchors) ((bytes_eq_iff root root).1 refl),
          kept,
        ),
        ap (λ p. p.transactions) facts.result
            ∙ ap (λ s. s ++ unsigned backend tx ∷ []) facts.recorded.same_transactions,
      )
