-- ===== src/Pool/Submit/Recorded.antt =====
-- The changes that `submit` makes for the logic instances.
use arm_noir.Prelude.{
  ◌≡◌, refl, subst, sym, ap, ◌∙◌, true, false, ◌||◌, Bool-cases, inl, inr, List, [], ◌∷◌, ◌++◌,
  append-nil, append_assoc, some, map, bytes_eq_iff, bytes_Eq, contains, insert, contains-insert,
  Distinct, Option-cases, arith,
}
use arm_noir.Bytes.{Bytes}
use arm_noir.Instance.{ResourceLogicInstance}
use arm_noir.Pool.Outcome.{ok}
use arm_noir.Pool.State.{ShieldedPool, Backend, Proof, cmt_node_new}
use arm_noir.Pool.Submit.{record_logic, record_logics}
use arm_noir.Pool.Submit.Tags.{consumed_tags, created_tags}

some_eq : {A : Type 0} {a b : A} → some a ≡ some b → a ≡ b
some_eq e = cc

module _ {F : Type 0} (backend : Backend F) where
  -- The changes for a list of logic instances: the spent nullifiers are those from before and the
  -- tags of the consumed instances, none of which was spent; the commitments have grown by the tags
  -- of the created ones; the rest is as before.
  pub record Recorded (ls : List (ResourceLogicInstance × Proof)) (self self' : ShieldedPool F)
      : Type 0 where
    pub spent :
        (k : Bytes)
        → contains k self'.nullifiers
          ≡ (contains k (consumed_tags ls) || contains k self.nullifiers)
    pub unspent :
        (k : Bytes) → contains k (consumed_tags ls) ≡ true → contains k self.nullifiers ≡ false
    pub distinct : Distinct (consumed_tags ls)
    pub appended :
        self'.commitments ≡ self.commitments ++ map (cmt_node_new backend) (created_tags ls)
    pub same_anchors : self'.anchors ≡ self.anchors
    pub same_transactions : self'.transactions ≡ self.transactions
    pub same_circuits : self'.logic_circuits ≡ self.logic_circuits

  spend-Recorded :
      (l : ResourceLogicInstance) (proof : Proof) (self : ShieldedPool F)
      → l.is_consumed ≡ true
      → contains l.tag self.nullifiers ≡ false
      → Recorded ((l, proof) ∷ []) self (record self { nullifiers = insert l.tag self.nullifiers })
  spend-Recorded l proof self consumed new = record {
    spent = λ k. ground (arith, contains-insert k l.tag self.nullifiers);
    unspent = λ k p. ground (arith, bytes_eq_iff k l.tag);
    distinct = rw consumed (refl, tt);
    appended = rw (consumed, append-nil self.commitments);
    same_anchors = refl;
    same_transactions = refl;
    same_circuits = refl;
  }

  create-Recorded :
      (l : ResourceLogicInstance) (proof : Proof) (self : ShieldedPool F)
      → l.is_consumed ≡ false
      → Recorded
          ((l, proof) ∷ [])
          self
          (record self { commitments = self.commitments ++ cmt_node_new backend l.tag ∷ [] })
  create-Recorded l proof self created = record {
    spent = λ k. rw created;
    unspent = λ k p. ground arith;
    distinct = rw created tt;
    appended = rw created;
    same_anchors = refl;
    same_transactions = refl;
    same_circuits = refl;
  }

  -- One logic instance.
  pub record_logic-some :
      (l : ResourceLogicInstance) (proof : Proof) (self : ShieldedPool F) {self' : ShieldedPool F}
      → record_logic backend l self ≡ some self'
      → Recorded ((l, proof) ∷ []) self self'
  unfolding record_logic
  record_logic-some l proof self e = elim (Bool-cases l.is_consumed) [
    | inl consumed ↦ elim (Bool-cases (contains l.tag self.nullifiers)) [
      | inl old ↦ absurd (cc (rw (consumed, old) at e))
      | inr new ↦
          let after = record self { nullifiers = insert l.tag self.nullifiers } in
          let done : record_logic backend l self ≡ some after = rw (consumed, new) in
          subst (Recorded ((l, proof) ∷ []) self) (some_eq (sym done ∙ e))
            (spend-Recorded l proof self consumed new)
    ]
    | inr created ↦
        let after = record self {
          commitments = self.commitments ++ cmt_node_new backend l.tag ∷ [];
        } in
        let done : record_logic backend l self ≡ some after = rw created in
        subst (Recorded ((l, proof) ∷ []) self) (some_eq (sym done ∙ e))
          (create-Recorded l proof self created)
  ]

  Recorded-cons :
      (l : ResourceLogicInstance) (proof : Proof) (ls : List (ResourceLogicInstance × Proof))
      (self self1 self' : ShieldedPool F)
      → Recorded ((l, proof) ∷ []) self self1
      → Recorded ls self1 self'
      → Recorded ((l, proof) ∷ ls) self self'
  Recorded-cons l proof ls self self1 self' a b = record {
    spent = λ k. ground (arith, a.spent k, b.spent k);
    unspent = λ k p. ground (arith, a.spent k, a.unspent k, b.unspent k);
    distinct = ground (arith, a.spent l.tag, b.unspent l.tag, bytes_eq_iff l.tag l.tag, b.distinct);
    appended =
        rw (b.appended, a.appended)
          (elim (Bool-cases l.is_consumed) [
            | inl consumed ↦ rw (consumed, append-nil self.commitments)
            | inr created ↦
                rw (created, append_assoc self.commitments (cmt_node_new backend l.tag ∷ []) _)
          ]);
    same_anchors = b.same_anchors ∙ a.same_anchors;
    same_transactions = b.same_transactions ∙ a.same_transactions;
    same_circuits = b.same_circuits ∙ a.same_circuits;
  }

  pub record_logics-Recorded :
      (ls : List (ResourceLogicInstance × Proof)) (self : ShieldedPool F) {self' : ShieldedPool F}
      → record_logics backend ls self ≡ (self', ok tt)
      → Recorded ls self self'
  unfolding record_logics
  record_logics-Recorded [] self {self'} e =
      let same : self ≡ self' = ap (λ r. r.0) e in
      record {
        spent = λ k. cc;
        unspent = λ k p. cc;
        distinct = tt;
        appended = rw (append-nil self.commitments, same);
        same_anchors = cc;
        same_transactions = cc;
        same_circuits = cc;
      }
  record_logics-Recorded ((l, proof) ∷ ls) self {self'} e =
      elim (Option-cases (record_logic backend l self)) [
        | inl refused ↦ absurd (cc (rw (refused, record_logics) at e))
        | inr (self1, recorded) ↦
            Recorded-cons l proof ls self self1 self' (record_logic-some l proof self recorded)
              (record_logics-Recorded ls self1 (rw (recorded, record_logics) at e))
      ]
