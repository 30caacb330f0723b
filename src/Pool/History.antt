-- ===== src/Pool/History.antt =====
-- The pools that a new pool becomes: what holds of all transactions together.
use arm_noir.Prelude.{
  ◌≡◌, ◌≢◌, refl, sym, ap, ◌∙◌, subst, ◌||◌, true, false, Bool-cases, inl, inr, List, [], ◌∷◌, ◌++◌,
  append-nil, append_assoc, map, Option-cases, some, bytes_eq, bytes_eq_iff, bytes_Eq, contains,
  insert, contains-insert, contains-append, Distinct, arith,
}
use arm_noir.Bytes.{Bytes}
use arm_noir.Circuit.{BarretenbergCircuit}
use arm_noir.Pool.Outcome.{ok, err, Error, duplicate_nullifier}
use arm_noir.Pool.State.{
  Transaction, ShieldedPool, Backend, cmt_node_new, commitment_root, new, register_logic,
  deregister_logic,
}
use arm_noir.Pool.Check.{unsigned}
use arm_noir.Pool.Submit.{submit}
use arm_noir.Pool.Submit.Tags.{consumed_tags, created_tags}
use arm_noir.Pool.Submit.Safety.{submit-Accepted}
use arm_noir.Pool.Submit.Errors.{submit_error_unchanged}
use arm_noir.Pool.Ledger.{
  map-append, Distinct-append, all_created, all_consumed, all_created-append, all_consumed-append,
}

module _ {F : Type 0} (backend : Backend F) where
  -- The pools after calls of `submit` that accept, or that end in an error other than a duplicate
  -- nullifier, and after any calls that register or deregister a logic.
  pub data Reached : ShieldedPool F → Type 0 where
    start : (self : ShieldedPool F) → new backend ≡ some self → Reached self
    accepted :
        {self self' : ShieldedPool F} (circuit : BarretenbergCircuit) (tx : Transaction F)
        → Reached self
        → submit backend self circuit tx ≡ (self', ok tt)
        → Reached self'
    refused :
        {self : ShieldedPool F} (circuit : BarretenbergCircuit) (tx : Transaction F) (e : Error)
        → Reached self
        → (submit backend self circuit tx).1 ≡ err e
        → e ≢ duplicate_nullifier
        → Reached (submit backend self circuit tx).0
    registered :
        {self : ShieldedPool F} (circuit : BarretenbergCircuit)
        → Reached self
        → Reached (register_logic self circuit)
    deregistered :
        {self : ShieldedPool F} (logic_hash : Bytes)
        → Reached self
        → Reached (deregister_logic self logic_hash).0

  -- The root of a first part of the commitments.
  abbrev pub IsPastRoot : List Bytes → Bytes → Type 0
  IsPastRoot commitments a =
      (past : List Bytes) × (later : List Bytes) × (commitments ≡ past ++ later)
      × (commitment_root backend past ≡ some a)

  -- The pool is what its transactions make it.
  pub record Consistent (self : ShieldedPool F) : Type 0 where
    pub created : self.commitments ≡ map (cmt_node_new backend) (all_created self.transactions)
    pub consumed :
        (k : Bytes) → contains k self.nullifiers ≡ contains k (all_consumed self.transactions)
    pub once : Distinct (all_consumed self.transactions)
    pub current :
        (root : Bytes) × (commitment_root backend self.commitments ≡ some root)
        × (contains root self.anchors ≡ true)
    pub past : (a : Bytes) → contains a self.anchors ≡ true → IsPastRoot self.commitments a

  new-Consistent : (self : ShieldedPool F) → new backend ≡ some self → Consistent self
  unfolding new
  new-Consistent self e = elim (Option-cases (commitment_root backend [])) [
    | inl failed ↦ absurd (cc (rw failed at e))
    | inr (root, rooted) ↦
        let first : record {
          nullifiers = [];
          commitments = [];
          transactions = [];
          anchors = root ∷ [];
          logic_circuits = [];
        }
            ≡ self =
          cc (rw rooted at e) in
        subst Consistent first (record {
          created = refl;
          consumed = λ k. refl;
          once = tt;
          current = (root, rooted, ground (arith, bytes_eq_iff root root));
          past = λ a p.
              let same : a ≡ root = ground (arith, bytes_eq_iff a root) in
              ([], [], refl, rooted ∙ ap some (sym same));
        })
  ]

  -- The anchors after a transaction.
  past_root :
      (self changed : ShieldedPool F) (anchor : Bytes) (new_nodes : List Bytes)
      → changed.commitments ≡ self.commitments ++ new_nodes
      → changed.anchors ≡ self.anchors
      → commitment_root backend changed.commitments ≡ some anchor
      → ((a : Bytes) → contains a self.anchors ≡ true → IsPastRoot self.commitments a)
      → (a : Bytes) → contains a (insert anchor changed.anchors) ≡ true
      → IsPastRoot changed.commitments a
  past_root self changed anchor new_nodes appended same rooted past a p =
      elim (Bool-cases (bytes_eq a anchor)) [
        | inl now ↦
            let e : a ≡ anchor = (bytes_eq_iff a anchor).0 now in
            (
              changed.commitments,
              [],
              sym (append-nil changed.commitments),
              rooted ∙ ap some (sym e),
            )
        | inr before ↦
            let q : contains a self.anchors ≡ true =
              ap (λ s. contains a s) (sym same)
              ∙ ap (λ b. b || contains a changed.anchors) (sym before)
              ∙ sym (contains-insert a anchor changed.anchors)
              ∙ p in
            let (first, later, split, root) = past a q in
            (
              first,
              later ++ new_nodes,
              appended ∙ ap (λ b. b ++ new_nodes) split ∙ append_assoc first later new_nodes,
              root,
            )
      ]

  submit-Consistent :
      (self self' : ShieldedPool F) (circuit : BarretenbergCircuit) (tx : Transaction F)
      → submit backend self circuit tx ≡ (self', ok tt)
      → Consistent self
      → Consistent self'
  submit-Consistent self self' circuit tx e c =
      let facts = submit-Accepted backend self circuit tx e in
      let r = facts.recorded in
      let changed = facts.changed in
      let tags = created_tags tx.logic_instances in
      let txs : changed.transactions ++ unsigned backend tx ∷ []
          ≡ self.transactions ++ unsigned backend tx ∷ [] =
        ap (λ t. t ++ unsigned backend tx ∷ []) r.same_transactions in
      let all = ap all_consumed txs ∙ all_consumed-append self.transactions (unsigned backend tx) in
      let apart : (k : Bytes)
          → contains k (consumed_tags tx.logic_instances) ≡ true
          → contains k (all_consumed self.transactions) ≡ false =
        λ k p. sym (c.consumed k) ∙ r.unspent k p in
      subst Consistent (sym facts.result) (record {
        created =
            r.appended
            ∙ ap (λ b. b ++ map (cmt_node_new backend) tags) c.created
            ∙ sym (map-append (cmt_node_new backend) (all_created self.transactions) tags)
            ∙ ap (map (cmt_node_new backend)) (
                sym (
                  ap all_created txs ∙ all_created-append self.transactions (unsigned backend tx)));
        consumed = λ k.
            let before = c.consumed k in
            let both =
              contains-append k (all_consumed self.transactions)
                (consumed_tags tx.logic_instances) in
            let spent = r.spent k in
            let swap : (contains k (consumed_tags tx.logic_instances) || contains k self.nullifiers)
                ≡ (contains k (all_consumed self.transactions)
                    || contains k (consumed_tags tx.logic_instances)) =
              ground (arith, before) in
            spent ∙ swap ∙ sym both ∙ sym (ap (λ b. contains k b) all);
        once =
            subst (λ b. Distinct b) (sym all)
              (Distinct-append (all_consumed self.transactions) (consumed_tags tx.logic_instances)
                c.once r.distinct apart);
        current = (
          facts.anchor,
          facts.rooted,
          contains-insert facts.anchor facts.anchor changed.anchors
              ∙ ground (arith, bytes_eq_iff facts.anchor facts.anchor),
        );
        past = λ a p.
            past_root self changed facts.anchor (map (cmt_node_new backend) tags) r.appended
              r.same_anchors facts.rooted c.past a p;
      })

  -- Of every pool so reached: the commitments are the nodes of the tags of all created resources of
  -- its transactions, in order; the spent nullifiers are the tags of all consumed ones, and no two of
  -- these are the same; the root of the commitments is an anchor, and every anchor is the root of a
  -- first part of them.
  pub Reached-Consistent : {self : ShieldedPool F} → Reached self → Consistent self
  unfolding register_logic deregister_logic
  Reached-Consistent (start self e) = new-Consistent self e
  Reached-Consistent (accepted circuit tx run e) =
      submit-Consistent _ _ circuit tx e (Reached-Consistent run)
  Reached-Consistent (refused {self} circuit tx e run failed other) =
      subst Consistent (sym (submit_error_unchanged backend self circuit tx e failed other))
        (Reached-Consistent run)
  Reached-Consistent (registered circuit run) =
      let c = Reached-Consistent run in
      record {
        created = c.created;
        consumed = c.consumed;
        once = c.once;
        current = c.current;
        past = c.past;
      }
  Reached-Consistent (deregistered logic_hash run) =
      let c = Reached-Consistent run in
      record {
        created = c.created;
        consumed = c.consumed;
        once = c.once;
        current = c.current;
        past = c.past;
      }
