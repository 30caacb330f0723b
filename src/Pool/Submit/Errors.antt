-- ===== src/Pool/Submit/Errors.antt =====
-- How `submit` fails: what each outcome leaves in the pool.
use arm_noir.Prelude.{
  ◌≡◌, ◌≢◌, refl, sym, ap, ◌∙◌, ◌⊎◌, true, false, inl, inr, List, [], ◌∷◌, none, some, Option-cases,
  bytes_Eq, contains, insert, contains-insert, arith,
}
use arm_noir.Bytes.{Bytes}
use arm_noir.Circuit.{BarretenbergCircuit}
use arm_noir.Instance.{ResourceLogicInstance}
use arm_noir.Pool.Outcome.{Outcome, ok, err, panic, Error, duplicate_nullifier}
use arm_noir.Pool.State.{Transaction, ShieldedPool, Backend, Proof, commitment_root}
use arm_noir.Pool.Check.{validate}
use arm_noir.Pool.Submit.{record_logic, record_logics, record_transaction, and_then, submit}
use arm_noir.Pool.Submit.Recorded.{record_logic-some}

err_eq : {a b : Error} → ◌≡◌ {A = Outcome (Unit {0})} (err a) (err b) → a ≡ b
err_eq e = cc

module _ {F : Type 0} (backend : Backend F) where
  and_then-err :
      (r : ShieldedPool F × Outcome (Unit {0}))
      (next : ShieldedPool F → ShieldedPool F × Outcome (Unit {0})) {s' : ShieldedPool F}
      {e : Error}
      → and_then backend r next ≡ (s', err e)
      → (r ≡ (s', err e)) ⊎ ((s : ShieldedPool F) × (r ≡ (s, ok tt)) × (next s ≡ (s', err e)))
  unfolding and_then
  and_then-err (s, panic) next h = absurd (cc (ap (λ x. x.1) h))
  and_then-err (s, err x) next h = inl h
  and_then-err (s, ok _) next h = inr (s, refl, h)

  -- A property of the pool that each step keeps is kept by both.
  and_then-kept :
      (P : ShieldedPool F → Type 0) (r : ShieldedPool F × Outcome (Unit {0}))
      (next : ShieldedPool F → ShieldedPool F × Outcome (Unit {0}))
      → P r.0
      → ((s : ShieldedPool F) → P s → P (next s).0)
      → P (and_then backend r next).0
  unfolding and_then
  and_then-kept P (s, panic) next h kept = h
  and_then-kept P (s, err x) next h kept = h
  and_then-kept P (s, ok _) next h kept = kept s h

  record_logics-err :
      (ls : List (ResourceLogicInstance × Proof)) (self : ShieldedPool F) {self' : ShieldedPool F}
      {e : Error}
      → record_logics backend ls self ≡ (self', err e)
      → e ≡ duplicate_nullifier
  unfolding record_logics
  record_logics-err [] self h = absurd (cc (ap (λ x. x.1) h))
  record_logics-err ((l, proof) ∷ ls) self {self'} {e} h =
      elim (Option-cases (record_logic backend l self)) [
        | inl refused ↦ err_eq (sym (ap (λ x. x.1) (rw (refused, record_logics) at h)))
        | inr (self1, recorded) ↦ record_logics-err ls self1 (rw (recorded, record_logics) at h)
      ]

  record_transaction-err :
      (tx : Transaction F) (self : ShieldedPool F) {self' : ShieldedPool F} {e : Error}
      → record_transaction backend tx self ≢ (self', err e)
  unfolding record_transaction
  record_transaction-err tx self h =
      elim (Option-cases (commitment_root backend self.commitments)) [
        | inl failed ↦ cc (ap (λ x. x.1) (rw (failed, record_transaction) at h))
        | inr (anchor, rooted) ↦ cc (ap (λ x. x.1) (rw (rooted, record_transaction) at h))
      ]

  submit-err :
      (self : ShieldedPool F) (compliance_circuit : BarretenbergCircuit) (tx : Transaction F)
      (self' : ShieldedPool F) (e : Error)
      → submit backend self compliance_circuit tx ≡ (self', err e)
      → e ≢ duplicate_nullifier
      → self' ≡ self
  unfolding submit and_then
  submit-err self compliance_circuit tx self' e h other =
      elim (and_then-err (self, validate backend self compliance_circuit tx) _ h) [
        | inl stopped ↦ sym (ap (λ r. r.0) stopped)
        | inr (s, _, h1) ↦ elim (and_then-err (record_logics backend tx.logic_instances s) _ h1) [
          | inl stopped ↦ absurd (other (record_logics-err tx.logic_instances s stopped))
          | inr (pool, _, h2) ↦ absurd (record_transaction-err tx pool h2)
        ]
      ]

  -- A call of `submit` that ends in an error other than a duplicate nullifier leaves the pool as it
  -- was.
  pub submit_error_unchanged :
      (self : ShieldedPool F) (compliance_circuit : BarretenbergCircuit) (tx : Transaction F)
      (e : Error)
      → (submit backend self compliance_circuit tx).1 ≡ err e
      → e ≢ duplicate_nullifier
      → (submit backend self compliance_circuit tx).0 ≡ self
  submit_error_unchanged self compliance_circuit tx e h other =
      let after = (submit backend self compliance_circuit tx).0 in
      submit-err self compliance_circuit tx after e (ap (λ o. (after, o)) h) other

  -- The pool that a loop over the logic instances leaves, whether it succeeds or not.
  record_logics-kept :
      (ls : List (ResourceLogicInstance × Proof)) (self : ShieldedPool F) (k : Bytes)
      → contains k self.nullifiers ≡ true
      → contains k (record_logics backend ls self).0.nullifiers ≡ true
  unfolding record_logics
  record_logics-kept [] self k h = h
  record_logics-kept ((l, proof) ∷ ls) self k h =
      elim (Option-cases (record_logic backend l self)) [
        | inl refused ↦ rw (refused, contains, record_logics) h
        | inr (self1, recorded) ↦
            let spent = (record_logic-some backend l proof self recorded).spent k in
            rw (recorded, contains, record_logics)
              (record_logics-kept ls self1 k (ground (arith, spent)))
      ]

  record_transaction-kept :
      (tx : Transaction F) (self : ShieldedPool F) (k : Bytes)
      → contains k self.nullifiers ≡ true
      → contains k (record_transaction backend tx self).0.nullifiers ≡ true
  unfolding record_transaction
  record_transaction-kept tx self k h =
      elim (Option-cases (commitment_root backend self.commitments)) [
        | inl failed ↦ rw (failed, contains, record_transaction) h
        | inr (anchor, rooted) ↦ rw (rooted, contains, record_transaction) h
      ]

  -- Whatever the outcome, a nullifier that was spent before a call of `submit` is spent after it.
  pub submit_keeps_spent :
      (self : ShieldedPool F) (compliance_circuit : BarretenbergCircuit) (tx : Transaction F)
      (k : Bytes)
      → contains k self.nullifiers ≡ true
      → contains k (submit backend self compliance_circuit tx).0.nullifiers ≡ true
  unfolding submit
  submit_keeps_spent self compliance_circuit tx k h =
      let Spent : ShieldedPool F → Type 0 = λ s. contains k s.nullifiers ≡ true in
      and_then-kept Spent (self, validate backend self compliance_circuit tx) _ h
        λ s h1.
          and_then-kept Spent (record_logics backend tx.logic_instances s) _
            (record_logics-kept tx.logic_instances s k h1)
            λ pool h2. record_transaction-kept tx pool k h2

  -- Where the checks pass, the first two logic instances are of consumed resources, and the tag of
  -- the second only is spent already, `submit` ends in a duplicate nullifier and yet leaves the tag
  -- of the first spent in the pool.
  pub submit_partial_spend :
      (self : ShieldedPool F) (compliance_circuit : BarretenbergCircuit) (tx : Transaction F)
      (l1 l2 : ResourceLogicInstance) (p1 p2 : Proof) (ls : List (ResourceLogicInstance × Proof))
      → validate backend self compliance_circuit tx ≡ ok tt
      → tx.logic_instances ≡ (l1, p1) ∷ (l2, p2) ∷ ls
      → l1.is_consumed ≡ true
      → l2.is_consumed ≡ true
      → contains l1.tag self.nullifiers ≡ false
      → contains l2.tag self.nullifiers ≡ true
      → submit backend self compliance_circuit tx
        ≡ (record self { nullifiers = insert l1.tag self.nullifiers }, err duplicate_nullifier)
  unfolding submit record_logics record_logic and_then
  submit_partial_spend self compliance_circuit tx l1 l2 p1 p2 ls v e c1 c2 fresh spent =
      let spent' : contains l2.tag (insert l1.tag self.nullifiers) ≡ true =
        ground (arith, contains-insert l2.tag l1.tag self.nullifiers) in
      let first : record_logic backend l1 self
          ≡ some (record self { nullifiers = insert l1.tag self.nullifiers }) =
        rw (c1, fresh) in
      let second : record_logic backend l2
            (record self { nullifiers = insert l1.tag self.nullifiers })
          ≡ none =
        rw (c2, spent') in
      let after : ShieldedPool F = record self { nullifiers = insert l1.tag self.nullifiers } in
      let loop : record_logics backend ((l1, p1) ∷ (l2, p2) ∷ ls) self
          ≡ (after, err duplicate_nullifier) =
        rw (first, record_logics) (rw (second, record_logics)) in
      let run = ap (λ x. record_logics backend x self) e ∙ loop in
      rw (v, and_then) (ap (λ r. and_then backend r (record_transaction backend tx)) run)
