-- ===== src/Aggregator/Merkle/Order.antt =====
-- The batches pushed are answered once each, in order, with their roots.
use arm_noir.Prelude.{
  suc, ◌≡◌, refl, sym, subst, ◌∙◌, inl, inr, Bool-cases, Option-cases, some, List, List-cases, [],
  ◌∷◌, ◌++◌, append_assoc,
}
use arm_noir.Bytes.{Bytes}
use arm_noir.Aggregator.{Ids, gen_id, is_batch}
use arm_noir.Aggregator.Batches.{IsBatch, is_batch_iff}
use arm_noir.Aggregator.Merkle.{
  MerkleAggregator, new, push_internal_proofs, pop_recursive_proof, step_batch, step,
}
use arm_noir.Aggregator.Merkle.Root.{IsRoot, batch_root_lem}

module _ (sha256 : Bytes → Bytes) {I BatchId : Type 0} (next : Ids I BatchId) where
  -- The aggregator after some calls, the batches pushed so far with their IDs, and the answers popped.
  pub data Run (ids : I)
      : MerkleAggregator I BatchId
        → List (BatchId × List Bytes)
        → List (BatchId × Bytes)
        → Type 0 where
    start : Run ids (new ids) [] []
    push :
        {self self' : MerkleAggregator I BatchId} {pushed : List (BatchId × List Bytes)}
        {popped : List (BatchId × Bytes)} {batch_id : BatchId} (proofs : List Bytes)
        → Run ids self pushed popped
        → push_internal_proofs sha256 next proofs self ≡ some (batch_id, self')
        → Run ids self' (pushed ++ ((batch_id, proofs) ∷ [])) popped
    pop :
        {self self' : MerkleAggregator I BatchId} {pushed : List (BatchId × List Bytes)}
        {popped : List (BatchId × Bytes)} {proof : BatchId × Bytes}
        → Run ids self pushed popped
        → pop_recursive_proof sha256 next self ≡ (some proof, self')
        → Run ids self' pushed (popped ++ (proof ∷ []))
    stepped :
        {self self' : MerkleAggregator I BatchId} {pushed : List (BatchId × List Bytes)}
        {popped : List (BatchId × Bytes)}
        → Run ids self pushed popped
        → step sha256 next self ≡ some self'
        → Run ids self' pushed popped

  -- Each batch with the answer at its place: its ID and its root.
  abbrev pub Answers : List (BatchId × List Bytes) → List (BatchId × Bytes) → Type 0
  Answers [] [] = Unit {0}
  Answers ((i, batch) ∷ batches) ((j, root) ∷ roots) =
      ((i ≡ j) × IsRoot sha256 batch root) × Answers batches roots
  Answers batches roots = ⊥

  -- Batches that the aggregator accepts.
  abbrev pub AllBatches : List (BatchId × List Bytes) → Type 0
  AllBatches [] = Unit {0}
  AllBatches ((i, batch) ∷ batches) = IsBatch batch × AllBatches batches

  AllBatches-append :
      (xs : List (BatchId × List Bytes)) (i : BatchId) (batch : List Bytes)
      → AllBatches xs
      → IsBatch batch
      → AllBatches (xs ++ ((i, batch) ∷ []))
  AllBatches-append [] i batch h b = (b, tt)
  AllBatches-append ((j, x) ∷ xs) i batch (h, hs) b = (h, AllBatches-append xs i batch hs b)

  Answers-append :
      (xs : List (BatchId × List Bytes)) (ys : List (BatchId × Bytes)) (i : BatchId)
      (batch : List Bytes) (root : Bytes)
      → Answers xs ys
      → IsRoot sha256 batch root
      → Answers (xs ++ ((i, batch) ∷ [])) (ys ++ ((i, root) ∷ []))
  Answers-append [] [] i batch root h r = ((refl, r), tt)
  Answers-append [] (y ∷ ys) i batch root h r = elim h [ ]
  Answers-append ((j, x) ∷ xs) [] i batch root h r = elim h [ ]
  Answers-append ((j, x) ∷ xs) ((k, y) ∷ ys) i batch root (h, hs) r =
      (h, Answers-append xs ys i batch root hs r)

  -- The batches answered are the first of those pushed, and those queued are the others.
  pub record Ordered (self : MerkleAggregator I BatchId) (pushed : List (BatchId × List Bytes))
      (popped : List (BatchId × Bytes)) : Type 0 where
    pub answered : List (BatchId × List Bytes)
    pub in_order : pushed ≡ answered ++ self.internal_queue
    pub answers : Answers answered (popped ++ self.completed_proofs)
    pub accepted : AllBatches self.internal_queue

  -- What a push that succeeds does.
  push_some :
      (proofs : List Bytes) (self self' : MerkleAggregator I BatchId) (batch_id : BatchId)
      → push_internal_proofs sha256 next proofs self ≡ some (batch_id, self')
      → IsBatch proofs
        × (self'.internal_queue ≡ self.internal_queue ++ ((batch_id, proofs) ∷ []))
        × (self'.completed_proofs ≡ self.completed_proofs)
  unfolding push_internal_proofs gen_id
  push_some proofs self self' batch_id e = elim (Bool-cases (is_batch proofs)) [
    | inr refused ↦ absurd (cc (rw refused at e))
    | inl ok ↦ elim (Option-cases (next self.free_batch_ids)) [
      | inl out ↦ absurd (cc (rw (ok, out) at e))
      | inr fresh ↦
          let (item, f) = fresh in
          let (i, ids) = item in
          let g = (rw (ok, f) at e) in
          let same : i ≡ batch_id = cc in
          let after : record self {
            free_batch_ids = ids;
            internal_queue = self.internal_queue ++ ((i, proofs) ∷ []);
          }
              ≡ self' =
            cc in
          ((is_batch_iff proofs).0 ok, rw (← after, same) refl, rw (← after) refl)
    ]
  ]

  -- A step on a queue of accepted batches ends: it answers the first with its root.
  pub step_lem :
      (self : MerkleAggregator I BatchId) (i : BatchId) (batch : List Bytes)
      (rest : List (BatchId × List Bytes))
      → self.internal_queue ≡ (i, batch) ∷ rest
      → IsBatch batch
      → (root : Bytes) × (step sha256 next self
          ≡ some (record self {
            internal_queue = rest;
            completed_proofs = self.completed_proofs ++ ((i, root) ∷ []);
          }))
        × IsRoot sha256 batch root
  unfolding step step_batch
  step_lem self i batch rest e (k, size) =
      let (root, done, h) = batch_root_lem sha256 batch (suc k, size) in (root, rw (e, done), h)

  Ordered-push :
      (self self' : MerkleAggregator I BatchId) (pushed : List (BatchId × List Bytes))
      (popped : List (BatchId × Bytes)) (proofs : List Bytes) (batch_id : BatchId)
      → push_internal_proofs sha256 next proofs self ≡ some (batch_id, self')
      → Ordered self pushed popped
      → Ordered self' (pushed ++ ((batch_id, proofs) ∷ [])) popped
  Ordered-push self self' pushed popped proofs batch_id e o =
      let (ok, queue, completed) = push_some proofs self self' batch_id e in
      record {
        answered = o.answered;
        in_order =
            rw (o.in_order, queue)
              (append_assoc o.answered self.internal_queue ((batch_id, proofs) ∷ []));
        answers = rw completed o.answers;
        accepted = rw queue (AllBatches-append self.internal_queue batch_id proofs o.accepted ok);
      }

  Ordered-pop :
      (self self' : MerkleAggregator I BatchId) (pushed : List (BatchId × List Bytes))
      (popped : List (BatchId × Bytes)) (proof : BatchId × Bytes)
      → pop_recursive_proof sha256 next self ≡ (some proof, self')
      → Ordered self pushed popped
      → Ordered self' pushed (popped ++ (proof ∷ []))
  unfolding pop_recursive_proof
  Ordered-pop self self' pushed popped proof e o = elim (List-cases self.completed_proofs) [
    | inl none_left ↦ absurd (cc (rw none_left at e))
    | inr found ↦
        let (first, rest, f) = found in
        let g = (rw f at e) in
        let same : first ≡ proof = cc in
        let after : record self { completed_proofs = rest } ≡ self' = cc in
        record {
          answered = o.answered;
          in_order = rw (← after) o.in_order;
          answers =
              rw (← after, ← same, append_assoc popped (first ∷ []) rest) ((rw f at o.answers));
          accepted = rw (← after) o.accepted;
        }
  ]

  pub Ordered-step :
      (self self' : MerkleAggregator I BatchId) (pushed : List (BatchId × List Bytes))
      (popped : List (BatchId × Bytes))
      → step sha256 next self ≡ some self'
      → Ordered self pushed popped
      → Ordered self' pushed popped
  unfolding step step_batch
  Ordered-step self self' pushed popped e o = elim (List-cases self.internal_queue) [
    | inl idle ↦ let same : self ≡ self' = cc in subst (λ s. Ordered s pushed popped) same o
    | inr found ↦
        let (first, rest, f) = found in
        let (i, batch) = first in
        let (ok, oks) = (rw f at o.accepted) in
        let (root, done, h) = step_lem self i batch rest f ok in
        let after : record self {
          internal_queue = rest;
          completed_proofs = self.completed_proofs ++ ((i, root) ∷ []);
        }
            ≡ self' =
          cc (sym done ∙ e) in
        record {
          answered = o.answered ++ ((i, batch) ∷ []);
          in_order =
              rw (← after, o.in_order, f) (sym (append_assoc o.answered ((i, batch) ∷ []) rest));
          answers =
              rw (← after, ← append_assoc popped self.completed_proofs ((i, root) ∷ []))
                (Answers-append o.answered (popped ++ self.completed_proofs) i batch root o.answers
                  h);
          accepted = rw (← after) oks;
        }
  ]

  -- Whatever the calls, in whatever order: the batches answered are the first of those pushed, each
  -- with its root and its ID, those still queued are the others, in order.
  pub Run-Ordered :
      (ids : I) {self : MerkleAggregator I BatchId} {pushed : List (BatchId × List Bytes)}
      {popped : List (BatchId × Bytes)}
      → Run ids self pushed popped
      → Ordered self pushed popped
  unfolding new
  Run-Ordered ids start = record { answered = []; in_order = refl; answers = tt; accepted = tt }
  Run-Ordered ids (push proofs run e) = Ordered-push _ _ _ _ proofs _ e (Run-Ordered ids run)
  Run-Ordered ids (pop run e) = Ordered-pop _ _ _ _ _ e (Run-Ordered ids run)
  Run-Ordered ids (stepped run e) = Ordered-step _ _ _ _ e (Run-Ordered ids run)
