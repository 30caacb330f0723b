-- ===== src/Aggregator/Merkle/Progress.antt =====
-- As many steps as batches are queued answer all of them.
use arm_noir.Prelude.{
  ℕ, zero, suc, ◌≡◌, refl, ap, ◌∙◌, inl, inr, Option, some, List, List-cases, [], ◌++◌, append-nil,
  length, ◌>>=◌, arith,
}
use arm_noir.Bytes.{Bytes}
use arm_noir.Aggregator.{Ids}
use arm_noir.Aggregator.Merkle.{MerkleAggregator, step}
use arm_noir.Aggregator.Merkle.Order.{Run, Answers, Ordered, Ordered-step, Run-Ordered, step_lem}

module _ (sha256 : Bytes → Bytes) {I BatchId : Type 0} (next : Ids I BatchId) where
  -- n calls of `step`.
  abbrev pub steps : ℕ → MerkleAggregator I BatchId → Option (MerkleAggregator I BatchId)
  steps zero self = some self
  steps (suc n) self = step sha256 next self >>= steps n

  abbrev AllAnswered :
      MerkleAggregator I BatchId → List (BatchId × List Bytes) → List (BatchId × Bytes) → Type 0
  AllAnswered self pushed popped =
      (self.internal_queue ≡ []) × Answers sha256 next pushed (popped ++ self.completed_proofs)

  Ordered-steps :
      (n : ℕ) (self : MerkleAggregator I BatchId) (pushed : List (BatchId × List Bytes))
      (popped : List (BatchId × Bytes))
      → length self.internal_queue ≡ n
      → Ordered sha256 next self pushed popped
      → (self' : MerkleAggregator I BatchId) × (steps n self ≡ some self')
        × AllAnswered self' pushed popped
  Ordered-steps zero self pushed popped size o = elim (List-cases self.internal_queue) [
    | inl idle ↦
        let all : pushed ≡ o.answered =
          o.in_order ∙ ap (λ b. o.answered ++ b) idle ∙ append-nil o.answered in
        (self, refl, (idle, rw all o.answers))
    | inr (first, rest, f) ↦ absurd (omega (arith, ap length f))
  ]
  Ordered-steps (suc n) self pushed popped size o = elim (List-cases self.internal_queue) [
    | inl idle ↦ absurd (omega (arith, ap length idle))
    | inr found ↦
        let (first, rest, f) = found in
        let (i, batch) = first in
        let (ok, oks) = (rw f at o.accepted) in
        let (root, done, h) = step_lem sha256 next self i batch rest f ok in
        let o' = Ordered-step sha256 next self _ pushed popped done o in
        let (self', ends, all) = Ordered-steps n _ pushed popped (omega (arith, ap length f)) o' in
        (self', rw done ends, all)
  ]

  -- After any calls, as many steps as batches are queued end, leave no batch queued, and every batch
  -- ever pushed is then answered, in order, with its ID and its root.
  pub steps_answer :
      (ids : I) {self : MerkleAggregator I BatchId} {pushed : List (BatchId × List Bytes)}
      {popped : List (BatchId × Bytes)}
      → Run sha256 next ids self pushed popped
      → (self' : MerkleAggregator I BatchId) × (steps (length self.internal_queue) self
          ≡ some self')
        × (self'.internal_queue ≡ [])
        × Answers sha256 next pushed (popped ++ self'.completed_proofs)
  steps_answer ids run =
      let (self', ends, (idle, all)) =
        Ordered-steps _ _ _ _ refl (Run-Ordered sha256 next ids run) in
      (self', ends, idle, all)
