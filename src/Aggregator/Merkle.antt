-- ===== src/Aggregator/Merkle.antt =====
-- `MerkleAggregator`: a queue of batches of digests and a queue of their roots. SHA-256 is an argument.
-- No operation sets leaf_queue, and the aggregator IDs are a type without values.
pub mod Root
pub mod Order
pub mod Progress
mod Tests
use arm_noir.Prelude.{
  ℕ, zero, suc, ◌+◌, Bool, Option, none, some, List, [], ◌∷◌, ◌++◌, length, leb, ◌>>=◌,
  if◌then◌else◌,
}
use arm_noir.Bytes.{Bytes}
use arm_noir.Aggregator.{Ids, gen_id, is_batch}

pub record MerkleAggregator (I BatchId : Type 0) : Type 0 where
  pub free_batch_ids : I
  pub leaf_queue : List Bytes
  pub internal_queue : List (BatchId × List Bytes)
  pub completed_proofs : List (BatchId × Bytes)

unfoldable pub new : {I BatchId : Type 0} → I → MerkleAggregator I BatchId
new free_batch_ids = record {
  free_batch_ids = free_batch_ids;
  leaf_queue = [];
  internal_queue = [];
  completed_proofs = [];
}

module _ (sha256 : Bytes → Bytes) where
  unfoldable pub combine_digests : Bytes → Bytes → Bytes
  combine_digests left right = sha256 (left ++ right)

  -- The pairs of `chunks_exact(2)`: a last digest without a partner is dropped.
  unfoldable pub next_layer : List Bytes → List Bytes
  unfolding combine_digests
  next_layer [] = []
  next_layer (x ∷ []) = []
  next_layer (left ∷ right ∷ rest) = combine_digests left right ∷ next_layer rest

  -- The loop while a layer has more than one digest. Each layer is at most half as long, so that a
  -- fuel of the length of the first is enough.
  unfoldable pub layers : ℕ → List Bytes → Option (List Bytes)
  layers zero current_layer = none
  layers (suc fuel) current_layer =
      let rest = layers fuel (next_layer current_layer) in
      if leb (length current_layer) 1 then some current_layer else rest

  -- `pop` takes the last digest of the layer.
  unfoldable pub pop : List Bytes → Option Bytes
  pop [] = none
  pop (x ∷ []) = some x
  pop (x ∷ y ∷ xs) = pop (y ∷ xs)

  unfoldable pub batch_root : List Bytes → Option Bytes
  unfolding layers pop
  batch_root batch = layers (suc (length batch)) batch >>= pop

  module _ {I BatchId : Type 0} (next : Ids I BatchId) where
    unfoldable pub push_internal_proofs :
        List Bytes → MerkleAggregator I BatchId → Option (BatchId × MerkleAggregator I BatchId)
    unfolding gen_id
    push_internal_proofs proofs self =
        if is_batch proofs
        then (gen_id next self.free_batch_ids >>= λ (batch_id, ids). some (
          batch_id,
          record self {
            free_batch_ids = ids;
            internal_queue = self.internal_queue ++ ((batch_id, proofs) ∷ []);
          },
        ))
        else none

    unfoldable pub pop_recursive_proof :
        MerkleAggregator I BatchId → Option (BatchId × Bytes) × MerkleAggregator I BatchId
    pop_recursive_proof self = elim self.completed_proofs [
      | [] ↦ (none, self)
      | (proof ∷ rest) ↦ (some proof, record self { completed_proofs = rest })
    ]

    unfoldable pub queued : List (BatchId × List Bytes) → ℕ
    queued [] = 0
    queued ((batch_id, batch) ∷ rest) = length batch + queued rest

    unfoldable pub pending_queue_size : MerkleAggregator I BatchId → ℕ
    unfolding queued
    pending_queue_size self = length self.leaf_queue + queued self.internal_queue

    unfoldable pub step_batch :
        MerkleAggregator I BatchId
        → List (BatchId × List Bytes)
        → Option (MerkleAggregator I BatchId)
    unfolding batch_root
    step_batch self [] = some self
    step_batch self ((batch_id, batch) ∷ rest) = batch_root batch >>= λ root. some (record self {
      internal_queue = rest;
      completed_proofs = self.completed_proofs ++ ((batch_id, root) ∷ []);
    })

    unfoldable pub step : MerkleAggregator I BatchId → Option (MerkleAggregator I BatchId)
    unfolding step_batch
    step self = step_batch self self.internal_queue
