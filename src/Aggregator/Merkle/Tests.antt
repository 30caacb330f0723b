-- ===== src/Aggregator/Merkle/Tests.antt =====
-- Runs with numbered batches and a hash that keeps its input.
use arm_noir.Prelude.{
  is_power_of_two, is_power_up_to, ℕ, suc, ◌≡◌, refl, false, some, List, [], ◌∷◌,
}
use arm_noir.Bytes.{Bytes}
use arm_noir.Aggregator.{Ids, gen_id, is_batch}
use arm_noir.Aggregator.Merkle.{
  MerkleAggregator, new, combine_digests, next_layer, layers, batch_root, push_internal_proofs,
  pop_recursive_proof, pending_queue_size, queued, step, step_batch,
}
use arm_noir.Aggregator.Merkle.Root.{IsRoot, batch_root_lem}
use arm_noir.Aggregator.Merkle.Order.{Run, start, push, pop, stepped, Answers, Ordered, Run-Ordered}
use arm_noir.Aggregator.Merkle.Progress.{steps, steps_answer}

abbrev keep : Bytes → Bytes
keep bytes = bytes

abbrev counter : Ids ℕ ℕ
counter i = some (i, suc i)

abbrev four : List Bytes
four = (1 ∷ []) ∷ (2 ∷ []) ∷ (3 ∷ []) ∷ (4 ∷ []) ∷ []

abbrev two : List Bytes
two = (5 ∷ []) ∷ (6 ∷ []) ∷ []

abbrev queued_four : MerkleAggregator ℕ ℕ
queued_four = record {
  free_batch_ids = 1;
  leaf_queue = [];
  internal_queue = (0, four) ∷ [];
  completed_proofs = [];
}

abbrev queued_both : MerkleAggregator ℕ ℕ
queued_both = record {
  free_batch_ids = 2;
  leaf_queue = [];
  internal_queue = (0, four) ∷ (1, two) ∷ [];
  completed_proofs = [];
}

abbrev answered_four : MerkleAggregator ℕ ℕ
answered_four = record {
  free_batch_ids = 2;
  leaf_queue = [];
  internal_queue = (1, two) ∷ [];
  completed_proofs = (0, 1 ∷ 2 ∷ 3 ∷ 4 ∷ []) ∷ [];
}

abbrev popped_four : MerkleAggregator ℕ ℕ
popped_four = record answered_four { completed_proofs = [] }

-- Three digests are no batch, and neither is one.
refused : is_batch {A = Bytes} ((1 ∷ []) ∷ (2 ∷ []) ∷ (3 ∷ []) ∷ []) ≡ false
unfolding is_batch is_power_of_two is_power_up_to
refused = refl

refused_one : is_batch {A = Bytes} ((1 ∷ []) ∷ []) ≡ false
unfolding is_batch is_power_of_two is_power_up_to
refused_one = refl

pending : pending_queue_size keep counter queued_both ≡ 6
unfolding pending_queue_size queued
pending = refl

-- The second batch is pushed before the first is answered, and the first is popped.
answers_run :
    Run keep counter 0 popped_four ((0, four) ∷ (1, two) ∷ []) ((0, 1 ∷ 2 ∷ 3 ∷ 4 ∷ []) ∷ [])
unfolding push_internal_proofs pop_recursive_proof is_batch is_power_of_two is_power_up_to gen_id
    new step step_batch batch_root layers next_layer combine_digests
answers_run =
    let first : Run keep counter 0 queued_four ((0, four) ∷ []) [] = push four start refl in
    let second : Run keep counter 0 queued_both ((0, four) ∷ (1, two) ∷ []) [] =
      push two first refl in
    let third : Run keep counter 0 answered_four ((0, four) ∷ (1, two) ∷ []) [] =
      stepped second refl in
    pop third refl

batch_root_lem_example : (root : Bytes) × (batch_root keep four ≡ some root) × IsRoot keep four root
batch_root_lem_example = batch_root_lem keep four (2, refl)

Run-Ordered_example :
    Ordered keep counter popped_four ((0, four) ∷ (1, two) ∷ []) ((0, 1 ∷ 2 ∷ 3 ∷ 4 ∷ []) ∷ [])
Run-Ordered_example = Run-Ordered keep counter 0 answers_run

steps_answer_example :
    (self' : MerkleAggregator ℕ ℕ) × (steps keep counter 1 popped_four ≡ some self')
    × (self'.internal_queue ≡ [])
    × Answers keep counter
        ((0, four) ∷ (1, two) ∷ [])
        ((0, 1 ∷ 2 ∷ 3 ∷ 4 ∷ []) ∷ self'.completed_proofs)
steps_answer_example = steps_answer keep counter 0 answers_run
