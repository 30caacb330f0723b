-- ===== src/Merkle/Merge/Tests.antt =====
-- Trees of two leaves merged with one of a single leaf.
use arm_noir.Prelude.{ℕ, ◌+◌, ◌*◌, ◌≡◌, refl, List, [], ◌∷◌, some, arith}
use arm_noir.Merkle.{Hashable, CommitmentTree}
use arm_noir.Merkle.Cache.{IsCache}
use arm_noir.Merkle.Build.{tree_of}
use arm_noir.Merkle.Merge.{merge}
use arm_noir.Merkle.Merge.Whole.{merge-tree_of}

abbrev hash : Hashable ℕ
hash = record { combine = λ level lhs rhs. 100 * level + 3 * lhs + 7 * rhs + 1; empty_leaf = 5 }

abbrev pair : ℕ → CommitmentTree ℕ
pair x = tree_of hash (x ∷ (x + 1) ∷ []) 1 []

abbrev single : CommitmentTree ℕ
single = tree_of hash (50 ∷ []) 1 (5 ∷ [])

merge-tree_of_example :
    (cache : List ℕ) × (merge hash 3 (pair 10 ∷ pair 20 ∷ single ∷ [])
      ≡ some (tree_of hash (10 ∷ 11 ∷ 20 ∷ 21 ∷ 50 ∷ []) 3 cache))
    × IsCache hash cache
merge-tree_of_example =
    merge-tree_of hash (10 ∷ 11 ∷ [], pair 10) ((20 ∷ 21 ∷ [], pair 20) ∷ []) (50 ∷ []) single 1 1 3
      ((refl, [], refl), ((refl, [], refl), tt)) (5 ∷ []) refl (omega arith) (omega arith)
