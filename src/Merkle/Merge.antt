-- ===== src/Merkle/Merge.antt =====
-- `CommitmentTree::merge`: the rows of the subtrees side by side, and the rest of the tree above them.
pub mod Rows
pub mod Loop
pub mod Whole
mod Tests
use arm_noir.Prelude.{
  ℕ, zero, suc, ◌+◌, ◌-◌, ◌*◌, ◌/◌, ◌%◌, Bool, true, false, ◌&&◌, Option, none, some, List, [], ◌∷◌,
  ◌++◌, length, take, drop, leb, ltb, ◌==◌, if◌then◌else◌, ◌>>=◌, is_power_of_two,
}
use arm_noir.Merkle.{Hashable, CommitmentTree, complete}

-- `nodes[start..(start + width)]`
unfoldable pub slice {ℓ} : {Node : Type ℓ} → ℕ → ℕ → List Node → Option (List Node)
slice start width nodes =
    if leb (start + width) (length nodes) then some (take width (drop start nodes)) else none

-- The subtrees but the last, and the last.
unfoldable pub split_last {ℓ} : {A : Type ℓ} → A → List A → List A × A
split_last x [] = ([], x)
split_last x (y ∷ ys) = let (before, last) = split_last y ys in (x ∷ before, last)

module _ {ℓ} {Node : Type ℓ} where
  unfoldable pub all_size : ℕ → List (CommitmentTree Node) → Bool
  all_size size [] = true
  all_size size (t ∷ ts) = (t.leaf_count == size) && all_size size ts

  -- The rows of the full subtrees, behind the nodes so far.
  unfoldable pub append_rows : ℕ → ℕ → List (CommitmentTree Node) → List Node → Option (List Node)
  unfolding slice
  append_rows start width [] tree = some tree
  append_rows start width (t ∷ ts) tree = do
    row ← slice start width t.nodes
    append_rows start width ts (tree ++ row)

  -- The loop over the rows: the nodes, the start and the width of their last row, and its height. The
  -- width of the full subtrees is halved in each round, so that a fuel of
  -- the first one is enough.
  unfoldable pub merge_rows :
      ℕ
      → List (CommitmentTree Node)
      → CommitmentTree Node
      → ℕ
      → ℕ
      → ℕ
      → ℕ
      → ℕ
      → ℕ
      → ℕ
      → List Node
      → Option (List Node × ℕ × ℕ × ℕ)
  unfolding append_rows
  merge_rows zero full last height first_start first_width last_start last_width start width tree =
      none
  merge_rows (suc fuel) full last height first_start first_width last_start last_width start width
        tree =
      let pad = if last_width % 2 == 1 && ltb 1 first_width then 1 else 0 in
      let last_width' = last_width + pad in
      let width' = width + pad in
      append_rows first_start first_width full tree >>= λ tree1.
      slice last_start last_width' last.nodes >>= λ row.
      let rest =
        merge_rows fuel full last (suc height) (first_start + first_width) (first_width / 2)
          (last_start + last_width') (last_width' / 2) (start + width') (width' / 2)
          (tree1 ++ row) in
      if first_width == 1 then some (tree1 ++ row, start, width', height) else rest

  unfoldable pub merge_split :
      Hashable Node
      → ℕ
      → ℕ
      → List (CommitmentTree Node)
      → CommitmentTree Node
      → Option (CommitmentTree Node)
  unfolding merge_rows all_size
  merge_split h tree_depth size full last =
      let leafs = length full * size + last.leaf_count in
      let merged =
        merge_rows (suc size) full last 0 0 size 0 last.leaf_count 0 leafs []
        >>= λ (tree, start, width, height). complete h tree_depth tree start width height leafs in
      if is_power_of_two size && all_size size full then merged else none

  unfoldable pub merge :
      Hashable Node → ℕ → List (CommitmentTree Node) → Option (CommitmentTree Node)
  unfolding merge_split split_last
  merge h tree_depth [] =
      some (record { nodes = []; leaf_count = 0; cache = []; depth = tree_depth })
  merge h tree_depth (t ∷ []) = some t
  merge h tree_depth (t ∷ u ∷ ts) =
      let (full, last) = split_last t (u ∷ ts) in merge_split h tree_depth t.leaf_count full last
