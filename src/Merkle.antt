-- ===== src/Merkle.antt =====
-- The Merkle tree of nodes/src/merkle.rs: `Hashable`, `CommitmentTree`, `MerklePath`.
-- `none` is a panic: an index out of range, or a `usize` subtraction below zero. The context `api`
-- is the hashing backend; `combine` is its hash, a function of the level and the two nodes.
pub mod Ideal
pub mod Cache
pub mod Build
pub mod Root
pub mod Path
pub mod Concat
pub mod Merge
mod Tests
use mathlib.Core.List.{get_last?}
use arm_noir.Prelude.{
  ℕ, zero, suc, ◌+◌, ◌-◌, ◌*◌, ◌/◌, ◌%◌, Option, none, some, List, [], ◌∷◌, ◌++◌, length, get_elem?,
  Bool, true, false, ltb, ◌==◌, if◌then◌else◌, ◌>>=◌,
}

pub record Hashable {ℓ} (Node : Type ℓ) : Type ℓ where
  pub combine : ℕ → Node → Node → Node
  pub empty_leaf : Node

pub record MerklePath {ℓ} (Node : Type ℓ) : Type ℓ where
  pub auth_path : List (Node × Bool)
  pub position : ℕ

pub record CommitmentTree {ℓ} (Node : Type ℓ) : Type ℓ where
  pub nodes : List Node
  pub leaf_count : ℕ
  pub cache : List Node
  pub depth : ℕ

-- `size`
abbrev pub size {ℓ} : {Node : Type ℓ} → CommitmentTree Node → ℕ
size tree = tree.leaf_count

module _ {ℓ} {Node : Type ℓ} (h : Hashable Node) where
  open h use {combine, empty_leaf}

  -- The loop of `empty_root`: `rounds` more entries, the next one from `cache[i]`.
  unfoldable pub expand_cache : ℕ → ℕ → List Node → Option (List Node)
  expand_cache zero i cache = some cache
  expand_cache (suc rounds) i cache = do
    x ← get_elem? cache i
    expand_cache rounds (suc i) (cache ++ combine i x x ∷ [])

  -- `if cache.is_empty() { cache.push(empty_leaf()) }`
  unfoldable pub init_cache : List Node → List Node
  init_cache [] = empty_leaf ∷ []
  init_cache (x ∷ xs) = x ∷ xs

  -- The empty root at a level, and the cache after the call.
  unfoldable pub empty_root : List Node → ℕ → Option (Node × List Node)
  unfolding init_cache expand_cache
  empty_root cache level = do
    let start = init_cache cache
    full ← expand_cache (level - (length start - 1)) (length start - 1) start
    x ← get_elem? full level
    some (x, full)

  -- The inner loop of `complete`: `rounds` parents of the row at `start`, from the j-th on.
  unfoldable pub pair_row : ℕ → ℕ → ℕ → ℕ → List Node → Option (List Node)
  pair_row height start j zero tree = some tree
  pair_row height start j (suc rounds) tree = do
    left ← get_elem? tree (start + 2 * j)
    right ← get_elem? tree (start + 2 * j + 1)
    pair_row height start (suc j) rounds (tree ++ combine height left right ∷ [])

  -- A dummy for the right-most parent's right child, where the row is odd.
  unfoldable pub pad_row : ℕ → List Node → ℕ → List Node → Option (List Node × ℕ × List Node)
  unfolding empty_root
  pad_row height tree width cache =
      if width % 2 == 1
      then (do (x, cache') ← empty_root cache height; some (tree ++ x ∷ [], width + 1, cache'))
      else some (tree, width, cache)

  -- The outer loop of `complete`, over `rounds` heights; the nodes and the cache at its end.
  unfoldable pub add_rows : ℕ → ℕ → List Node → ℕ → ℕ → List Node → Option (List Node × List Node)
  unfolding pad_row pair_row
  add_rows zero height tree start width cache = some (tree, cache)
  add_rows (suc rounds) height tree start width cache = do
    (tree', width', cache') ← pad_row height tree width cache
    tree'' ← pair_row height start 0 (width' / 2) tree'
    add_rows rounds (suc height) tree'' (start + width') (width' / 2) cache'

  unfoldable pub complete : ℕ → List Node → ℕ → ℕ → ℕ → ℕ → Option (CommitmentTree Node)
  unfolding add_rows
  complete tree_depth tree prev_start prev_width heightp leafs = do
    (nodes, cache) ← add_rows (tree_depth - heightp) heightp tree prev_start prev_width []
    some (record { nodes = nodes; leaf_count = leafs; cache = cache; depth = tree_depth })

  -- The capacity `leafs.len() * 2 + depth - 1` underflows for no leaf at depth 0.
  unfoldable pub new : ℕ → List Node → Option (CommitmentTree Node)
  unfolding complete
  new depth leafs =
      if length leafs * 2 + depth == 0
      then none
      else complete depth leafs 0 (length leafs) 0 (length leafs)

  -- The root, and the tree with its cache as the call leaves it.
  unfoldable pub root : CommitmentTree Node → Option (Node × CommitmentTree Node)
  unfolding empty_root
  root tree = elim (get_last? tree.nodes) [
    | some x ↦ some (x, tree)
    | none ↦ do
      (x, cache') ← empty_root tree.cache tree.depth
      some (x, record tree { cache = cache' })
  ]

  -- A node of the current row, or the empty root of its height.
  unfoldable pub read_node : List Node → ℕ → ℕ → ℕ → ℕ → List Node → Option (Node × List Node)
  unfolding empty_root
  read_node nodes height start width i cache =
      if ltb i width
      then (do x ← get_elem? nodes (start + i); some (x, cache))
      else empty_root cache height

  -- The sibling of `pos`, and whether the current node is a right child.
  unfoldable pub read_sibling :
      List Node → ℕ → ℕ → ℕ → ℕ → List Node → Option ((Node × Bool) × List Node)
  unfolding read_node
  read_sibling nodes height start width pos cache =
      if pos % 2 == 0
      then (do
        (x, cache') ← read_node nodes height start width (pos + 1) cache
        some ((x, false), cache'))
      else (do
        (x, cache') ← read_node nodes height start width (pos - 1) cache
        some ((x, true), cache'))

  -- The loop of `path`, over `rounds` heights.
  unfoldable pub climb :
      List Node → ℕ → ℕ → ℕ → ℕ → ℕ → List Node → Option (List (Node × Bool) × List Node)
  unfolding read_sibling
  climb nodes zero height start width pos cache = some ([], cache)
  climb nodes (suc rounds) height start width pos cache = do
    let width' = if width % 2 == 1 then width + 1 else width
    (entry, cache') ← read_sibling nodes height start width' pos cache
    (rest, cache'') ← climb nodes rounds (suc height) (start + width') (width' / 2) (pos / 2) cache'
    some (entry ∷ rest, cache'')

  unfoldable pub path : CommitmentTree Node → ℕ → Option (MerklePath Node × CommitmentTree Node)
  unfolding climb
  path tree pos = do
    (entries, cache') ← climb tree.nodes tree.depth 0 0 tree.leaf_count pos tree.cache
    some (record { auth_path = entries; position = pos }, record tree { cache = cache' })
