-- ===== src/Merkle/Path.antt =====
-- `CommitmentTree::path`: the siblings in the ideal tree, and the root that they lead to.
use native.Mathlib.Nat.{pow-suc}
use arm_noir.Prelude.{
  ℕ, zero, suc, ◌+◌, ◌-◌, ◌*◌, ◌/◌, ◌%◌, ◌^◌, ◌≤◌, ◌<◌, ◌≡◌, refl, inl, inr, some, List, [], ◌∷◌,
  ◌++◌, append_assoc, Bool, Bool-cases, true, false, ltb, ◌==◌, if◌then◌else◌, length, get_elem?,
  get_or, ap, ap₂, arith,
}
use arm_noir.Merkle.{
  Hashable, CommitmentTree, MerklePath, new, root, path, climb, read_sibling, read_node,
}
use arm_noir.Merkle.Ideal.{items, up_even, node, row_width, node_past}
use arm_noir.Merkle.Cache.{IsCache, empty_root_lem}
use arm_noir.Merkle.Root.{root-tree_of}
use arm_noir.Merkle.Build.{get_elem?-row, layout, tree_of, new-tree_of, length-row, next_width}

module _ {ℓ} {Node : Type ℓ} (h : Hashable Node) where
  open h use {combine}

  -- Hashes a leaf upwards along a path; `true` marks the siblings on the left.
  unfoldable pub apply_path : ℕ → Node → List (Node × Bool) → Node
  apply_path k current [] = current
  apply_path k current ((sibling, is_right) ∷ rest) =
      apply_path (suc k) (if is_right then combine k sibling current else combine k current sibling)
        rest

  module _ (leafs : List Node) where
    abbrev width : ℕ → ℕ
    width = row_width h leafs

    abbrev sibling_of : ℕ → ℕ
    sibling_of pos = if pos % 2 == 0 then pos + 1 else pos - 1

    -- The siblings along the way up from a node, with the side of each node on the way.
    unfoldable pub siblings : ℕ → ℕ → ℕ → List (Node × Bool)
    siblings zero k pos = []
    siblings (suc rounds) k pos =
        (node h leafs k (sibling_of pos), pos % 2 == 1) ∷ siblings rounds (suc k) (pos / 2)

    -- A read of a row gives the ideal node, also past the row's end.
    read_node_lem :
        (k i : ℕ) (before behind cache : List Node)
        → IsCache h cache
        → let n = up_even (width k) in
          (cache' : List Node) × (read_node h
              (before ++ (items (node h leafs k) n ++ behind))
              k
              (length before)
              n
              i
              cache
            ≡ some (node h leafs k i, cache'))
          × IsCache h cache'
    unfolding read_node
    read_node_lem k i before behind cache c = elim (Bool-cases (ltb i (up_even (width k)))) [
      | inl inside ↦ (
        cache,
        rw (
          inside,
          get_elem?-row (node h leafs k) before behind (up_even (width k)) i (ground arith),
        ),
        c,
      )
      | inr past ↦
          let (cache', r, c') = empty_root_lem h cache k c in
          let e = node_past h leafs k i (ground arith) in (cache', rw (past, r, e), c')
    ]

    read_sibling_lem :
        (k pos : ℕ) (before behind cache : List Node)
        → IsCache h cache
        → let n = up_even (width k) in
          (cache' : List Node) × (read_sibling h
              (before ++ (items (node h leafs k) n ++ behind))
              k
              (length before)
              n
              pos
              cache
            ≡ some ((node h leafs k (sibling_of pos), pos % 2 == 1), cache'))
          × IsCache h cache'
    unfolding read_sibling
    read_sibling_lem k pos before behind cache c = elim (Bool-cases (pos % 2 == 0)) [
      | inl left ↦
          let right : (pos % 2 == 1) ≡ false = ground arith in
          let (cache', r, c') = read_node_lem k (pos + 1) before behind cache c in
          (cache', rw (left, right, r), c')
      | inr right ↦
          let is_right : (pos % 2 == 1) ≡ true = ground arith in
          let (cache', r, c') = read_node_lem k (pos - 1) before behind cache c in
          (cache', rw (right, is_right, r), c')
    ]

    even_width : (w : ℕ) → (if w % 2 == 1 then w + 1 else w) ≡ up_even w
    even_width w = ground arith

    climb_lem :
        (rounds k pos : ℕ) (before cache : List Node)
        → IsCache h cache
        → (cache' : List Node) × (climb h
              (before ++ layout h leafs rounds k)
              rounds
              k
              (length before)
              (width k)
              pos
              cache
            ≡ some (siblings rounds k pos, cache'))
          × IsCache h cache'
    unfolding climb siblings
    climb_lem zero k pos before cache c = (cache, refl, c)
    climb_lem (suc rounds) k pos before cache c =
        let n : ℕ = up_even (width k) in
        let behind = layout h leafs rounds (suc k) in
        let (cache', r, c') = read_sibling_lem k pos before behind cache c in
        let (cache'', rest, c'') =
          climb_lem rounds (suc k) (pos / 2) (before ++ items (node h leafs k) n) cache' c' in
        let rest' : climb h (before ++ (items (node h leafs k) n ++ behind)) rounds (suc k)
              (length before + n) (n / 2) (pos / 2) cache'
            ≡ some (siblings rounds (suc k) (pos / 2), cache'') =
          rw
            (
              length-row h leafs k n before,
              next_width h leafs k,
              ← append_assoc before (items (node h leafs k) n) behind,
            )
            rest in
        (cache'', rw (even_width (width k), r, rest'), c'')

    -- For every position, also past the leaves, `path` does not panic: it returns the siblings in
    -- the ideal tree from the leaf to the root, whatever empty roots are cached, and leaves a cache.
    pub path-siblings :
        (depth pos : ℕ) (cache : List Node)
        → IsCache h cache
        → (cache' : List Node) × (path h (tree_of h leafs depth cache) pos
            ≡ some (
              record { auth_path = siblings depth 0 pos; position = pos },
              tree_of h leafs depth cache',
            ))
          × IsCache h cache'
    unfolding path row_width
    path-siblings depth pos cache c =
        let (cache', r, c') = climb_lem depth 0 pos [] cache c in (cache', rw r, c')

    parent :
        (k pos : ℕ)
        → (if pos % 2 == 1
            then combine k (node h leafs k (sibling_of pos)) (node h leafs k pos)
            else combine k (node h leafs k pos) (node h leafs k (sibling_of pos)))
          ≡ node h leafs (suc k) (pos / 2)
    unfolding node
    parent k pos = elim (Bool-cases (pos % 2 == 0)) [
      | inl left ↦
          let right : (pos % 2 == 1) ≡ false = ground arith in
          let at0 : pos ≡ 2 * (pos / 2) = ground arith in
          let at1 : pos + 1 ≡ 2 * (pos / 2) + 1 = omega arith in
          rw (right, left) (ap₂ (combine k) (ap (node h leafs k) at0) (ap (node h leafs k) at1))
      | inr right ↦
          let is_right : (pos % 2 == 1) ≡ true = ground arith in
          let at1 : pos ≡ 2 * (pos / 2) + 1 = ground arith in
          let at0 : pos - 1 ≡ 2 * (pos / 2) = omega arith in
          rw (is_right, right) (ap₂ (combine k) (ap (node h leafs k) at0) (ap (node h leafs k) at1))
    ]

    -- The siblings lead from a node to the ancestor that stands `rounds` higher.
    pub apply_path-siblings :
        (rounds k pos : ℕ)
        → pos < 2 ^ rounds
        → apply_path k (node h leafs k pos) (siblings rounds k pos) ≡ node h leafs (k + rounds) 0
    unfolding apply_path siblings
    apply_path-siblings zero k pos p =
        let z : pos ≡ 0 = omega arith in let e : k + 0 ≡ k = omega arith in rw (z, e)
    apply_path-siblings (suc rounds) k pos p =
        let double : 2 ^ suc rounds ≡ 2 ^ rounds * 2 = pow-suc 2 rounds in
        let e : k + suc rounds ≡ suc k + rounds = omega arith in
        let up = apply_path-siblings rounds (suc k) (pos / 2) (omega arith) in
        rw (e, parent k pos, apply_path) up

  get_elem?-get_or :
      (d a : Node) (leafs : List Node) (pos : ℕ)
      → get_elem? leafs pos ≡ some a
      → (get_or leafs pos d ≡ a) × (pos < length leafs)
  get_elem?-get_or d a [] pos e = cc
  get_elem?-get_or d a (x ∷ xs) zero e = (cc, omega arith)
  get_elem?-get_or d a (x ∷ xs) (suc pos) e =
      let (same, inside) = get_elem?-get_or d a xs pos e in (same, omega arith)

  -- Membership proofs are complete. In a tree of any leaves that fit below its depth, the path to
  -- the position of a leaf is computed without a panic, hashing the leaf along it gives a node, and
  -- the root of the tree, read after the call, is that node.
  pub path-root :
      (depth : ℕ) (leafs : List Node) (pos : ℕ) {leaf : Node}
      → get_elem? leafs pos ≡ some leaf
      → length leafs ≤ 2 ^ depth
      → (tree tree' tree'' : CommitmentTree Node) × (p : MerklePath Node) × (new h depth leafs
          ≡ some tree)
        × (path h tree pos ≡ some (p, tree'))
        × (root h tree' ≡ some (apply_path 0 leaf p.auth_path, tree''))
  unfolding node
  path-root depth leafs pos {leaf} at_pos fits =
      let (is_leaf, inside) = get_elem?-get_or h.empty_leaf leaf leafs pos at_pos in
      let (cache, built, c) = new-tree_of h leafs depth (omega arith) in
      let (cache', found, c') = path-siblings leafs depth pos cache c in
      let (cache'', r, _) = root-tree_of h leafs depth cache' fits c' in
      let up : apply_path 0 leaf (siblings leafs depth 0 pos) ≡ node h leafs depth 0 =
        (let z : 0 + depth ≡ depth = omega arith in
          rw (is_leaf, z) at (apply_path-siblings leafs depth 0 pos (omega arith))) in
      (
        tree_of h leafs depth cache,
        tree_of h leafs depth cache',
        tree_of h leafs depth cache'',
        record { auth_path = siblings leafs depth 0 pos; position = pos },
        built,
        found,
        rw up r,
      )
