-- ===== src/Merkle/Root.antt =====
-- `CommitmentTree::root` after `CommitmentTree::new`: the root of the ideal tree.
use mathlib.Core.List.{get_last?}
use native.Mathlib.Nat.{pow-suc}
use arm_noir.Prelude.{
  ℕ, zero, suc, ◌+◌, ◌*◌, ◌^◌, ◌≤◌, ◌<◌, ◌≡◌, ◌⊎◌, inl, inr, Option, some, List, [], ◌∷◌, ◌++◌,
  length, arith, ◌>>=◌,
}
use arm_noir.Merkle.{Hashable, new, root}
use arm_noir.Merkle.Ideal.{empty, node, row_width, node_past}
use arm_noir.Merkle.Cache.{IsCache, empty_root_lem}
use arm_noir.Merkle.Build.{layout, tree_of, new-tree_of}

get_last?-append {ℓ} :
    {A : Type ℓ} (xs ys : List A) (a : A) → get_last? ys ≡ some a → get_last? (xs ++ ys) ≡ some a
get_last?-append [] ys a p = p
get_last?-append (x ∷ []) [] a p = cc
get_last?-append (x ∷ []) (y ∷ ys) a p = p
get_last?-append (x ∷ x' ∷ xs) ys a p = get_last?-append (x' ∷ xs) ys a p

zero-or-pos : (n : ℕ) → (n ≡ 0) ⊎ (0 < n)
zero-or-pos n = omega arith

module _ {ℓ} {Node : Type ℓ} (h : Hashable Node) where
  module _ (leafs : List Node) where
    abbrev width : ℕ → ℕ
    width = row_width h leafs

    -- A row is at most half as wide as the one below it, rounded up.
    pub width-le_pow : (k r : ℕ) → length leafs ≤ 2 ^ (k + r) → width k ≤ 2 ^ r
    unfolding row_width
    width-le_pow zero r p = let e : 0 + r ≡ r = omega arith in rw e at p
    width-le_pow (suc k) r p =
        let e : suc k + r ≡ k + suc r = omega arith in
        let below : width k ≤ 2 ^ suc r = width-le_pow k (suc r) (rw e at p) in
        let double : 2 ^ suc r ≡ 2 * 2 ^ r = rw pow-suc (omega arith) in omega arith

    pub width_pos : (k : ℕ) → 0 < length leafs → 0 < width k
    unfolding row_width
    width_pos zero p = p
    width_pos (suc k) p = omega (arith, width_pos k p)

    pub width_none : (k : ℕ) → length leafs ≡ 0 → width k ≡ 0
    unfolding row_width
    width_none zero p = p
    width_none (suc k) p = omega (arith, width_none k p)

    layout_none : (rounds k : ℕ) → length leafs ≡ 0 → layout h leafs rounds k ≡ []
    layout_none zero k p = rw (width_none k p)
    layout_none (suc rounds) k p = rw (width_none k p, layout_none rounds (suc k) p)

    get_last?-layout :
        (rounds k : ℕ)
        → width (k + rounds) ≡ 1
        → get_last? (layout h leafs rounds k) ≡ some (node h leafs (k + rounds) 0)
    get_last?-layout zero k p = let e : k + 0 ≡ k = omega arith in rw (e, rw e at p)
    get_last?-layout (suc rounds) k p =
        let e : k + suc rounds ≡ suc k + rounds = omega arith in
        get_last?-append _ (layout h leafs rounds (suc k)) _
          (rw e (get_last?-layout rounds (suc k) (rw e at p)))

    -- A call of `root` returns the root of the ideal tree, from the last node or, where there is
    -- no leaf, from the cache; it changes no node and leaves a cache.
    pub root-tree_of :
        (depth : ℕ) (cache : List Node)
        → length leafs ≤ 2 ^ depth
        → IsCache h cache
        → (cache' : List Node) × (root h (tree_of h leafs depth cache)
            ≡ some (node h leafs depth 0, tree_of h leafs depth cache'))
          × IsCache h cache'
    unfolding root
    root-tree_of depth cache fits c = elim (zero-or-pos (length leafs)) [
      | inl none_left ↦
          let (cache', r, c') = empty_root_lem h cache depth c in
          let past : node h leafs depth 0 ≡ empty h depth =
            node_past h leafs depth 0 (omega (arith, width_none depth none_left)) in
          (cache', rw (layout_none depth 0 none_left, r, past), c')
      | inr some_left ↦
          let e : 0 + depth ≡ depth = omega arith in
          let narrow =
            width-le_pow depth 0 (let z : depth + 0 ≡ depth = omega arith in rw z fits) in
          let one : width (0 + depth) ≡ 1 = rw e (omega (arith, width_pos depth some_left)) in
          let last : get_last? (layout h leafs depth 0) ≡ some (node h leafs depth 0) =
            (rw e at (get_last?-layout depth 0 one)) in
          (cache, rw (last, root), c)
    ]

  -- `CommitmentTree::new(api, depth, leafs).root(api)`
  unfoldable pub root_of : ℕ → List Node → Option Node
  unfolding new root
  root_of depth leafs = do tree ← new h depth leafs; (r, _) ← root h tree; some r

  -- For any leaves that fit below the depth, and at least one leaf or level, the root of a new
  -- tree is computed without a panic, and it is the root of the ideal tree, in which every leaf
  -- past the given ones is the empty leaf.
  pub root_of-node :
      (depth : ℕ) (leafs : List Node)
      → 0 < length leafs + depth
      → length leafs ≤ 2 ^ depth
      → root_of depth leafs ≡ some (node h leafs depth 0)
  unfolding root_of
  root_of-node depth leafs p fits =
      let (cache, built, c) = new-tree_of h leafs depth p in
      let (cache', r, _) = root-tree_of leafs depth cache fits c in rw (built, r)
