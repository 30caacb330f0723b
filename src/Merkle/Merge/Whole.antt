-- ===== src/Merkle/Merge/Whole.antt =====
-- `merge` builds the tree over the leaves of its subtrees.
use arm_noir.Prelude.{
  ℕ, suc, ◌+◌, ◌-◌, ◌*◌, ◌^◌, ◌≤◌, ◌≡◌, refl, sym, ap, ◌∙◌, true, some, List, [], ◌∷◌, ◌++◌, length,
  length-append, length-map, ◌>>=◌, suc_le_pow, is_power_of_two-pow, arith,
}
use arm_noir.Merkle.{Hashable, CommitmentTree, complete}
use arm_noir.Merkle.Ideal.{row_width, node, items}
use arm_noir.Merkle.Cache.{IsCache}
use arm_noir.Merkle.Build.{layout, tree_of, add_rows_lem}
use arm_noir.Merkle.Merge.{split_last, all_size, merge_rows, merge_split, merge}
use arm_noir.Merkle.Merge.Rows.{all_leafs, trees, AllAt, length-all_leafs}
use arm_noir.Merkle.Merge.Loop.{rows_below, layout-rows_below, merge_rows_lem}

split_last-append {ℓ} :
    {A : Type ℓ} (x : A) (xs : List A) (last : A) → split_last x (xs ++ last ∷ []) ≡ (x ∷ xs, last)
unfolding split_last
split_last-append x [] last = refl
split_last-append x (y ∷ xs) last = rw (split_last-append y xs last)

module _ {ℓ} {Node : Type ℓ} (h : Hashable Node) where
  row_width-zero : (leafs : List Node) → row_width h leafs 0 ≡ length leafs
  unfolding row_width
  row_width-zero leafs = refl

  merge_several :
      (depth : ℕ) (t : CommitmentTree Node) (ts : List (CommitmentTree Node))
      (last : CommitmentTree Node)
      → merge h depth (t ∷ (ts ++ last ∷ [])) ≡ merge_split h depth t.leaf_count (t ∷ ts) last
  unfolding merge split_last
  merge_several depth t [] last = refl
  merge_several depth t (u ∷ ts) last =
      ap (λ s. merge_split h depth t.leaf_count s.0 s.1) (split_last-append t (u ∷ ts) last)

  -- Each tree is the one of its leaves, of which there are 2 ^ m.
  abbrev pub AllFull : List (List Node × CommitmentTree Node) → ℕ → ℕ → Type ℓ
  AllFull [] m depth = Unit
  AllFull ((leafs, t) ∷ ps) m depth =
      ((length leafs ≡ 2 ^ m) × (cache : List Node) × (t ≡ tree_of h leafs depth cache))
      × AllFull ps m depth

  AllFull-AllAt :
      (ps : List (List Node × CommitmentTree Node)) (m depth : ℕ)
      → AllFull ps m depth
      → AllAt h ps m depth 0 0
  AllFull-AllAt [] m depth a = tt
  AllFull-AllAt ((leafs, t) ∷ ps) m depth ((e, cache, f), a) =
      let size : length leafs ≡ 2 ^ m * 2 ^ 0 = omega arith in
      ((size, ([], ap (λ t. t.nodes) f, refl)), AllFull-AllAt ps m depth a)

  AllFull-all_size :
      (ps : List (List Node × CommitmentTree Node)) (m depth : ℕ)
      → AllFull ps m depth
      → all_size (2 ^ m) (trees h ps) ≡ true
  unfolding all_size
  AllFull-all_size [] m depth a = refl
  AllFull-all_size ((leafs, t) ∷ ps) m depth ((e, cache, f), a) =
      let count : t.leaf_count ≡ 2 ^ m = ap (λ t. t.leaf_count) f ∙ e in
      let rest = AllFull-all_size ps m depth a in ground arith

  module _ (ps : List (List Node × CommitmentTree Node)) (leafs : List Node)
      (last : CommitmentTree Node) (m depth tree_depth : ℕ) (full : AllFull ps m depth)
      (cache0 : List Node) (is_last : last ≡ tree_of h leafs depth cache0) (p : m ≤ depth)
      (q : m ≤ tree_depth) where
    abbrev whole : List Node
    whole = all_leafs h ps ++ leafs

    count_lem : length ps * 2 ^ m + last.leaf_count ≡ length whole
    count_lem =
        let count : last.leaf_count ≡ length leafs = ap (λ t. t.leaf_count) is_last in
        let all = length-all_leafs h ps m depth 0 0 (AllFull-AllAt ps m depth full) in
        let one : length ps * 2 ^ m * 2 ^ 0 ≡ length ps * 2 ^ m = grind arith in
        let both = length-append (all_leafs h ps) leafs in omega arith

    complete_lem :
        let before = rows_below h whole m 0 in
        let w = row_width h whole m in
        (cache : List Node) × (complete h tree_depth
            (before ++ items (node h whole m) w)
            (length before)
            w
            m
            (length whole)
          ≡ some (tree_of h whole tree_depth cache))
        × IsCache h cache
    unfolding complete
    complete_lem =
        let (cache, built, c) =
          add_rows_lem h whole (tree_depth - m) m (rows_below h whole m 0) [] (0, refl) in
        let below = layout-rows_below h whole m (tree_depth - m) 0 in
        let z : 0 + m ≡ m = omega arith in
        let d : m + (tree_depth - m) ≡ tree_depth = omega arith in
        let all : layout h whole tree_depth 0
            ≡ rows_below h whole m 0 ++ layout h whole (tree_depth - m) m =
          (rw (d, z) at below) in
        (cache, rw (built, all), c)

    merged_lem :
        (cache : List Node) × ((merge_rows
              (suc (2 ^ m))
              (trees h ps)
              last
              0
              0
              (2 ^ m)
              0
              last.leaf_count
              0
              (length whole)
              []
            >>= λ (tree, start, width, height).
                complete h tree_depth tree start width height (length whole))
          ≡ some (tree_of h whole tree_depth cache))
        × IsCache h cache
    merged_lem =
        let (cache, built, c) = complete_lem in
        let count : last.leaf_count ≡ row_width h leafs 0 =
          ap (λ t. t.leaf_count) is_last ∙ sym (row_width-zero leafs) in
        let z : 0 + m ≡ m = omega arith in
        let rows =
          merge_rows_lem h ps leafs last m (suc (2 ^ m)) depth 0 0 0 0 (length whole) []
            (let p = suc_le_pow m in omega arith) p (AllFull-AllAt ps m depth full)
            ([], ap (λ t. t.nodes) is_last, refl) refl (sym (row_width-zero whole)) in
        let rows' =
          ap (λ c. merge_rows (suc (2 ^ m)) (trees h ps) last 0 0 (2 ^ m) 0 c 0 (length whole) [])
            count
          ∙ (rw z at rows) in
        (cache, rw rows' built, c)

    split_lem :
        (cache : List Node) × (merge_split h tree_depth (2 ^ m) (trees h ps) last
          ≡ some (tree_of h whole tree_depth cache))
        × IsCache h cache
    unfolding merge_split
    split_lem =
        let (cache, merged, c) = merged_lem in
        (
          cache,
          rw (is_power_of_two-pow m, AllFull-all_size ps m depth full, length-map, count_lem)
              merged,
          c,
        )

  -- One or more full trees of 2 ^ m leaves each and a last tree of any number of leaves, all of one
  -- depth that is at least m, are merged for any depth that is at least m: the call returns, and its
  -- result is the ideal tree over all their leaves in order, with a cache of empty roots.
  pub merge-tree_of :
      (first : List Node × CommitmentTree Node) (ps : List (List Node × CommitmentTree Node))
      (leafs : List Node) (last : CommitmentTree Node) (m depth tree_depth : ℕ)
      → AllFull (first ∷ ps) m depth
      → (cache0 : List Node) → last ≡ tree_of h leafs depth cache0
      → m ≤ depth
      → m ≤ tree_depth
      → (cache : List Node) × (merge h tree_depth (trees h (first ∷ ps) ++ last ∷ [])
          ≡ some (tree_of h (all_leafs h (first ∷ ps) ++ leafs) tree_depth cache))
        × IsCache h cache
  merge-tree_of (leafs0, t) ps leafs last m depth tree_depth full cache0 is_last p q =
      let (cache, split, c) =
        split_lem ((leafs0, t) ∷ ps) leafs last m depth tree_depth full cache0 is_last p q in
      let ((e, cache1, f), a) = full in
      let size : t.leaf_count ≡ 2 ^ m = ap (λ t. t.leaf_count) f ∙ e in
      (
        cache,
        merge_several tree_depth t (trees h ps) last
            ∙ ap (λ s. merge_split h tree_depth s (trees h ((leafs0, t) ∷ ps)) last) size
            ∙ split,
        c,
      )
