-- ===== src/Merkle/Merge/Rows.antt =====
-- The loop of `merge` lays out the rows of the ideal tree over all leaves.
use arm_noir.Prelude.{
  ℕ, zero, suc, ◌+◌, ◌-◌, ◌*◌, ◌^◌, ◌≤◌, ◌<◌, ◌≡◌, refl, sym, ap, ◌∙◌, true, some, List, [], ◌∷◌,
  ◌++◌, append-nil, append_assoc, map, length, length-append, take, drop, leb, le→leb, arith,
}
use arm_noir.Bytes.Laws.{take-length-append, drop-length-append}
use arm_noir.Merkle.{Hashable, CommitmentTree}
use arm_noir.Merkle.Ideal.{items, items_from, length-items_from, up_even, node, row_width}
use arm_noir.Merkle.Build.{layout}
use arm_noir.Merkle.Concat.{items_from-add, row-append, twice_pow}
use arm_noir.Merkle.Merge.{slice, append_rows}

-- The start of a row that has nodes before it and behind it.
pub slice-row {ℓ} :
    {A : Type ℓ} (f : ℕ → A) (before rest : List A) (w n : ℕ)
    → w ≤ n
    → slice (length before) w (before ++ (items f n ++ rest)) ≡ some (items f w)
unfolding slice
slice-row f before rest w n p =
    let more = items_from f (0 + w) (n - w) in
    let split : w + (n - w) ≡ n = omega arith in
    let parts : items f n ≡ items f w ++ more =
      ap (items f) (sym split) ∙ items_from-add f 0 w (n - w) in
    let size : length (items f w) ≡ w = length-items_from f 0 w in
    let sizes : length (items f n) ≡ n = length-items_from f 0 n in
    let inside : leb (length before + w) (length (before ++ (items f n ++ rest))) ≡ true =
      le→leb _ _
        (omega (arith, length-append before (items f n ++ rest), length-append (items f n) rest)) in
    let z : length before + 0 ≡ length before = omega arith in
    let start : drop (length before) (before ++ (items f n ++ rest)) ≡ items f w ++ (more ++ rest) =
      (rw z at (drop-length-append before (items f n ++ rest) 0))
      ∙ ap (λ b. b ++ rest) parts
      ∙ append_assoc (items f w) more rest in
    let first : take w (items f w ++ (more ++ rest)) ≡ items f w =
      ap (λ i. take i (items f w ++ (more ++ rest))) (sym size)
      ∙ take-length-append (items f w) (more ++ rest) in
    rw (inside, start, first)

module _ {ℓ} {Node : Type ℓ} (h : Hashable Node) where
  -- A row of a tree begins with its nodes, and with those of the even row where rows are above it.
  pub layout-start :
      (leafs : List Node) (r k : ℕ)
      → (n : ℕ) × (rest : List Node) × (layout h leafs r k ≡ items (node h leafs k) n ++ rest)
        × (row_width h leafs k ≤ n)
        × (0 < r → up_even (row_width h leafs k) ≤ n)
  layout-start leafs zero k =
      let w = row_width h leafs k in
      (w, [], sym (append-nil (items (node h leafs k) w)), omega arith, λ p. absurd (omega arith))
  layout-start leafs (suc r) k =
      let w = row_width h leafs k in
      (up_even w, layout h leafs r (suc k), refl, omega arith, λ p. omega arith)

  -- A full list of leaves has as many nodes as fit.
  pub width_full :
      (leafs : List Node) (k c : ℕ) → length leafs ≡ c * 2 ^ k → row_width h leafs k ≡ c
  unfolding row_width
  width_full leafs zero c e = omega arith
  width_full leafs (suc k) c e =
      let below = width_full leafs k (c + c) (e ∙ twice_pow c k) in omega (arith, below)

  -- The leaves of some subtrees, each with its own.
  abbrev pub all_leafs : List (List Node × CommitmentTree Node) → List Node
  all_leafs [] = []
  all_leafs ((leafs, t) ∷ ps) = leafs ++ all_leafs ps

  abbrev pub trees : List (List Node × CommitmentTree Node) → List (CommitmentTree Node)
  trees = map (λ p. p.1)

  -- The nodes of a tree from a height on, at a start.
  abbrev pub At : List Node → CommitmentTree Node → ℕ → ℕ → ℕ → Type ℓ
  At leafs t r k start =
      (before : List Node) × (t.nodes ≡ before ++ layout h leafs r k) × (length before ≡ start)

  -- The same of all full subtrees, with 2 ^ j nodes at the height.
  abbrev pub AllAt : List (List Node × CommitmentTree Node) → ℕ → ℕ → ℕ → ℕ → Type ℓ
  AllAt [] j r k start = Unit
  AllAt ((leafs, t) ∷ ps) j r k start =
      ((length leafs ≡ 2 ^ j * 2 ^ k) × At leafs t r k start) × AllAt ps j r k start

  pub length-all_leafs :
      (ps : List (List Node × CommitmentTree Node)) (j r k start : ℕ)
      → AllAt ps j r k start
      → length (all_leafs ps) ≡ length ps * 2 ^ j * 2 ^ k
  length-all_leafs [] j r k start a = omega arith
  length-all_leafs ((leafs, t) ∷ ps) j r k start ((e, _), a) =
      let rest = length-all_leafs ps j r k start a in
      let sum = length-append leafs (all_leafs ps) in grind arith

  -- A row of all full subtrees.
  pub append_rows_lem :
      (ps : List (List Node × CommitmentTree Node)) (j r k start : ℕ) (tree : List Node)
      → AllAt ps j r k start
      → append_rows start (2 ^ j) (trees ps) tree
        ≡ some (tree ++ items (node h (all_leafs ps) k) (length ps * 2 ^ j))
  unfolding append_rows
  append_rows_lem [] j r k start tree a =
      let z : 0 * 2 ^ j ≡ 0 = omega arith in rw (z, append-nil tree)
  append_rows_lem ((leafs, t) ∷ ps) j r k start tree ((e, (before, nodes, size)), a) =
      let w = 2 ^ j in
      let (n, rest, begins, fits, _) = layout-start leafs r k in
      let full = width_full leafs k w e in
      let row : slice start w t.nodes ≡ some (items (node h leafs k) w) =
        rw (nodes, ← size, begins) (slice-row (node h leafs k) before rest w n (omega arith)) in
      let next = append_rows_lem ps j r k start (tree ++ items (node h leafs k) w) a in
      let more : suc (length ps) * w ≡ w + length ps * w = grind arith in
      rw (row, next, more, row-append h leafs (all_leafs ps) k w (length ps * w) e)
        (ap some (
          append_assoc tree (items (node h leafs k) w)
            (items (node h (all_leafs ps) k) (length ps * w))))
