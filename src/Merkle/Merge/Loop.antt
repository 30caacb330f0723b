-- ===== src/Merkle/Merge/Loop.antt =====
-- The loop of `merge` as a whole, and the tree above it.
use native.Mathlib.Nat.{pow-suc}
use arm_noir.Prelude.{
  ℕ, zero, suc, ◌+◌, ◌*◌, ◌/◌, ◌%◌, ◌^◌, ◌≤◌, ◌<◌, ◌≡◌, refl, sym, ap, ◌∙◌, false, ◌&&◌, some, List,
  [], ◌∷◌, ◌++◌, append-nil, append_assoc, length, length-append, ◌⊎◌, inl, inr, ltb, ◌==◌,
  if◌then◌else◌, suc_le_pow, arith,
}
use arm_noir.Merkle.{Hashable, CommitmentTree}
use arm_noir.Merkle.Ideal.{items, length-items_from, up_even, node, row_width}
use arm_noir.Merkle.Build.{layout, next_width}
use arm_noir.Merkle.Concat.{row-append, row_width-append, twice_pow}
use arm_noir.Merkle.Merge.{slice, append_rows, merge_rows}
use arm_noir.Merkle.Merge.Rows.{
  slice-row, layout-start, width_full, all_leafs, trees, At, AllAt, length-all_leafs,
  append_rows_lem,
}

double_mul : (c p : ℕ) → c * (p + p) ≡ 2 * (c * p)
double_mul c p = grind arith

module _ {ℓ} {Node : Type ℓ} (h : Hashable Node) where
  -- The even rows of j heights.
  abbrev pub rows_below : List Node → ℕ → ℕ → List Node
  rows_below leafs zero k = []
  rows_below leafs (suc j) k =
      items (node h leafs k) (up_even (row_width h leafs k)) ++ rows_below leafs j (suc k)

  pub layout-rows_below :
      (leafs : List Node) (j r k : ℕ)
      → layout h leafs (j + r) k ≡ rows_below leafs j k ++ layout h leafs r (k + j)
  layout-rows_below leafs zero r k =
      let a : 0 + r ≡ r = omega arith in let b : k + 0 ≡ k = omega arith in rw (a, b)
  layout-rows_below leafs (suc j) r k =
      let a : suc j + r ≡ suc (j + r) = omega arith in
      let b : k + suc j ≡ suc k + j = omega arith in
      let row = items (node h leafs k) (up_even (row_width h leafs k)) in
      rw (a, b)
        (ap (λ c. row ++ c) (layout-rows_below leafs j r (suc k)) ∙ sym (append_assoc row _ _))

  -- A tree one height further.
  At-next :
      (leafs : List Node) (t : CommitmentTree Node) (r k start : ℕ)
      → At h leafs t (suc r) k start
      → At h leafs t r (suc k) (start + up_even (row_width h leafs k))
  At-next leafs t r k start (before, nodes, size) =
      let w = up_even (row_width h leafs k) in
      let row = items (node h leafs k) w in
      let long : length row ≡ w = length-items_from (node h leafs k) 0 w in
      (
        before ++ row,
        nodes ∙ sym (append_assoc before row (layout h leafs r (suc k))),
        omega (arith, length-append before row),
      )

  AllAt-next :
      (ps : List (List Node × CommitmentTree Node)) (j r k start : ℕ)
      → AllAt h ps (suc j) (suc r) k start
      → AllAt h ps j r (suc k) (start + 2 ^ suc j)
  AllAt-next [] j r k start a = tt
  AllAt-next ((leafs, t) ∷ ps) j r k start ((e, at), a) =
      let width = width_full h leafs k (2 ^ suc j) e in
      let double = pow-suc 2 j in
      let even : up_even (row_width h leafs k) ≡ 2 ^ suc j = omega arith in
      let doubled : 2 ^ suc j ≡ 2 ^ j + 2 ^ j = omega arith in
      let size : length leafs ≡ 2 ^ j * 2 ^ suc k =
        e ∙ ap (λ c. c * 2 ^ k) doubled ∙ sym (twice_pow (2 ^ j) k) in
      ((size, (rw even at (At-next leafs t r k start at))), AllAt-next ps j r k start a)

  module _ (ps : List (List Node × CommitmentTree Node)) (leafs : List Node)
      (last : CommitmentTree Node) where
    abbrev pub merged_leafs : List Node
    merged_leafs = all_leafs h ps ++ leafs

    -- The row of one height.
    row_lem :
        (j r k first_start last_start w : ℕ) (tree : List Node)
        → AllAt h ps j r k first_start
        → At h leafs last r k last_start
        → (w ≡ row_width h leafs k) ⊎ ((0 < r) × (w ≡ up_even (row_width h leafs k)))
        → (tree1 : List Node) × (append_rows first_start (2 ^ j) (trees h ps) tree ≡ some tree1)
          × (slice last_start w last.nodes ≡ some (items (node h leafs k) w))
          × (tree1 ++ items (node h leafs k) w
              ≡ tree ++ items (node h merged_leafs k) (length ps * 2 ^ j + w))
    row_lem j r k first_start last_start w tree a (before, nodes, size) within =
        let c = length ps * 2 ^ j in
        let full = items (node h (all_leafs h ps) k) c in
        let (n, rest, begins, fits, fits_even) = layout-start h leafs r k in
        let inside : w ≤ n = elim within [
          | inl e ↦ omega arith
          | inr e ↦ (let (p, q) = e in let f = fits_even p in omega arith)
        ] in
        (
          tree ++ full,
          append_rows_lem h ps j r k first_start tree a,
          rw (nodes, ← size, begins) (slice-row (node h leafs k) before rest w n inside),
          append_assoc tree full (items (node h leafs k) w)
              ∙ ap (λ b. tree ++ b)
                  (sym (
                    row-append h (all_leafs h ps) leafs k c w
                      (length-all_leafs h ps j r k first_start a))),
        )

    -- The loop lays out the even rows below the top of the full trees, and the row there.
    pub merge_rows_lem :
        (j fuel r k first_start last_start start width : ℕ) (tree : List Node)
        → j < fuel
        → j ≤ r
        → AllAt h ps j r k first_start
        → At h leafs last r k last_start
        → start ≡ length tree
        → width ≡ row_width h merged_leafs k
        → let before = tree ++ rows_below merged_leafs j k in
          let w = row_width h merged_leafs (k + j) in
          merge_rows fuel
            (trees h ps)
            last
            k
            first_start
            (2 ^ j)
            last_start
            (row_width h leafs k)
            start
            width
            tree
          ≡ some (before ++ items (node h merged_leafs (k + j)) w, length before, w, k + j)
    unfolding merge_rows
    merge_rows_lem j zero r k first_start last_start start width tree p q a l e f =
        absurd (omega arith)
    merge_rows_lem zero (suc fuel) r k first_start last_start start width tree p q a l e f =
        let v = row_width h leafs k in
        let no_pad : ◌≡◌ {A = ℕ} (if v % 2 == 1 && ltb 1 (2 ^ 0) then 1 else 0) 0 = ground arith in
        let no_more : width + 0 ≡ width = omega arith in
        let z : v + 0 ≡ v = omega arith in
        let (tree1, rows, row, both) = row_lem 0 r k first_start last_start v tree a l (inl refl) in
        let widths =
          row_width-append h (all_leafs h ps) leafs k (length ps * 2 ^ 0)
            (length-all_leafs h ps 0 r k first_start a) in
        let k0 : k + 0 ≡ k = omega arith in
        let t : tree ++ [] ≡ tree = append-nil tree in
        rw (no_pad, z, no_more, rows, row, k0, t, both, f, e, widths)
    merge_rows_lem (suc j) (suc fuel) zero k first_start last_start start width tree p q a l e f =
        absurd (omega arith)
    merge_rows_lem (suc j) (suc fuel) (suc r) k first_start last_start start width tree p q a l e
          f =
        let v = row_width h leafs k in
        let wm = row_width h merged_leafs k in
        let row' = items (node h merged_leafs k) (up_even wm) in
        let doubled : 2 ^ suc j ≡ 2 ^ j + 2 ^ j = let double = pow-suc 2 j in omega arith in
        let positive = suc_le_pow j in
        let pad : v + (if v % 2 == 1 && ltb 1 (2 ^ suc j) then 1 else 0) ≡ up_even v =
          ground arith in
        let widths =
          row_width-append h (all_leafs h ps) leafs k (length ps * 2 ^ suc j)
            (length-all_leafs h ps (suc j) (suc r) k first_start a) in
        let twice : length ps * 2 ^ suc j ≡ 2 * (length ps * 2 ^ j) =
          ap (λ c. length ps * c) doubled ∙ double_mul (length ps) (2 ^ j) in
        let pad_merged : width + (if v % 2 == 1 && ltb 1 (2 ^ suc j) then 1 else 0) ≡ up_even wm =
          ground arith in
        let sum : length ps * 2 ^ suc j + up_even v ≡ up_even wm = omega arith in
        let below_top : (2 ^ suc j == 1) ≡ false = ground arith in
        let half : 2 ^ suc j / 2 ≡ 2 ^ j = omega arith in
        let (tree1, rows, row, both) =
          row_lem (suc j) (suc r) k first_start last_start (up_even v) tree a l
            (inr (omega arith, refl)) in
        let both' : tree1 ++ items (node h leafs k) (up_even v) ≡ tree ++ row' =
          both ∙ ap (λ n. tree ++ items (node h merged_leafs k) n) sum in
        let kj : k + suc j ≡ suc k + j = omega arith in
        let longer : start + up_even wm ≡ length (tree ++ row') =
          let long : length row' ≡ up_even wm =
            length-items_from (node h merged_leafs k) 0 (up_even wm) in
          omega (arith, length-append tree row') in
        let above =
          merge_rows_lem j fuel r (suc k) (first_start + 2 ^ suc j) (last_start + up_even v)
            (start + up_even wm) (up_even wm / 2) (tree ++ row') (omega arith) (omega arith)
            (AllAt-next ps j r k first_start a) (At-next leafs last r k last_start l) longer
            (next_width h merged_leafs k) in
        let below = rows_below merged_leafs j (suc k) in
        let shift : (tree ++ row') ++ below ≡ tree ++ (row' ++ below) =
          append_assoc tree row' below in
        rw (pad, pad_merged, below_top, half, next_width h leafs k, rows, row, both', kj, ← shift)
          above
