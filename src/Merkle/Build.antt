-- ===== src/Merkle/Build.antt =====
-- `complete` and `new`: the vector of nodes is the ideal tree, row by row.
use arm_noir.Prelude.{
  ℕ, zero, suc, ◌+◌, ◌-◌, ◌*◌, ◌/◌, ◌%◌, ◌≤◌, ◌<◌, ◌≡◌, refl, ◌∙◌, inl, inr, some, List, [], ◌∷◌,
  ◌++◌, append-nil, append_assoc, Bool-cases, false, ◌==◌, length, length-append, get_elem?,
  get_elem?-append_right, get_elem?-append_left, arith,
}
use arm_noir.Merkle.{Hashable, CommitmentTree, pair_row, pad_row, add_rows, complete, new}
use arm_noir.Merkle.Ideal.{
  items, length-items_from, items_from-suc, get_elem?-items_from, up_even, node, row_width,
  node_past, items-node,
}
use arm_noir.Merkle.Cache.{IsCache, empty_root_lem}

module _ {ℓ} {A : Type ℓ} (f : ℕ → A) where
  pub items-suc : (n : ℕ) → items f (suc n) ≡ items f n ++ f n ∷ []
  items-suc n = items_from-suc f 0 n ∙ (let e : 0 + n ≡ n = omega arith in rw e)

  pub get_elem?-items : (n i : ℕ) → i < n → get_elem? (items f n) i ≡ some (f i)
  get_elem?-items n i p = get_elem?-items_from f 0 n i p ∙ (let e : 0 + i ≡ i = omega arith in rw e)

  -- A read of a row that has nodes before it and behind it.
  pub get_elem?-row :
      (before behind : List A) (n i : ℕ)
      → i < n
      → get_elem? (before ++ (items f n ++ behind)) (length before + i) ≡ some (f i)
  get_elem?-row before behind n i p =
      get_elem?-append_right before (items f n ++ behind) i
      ∙ get_elem?-append_left (items f n) behind i
          (let e : length (items f n) ≡ n = length-items_from f 0 n in omega arith)
      ∙ get_elem?-items n i p

module _ {ℓ} {Node : Type ℓ} (h : Hashable Node) where
  open h use {combine}

  abbrev parent_of : ℕ → (ℕ → Node) → ℕ → Node
  parent_of k f i = combine k (f (2 * i)) (f (2 * i + 1))

  -- The inner loop appends the parents of the row.
  pair_row_lem :
      (k : ℕ) (f : ℕ → Node) (before : List Node) (n rounds j : ℕ)
      → 2 * (j + rounds) ≤ n
      → pair_row h k (length before) j rounds (before ++ (items f n ++ items (parent_of k f) j))
        ≡ some (before ++ (items f n ++ items (parent_of k f) (j + rounds)))
  unfolding pair_row
  pair_row_lem k f before n zero j p = let e : j + 0 ≡ j = omega arith in rw e
  pair_row_lem k f before n (suc rounds) j p =
      let e : j + suc rounds ≡ suc j + rounds = omega arith in
      let assoc : length before + 2 * j + 1 ≡ length before + (2 * j + 1) = omega arith in
      rw
        (
          get_elem?-row f before (items (parent_of k f) j) n (2 * j) (omega arith),
          assoc,
          get_elem?-row f before (items (parent_of k f) j) n (2 * j + 1) (omega arith),
          append_assoc before (items f n ++ items (parent_of k f) j) _,
          append_assoc (items f n) (items (parent_of k f) j) _,
          ← items-suc (parent_of k f) j,
          e,
        )
        (pair_row_lem k f before n rounds (suc j) (omega arith))

  module _ (leafs : List Node) where
    abbrev row : ℕ → ℕ → List Node
    row k n = items (node h leafs k) n

    abbrev width : ℕ → ℕ
    width = row_width h leafs

    -- Padding makes the row even, with the empty root of its height.
    pad_row_lem :
        (k : ℕ) (before cache : List Node)
        → IsCache h cache
        → (cache' : List Node) × (pad_row h k (before ++ row k (width k)) (width k) cache
            ≡ some (before ++ row k (up_even (width k)), up_even (width k), cache'))
          × IsCache h cache'
    unfolding pad_row
    pad_row_lem k before cache c = elim (Bool-cases (width k % 2 == 1)) [
      | inl odd ↦
          let e : up_even (width k) ≡ suc (width k) = ground arith in
          let (cache', r, c') = empty_root_lem h cache k c in
          (
            cache',
            rw
                (
                  odd,
                  r,
                  e,
                  items-suc (node h leafs k) (width k),
                  node_past h leafs k (width k) (omega arith),
                  append_assoc before (row k (width k)) _,
                )
                (let one : width k + 1 ≡ suc (width k) = omega arith in rw one),
            c',
          )
      | inr even ↦ let e : up_even (width k) ≡ width k = ground arith in (cache, rw (even, e), c)
    ]

    -- The rows from a height on, each but the last made even.
    abbrev pub layout : ℕ → ℕ → List Node
    layout zero k = row k (width k)
    layout (suc rounds) k = row k (up_even (width k)) ++ layout rounds (suc k)

    -- The parents of a row are the next row.
    parents-row : (k n : ℕ) → items (parent_of k (node h leafs k)) n ≡ row (suc k) n
    unfolding node
    parents-row k n = refl

    pub next_width : (k : ℕ) → up_even (width k) / 2 ≡ width (suc k)
    unfolding row_width
    next_width k = refl

    -- The inner loop over an even row appends the next row.
    next_row :
        (k : ℕ) (before : List Node)
        → let n = up_even (width k) in
          pair_row h k (length before) 0 (n / 2) (before ++ row k n)
          ≡ some ((before ++ row k n) ++ row (suc k) (width (suc k)))
    next_row k before =
        let n : ℕ = up_even (width k) in
        let e : 0 + n / 2 ≡ n / 2 = omega arith in
        let paired = pair_row_lem k (node h leafs k) before n (n / 2) 0 (omega arith) in
        let paired' : pair_row h k (length before) 0 (n / 2) (before ++ row k n)
            ≡ some (before ++ (row k n ++ row (suc k) (n / 2))) =
          (rw (append-nil (row k n), e, parents-row k (n / 2)) at paired) in
        rw (append_assoc before (row k n) (row (suc k) (width (suc k))), ← next_width k) paired'

    pub length-row : (k n : ℕ) (before : List Node) → length before + n ≡ length (before ++ row k n)
    length-row k n before =
        let e : length (row k n) ≡ n = length-items_from (node h leafs k) 0 n in
        omega (arith, length-append before (row k n))

    -- The outer loop, from the row of any height, with a cache of any length.
    pub add_rows_lem :
        (rounds k : ℕ) (before cache : List Node)
        → IsCache h cache
        → (cache' : List Node) × (add_rows h rounds k
              (before ++ row k (width k))
              (length before)
              (width k)
              cache
            ≡ some (before ++ layout rounds k, cache'))
          × IsCache h cache'
    unfolding add_rows
    add_rows_lem zero k before cache c = (cache, refl, c)
    add_rows_lem (suc rounds) k before cache c =
        let n : ℕ = up_even (width k) in
        let (cache', padded, c') = pad_row_lem k before cache c in
        let before' = before ++ row k n in
        let (cache'', rest, c'') = add_rows_lem rounds (suc k) before' cache' c' in
        (
          cache'',
          rw (
            padded,
            next_row k before,
            length-row k n before,
            next_width k,
            rest,
            append_assoc before (row k n) _,
          ),
          c'',
        )

    -- What `new` builds.
    abbrev pub tree_of : ℕ → List Node → CommitmentTree Node
    tree_of depth cache = record {
      nodes = layout depth 0;
      leaf_count = length leafs;
      cache = cache;
      depth = depth;
    }

    -- `new` panics at most for no leaf at depth 0. Otherwise its nodes are the rows of the ideal
    -- tree from the leaves up, each row below the last made even, and its cache holds empty roots.
    pub new-tree_of :
        (depth : ℕ)
        → 0 < length leafs + depth
        → (cache : List Node) × (new h depth leafs ≡ some (tree_of depth cache)) × IsCache h cache
    unfolding new complete row_width
    new-tree_of depth p =
        let (cache, built, c) = add_rows_lem depth 0 [] [] (0, refl) in
        let start : (length leafs * 2 + depth == 0) ≡ false = ground arith in
        let rounds : depth - 0 ≡ depth = omega arith in
        let built' : add_rows h depth 0 leafs 0 (length leafs) [] ≡ some (layout depth 0, cache) =
          (rw (items-node h leafs) at built) in
        (cache, rw (start, rounds, built'), c)
