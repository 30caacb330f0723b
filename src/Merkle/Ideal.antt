-- ===== src/Merkle/Ideal.antt =====
-- The tree that merkle.rs stores in part: all its nodes, defined from the leaves with no vector, no
-- row width and no cache, and the rows of it as lists.
use arm_noir.Prelude.{
  ℕ, zero, suc, ◌+◌, ◌*◌, ◌/◌, ◌%◌, ◌≤◌, ◌<◌, ◌≡◌, refl, sym, ap, ap₂, ◌∙◌, some, List, [], ◌∷◌,
  ◌++◌, length, get_elem?, get_or, arith,
}
use arm_noir.Merkle.{Hashable}

-- The list `f start`, `f (start + 1)`, …, of `n` items.
abbrev pub items_from {ℓ} : {A : Type ℓ} → (ℕ → A) → ℕ → ℕ → List A
items_from f start zero = []
items_from f start (suc n) = f start ∷ items_from f (suc start) n

abbrev pub items {ℓ} : {A : Type ℓ} → (ℕ → A) → ℕ → List A
items f n = items_from f 0 n

module _ {ℓ} {A : Type ℓ} (f : ℕ → A) where
  pub length-items_from : (s n : ℕ) → length (items_from f s n) ≡ n
  length-items_from s zero = refl
  length-items_from s (suc n) = ap suc (length-items_from (suc s) n)

  pub items_from-suc : (s n : ℕ) → items_from f s (suc n) ≡ items_from f s n ++ f (s + n) ∷ []
  items_from-suc s zero = let e : s + 0 ≡ s = omega arith in rw e
  items_from-suc s (suc n) =
      let e : s + suc n ≡ suc s + n = omega arith in
      rw e (ap (◌∷◌ (f s)) (items_from-suc (suc s) n))

  pub get_elem?-items_from : (s n i : ℕ) → i < n → get_elem? (items_from f s n) i ≡ some (f (s + i))
  get_elem?-items_from s zero i h = elim h [ ]
  get_elem?-items_from s (suc n) zero h = let e : s + 0 ≡ s = omega arith in rw e
  get_elem?-items_from s (suc n) (suc i) h =
      let e : s + suc i ≡ suc s + i = omega arith in
      rw e (get_elem?-items_from (suc s) n i (omega arith))

  pub items_from-get_or :
      (d : A) (leafs : List A) (s : ℕ)
      → ((i : ℕ) → f (s + i) ≡ get_or leafs i d)
      → items_from f s (length leafs) ≡ leafs
  items_from-get_or d [] s e = refl
  items_from-get_or d (x ∷ xs) s e =
      let e0 : s + 0 ≡ s = omega arith in
      let step : (i : ℕ) → s + suc i ≡ suc s + i = λ i. omega arith in
      ap₂ ◌∷◌ (ap f (sym e0) ∙ e 0)
        (items_from-get_or d xs (suc s) (λ i. ap f (sym (step i)) ∙ e (suc i)))

-- The number of leaves, made even.
abbrev pub up_even : ℕ → ℕ
up_even w = w + w % 2

module _ {ℓ} {Node : Type ℓ} (h : Hashable Node) where
  open h use {combine, empty_leaf}

  -- The root of a tree of the given height with no leaf in it.
  unfoldable pub empty : ℕ → Node
  empty zero = empty_leaf
  empty (suc k) = combine k (empty k) (empty k)

  module _ (leafs : List Node) where
    -- The i-th node of the given height; past the leaves stands the empty leaf.
    unfoldable pub node : ℕ → ℕ → Node
    node zero i = get_or leafs i empty_leaf
    node (suc k) i = combine k (node k (2 * i)) (node k (2 * i + 1))

    -- The number of nodes of a row that have a leaf below them.
    unfoldable pub row_width : ℕ → ℕ
    row_width zero = length leafs
    row_width (suc k) = up_even (row_width k) / 2

    get_or-past : (xs : List Node) (i : ℕ) → length xs ≤ i → get_or xs i empty_leaf ≡ empty_leaf
    get_or-past [] i p = refl
    get_or-past (x ∷ xs) zero p = absurd (omega arith)
    get_or-past (x ∷ xs) (suc i) p = get_or-past xs i (omega arith)

    -- Every other node is an empty root.
    pub node_past : (k i : ℕ) → row_width k ≤ i → node k i ≡ empty k
    unfolding node empty row_width
    node_past zero i p = get_or-past leafs i p
    node_past (suc k) i p =
        ap₂ (combine k) (node_past k (2 * i) (omega arith)) (node_past k (2 * i + 1) (omega arith))

    -- The bottom row is the list of leaves.
    pub items-node : items (node 0) (length leafs) ≡ leafs
    unfolding node
    items-node =
        items_from-get_or (node 0) empty_leaf leafs 0 (λ i. let e : 0 + i ≡ i = omega arith in rw e)
