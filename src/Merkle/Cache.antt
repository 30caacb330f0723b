-- ===== src/Merkle/Cache.antt =====
-- `empty_root` and its cache: the cache holds the empty roots of the first levels.
use arm_noir.Prelude.{
  ℕ, zero, suc, ◌+◌, ◌-◌, ◌<◌, ◌≡◌, refl, sym, ap, ◌∙◌, some, List, [], ◌∷◌, ◌++◌, length,
  get_elem?, arith,
}
use arm_noir.Merkle.{Hashable, init_cache, expand_cache, empty_root}
use arm_noir.Merkle.Ideal.{items, length-items_from, items_from-suc, get_elem?-items_from, empty}

module _ {ℓ} {Node : Type ℓ} (h : Hashable Node) where
  open h use {combine}

  -- The cache holds the empty roots of the levels 0, 1, … in order.
  abbrev pub IsCache : List Node → Type ℓ
  IsCache cache = (n : ℕ) × (cache ≡ items (empty h) n)

  items-empty-suc : (n : ℕ) → items (empty h) (suc n) ≡ items (empty h) n ++ empty h n ∷ []
  items-empty-suc n = items_from-suc (empty h) 0 n ∙ (let e : 0 + n ≡ n = omega arith in rw e)

  get-items-empty : (n i : ℕ) → i < n → get_elem? (items (empty h) n) i ≡ some (empty h i)
  get-items-empty n i p =
      get_elem?-items_from (empty h) 0 n i p ∙ (let e : 0 + i ≡ i = omega arith in rw e)

  items-empty-combine :
      (i : ℕ)
      → items (empty h) (suc i) ++ combine i (empty h i) (empty h i) ∷ []
        ≡ items (empty h) (suc (suc i))
  items-empty-combine i =
      sym (items-empty-suc (suc i) ∙ ap (λ x. items (empty h) (suc i) ++ x ∷ []) (empty_suc i))
    where
      empty_suc : (i : ℕ) → empty h (suc i) ≡ combine i (empty h i) (empty h i)
      empty_suc i = unfold empty in refl

  -- From i + 1 entries the loop reaches i + 1 + rounds.
  expand_cache_lem :
      (rounds i : ℕ)
      → expand_cache h rounds i (items (empty h) (suc i)) ≡ some (items (empty h) (suc i + rounds))
  unfolding expand_cache
  expand_cache_lem zero i = let e : suc i + 0 ≡ suc i = omega arith in rw e
  expand_cache_lem (suc rounds) i =
      let e : suc i + suc rounds ≡ suc (suc i) + rounds = omega arith in
      rw (get-items-empty (suc i) i (omega arith), items-empty-combine i, e)
        (expand_cache_lem rounds (suc i))

  init_cache-IsCache :
      (cache : List Node) → IsCache cache → (m : ℕ) × (init_cache h cache ≡ items (empty h) (suc m))
  unfolding init_cache empty
  init_cache-IsCache [] c = (0, refl)
  init_cache-IsCache (x ∷ xs) (zero, e) = absurd (cc)
  init_cache-IsCache (x ∷ xs) (suc m, e) = (m, e)

  -- From a cache, whatever its length, `empty_root` returns the empty root of the level it is
  -- asked for, never out of range, and leaves a cache.
  pub empty_root_lem :
      (cache : List Node) (level : ℕ)
      → IsCache cache
      → (cache' : List Node) × (empty_root h cache level ≡ some (empty h level, cache'))
        × IsCache cache'
  unfolding empty_root
  empty_root_lem cache level c =
      let (m, e) = init_cache-IsCache cache c in
      let n : ℕ = suc m + (level - m) in
      let size : length (items (empty h) (suc m)) - 1 ≡ m =
        (let l : length (items (empty h) (suc m)) ≡ suc m = length-items_from (empty h) 0 (suc m) in
          omega arith) in
      (
        items (empty h) n,
        rw (e, size, expand_cache_lem (level - m) m, get-items-empty n level (omega arith)),
        (n, refl),
      )
