-- ===== src/Merkle/Concat.antt =====
-- The ideal tree over two lists of leaves side by side, the first of which fills its part.
use native.Mathlib.Nat.{pow-suc}
use arm_noir.Prelude.{
  ℕ, zero, suc, ◌+◌, ◌*◌, ◌^◌, ◌<◌, ◌≡◌, refl, ap, ap₂, ◌∙◌, List, [], ◌∷◌, ◌++◌, length,
  length-append, get_or, arith,
}
use arm_noir.Merkle.{Hashable}
use arm_noir.Merkle.Ideal.{items_from, items, node, row_width}

module _ {ℓ} {A : Type ℓ} where
  items_from-cong :
      (f g : ℕ → A) (s t n : ℕ)
      → ((i : ℕ) → i < n → f (s + i) ≡ g (t + i))
      → items_from f s n ≡ items_from g t n
  items_from-cong f g s t zero e = refl
  items_from-cong f g s t (suc n) e =
      let s0 : s + 0 ≡ s = omega arith in
      let t0 : t + 0 ≡ t = omega arith in
      let head : f s ≡ g t = (rw (s0, t0) at (e 0 (omega arith))) in
      ap₂ ◌∷◌ head (
        items_from-cong f g (suc s) (suc t) n λ i p.
          let si : suc s + i ≡ s + suc i = omega arith in
          let ti : suc t + i ≡ t + suc i = omega arith in rw (si, ti) (e (suc i) (omega arith)))

  pub items_from-add :
      (f : ℕ → A) (s c n : ℕ) → items_from f s (c + n) ≡ items_from f s c ++ items_from f (s + c) n
  items_from-add f s zero n =
      let e : 0 + n ≡ n = omega arith in let z : s + 0 ≡ s = omega arith in rw (e, z)
  items_from-add f s (suc c) n =
      let e : suc c + n ≡ suc (c + n) = omega arith in
      let z : s + suc c ≡ suc s + c = omega arith in
      rw (e, z) (ap (◌∷◌ (f s)) (items_from-add f (suc s) c n))

  get_or-append_right :
      (xs ys : List A) (i : ℕ) (d : A) → get_or (xs ++ ys) (length xs + i) d ≡ get_or ys i d
  get_or-append_right [] ys i d = let e : 0 + i ≡ i = omega arith in rw e
  get_or-append_right (x ∷ xs) ys i d =
      let e : suc (length xs) + i ≡ suc (length xs + i) = omega arith in
      rw e (get_or-append_right xs ys i d)

  get_or-append_left :
      (xs ys : List A) (i : ℕ) (d : A) → i < length xs → get_or (xs ++ ys) i d ≡ get_or xs i d
  get_or-append_left [] ys i d p = absurd (omega arith)
  get_or-append_left (x ∷ xs) ys zero d p = refl
  get_or-append_left (x ∷ xs) ys (suc i) d p = get_or-append_left xs ys i d (omega arith)

pub twice_pow : (c k : ℕ) → c * 2 ^ suc k ≡ (c + c) * 2 ^ k
twice_pow c k = let double = pow-suc 2 k in grind arith

module _ {ℓ} {Node : Type ℓ} (h : Hashable Node) (xs ys : List Node) where
  -- The nodes over the second list stand behind those over the first, of which there are c.
  node-right : (k c i : ℕ) → length xs ≡ c * 2 ^ k → node h (xs ++ ys) k (c + i) ≡ node h ys k i
  unfolding node
  node-right zero c i e =
      let f : c + i ≡ length xs + i = omega arith in rw f (get_or-append_right xs ys i h.empty_leaf)
  node-right (suc k) c i e =
      let f = e ∙ twice_pow c k in
      let l : 2 * (c + i) ≡ (c + c) + 2 * i = omega arith in
      let r : 2 * (c + i) + 1 ≡ (c + c) + (2 * i + 1) = omega arith in
      ap₂ (h.combine k) (ap (node h (xs ++ ys) k) l ∙ node-right k (c + c) (2 * i) f)
        (ap (node h (xs ++ ys) k) r ∙ node-right k (c + c) (2 * i + 1) f)

  node-left : (k c i : ℕ) → length xs ≡ c * 2 ^ k → i < c → node h (xs ++ ys) k i ≡ node h xs k i
  unfolding node
  node-left zero c i e p = get_or-append_left xs ys i h.empty_leaf (omega arith)
  node-left (suc k) c i e p =
      let f = e ∙ twice_pow c k in
      ap₂ (h.combine k) (node-left k (c + c) (2 * i) f (omega arith))
        (node-left k (c + c) (2 * i + 1) f (omega arith))

  -- A row is the two rows side by side.
  pub row-append :
      (k c n : ℕ)
      → length xs ≡ c * 2 ^ k
      → items (node h (xs ++ ys) k) (c + n) ≡ items (node h xs k) c ++ items (node h ys k) n
  row-append k c n e =
      items_from-add (node h (xs ++ ys) k) 0 c n
      ∙ ap₂ ◌++◌
          (items_from-cong (node h (xs ++ ys) k) (node h xs k) 0 0 c
            λ i p. let z : 0 + i ≡ i = omega arith in rw z (node-left k c i e p))
          (items_from-cong (node h (xs ++ ys) k) (node h ys k) (0 + c) 0 n λ i p.
            let z : 0 + c + i ≡ c + i = omega arith in
            let y : 0 + i ≡ i = omega arith in rw (z, y) (node-right k c i e))

  pub row_width-append :
      (k c : ℕ) → length xs ≡ c * 2 ^ k → row_width h (xs ++ ys) k ≡ c + row_width h ys k
  unfolding row_width
  row_width-append zero c e = omega (arith, length-append xs ys)
  row_width-append (suc k) c e =
      let below = row_width-append k (c + c) (e ∙ twice_pow c k) in omega (arith, below)
