-- ===== src/Aggregator/Merkle/Root.antt =====
-- The layers of a batch end in the root of the tree over it.
use native.Mathlib.Nat.{pow-suc}
use arm_noir.Prelude.{
  IsPower, suc_le_pow, ℕ, zero, suc, ◌+◌, ◌*◌, ◌^◌, ◌<◌, ◌≡◌, refl, sym, ap, ap₂, subst, ◌∙◌, true,
  false, some, List, [], ◌∷◌, ◌++◌, length, take, drop, length-take, length-drop, take-append-drop,
  leb, arith,
}
use arm_noir.Bytes.{Bytes}
use arm_noir.Aggregator.Merkle.{combine_digests, next_layer, layers, pop, batch_root}

module _ (sha256 : Bytes → Bytes) where
  -- The root of the perfect binary tree over some digests.
  pub data IsRoot : List Bytes → Bytes → Type 0 where
    leaf : (x : Bytes) → IsRoot (x ∷ []) x
    node :
        {xs ys : List Bytes} {left right : Bytes}
        → length xs ≡ length ys
        → IsRoot xs left
        → IsRoot ys right
        → IsRoot (xs ++ ys) (combine_digests sha256 left right)

  -- k layers further.
  abbrev ascend : ℕ → List Bytes → List Bytes
  ascend zero xs = xs
  ascend (suc k) xs = next_layer sha256 (ascend k xs)

  next_layer-append :
      (m : ℕ) (xs ys : List Bytes)
      → length xs ≡ m + m
      → next_layer sha256 (xs ++ ys) ≡ next_layer sha256 xs ++ next_layer sha256 ys
  unfolding next_layer
  next_layer-append m [] ys e = refl
  next_layer-append m (x ∷ []) ys e = absurd (omega arith)
  next_layer-append zero (x ∷ y ∷ xs) ys e = absurd (omega arith)
  next_layer-append (suc m) (x ∷ y ∷ xs) ys e =
      ap (◌∷◌ (combine_digests sha256 x y)) (next_layer-append m xs ys (omega arith))

  length-next_layer :
      (m : ℕ) (xs : List Bytes) → length xs ≡ m + m → length (next_layer sha256 xs) ≡ m
  unfolding next_layer
  length-next_layer zero [] e = refl
  length-next_layer (suc m) [] e = absurd (omega arith)
  length-next_layer m (x ∷ []) e = absurd (omega arith)
  length-next_layer zero (x ∷ y ∷ xs) e = absurd (omega arith)
  length-next_layer (suc m) (x ∷ y ∷ xs) e = ap suc (length-next_layer m xs (omega arith))

  twice_half : (m k : ℕ) → m * 2 ^ suc k ≡ (m + m) * 2 ^ k
  twice_half m k = let double = pow-suc 2 k in grind arith

  length-ascend : (k m : ℕ) (xs : List Bytes) → length xs ≡ m * 2 ^ k → length (ascend k xs) ≡ m
  length-ascend zero m xs e = omega arith
  length-ascend (suc k) m xs e =
      length-next_layer m (ascend k xs) (length-ascend k (m + m) xs (e ∙ twice_half m k))

  ascend-append :
      (k m : ℕ) (xs ys : List Bytes)
      → length xs ≡ m * 2 ^ k
      → ascend k (xs ++ ys) ≡ ascend k xs ++ ascend k ys
  ascend-append zero m xs ys e = refl
  ascend-append (suc k) m xs ys e =
      let twice : length xs ≡ (m + m) * 2 ^ k = e ∙ twice_half m k in
      rw (ascend-append k (m + m) xs ys twice)
        (next_layer-append m (ascend k xs) (ascend k ys) (length-ascend k (m + m) xs twice))

  -- k layers above 2 ^ k digests there is the root.
  ascend-IsRoot :
      (k : ℕ) (xs : List Bytes)
      → length xs ≡ 2 ^ k
      → (root : Bytes) × (ascend k xs ≡ root ∷ []) × IsRoot xs root
  unfolding next_layer
  ascend-IsRoot zero [] e = absurd (omega arith)
  ascend-IsRoot zero (x ∷ []) e = (x, refl, leaf x)
  ascend-IsRoot zero (x ∷ y ∷ xs) e = absurd (omega arith)
  ascend-IsRoot (suc k) xs e =
      let half = 2 ^ k in
      let double : 2 ^ suc k ≡ 2 ^ k * 2 = pow-suc 2 k in
      let lx : length (take half xs) ≡ 2 ^ k = omega (arith, length-take half xs) in
      let ly : length (drop half xs) ≡ 2 ^ k = omega (arith, length-drop half xs) in
      let (left, el, hl) = ascend-IsRoot k (take half xs) lx in
      let (right, er, hr) = ascend-IsRoot k (drop half xs) ly in
      let parts = take-append-drop half xs in
      let above : ascend k xs ≡ left ∷ right ∷ [] =
        ap (ascend k) (sym parts)
        ∙ ascend-append k 1 (take half xs) (drop half xs) (omega arith)
        ∙ ap₂ ◌++◌ el er in
      (
        combine_digests sha256 left right,
        rw above,
        subst (λ b. IsRoot b (combine_digests sha256 left right)) parts (node (lx ∙ sym ly) hl hr),
      )

  ascend-next_layer :
      (k : ℕ) (xs : List Bytes) → ascend k (next_layer sha256 xs) ≡ ascend (suc k) xs
  ascend-next_layer zero xs = refl
  ascend-next_layer (suc k) xs = ap (next_layer sha256) (ascend-next_layer k xs)

  -- The loop ascends while there are two digests.
  layers_lem :
      (k fuel : ℕ) (xs : List Bytes)
      → length xs ≡ 2 ^ k
      → k < fuel
      → layers sha256 fuel xs ≡ some (ascend k xs)
  unfolding layers
  layers_lem k zero xs e p = absurd (omega arith)
  layers_lem zero (suc fuel) xs e p = let one : leb (length xs) 1 ≡ true = ground arith in rw one
  layers_lem (suc k) (suc fuel) xs e p =
      let double : 2 ^ suc k ≡ 2 ^ k * 2 = pow-suc 2 k in
      let more : leb (length xs) 1 ≡ false = ground (arith, suc_le_pow k) in
      let half = length-next_layer (2 ^ k) xs (omega arith) in
      rw more (
        layers_lem k fuel (next_layer sha256 xs) half (omega arith)
        ∙ ap some (ascend-next_layer k xs))

  -- A batch of 2 ^ k digests has a root, and it is the root of the perfect tree over the batch.
  pub batch_root_lem :
      (batch : List Bytes)
      → IsPower (length batch)
      → (root : Bytes) × (batch_root sha256 batch ≡ some root) × IsRoot batch root
  unfolding batch_root pop
  batch_root_lem batch (k, e) =
      let (root, above, h) = ascend-IsRoot k batch e in
      let fuel : k < suc (length batch) = omega (arith, suc_le_pow k) in
      (root, rw (layers_lem k (suc (length batch)) batch e fuel, above), h)
