-- ===== src/Bytes/Laws.antt =====
-- Consecutive writes into a zeroed buffer lay the parts out one behind the other, and reads at the
-- same offsets give them back.
use native.Mathlib.Nat.{pow-suc}
use arm_noir.Prelude.{
  ℕ, zero, suc, ◌+◌, ◌-◌, ◌*◌, ◌/◌, ◌%◌, ◌^◌, ◌≤◌, ◌<◌, ◌≡◌, refl, ap, ap₂, some, none, List, [],
  ◌∷◌, ◌++◌, append-nil, append_assoc, length, take, drop, replicate, length-append,
  length-replicate, leb, le→leb, lt→leb_false, arith, Bool, true, false,
}
use arm_noir.Bytes.{
  Bytes, Buffer, zeros, join, write_bytes, write_parts, read_bytes, le_bytes, be_bytes, flag_byte,
}

module _ {ℓ} {A : Type ℓ} where
  pub take-length-append : (xs ys : List A) → take (length xs) (xs ++ ys) ≡ xs
  take-length-append [] ys = refl
  take-length-append (x ∷ xs) ys = ap (◌∷◌ x) (take-length-append xs ys)

  pub drop-length-append : (xs ys : List A) (n : ℕ) → drop (length xs + n) (xs ++ ys) ≡ drop n ys
  drop-length-append [] ys n = let e : 0 + n ≡ n = omega arith in rw e
  drop-length-append (x ∷ xs) ys n =
      let e : suc (length xs) + n ≡ suc (length xs + n) = omega arith in
      rw e (drop-length-append xs ys n)

  drop-replicate : (n m : ℕ) (a : A) → drop n (replicate m a) ≡ replicate (m - n) a
  drop-replicate zero m a = let e : m - 0 ≡ m = omega arith in rw e
  drop-replicate (suc n) zero a = let e : 0 - suc n ≡ 0 = omega arith in rw e
  drop-replicate (suc n) (suc m) a =
      let e : suc m - suc n ≡ m - n = omega arith in rw e (drop-replicate n m a)

  -- Two concatenations with first parts of one length are equal part by part.
  pub append-injective :
      (xs xs' ys ys' : List A)
      → length xs ≡ length xs'
      → xs ++ ys ≡ xs' ++ ys'
      → (xs ≡ xs') × (ys ≡ ys')
  append-injective [] [] ys ys' l e = (refl, e)
  append-injective [] (x ∷ xs') ys ys' l e = absurd (omega arith)
  append-injective (x ∷ xs) [] ys ys' l e = absurd (omega arith)
  append-injective (x ∷ xs) (x' ∷ xs') ys ys' l e =
      let (head, tail) = append-injective xs xs' ys ys' (omega arith) (cc) in
      (ap₂ ◌∷◌ (cc) head, tail)

pub length-zeros : (n : ℕ) → length (zeros n) ≡ n
unfolding zeros
length-zeros n = length-replicate n 0

drop-zeros : (n m : ℕ) → drop n (zeros m) ≡ zeros (m - n)
unfolding zeros
drop-zeros n m = drop-replicate n m 0

-- A buffer of n bytes of which the first ones are written.
abbrev pub filled : ℕ → Bytes → Buffer
filled n xs = (xs ++ zeros (n - length xs), length xs)

pub write_bytes-filled :
    (n : ℕ) (xs src : Bytes)
    → length (xs ++ src) ≤ n
    → write_bytes (filled n xs) src ≡ some (filled n (xs ++ src))
unfolding write_bytes
write_bytes-filled n xs src p =
    let fits : length xs + length src ≤ n = omega (arith, length-append xs src) in
    let inside : leb (length xs + length src) (length (xs ++ zeros (n - length xs))) ≡ true =
      le→leb _ _
        (omega (arith, length-append xs (zeros (n - length xs)), length-zeros (n - length xs))) in
    let left : n - length xs - length src ≡ n - (length xs + length src) = omega arith in
    rw (
      inside,
      take-length-append xs (zeros (n - length xs)),
      drop-length-append xs (zeros (n - length xs)) (length src),
      drop-zeros (length src) (n - length xs),
      append_assoc xs src (zeros (n - length (xs ++ src))),
      length-append xs src,
      left,
    )

-- A write past the end panics.
pub write_bytes-past :
    (n : ℕ) (xs src : Bytes)
    → length xs ≤ n
    → n < length (xs ++ src)
    → write_bytes (filled n xs) src ≡ none
unfolding write_bytes
write_bytes-past n xs src p q =
    let past : leb (length xs + length src) (length (xs ++ zeros (n - length xs))) ≡ false =
      lt→leb_false _ _ (
        omega (
          arith,
          length-append xs (zeros (n - length xs)),
          length-zeros (n - length xs),
          length-append xs src,
        )) in
    rw past

-- A buffer that is full is the bytes written.
pub filled_full : (n : ℕ) (xs : Bytes) → length xs ≡ n → filled n xs ≡ (xs, n)
unfolding zeros
filled_full n xs e =
    let none_left : n - length xs ≡ 0 = omega arith in rw (none_left, e, append-nil xs)

-- Writes that fit leave the parts behind what was there, whatever their number.
write_parts-filled :
    (n : ℕ) (xs : Bytes) (parts : List Bytes)
    → length xs + length (join parts) ≤ n
    → write_parts parts (filled n xs) ≡ some (filled n (xs ++ join parts))
unfolding write_parts
write_parts-filled n xs [] p = rw (append-nil xs)
write_parts-filled n xs (part ∷ parts) p =
    let l = length-append part (join parts) in
    let m = length-append xs part in
    rw (write_bytes-filled n xs part (omega arith), ← append_assoc xs part (join parts))
      (write_parts-filled n (xs ++ part) parts (omega arith))

-- Writes that fill a zeroed buffer exactly leave the parts.
pub write_parts_lem :
    (n : ℕ) (parts : List Bytes)
    → length (join parts) ≡ n
    → write_parts parts (zeros n, 0) ≡ some (join parts, n)
write_parts_lem n parts e =
    let start : n - 0 ≡ n = omega arith in
    rw (← filled_full n (join parts) e)
      ((rw start at (write_parts-filled n [] parts (omega arith))))

-- Writes into a longer buffer leave zeros behind them.
pub write_parts_short :
    (n : ℕ) (parts : List Bytes)
    → length (join parts) ≤ n
    → write_parts parts (zeros n, 0)
      ≡ some (join parts ++ zeros (n - length (join parts)), length (join parts))
write_parts_short n parts p =
    let start : n - 0 ≡ n = omega arith in
    (rw start at (write_parts-filled n [] parts (omega arith)))

pub read_bytes-append :
    (n : ℕ) (before x after : Bytes)
    → length x ≡ n
    → read_bytes n (before ++ (x ++ after)) (length before) ≡ some (x, length (before ++ x))
unfolding read_bytes
read_bytes-append n before x after p =
    let inside : leb (length before + length x) (length (before ++ (x ++ after))) ≡ true =
      le→leb _ _ (omega (arith, length-append before (x ++ after), length-append x after)) in
    let start : drop (length before) (before ++ (x ++ after)) ≡ x ++ after =
      (let z : length before + 0 ≡ length before = omega arith in
        rw z at (drop-length-append before (x ++ after) 0)) in
    rw (← p, inside, start, take-length-append x after, length-append before x)

pub length-le_bytes : (k n : ℕ) → length (le_bytes k n) ≡ k
unfolding le_bytes
length-le_bytes zero n = refl
length-le_bytes (suc k) n = ap suc (length-le_bytes k (n / 256))

pub length-be_bytes : (k n : ℕ) → length (be_bytes k n) ≡ k
unfolding be_bytes
length-be_bytes zero n = refl
length-be_bytes (suc k) n =
    omega
      (arith, length-append (be_bytes k (n / 256)) ((n % 256) ∷ []), length-be_bytes k (n / 256))

-- An integer that fits is determined by its bytes.
pub le_bytes-injective :
    (k m n : ℕ) → m < 256 ^ k → n < 256 ^ k → le_bytes k m ≡ le_bytes k n → m ≡ n
unfolding le_bytes
le_bytes-injective zero m n p q e = omega arith
le_bytes-injective (suc k) m n p q e =
    let pk : 256 ^ suc k ≡ 256 ^ k * 256 = pow-suc 256 k in
    let high = le_bytes-injective k (m / 256) (n / 256) (omega arith) (omega arith) (cc) in
    let low : m % 256 ≡ n % 256 = cc in omega arith

pub be_bytes-injective :
    (k m n : ℕ) → m < 256 ^ k → n < 256 ^ k → be_bytes k m ≡ be_bytes k n → m ≡ n
unfolding be_bytes
be_bytes-injective zero m n p q e = omega arith
be_bytes-injective (suc k) m n p q e =
    let pk : 256 ^ suc k ≡ 256 ^ k * 256 = pow-suc 256 k in
    let (top, bottom) =
      append-injective (be_bytes k (m / 256)) (be_bytes k (n / 256)) ((m % 256) ∷ [])
        ((n % 256) ∷ []) (omega (arith, length-be_bytes k (m / 256), length-be_bytes k (n / 256)))
        e in
    let high = be_bytes-injective k (m / 256) (n / 256) (omega arith) (omega arith) top in
    let low : m % 256 ≡ n % 256 = cc in omega arith

pub flag_byte-injective : (a b : Bool) → flag_byte a ∷ [] ≡ flag_byte b ∷ [] → a ≡ b
flag_byte-injective true true e = refl
flag_byte-injective true false e = cc
flag_byte-injective false true e = cc
flag_byte-injective false false e = refl
