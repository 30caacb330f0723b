-- ===== src/Bytes/Parts.antt =====
-- Parts that are laid out one behind the other are determined by the bytes and their lengths.
use arm_noir.Prelude.{◌+◌, length-append, ◌≡◌, refl, ap₂, List, [], ◌∷◌, ◌++◌, length, append_assoc}
use arm_noir.Bytes.{Bytes, join}
use arm_noir.Bytes.Laws.{append-injective}

-- As many parts, each as long as the other.
abbrev pub SameShape : List Bytes → List Bytes → Type 0
SameShape [] [] = Unit
SameShape [] (y ∷ ys) = ⊥
SameShape (x ∷ xs) [] = ⊥
SameShape (x ∷ xs) (y ∷ ys) = (length x ≡ length y) × SameShape xs ys

pub join-injective :
    (xs ys : List Bytes) (t t' : Bytes) → SameShape xs ys → join xs ++ t ≡ join ys ++ t' → xs ≡ ys
join-injective [] [] t t' s e = refl
join-injective [] (y ∷ ys) t t' s e = elim s [ ]
join-injective (x ∷ xs) [] t t' s e = elim s [ ]
join-injective (x ∷ xs) (y ∷ ys) t t' (size, s) e =
    let (head, tail) =
      append-injective x y (join xs ++ t) (join ys ++ t') size
        (rw (append_assoc x (join xs) t, append_assoc y (join ys) t') at e) in
    ap₂ ◌∷◌ head (join-injective xs ys t t' s tail)

pub join-append : (xs ys : List Bytes) → join (xs ++ ys) ≡ join xs ++ join ys
join-append [] ys = refl
join-append (x ∷ xs) ys = rw (join-append xs ys, append_assoc x (join xs) (join ys))

pub length-join-append :
    (xs ys : List Bytes) → length (join (xs ++ ys)) ≡ length (join xs) + length (join ys)
length-join-append xs ys = rw (join-append xs ys) (length-append (join xs) (join ys))

pub SameShape-append :
    (xs ys xs' ys' : List Bytes)
    → SameShape xs xs'
    → SameShape ys ys'
    → SameShape (xs ++ ys) (xs' ++ ys')
SameShape-append [] ys [] ys' s t = t
SameShape-append [] ys (x ∷ xs') ys' s t = elim s [ ]
SameShape-append (x ∷ xs) ys [] ys' s t = elim s [ ]
SameShape-append (x ∷ xs) ys (x' ∷ xs') ys' (e, s) t = (e, SameShape-append xs ys xs' ys' s t)
