-- ===== src/Client/Padding.antt =====
-- The padding of a discovery plaintext.
use arm_noir.Prelude.{
  ℕ, zero, suc, ◌+◌, ◌-◌, ◌≤◌, ◌<◌, ◌≡◌, refl, sym, ap, ap₂, ◌∙◌, true, false, Bool-cases, inl, inr,
  ◌||◌, Option, none, some, [], ◌∷◌, ◌++◌, length, length-append, length-drop, length-replicate,
  take, drop, take-append-drop, replicate, get_elem?, get_elem?-append_right, leb, le→leb, ltb,
  ◌==◌, arith,
}
use arm_noir.Bytes.{Bytes}
use arm_noir.Bytes.Laws.{take-length-append, drop-length-append}
use arm_noir.Client.Decrypt.{any_other, last_bytes, without_last, without_filler, remove_padding}

-- Between one and sixteen bytes, all with their number, behind the message.
abbrev pub IsPadded : Bytes → Bytes → Type 0
IsPadded message p = (r : ℕ) × (0 < r) × (r ≤ 16) × (p ≡ message ++ replicate r r)

-- The answer is the message where there is one.
abbrev pub Unpadded : Bytes → Option Bytes → Type 0
Unpadded p none = (message : Bytes) → ¬ IsPadded message p
Unpadded p (some message) = IsPadded message p

get_elem?-some : (p : Bytes) (i : ℕ) → i < length p → (x : ℕ) × (get_elem? p i ≡ some x)
get_elem?-some [] i h = absurd (omega arith)
get_elem?-some (x ∷ p) zero h = (x, refl)
get_elem?-some (x ∷ p) (suc i) h = get_elem?-some p i (omega arith)

any_other-replicate : (n r : ℕ) → any_other r (replicate n r) ≡ false
unfolding any_other
any_other-replicate zero r = refl
any_other-replicate (suc n) r =
    let same : (r == r) ≡ true = ground arith in rw same (any_other-replicate n r)

all_same : (r : ℕ) (bs : Bytes) → any_other r bs ≡ false → bs ≡ replicate (length bs) r
unfolding any_other
all_same r [] e = refl
all_same r (b ∷ bs) e = elim (Bool-cases (b == r)) [
  | inl same ↦ let f : b ≡ r = ground arith in ap₂ ◌∷◌ f (all_same r bs (rw same at e))
  | inr other ↦ absurd (cc (rw other at e))
]

get_elem?-replicate : (n r i : ℕ) → i < n → get_elem? (replicate n r) i ≡ some r
get_elem?-replicate zero r i h = absurd (omega arith)
get_elem?-replicate (suc n) r zero h = refl
get_elem?-replicate (suc n) r (suc i) h = get_elem?-replicate n r i (omega arith)

-- The last item of a message with its padding.
last_padded :
    (message : Bytes) (r : ℕ)
    → 0 < r
    → get_elem? (message ++ replicate r r) (length (message ++ replicate r r) - 1) ≡ some r
last_padded message r h =
    let place : length (message ++ replicate r r) - 1 ≡ length message + (r - 1) =
      omega (arith, length-append message (replicate r r), length-replicate r r) in
    rw place (
      get_elem?-append_right message (replicate r r) (r - 1)
      ∙ get_elem?-replicate r r (r - 1) (omega arith))

without_filler-padded :
    (message : Bytes) (r : ℕ) → without_filler r (message ++ replicate r r) ≡ some (some message)
unfolding without_filler last_bytes without_last
without_filler-padded message r =
    let p = message ++ replicate r r in
    let size : length p ≡ length message + r =
      omega (arith, length-append message (replicate r r), length-replicate r r) in
    let inside : leb r (length p) ≡ true = le→leb _ _ (omega arith) in
    let start : length p - r ≡ length message = omega arith in
    let z : length message + 0 ≡ length message = omega arith in
    let filler : drop (length message) p ≡ replicate r r =
      rw z at (drop-length-append message (replicate r r) 0) in
    rw (inside, start, filler, take-length-append message (replicate r r), any_other-replicate r r)

-- A message that is padded is found.
remove_padding-padded :
    (message p : Bytes) → IsPadded message p → remove_padding p ≡ some (some message)
unfolding remove_padding
remove_padding-padded message p (r, pos, small, e) =
    let size : length (message ++ replicate r r) ≡ length message + r =
      omega (arith, length-append message (replicate r r), length-replicate r r) in
    let some_bytes : (length (message ++ replicate r r) == 0) ≡ false = ground arith in
    let accepted : (r == 0 || ltb 16 r || ltb (length (message ++ replicate r r)) r) ≡ false =
      ground arith in
    rw (e, some_bytes, last_padded message r pos, accepted, without_filler-padded message r)

message_eq : {a b : Bytes} → some a ≡ some b → a ≡ b
message_eq e = cc

-- Where the checks of the last byte pass.
checked_filler :
    (r : ℕ) (p : Bytes)
    → 0 < r
    → r ≤ 16
    → r ≤ length p
    → (o : Option Bytes) × (without_filler r p ≡ some o)
      × ((message : Bytes) → o ≡ some message → IsPadded message p)
unfolding without_filler last_bytes without_last
checked_filler r p pos small fits =
    let inside : leb r (length p) ≡ true = le→leb _ _ fits in
    let filler = drop (length p - r) p in
    let message = take (length p - r) p in
    let size : length filler ≡ r = omega (arith, length-drop (length p - r) p) in
    elim (Bool-cases (any_other r filler)) [
      | inl other ↦ (none, rw (inside, other), λ m e. absurd (cc e))
      | inr same ↦ (
        some message,
        rw (inside, same),
        λ m e. (
          r,
          pos,
          small,
          sym (take-append-drop (length p - r) p)
              ∙ ap₂ ◌++◌ (message_eq e) (all_same r filler same ∙ ap (λ n. replicate n r) size),
        ),
      )
    ]

found :
    (p : Bytes)
    → (o : Option Bytes) × (remove_padding p ≡ some o)
      × ((message : Bytes) → o ≡ some message → IsPadded message p)
unfolding remove_padding
found p = elim (Bool-cases (length p == 0)) [
  | inl empty ↦ (none, rw empty, λ m e. absurd (cc e))
  | inr some_bytes ↦
      let (r, last) = get_elem?-some p (length p - 1) (ground arith) in
      elim (Bool-cases (r == 0 || ltb 16 r || ltb (length p) r)) [
        | inl refused ↦ (none, rw (some_bytes, last, refused), λ m e. absurd (cc e))
        | inr accepted ↦
            let pos : 0 < r = ground arith in
            let small : r ≤ 16 = ground arith in
            let fits : r ≤ length p = ground arith in
            let (o, e, sound) = checked_filler r p pos small fits in
            (o, rw (some_bytes, last, accepted) e, sound)
      ]
]

no_message :
    {message : Bytes} → ◌≡◌ {A = Option (Option Bytes)} (some none) (some (some message)) → ⊥
no_message e = cc e

-- The padding is removed without a panic: the answer is the message where the plaintext is a message
-- behind which one to sixteen bytes all hold their number, and `None` where it is not.
pub remove_padding_lem :
    (p : Bytes) → (o : Option Bytes) × (remove_padding p ≡ some o) × Unpadded p o
remove_padding_lem p = let (o, e, sound) = found p in (o, e, decided p o e sound)
  where
    decided :
        (p : Bytes) (o : Option Bytes)
        → remove_padding p ≡ some o
        → ((message : Bytes) → o ≡ some message → IsPadded message p)
        → Unpadded p o
    decided p none e sound = λ message h. no_message (sym e ∙ remove_padding-padded message p h)
    decided p (some message) e sound = sound message refl
