-- ===== src/Bytes/Reads.antt =====
-- Reads of a part of a buffer, by `read_bytes` and by a slice.
use arm_noir.Prelude.{
  ℕ, zero, suc, ◌+◌, ◌<◌, [], ◌∷◌, true, ◌≡◌, ap, some, ◌++◌, length, take, drop, length-append,
  leb, le→leb, arith,
}
use arm_noir.Bytes.{Bytes, read_bytes, slice_to, slice_from}
use arm_noir.Bytes.Laws.{read_bytes-append, take-length-append, drop-length-append}

-- A read at the offset of a part of its length gives the part, and the offset behind it.
pub read_bytes_at :
    (n offset : ℕ) (src before x after : Bytes)
    → src ≡ before ++ (x ++ after)
    → offset ≡ length before
    → length x ≡ n
    → read_bytes n src offset ≡ some (x, offset + n)
read_bytes_at n offset src before x after e o p =
    let next : length (before ++ x) ≡ length before + n = omega (arith, length-append before x) in
    rw (e, o, ← next) (read_bytes-append n before x after p)

pub slice_to-append : (n : ℕ) (x y : Bytes) → length x ≡ n → slice_to n (x ++ y) ≡ some x
unfolding slice_to
slice_to-append n x y e =
    let inside : leb n (length (x ++ y)) ≡ true = le→leb _ _ (omega (arith, length-append x y)) in
    rw (inside, ← e) (ap some (take-length-append x y))

pub slice_from-append : (n : ℕ) (x y : Bytes) → length x ≡ n → slice_from n (x ++ y) ≡ some y
unfolding slice_from
slice_from-append n x y e =
    let inside : leb n (length (x ++ y)) ≡ true = le→leb _ _ (omega (arith, length-append x y)) in
    let z : length x + 0 ≡ length x = omega arith in
    rw (inside, ← e) (ap some (rw z at (drop-length-append x y 0)))

-- Every item is a byte.
abbrev pub AreBytes : Bytes → Type 0
AreBytes [] = Unit
AreBytes (x ∷ xs) = (x < 256) × AreBytes xs

pub take-AreBytes : (n : ℕ) (b : Bytes) → AreBytes b → AreBytes (take n b)
take-AreBytes zero b h = tt
take-AreBytes (suc n) [] h = tt
take-AreBytes (suc n) (x ∷ b) (p, h) = (p, take-AreBytes n b h)

pub drop-AreBytes : (n : ℕ) (b : Bytes) → AreBytes b → AreBytes (drop n b)
drop-AreBytes zero b h = h
drop-AreBytes (suc n) [] h = tt
drop-AreBytes (suc n) (x ∷ b) (p, h) = drop-AreBytes n b h
