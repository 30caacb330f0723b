-- ===== src/Client/Payloads.antt =====
-- The payloads of a transaction: how a blob is read as a ciphertext.
use arm_noir.Prelude.{
  ℕ, ◌+◌, ◌≤◌, ◌<◌, ◌≡◌, refl, true, false, Bool-cases, inl, inr, Option, Option-cases, none, some,
  [], ◌∷◌, length, take, drop, length-take, length-drop, leb, le→leb, lt→leb_false, bytes_eq, arith,
  Returns,
}
use arm_noir.Bytes.{Bytes, read_bytes}
use arm_noir.Crypto.{FieldOps}
use arm_noir.Instance.{EmbeddedCurvePoint}
use arm_noir.Calldata.Ciphertext.{
  Ciphertext, PointCodec, discovery_from_bytes, encryption_from_bytes,
}

abbrev Read : ℕ → ℕ → Bytes × ℕ → Type 0
Read n offset (x, next) = (length x ≡ n) × (next ≡ offset + n)

-- A read inside a buffer.
read_bytes-Returns :
    (n offset : ℕ) (src : Bytes)
    → offset + n ≤ length src
    → Returns (Read n offset) (read_bytes n src offset)
unfolding read_bytes
read_bytes-Returns n offset src p =
    let inside : leb (offset + n) (length src) ≡ true = le→leb _ _ p in
    let x = take n (drop offset src) in
    let size : length x ≡ n =
      omega (arith, length-take n (drop offset src), length-drop offset src) in
    ((x, offset + n), rw inside, (size, refl))

-- A nonce and a cipher of their lengths, where there is a ciphertext.
abbrev pub Sized : {Point : Type 0} → ℕ → Option (Ciphertext Point) → Type 0
Sized n none = Unit {0}
Sized n (some c) = (length c.nonce ≡ 12) × (length c.cipher ≡ n)

module _ {Point : Type 0} (codec : PointCodec Point) where
  pub discovery-Returns :
      (bytes : Bytes) → 93 ≤ length bytes → Returns (Sized 16) (discovery_from_bytes codec bytes)
  unfolding discovery_from_bytes
  discovery-Returns bytes p =
      let ((nonce, o1), r1, (n1, e1)) = read_bytes-Returns 12 0 bytes (omega arith) in
      let ((pk_slice, o2), r2, (n2, e2)) = read_bytes-Returns 65 o1 bytes (omega arith) in
      let ((cipher, o3), r3, (n3, e3)) = read_bytes-Returns 16 o2 bytes (omega arith) in
      elim (Option-cases (codec.from_encoded_point pk_slice)) [
        | inl other ↦ (none, rw (r1, r2, other), tt)
        | inr (pk, known) ↦ (
          some (record { cipher = cipher; nonce = nonce; pk = pk }),
          rw (r1, r2, known, r3),
          (n1, n3),
        )
      ]

module _ {F : Type 0} (field : FieldOps F) where
  pub encryption-Returns :
      (bytes : Bytes) → 333 ≤ length bytes → Returns (Sized 256) (encryption_from_bytes field bytes)
  unfolding encryption_from_bytes
  encryption-Returns bytes p =
      let ((nonce, o1), r1, (n1, e1)) = read_bytes-Returns 12 0 bytes (omega arith) in
      let ((tag, o2), r2, (n2, e2)) = read_bytes-Returns 1 o1 bytes (omega arith) in
      let ((x, o3), r3, (n3, e3)) = read_bytes-Returns 32 o2 bytes (omega arith) in
      let ((y, o4), r4, (n4, e4)) = read_bytes-Returns 32 o3 bytes (omega arith) in
      let ((cipher, o5), r5, (n5, e5)) = read_bytes-Returns 256 o4 bytes (omega arith) in
      elim (Bool-cases (bytes_eq tag (0x04 ∷ []))) [
        | inl same ↦
            let pk : EmbeddedCurvePoint F = record {
              x = field.from_be_bytes_reduce x;
              y = field.from_be_bytes_reduce y;
            } in
            (
              some (record { cipher = cipher; nonce = nonce; pk = pk }),
              rw (r1, r2, same, r3, r4, r5),
              (n1, n5),
            )
        | inr other ↦ (none, rw (r1, r2, other), tt)
      ]

  -- A blob that is too short for a nonce and a tag is not refused: reading it panics.
  pub encryption_short :
      (bytes : Bytes) → length bytes < 13 → encryption_from_bytes field bytes ≡ none
  unfolding encryption_from_bytes read_bytes
  encryption_short bytes p = elim (Bool-cases (leb 12 (length bytes))) [
    | inl enough ↦
        let past : leb (12 + 1) (length bytes) ≡ false = lt→leb_false _ _ p in rw (enough, past)
    | inr short ↦ rw short
  ]
