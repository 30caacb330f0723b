-- ===== src/Calldata/Ciphertext.antt =====
-- `Ciphertext` as bytes, for discovery and for encryption. Reading has two kinds of failure: the
-- outer `none` is a panic, the inner one is the answer `None`.
use arm_noir.Prelude.{
  ℕ, ◌+◌, ◌≡◌, refl, sym, ◌∙◌, Option, some, none, [], ◌∷◌, ◌++◌, length, length-append,
  append_assoc, bytes_eq, if◌then◌else◌, arith, ◌>>=◌,
}
use arm_noir.Bytes.{Bytes, zeros, join, write_parts, read_bytes}
use arm_noir.Bytes.Laws.{write_parts_lem}
use arm_noir.Bytes.Reads.{read_bytes_at}
use arm_noir.Crypto.{FieldOps, FieldLaws}
use arm_noir.Instance.{EmbeddedCurvePoint}

pub record Ciphertext (Point : Type 0) : Type 0 where
  pub cipher : Bytes
  pub nonce : Bytes
  pub pk : Point

abbrev pub discovery_ciphertext_len : ℕ
discovery_ciphertext_len = 16

abbrev pub encryption_ciphertext_len : ℕ
encryption_ciphertext_len = 256

abbrev pub nonce_len : ℕ
nonce_len = 12

abbrev pub pk_len : ℕ
pk_len = 65

-- The points of `k256`, with `to_encoded_point(false)` and the two steps that read a point.
pub record PointCodec (Point : Type 0) : Type 0 where
  pub to_encoded_point : Point → Bytes
  pub from_encoded_point : Bytes → Option Point

module _ {Point : Type 0} (codec : PointCodec Point) where
  open codec use {to_encoded_point, from_encoded_point}

  -- `Ciphertext::<DISCOVERY_CIPHERTEXT_LEN, k256::AffinePoint>::to_bytes`
  unfoldable pub discovery_to_bytes : Ciphertext Point → Option Bytes
  discovery_to_bytes self = do
    (bytes, offset) ←
        write_parts (self.nonce ∷ to_encoded_point self.pk ∷ self.cipher ∷ [])
          (zeros (discovery_ciphertext_len + nonce_len + pk_len), 0)
    some bytes

  unfoldable pub discovery_from_bytes : Bytes → Option (Option (Ciphertext Point))
  discovery_from_bytes bytes = do
    (nonce, offset) ← read_bytes nonce_len bytes 0
    (pk_slice, offset') ← read_bytes pk_len bytes offset
    elim (from_encoded_point pk_slice) [
      | none ↦ some none
      | some pk ↦ (do
        (cipher, _) ← read_bytes discovery_ciphertext_len bytes offset'
        some (some (record { cipher = cipher; nonce = nonce; pk = pk })))
    ]

  -- A ciphertext for discovery with a nonce of 12 bytes and a cipher of 16, whose point is written
  -- in 65 bytes and read back from them, is written in 93 bytes and read back from them.
  pub discovery_from_bytes-discovery_to_bytes :
      (c : Ciphertext Point)
      → length c.nonce ≡ 12
      → length c.cipher ≡ 16
      → length (to_encoded_point c.pk) ≡ 65
      → from_encoded_point (to_encoded_point c.pk) ≡ some c.pk
      → (bytes : Bytes) × (discovery_to_bytes c ≡ some bytes)
        × (length bytes ≡ 93)
        × (discovery_from_bytes bytes ≡ some (some c))
  unfolding discovery_to_bytes discovery_from_bytes
  discovery_from_bytes-discovery_to_bytes c n m p e =
      let pk = to_encoded_point c.pk in
      let parts = c.nonce ∷ pk ∷ c.cipher ∷ [] in
      let bytes = join parts in
      let size : length bytes ≡ 93 = omega (arith, length-append {0}, n, m, p) in
      let r1 : read_bytes 12 bytes 0 ≡ some (c.nonce, 12) =
        read_bytes_at 12 0 bytes [] c.nonce (pk ++ (c.cipher ++ [])) refl refl n in
      let r2 : read_bytes 65 bytes 12 ≡ some (pk, 77) =
        read_bytes_at 65 12 bytes c.nonce pk (c.cipher ++ []) refl (sym n) p in
      let r3 : read_bytes 16 bytes 77 ≡ some (c.cipher, 93) =
        read_bytes_at 16 77 bytes (c.nonce ++ pk) c.cipher []
          (sym (append_assoc c.nonce pk (c.cipher ++ []))) (omega (arith, length-append {0}, n, p))
          m in
      (bytes, rw (write_parts_lem 93 parts size), size, rw (r1, r2, e, r3))

module _ {F : Type 0} (field : FieldOps F) where
  open field use {to_be_bytes, from_be_bytes_reduce}

  -- `Ciphertext::<ENCRYPTION_CIPHERTEXT_LEN, EmbeddedCurvePoint>::to_bytes`
  unfoldable pub encryption_to_bytes : Ciphertext (EmbeddedCurvePoint F) → Option Bytes
  encryption_to_bytes self = do
    (bytes, offset) ←
        write_parts
          (self.nonce
            ∷ (0x04 ∷ [])
            ∷ to_be_bytes self.pk.x
            ∷ to_be_bytes self.pk.y
            ∷ self.cipher
            ∷ [])
          (zeros (encryption_ciphertext_len + nonce_len + pk_len), 0)
    some bytes

  unfoldable pub encryption_from_bytes : Bytes → Option (Option (Ciphertext (EmbeddedCurvePoint F)))
  encryption_from_bytes bytes = do
    (nonce, offset) ← read_bytes nonce_len bytes 0
    (tag, offset1) ← read_bytes 1 bytes offset
    let rest = (do
      (x, offset2) ← read_bytes 32 bytes offset1
      (y, offset3) ← read_bytes 32 bytes offset2
      (cipher, _) ← read_bytes encryption_ciphertext_len bytes offset3
      some (
          some (record {
            cipher = cipher;
            nonce = nonce;
            pk = record { x = from_be_bytes_reduce x; y = from_be_bytes_reduce y };
          })))
    if bytes_eq tag (0x04 ∷ []) then rest else some none

  -- Where field elements are written in 32 bytes and read back, a ciphertext for encryption with a
  -- nonce of 12 bytes and a cipher of 256 is written in 333 bytes and read back from them.
  pub encryption_from_bytes-encryption_to_bytes :
      FieldLaws field
      → (c : Ciphertext (EmbeddedCurvePoint F)) → length c.nonce ≡ 12
      → length c.cipher ≡ 256
      → (bytes : Bytes) × (encryption_to_bytes c ≡ some bytes)
        × (length bytes ≡ 333)
        × (encryption_from_bytes bytes ≡ some (some c))
  unfolding encryption_to_bytes encryption_from_bytes
  encryption_from_bytes-encryption_to_bytes laws c n m =
      let x = to_be_bytes c.pk.x in
      let y = to_be_bytes c.pk.y in
      let px = laws.length-to_be_bytes c.pk.x in
      let py = laws.length-to_be_bytes c.pk.y in
      let tag : Bytes = 0x04 ∷ [] in
      let parts = c.nonce ∷ tag ∷ x ∷ y ∷ c.cipher ∷ [] in
      let bytes = join parts in
      let size : length bytes ≡ 333 = omega (arith, length-append {0}, n, m, px, py) in
      let a1 : bytes ≡ (c.nonce ++ tag) ++ (x ++ (y ++ (c.cipher ++ []))) =
        sym (append_assoc c.nonce tag _) in
      let a2 : bytes ≡ ((c.nonce ++ tag) ++ x) ++ (y ++ (c.cipher ++ [])) =
        a1 ∙ sym (append_assoc (c.nonce ++ tag) x _) in
      let a3 : bytes ≡ (((c.nonce ++ tag) ++ x) ++ y) ++ (c.cipher ++ []) =
        a2 ∙ sym (append_assoc ((c.nonce ++ tag) ++ x) y _) in
      let r1 : read_bytes 12 bytes 0 ≡ some (c.nonce, 12) =
        read_bytes_at 12 0 bytes [] c.nonce (tag ++ (x ++ (y ++ (c.cipher ++ [])))) refl refl n in
      let r2 : read_bytes 1 bytes 12 ≡ some (tag, 13) =
        read_bytes_at 1 12 bytes c.nonce tag (x ++ (y ++ (c.cipher ++ []))) refl (sym n) refl in
      let r3 : read_bytes 32 bytes 13 ≡ some (x, 45) =
        read_bytes_at 32 13 bytes (c.nonce ++ tag) x _ a1
          (omega (arith, length-append c.nonce tag, n)) px in
      let r4 : read_bytes 32 bytes 45 ≡ some (y, 77) =
        read_bytes_at 32 45 bytes ((c.nonce ++ tag) ++ x) y _ a2
          (omega (arith, length-append {0}, n, px)) py in
      let r5 : read_bytes 256 bytes 77 ≡ some (c.cipher, 333) =
        read_bytes_at 256 77 bytes (((c.nonce ++ tag) ++ x) ++ y) c.cipher [] a3
          (omega (arith, length-append {0}, n, px, py)) m in
      (
        bytes,
        rw (write_parts_lem 333 parts size),
        size,
        rw (r1, r2, r3, r4, r5, laws.from_be-to_be c.pk.x, laws.from_be-to_be c.pk.y),
      )
