-- ===== src/Wallet/KeyBytes/Laws.antt =====
-- Keys and addresses are read back from their bytes.
use arm_noir.Prelude.{
  ℕ, ◌+◌, ◌≡◌, refl, sym, ap, ◌∙◌, true, some, [], ◌∷◌, ◌++◌, append-nil, append_assoc, length,
  length-append, leb, le→leb, ◌==◌, arith,
}
use arm_noir.Bytes.{Bytes, join, read_bytes}
use arm_noir.Bytes.Laws.{write_parts_lem, take-length-append, drop-length-append}
use arm_noir.Bytes.Reads.{read_bytes_at, AreBytes}
use arm_noir.Crypto.{FieldOps, FieldLaws}
use arm_noir.Curve.{EmbeddedCurveScalar, scalar_to_bytes, scalar_from_bytes}
use arm_noir.Curve.Laws.{
  LimbLaws, point_from_bytes-point_to_bytes, scalar_to_bytes-scalar_from_bytes,
}
use arm_noir.Wallet.KeyBytes.{
  Codec, K256, ExtendedFullViewingKey, PaymentAddress, ExtendedSpendingKey, read_exact,
  viewing_to_vec, viewing_from_slice, address_to_vec, address_from_slice, spending_to_vec,
  spending_from_slice,
}

-- A value is written in n bytes and read back.
pub record CodecLaws {A : Type 0} (codec : Codec A) (n : ℕ) : Type 0 where
  pub length-to_bytes : (a : A) → length (codec.to_bytes a) ≡ n
  pub from-to : (a : A) → codec.from_slice (codec.to_bytes a) ≡ some a

pub record K256Laws (k : K256) : Type 0 where
  pub verifying : CodecLaws k.verifying 33
  pub signing : CodecLaws k.signing 32
  pub secret : CodecLaws k.secret 32
  pub public : CodecLaws k.public 33

-- The scalar was read from 32 bytes.
abbrev pub IsRead : {F : Type 0} → FieldOps F → EmbeddedCurveScalar F → Type 0
IsRead field s =
    (bytes : Bytes) × (length bytes ≡ 32)
    × AreBytes bytes
    × (scalar_from_bytes field bytes ≡ some s)

-- The bytes of such a scalar.
scalar_bytes :
    {F : Type 0} (field : FieldOps F) (limbs : LimbLaws field) (s : EmbeddedCurveScalar F)
    → IsRead field s
    → (bytes : Bytes) × (length bytes ≡ 32)
      × (scalar_to_bytes field s ≡ some bytes)
      × (scalar_from_bytes field bytes ≡ some s)
scalar_bytes field limbs s (bytes, size, are_bytes, e) =
    let (t, read, written) = scalar_to_bytes-scalar_from_bytes field limbs bytes size are_bytes in
    let same : t ≡ s = cc in (bytes, size, ap (scalar_to_bytes field) (sym same) ∙ written, e)

read_exact_lem : (n : ℕ) (x y : Bytes) → length x ≡ n → read_exact n (x ++ y) ≡ some (x, y)
unfolding read_exact
read_exact_lem n x y e =
    let inside : leb (length x) (length (x ++ y)) ≡ true =
      le→leb _ _ (omega (arith, length-append x y)) in
    let z : length x + 0 ≡ length x = omega arith in
    rw (← e, inside, take-length-append x y, rw z at (drop-length-append x y 0))

module _ (k : K256) {F : Type 0} (field : FieldOps F) (laws : K256Laws k)
    (limbs : LimbLaws field) where
  -- Where the values of k256 are read back from their bytes, and the field writes an integer of 16
  -- bytes as these bytes and zeros, a viewing key with a scalar that was read from bytes (`IsRead`) and
  -- a nullifier key of 32 bytes is written in 129 bytes and read back from them.
  pub viewing_from_slice-viewing_to_vec :
      (key : ExtendedFullViewingKey k F)
      → IsRead field key.encryption_secret_key
      → length key.nullifier_key ≡ 32
      → (bytes : Bytes) × (viewing_to_vec k field key ≡ some bytes)
        × (length bytes ≡ 129)
        × (viewing_from_slice k field bytes ≡ some (some key))
  unfolding viewing_to_vec viewing_from_slice
  viewing_from_slice-viewing_to_vec key scalar size =
      let vk = k.verifying.to_bytes key.verifying_key in
      let dsk = k.secret.to_bytes key.discovery_secret_key in
      let nk = key.nullifier_key in
      let (esk, n, written, back) = scalar_bytes field limbs key.encryption_secret_key scalar in
      let m = laws.verifying.length-to_bytes key.verifying_key in
      let p = laws.secret.length-to_bytes key.discovery_secret_key in
      let last : read_exact 32 nk ≡ some (nk, []) =
        rw append-nil at (read_exact_lem 32 nk [] size) in
      (
        vk ++ (esk ++ (dsk ++ nk)),
        rw written,
        omega (arith, length-append {0}, n, m, p, size),
        rw (
          read_exact_lem 33 vk (esk ++ (dsk ++ nk)) m,
          laws.verifying.from-to key.verifying_key,
          read_exact_lem 32 esk (dsk ++ nk) n,
          back,
          read_exact_lem 32 dsk nk p,
          laws.secret.from-to key.discovery_secret_key,
          last,
        ),
      )

  -- Under the same conditions, a spending key with a scalar that was read from bytes (`IsRead`) and a
  -- nullifier key of 32 bytes is written in 128 bytes and read back from them.
  pub spending_from_slice-spending_to_vec :
      (key : ExtendedSpendingKey k F)
      → IsRead field key.encryption_secret_key
      → length key.nullifier_key ≡ 32
      → (bytes : Bytes) × (spending_to_vec k field key ≡ some bytes)
        × (length bytes ≡ 128)
        × (spending_from_slice k field bytes ≡ some (some key))
  unfolding spending_to_vec spending_from_slice
  spending_from_slice-spending_to_vec key scalar size =
      let sk = k.signing.to_bytes key.signing_key in
      let dsk = k.secret.to_bytes key.discovery_secret_key in
      let nk = key.nullifier_key in
      let (esk, n, written, back) = scalar_bytes field limbs key.encryption_secret_key scalar in
      let m = laws.signing.length-to_bytes key.signing_key in
      let p = laws.secret.length-to_bytes key.discovery_secret_key in
      let parts = sk ∷ esk ∷ dsk ∷ nk ∷ [] in
      let bytes = join parts in
      let all : length bytes ≡ 128 = omega (arith, length-append {0}, n, m, p, size) in
      let fits : (length bytes == 128) ≡ true = ground arith in
      let a1 : bytes ≡ (sk ++ esk) ++ (dsk ++ (nk ++ [])) = sym (append_assoc sk esk _) in
      let a2 : bytes ≡ ((sk ++ esk) ++ dsk) ++ (nk ++ []) =
        a1 ∙ sym (append_assoc (sk ++ esk) dsk _) in
      let r1 : read_bytes 32 bytes 0 ≡ some (sk, 32) =
        read_bytes_at 32 0 bytes [] sk _ refl refl m in
      let r2 : read_bytes 32 bytes 32 ≡ some (esk, 64) =
        read_bytes_at 32 32 bytes sk esk _ refl (sym m) n in
      let r3 : read_bytes 32 bytes 64 ≡ some (dsk, 96) =
        read_bytes_at 32 64 bytes (sk ++ esk) dsk _ a1 (omega (arith, length-append {0}, n, m)) p in
      let r4 : read_bytes 32 bytes 96 ≡ some (nk, 128) =
        read_bytes_at 32 96 bytes ((sk ++ esk) ++ dsk) nk [] a2
          (omega (arith, length-append {0}, n, m, p)) size in
      (
        bytes,
        rw (written, write_parts_lem 128 parts all),
        all,
        rw (
          fits,
          r1,
          laws.signing.from-to key.signing_key,
          r2,
          back,
          r3,
          laws.secret.from-to key.discovery_secret_key,
          r4,
        ),
      )

-- Where the values of k256 are read back from their bytes, and field elements are written in 32 bytes
-- and read back, a payment address with a commitment of 32 bytes is written in 162 bytes and read back
-- from them.
pub address_from_slice-address_to_vec :
    (k : K256) {F : Type 0} (field : FieldOps F) (laws : K256Laws k) (field_laws : FieldLaws field)
    (address : PaymentAddress k F)
    → length address.nullifier_key_commitment ≡ 32
    → (bytes : Bytes) × (address_to_vec k field address ≡ some bytes)
      × (length bytes ≡ 162)
      × (address_from_slice k field bytes ≡ some (some address))
unfolding address_to_vec address_from_slice
address_from_slice-address_to_vec k field laws field_laws address size =
    let vk = k.verifying.to_bytes address.verifying_key in
    let dpk = k.public.to_bytes address.discovery_public_key in
    let nk = address.nullifier_key_commitment in
    let (epk, written, n, back) =
      point_from_bytes-point_to_bytes field field_laws address.encryption_public_key in
    let m = laws.verifying.length-to_bytes address.verifying_key in
    let p = laws.public.length-to_bytes address.discovery_public_key in
    let parts = vk ∷ epk ∷ dpk ∷ nk ∷ [] in
    let bytes = join parts in
    let all : length bytes ≡ 162 = omega (arith, length-append {0}, n, m, p, size) in
    let fits : (length bytes == 162) ≡ true = ground arith in
    let a1 : bytes ≡ (vk ++ epk) ++ (dpk ++ (nk ++ [])) = sym (append_assoc vk epk _) in
    let a2 : bytes ≡ ((vk ++ epk) ++ dpk) ++ (nk ++ []) =
      a1 ∙ sym (append_assoc (vk ++ epk) dpk _) in
    let r1 : read_bytes 33 bytes 0 ≡ some (vk, 33) = read_bytes_at 33 0 bytes [] vk _ refl refl m in
    let r2 : read_bytes 64 bytes 33 ≡ some (epk, 97) =
      read_bytes_at 64 33 bytes vk epk _ refl (sym m) n in
    let r3 : read_bytes 33 bytes 97 ≡ some (dpk, 130) =
      read_bytes_at 33 97 bytes (vk ++ epk) dpk _ a1 (omega (arith, length-append {0}, n, m)) p in
    let r4 : read_bytes 32 bytes 130 ≡ some (nk, 162) =
      read_bytes_at 32 130 bytes ((vk ++ epk) ++ dpk) nk [] a2
        (omega (arith, length-append {0}, n, m, p)) size in
    (
      bytes,
      rw (written, write_parts_lem 162 parts all),
      all,
      rw (
        fits,
        r1,
        laws.verifying.from-to address.verifying_key,
        r2,
        back,
        r3,
        laws.public.from-to address.discovery_public_key,
        r4,
      ),
    )
