-- ===== src/Client/Lawful.antt =====
-- What `synchronize` relies on, under which no viewing key panics on a ciphertext of its length.
use arm_noir.Prelude.{
  ℕ, zero, suc, ◌-◌, ◌%◌, ◌<◌, ◌≡◌, refl, ◌∙◌, true, Bool-cases, inl, inr, Option, Option-cases,
  none, some, [], ◌∷◌, ◌++◌, length, take, length-take, length-append, get_elem?, leb, le→leb, ltb,
  ◌==◌, bytes_eq, arith, Returns,
}
use arm_noir.Bytes.{Bytes, pad_slice, slice_to, zeros}
use arm_noir.Bytes.Laws.{length-zeros}
use arm_noir.Bytes.Reads.{AreBytes}
use arm_noir.Crypto.{HashLaws, FieldLaws}
use arm_noir.Resource.Preimage.{IsResource}
use arm_noir.Instance.{EmbeddedCurvePoint}
use arm_noir.Curve.{EmbeddedCurveScalar, scalar_to_bytes}
use arm_noir.Curve.Group.{to_affine, from_affine, generator, to_fr, mul}
use arm_noir.Curve.Laws.{copy_lem, slice_to_lem, point_to_bytes_lem}
use arm_noir.Calldata.Ciphertext.{Ciphertext}
use arm_noir.Pool.State.{Backend}
use arm_noir.Wallet.KeyBytes.{K256, ExtendedFullViewingKey}
use arm_noir.Client.{ResourceWithLabel, Decryption, insert_note}
use arm_noir.Client.Decrypt.{
  discovery_plaintext, resource_plaintext, strip_padding, without_last, find_resource,
}
use arm_noir.Client.Scan.{Notes, record_note}
use arm_noir.Client.Padding.{remove_padding_lem}
use arm_noir.Client.Payloads.{Sized}

-- What the code relies on: hashes and field elements have 32 bytes, a shared secret 32 and a public key
-- 65; the generator of the embedded curve is on the curve; AES decrypts whole blocks of 16 bytes under a key and a nonce of 16, to as many bytes; a resource
-- that is decoded has arrays of their lengths.
pub record Lawful {k : K256} {F : Type 0} (backend : Backend F) (d : Decryption k F) : Type 0 where
  pub hash_laws : HashLaws backend.hashes
  pub field_laws : FieldLaws backend.field
  pub length-diffie_hellman :
      (s : k.SecretKey) (p : d.AffinePoint) → length (d.diffie_hellman s p) ≡ 32
  pub length-to_encoded_point : (p : k.PublicKey) → length (d.to_encoded_point p) ≡ 65
  pub generator_on_curve : Returns (λ p. Unit {0}) (to_affine d.grumpkin (generator d.grumpkin))
  pub aes :
      (cipher nonce key : Bytes)
      → length cipher % 16 ≡ 0
      → length nonce ≡ 16
      → length key ≡ 16
      → Returns
          (λ p. (length p ≡ length cipher) × AreBytes p)
          (d.aes_decrypt cipher nonce key (length cipher))
  pub decoded :
      (b : Bytes) (r : ResourceWithLabel) → d.resource_from_slice b ≡ some r → IsResource r.resource

abbrev pub Anything : {A : Type 0} → A → Type 0
Anything a = Unit {0}

-- The resource of a note, where one is found, and those of all notes.
abbrev pub FoundResource : Option ResourceWithLabel → Type 0
FoundResource none = Unit {0}
FoundResource (some note) = IsResource note.resource

abbrev pub AllResources : Notes → Type 0
AllResources [] = Unit {0}
AllResources ((p, note) ∷ rest) = IsResource note.resource × AllResources rest

pad_slice_lem :
    (x : Bytes) → length x ≡ 12 → (y : Bytes) × (pad_slice 16 x ≡ some y) × (length y ≡ 16)
unfolding pad_slice
pad_slice_lem x e =
    let inside : leb (length x) 16 ≡ true = ground arith in
    (
      x ++ zeros (16 - length x),
      rw inside,
      omega (arith, length-append x (zeros (16 - length x)), length-zeros (16 - length x)),
    )

-- The first sixteen bytes of a hash.
key_lem : (x : Bytes) → length x ≡ 32 → (y : Bytes) × (slice_to 16 x ≡ some y) × (length y ≡ 16)
key_lem x e = (take 16 x, slice_to_lem 16 x (omega arith), omega (arith, length-take 16 x))

last_byte :
    (p : Bytes) (i : ℕ) → AreBytes p → i < length p → (x : ℕ) × (get_elem? p i ≡ some x) × (x < 256)
last_byte [] i h q = absurd (omega arith)
last_byte (x ∷ p) zero (h, hs) q = (x, refl, h)
last_byte (x ∷ p) (suc i) (h, hs) q = last_byte p i hs (omega arith)

-- A plaintext of 256 bytes is at least as long as its last byte says.
strip_padding-Returns :
    (p : Bytes) → length p ≡ 256 → AreBytes p → Returns Anything (strip_padding p)
unfolding strip_padding without_last
strip_padding-Returns [] e h = absurd (omega arith)
strip_padding-Returns (x ∷ xs) e h =
    let (r, last, small) = last_byte (x ∷ xs) (length xs) h (omega arith) in
    let inside : leb r (length (x ∷ xs)) ≡ true = le→leb _ _ (omega arith) in
    (take (length (x ∷ xs) - r) (x ∷ xs), rw (last, inside), tt)

insert_note-AllResources :
    (pos : ℕ) (note : ResourceWithLabel) (notes : Notes)
    → IsResource note.resource
    → AllResources notes
    → AllResources (insert_note pos note notes)
insert_note-AllResources pos note [] r h = (r, tt)
insert_note-AllResources pos note ((q, b) ∷ rest) r (h, hs) = elim (Bool-cases (pos == q)) [
  | inl same ↦ rw same (r, hs)
  | inr other ↦ elim (Bool-cases (ltb pos q)) [
    | inl before ↦ rw (other, before) (r, (h, hs))
    | inr after ↦ rw (other, after) (h, insert_note-AllResources pos note rest r hs)
  ]
]

pub record_note-AllResources :
    (pos : ℕ) (found : Option ResourceWithLabel) (notes : Notes)
    → FoundResource found
    → AllResources notes
    → AllResources (record_note pos found notes)
record_note-AllResources pos none notes r h = h
record_note-AllResources pos (some note) notes r h = insert_note-AllResources pos note notes r h

found_resource :
    (o : Option ResourceWithLabel)
    → ((r : ResourceWithLabel) → o ≡ some r → IsResource r.resource)
    → FoundResource o
found_resource none h = tt
found_resource (some r) h = h r refl

module _ {k : K256} {F : Type 0} (d : Decryption k F) where
  -- The point of a ciphertext, where there is one, is on the curve.
  abbrev pub OnCurve : Option (Ciphertext (EmbeddedCurvePoint F)) → Type 0
  OnCurve none = Unit {0}
  OnCurve (some c) = Returns Anything (to_affine d.grumpkin c.pk)

module _ {k : K256} {F : Type 0} (backend : Backend F) (d : Decryption k F)
    (lawful : Lawful backend d) where
  open lawful use {hash_laws, field_laws, aes, decoded}

  discovery_plaintext-Returns :
      (fvk : ExtendedFullViewingKey k F) (c : Ciphertext d.AffinePoint)
      → Sized 16 (some c)
      → Returns Anything (discovery_plaintext backend.hashes backend.field d fvk c)
  unfolding discovery_plaintext
  discovery_plaintext-Returns fvk c (n, m) =
      let pk = d.to_encoded_point (k.public_key fvk.discovery_secret_key) in
      let shared = d.diffie_hellman fvk.discovery_secret_key c.pk in
      let r1 =
        copy_lem 65 pk (lawful.length-to_encoded_point (k.public_key fvk.discovery_secret_key)) in
      let r2 = copy_lem 32 shared (lawful.length-diffie_hellman fvk.discovery_secret_key c.pk) in
      let (key, r3, e3) =
        key_lem (backend.hashes.keccak256 (pk ++ shared))
          (hash_laws.length-keccak256 (pk ++ shared)) in
      let (nonce, r4, e4) = pad_slice_lem c.nonce n in
      let (p, r5, _) = aes c.cipher nonce key (rw m refl) e4 e3 in (p, rw (r1, r2, r3, r4) r5, tt)

  mul-Returns :
      (p : EmbeddedCurvePoint F) (s : EmbeddedCurveScalar F)
      → Returns Anything (to_affine d.grumpkin p)
      → Returns Anything (mul backend.field d.grumpkin p s)
  unfolding mul to_fr scalar_to_bytes
  mul-Returns p s (a, e, _) =
      let field = backend.field in
      let n = field_laws.length-to_le_bytes s.lo in
      let m = field_laws.length-to_le_bytes s.hi in
      let r1 = slice_to_lem 16 (field.to_le_bytes s.lo) (omega arith) in
      let r2 = slice_to_lem 16 (field.to_le_bytes s.hi) (omega arith) in
      (
        from_affine d.grumpkin (
            d.grumpkin.affine_mul a (
              d.grumpkin.from_le_bytes_mod_order
                (take 16 (field.to_le_bytes s.lo) ++ take 16 (field.to_le_bytes s.hi)))),
        rw (e, r1, r2),
        tt,
      )

  resource_plaintext-Returns :
      (fvk : ExtendedFullViewingKey k F) (c : Ciphertext (EmbeddedCurvePoint F))
      → Sized 256 (some c)
      → OnCurve d (some c)
      → Returns
          (λ p. (length p ≡ 256) × AreBytes p)
          (resource_plaintext backend.hashes backend.field d fvk c)
  unfolding resource_plaintext
  resource_plaintext-Returns fvk c (n, m) on =
      let field = backend.field in
      let (q, r6, _) = mul-Returns c.pk fvk.encryption_secret_key on in
      let (g, r7, _) =
        mul-Returns (generator d.grumpkin) fvk.encryption_secret_key lawful.generator_on_curve in
      let shared = field.to_le_bytes q.x ++ field.to_le_bytes q.y in
      let pk = field.to_le_bytes g.x ++ field.to_le_bytes g.y in
      let r1 = point_to_bytes_lem field field_laws q in
      let r2 = point_to_bytes_lem field field_laws g in
      let (key, r3, e3) =
        key_lem (backend.hashes.keccak256 (pk ++ shared))
          (hash_laws.length-keccak256 (pk ++ shared)) in
      let (nonce, r4, e4) = pad_slice_lem c.nonce n in
      let (p, r5, (size, bytes)) = aes c.cipher nonce key (rw m refl) e4 e3 in
      (p, rw (r6, r7, r2, r1, r3, r4) r5, (size ∙ m, bytes))

  -- No key panics on ciphertexts of their lengths, the second with a point on the curve.
  pub find_resource-Returns :
      (fvk : ExtendedFullViewingKey k F) (dc : Ciphertext d.AffinePoint)
      (rc : Ciphertext (EmbeddedCurvePoint F))
      → Sized 16 (some dc)
      → Sized 256 (some rc)
      → OnCurve d (some rc)
      → Returns FoundResource (find_resource backend.hashes backend.field d fvk dc rc)
  unfolding find_resource
  find_resource-Returns fvk dc rc s1 s2 on =
      let (discovery, e1, _) = discovery_plaintext-Returns fvk dc s1 in
      let (unpadded, e2, _) = remove_padding_lem discovery in
      let (padded, e3, (size, bytes)) = resource_plaintext-Returns fvk rc s2 on in
      let (plaintext, e4, _) = strip_padding-Returns padded size bytes in
      elim (Option-cases unpadded) [
        | inl refused ↦ (none, rw (e1, e2, refused), tt)
        | inr (message, same) ↦ elim (Bool-cases (bytes_eq message (0 ∷ []))) [
          | inr other ↦ (none, rw (e1, e2, same, other), tt)
          | inl ours ↦ (
            d.resource_from_slice plaintext,
            rw (e1, e2, same, ours, e3, e4),
            found_resource (d.resource_from_slice plaintext) λ r e. decoded plaintext r e,
          )
        ]
      ]
