-- ===== src/Client/Decrypt.antt =====
-- The inner loop of `synchronize` over the viewing keys: decryption of one payload. The outer `none`
-- is a panic and the inner one a `continue`.
use arm_noir.Prelude.{
  ℕ, ◌-◌, Bool, true, false, ◌||◌, Option, none, some, [], ◌∷◌, ◌++◌, length, take, drop, get_elem?,
  leb, ltb, ◌==◌, bytes_eq, if◌then◌else◌, ◌>>=◌,
}
use arm_noir.Bytes.{Bytes, copy_from_slice, slice_to, pad_slice}
use arm_noir.Crypto.{Hashes, FieldOps}
use arm_noir.Instance.{EmbeddedCurvePoint}
use arm_noir.Curve.{point_to_bytes}
use arm_noir.Curve.Group.{generator, mul}
use arm_noir.Calldata.Ciphertext.{Ciphertext}
use arm_noir.Wallet.KeyBytes.{K256, ExtendedFullViewingKey, or_error}
use arm_noir.Client.{ResourceWithLabel, Decryption}

abbrev pub aes_key_len : ℕ
aes_key_len = 16

abbrev pub discovery_pk_len : ℕ
discovery_pk_len = 65

abbrev pub discovery_shared_point_len : ℕ
discovery_shared_point_len = 32

-- `any(|&b| b != remainder)`
unfoldable pub any_other : ℕ → Bytes → Bool
any_other remainder [] = false
any_other remainder (b ∷ bs) = if b == remainder then any_other remainder bs else true

-- `b[b.len() - n..]`, the last n bytes, and `b[..b.len() - n]`, those before them
unfoldable pub last_bytes : ℕ → Bytes → Option Bytes
last_bytes n b = if leb n (length b) then some (drop (length b - n) b) else none

unfoldable pub without_last : ℕ → Bytes → Option Bytes
without_last n b = if leb n (length b) then some (take (length b - n) b) else none

-- The check that the last bytes all are the filler, and the bytes before them.
unfoldable pub without_filler : ℕ → Bytes → Option (Option Bytes)
unfolding any_other last_bytes without_last
without_filler remainder plaintext = do
  filler ← last_bytes remainder plaintext
  unpadded ← without_last remainder plaintext
  some (if any_other remainder filler then none else some unpadded)

-- The plaintext of a discovery payload without its padding.
unfoldable pub remove_padding : Bytes → Option (Option Bytes)
unfolding without_filler
remove_padding plaintext =
    let filled = (do
      remainder ← get_elem? plaintext (length plaintext - 1)
      let checked = without_filler remainder plaintext
      if remainder == 0 || ltb 16 remainder || ltb (length plaintext) remainder
          then some none
          else checked) in
    if length plaintext == 0 then some none else filled

-- A resource payload is stripped without any check.
unfoldable pub strip_padding : Bytes → Option Bytes
unfolding without_last
strip_padding [] = none
strip_padding (x ∷ xs) = do
  remainder ← get_elem? (x ∷ xs) (length xs)
  without_last remainder (x ∷ xs)

module _ {k : K256} {F : Type 0} (hashes : Hashes) (field : FieldOps F) (d : Decryption k F) where
  open hashes use {keccak256}
  open d use {
    AffinePoint, diffie_hellman, to_encoded_point, grumpkin, aes_decrypt, resource_from_slice,
  }

  unfoldable pub discovery_plaintext :
      ExtendedFullViewingKey k F → Ciphertext AffinePoint → Option Bytes
  unfolding copy_from_slice pad_slice slice_to
  discovery_plaintext fvk discovery_ciphertext = do
    let shared = diffie_hellman fvk.discovery_secret_key discovery_ciphertext.pk
    pk ← copy_from_slice discovery_pk_len (to_encoded_point (k.public_key fvk.discovery_secret_key))
    shared_point ← copy_from_slice discovery_shared_point_len shared
    key ← slice_to aes_key_len (keccak256 (pk ++ shared_point))
    nonce_padded ← pad_slice 16 discovery_ciphertext.nonce
    aes_decrypt discovery_ciphertext.cipher nonce_padded key (length discovery_ciphertext.cipher)

  unfoldable pub resource_plaintext :
      ExtendedFullViewingKey k F → Ciphertext (EmbeddedCurvePoint F) → Option Bytes
  unfolding slice_to pad_slice
  resource_plaintext fvk resource_ciphertext = do
    resource_shared_point ← mul field grumpkin resource_ciphertext.pk fvk.encryption_secret_key
    encryption_pk ← mul field grumpkin (generator grumpkin) fvk.encryption_secret_key
    pk ← point_to_bytes field encryption_pk
    shared_point ← point_to_bytes field resource_shared_point
    key ← slice_to aes_key_len (keccak256 (pk ++ shared_point))
    nonce_padded ← pad_slice 16 resource_ciphertext.nonce
    aes_decrypt resource_ciphertext.cipher nonce_padded key (length resource_ciphertext.cipher)

  -- The resource that a viewing key finds in a payload.
  unfoldable pub find_resource :
      ExtendedFullViewingKey k F
      → Ciphertext AffinePoint
      → Ciphertext (EmbeddedCurvePoint F)
      → Option (Option ResourceWithLabel)
  unfolding discovery_plaintext resource_plaintext remove_padding strip_padding
  find_resource fvk discovery_ciphertext resource_ciphertext = do
    discovery ← discovery_plaintext fvk discovery_ciphertext
    unpadded ← remove_padding discovery
    let found = (do
      padded ← resource_plaintext fvk resource_ciphertext
      plaintext ← strip_padding padded
      some (resource_from_slice plaintext))
    or_error unpadded λ plaintext. if bytes_eq plaintext (0 ∷ []) then found else some none
