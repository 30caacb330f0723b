-- ===== src/Resource.antt =====
-- `Resource`, `NullifierKey` and the hashes of a resource, in nodes/src/types.rs.
-- `none` is a panic: a failed assertion or a write out of range. The quantity is a u128.
pub mod Preimage
mod Tests
use arm_noir.Prelude.{
  ℕ, zero, suc, ◌+◌, ◌*◌, Option, none, some, List, [], ◌∷◌, length, take, Bool, true, false, ◌==◌,
  ltb, leb, if◌then◌else◌, bytes_eq, ◌&&◌, ◌>>=◌,
}
use arm_noir.Bytes.{Bytes, Buffer, zeros, write_bytes, write_parts, finish, be_bytes, flag_byte}
use arm_noir.Crypto.{Hashes}

abbrev pub digest_bytes : ℕ
digest_bytes = 32

abbrev pub max_consumed : ℕ
max_consumed = 4

abbrev pub max_created : ℕ
max_created = 4

abbrev pub resource_bytes : ℕ
resource_bytes = 6 * digest_bytes + 16 + 1

abbrev pub psi_bytes : ℕ
psi_bytes = 16 + 1 + 2 * digest_bytes

abbrev pub rcm_bytes : ℕ
rcm_bytes = 16 + 1 + 2 * digest_bytes

abbrev pub nonce_preimage_len : ℕ
nonce_preimage_len = 20 + 4 + digest_bytes

-- b"RISC0_ExpandSeed"
abbrev pub prf_expand_personalization : Bytes
prf_expand_personalization =
    b'R' ∷ b'I' ∷ b'S' ∷ b'C' ∷ b'0' ∷ b'_' ∷ b'E' ∷ b'x' ∷ b'p' ∷ b'a' ∷ b'n' ∷ b'd' ∷ b'S' ∷ b'e'
    ∷ b'e' ∷ b'd' ∷ []

abbrev pub prf_expand_psi : ℕ
prf_expand_psi = 0

abbrev pub prf_expand_rcm : ℕ
prf_expand_rcm = 1

-- b"ARM_NONCE_DERIVATION"
abbrev pub nonce_derivation_personalization : Bytes
nonce_derivation_personalization =
    b'A' ∷ b'R' ∷ b'M' ∷ b'_' ∷ b'N' ∷ b'O' ∷ b'N' ∷ b'C' ∷ b'E' ∷ b'_' ∷ b'D' ∷ b'E' ∷ b'R' ∷ b'I'
    ∷ b'V' ∷ b'A' ∷ b'T' ∷ b'I' ∷ b'O' ∷ b'N' ∷ []

pub record Resource : Type 0 where
  pub logic_ref : Bytes
  pub label_ref : Bytes
  pub value_ref : Bytes
  pub quantity : ℕ
  pub nonce : Bytes
  pub nk_commitment : Bytes
  pub rand_seed : Bytes
  pub is_ephemeral : Bool

pub record NullifierKey : Type 0 where
  pub bytes : Bytes

-- The loop of `hash_nullifiers` over `0..MAX_CONSUMED`, of which the first `count` are written.
unfoldable pub write_nullifiers : ℕ → ℕ → List Bytes → Buffer → Option Buffer
write_nullifiers count i [] buffer = some buffer
write_nullifiers count i (nullifier ∷ rest) buffer = do
  buffer' ← (if ltb i count then write_bytes buffer nullifier else some buffer)
  write_nullifiers count (suc i) rest buffer'

module _ (hashes : Hashes) where
  open hashes use {keccak256, sha256}

  -- `NullifierKey::commit` of wallet.rs, on the bytes of the key
  abbrev pub commit : Bytes → Bytes
  commit key = keccak256 key

  module _ (self : Resource) where
    -- The pre-image of `psi` and of `rcm`, which differ in one byte and in the length asserted.
    unfoldable pub expand_preimage : ℕ → ℕ → Option Bytes
    unfolding write_parts
    expand_preimage tag size = do
      b ←
          write_parts (prf_expand_personalization ∷ (tag ∷ []) ∷ self.rand_seed ∷ self.nonce ∷ [])
            (zeros size, 0)
      finish size b

    unfoldable pub psi : Option Bytes
    psi = do preimage ← expand_preimage prf_expand_psi psi_bytes; some (keccak256 preimage)

    unfoldable pub rcm : Option Bytes
    rcm = do preimage ← expand_preimage prf_expand_rcm rcm_bytes; some (keccak256 preimage)

    unfoldable pub commitment_preimage : Option Bytes
    commitment_preimage = do
      r ← rcm
      b ←
          write_parts
            (self.logic_ref
              ∷ self.label_ref
              ∷ self.value_ref
              ∷ be_bytes 16 self.quantity
              ∷ self.nonce
              ∷ self.nk_commitment
              ∷ r
              ∷ (flag_byte self.is_ephemeral ∷ [])
              ∷ [])
            (zeros resource_bytes, 0)
      finish resource_bytes b

    unfoldable pub commitment : Option Bytes
    commitment = do preimage ← commitment_preimage; some (keccak256 preimage)

    -- The key must be the one that the resource commits to.
    unfoldable pub nullifier_from_commitment : NullifierKey → Bytes → Option Bytes
    nullifier_from_commitment nk cm =
        if bytes_eq self.nk_commitment (commit nk.bytes)
        then (do
          p ← psi
          b ← write_parts (cm ∷ nk.bytes ∷ self.nonce ∷ p ∷ []) (zeros (4 * digest_bytes), 0)
          preimage ← finish (4 * digest_bytes) b
          some (keccak256 preimage))
        else none

    unfoldable pub nullifier : NullifierKey → Option Bytes
    nullifier nf_key = do cm ← commitment; nullifier_from_commitment nf_key cm

  unfoldable pub derive_nonce : ℕ → Bytes → Option Bytes
  derive_nonce index nullifiers_digest = do
    b ←
        write_parts (nonce_derivation_personalization ∷ be_bytes 4 index ∷ nullifiers_digest ∷ [])
          (zeros nonce_preimage_len, 0)
    preimage ← finish nonce_preimage_len b
    some (sha256 preimage)

  unfoldable pub hash_nullifiers : List Bytes → ℕ → Option Bytes
  unfolding write_nullifiers
  hash_nullifiers nullifiers count =
      if ltb 0 count && leb count max_consumed
      then (do
        (hash_input, offset) ←
            write_nullifiers count 0 nullifiers (zeros (max_consumed * digest_bytes), 0)
        if offset == count * digest_bytes then some (sha256 (take offset hash_input)) else none)
      else none
