-- ===== src/Wallet/KeyBytes.antt =====
-- The keys of nodes/src/wallet.rs as bytes: `ExtendedFullViewingKey`, `PaymentAddress` and
-- `ExtendedSpendingKey`. The types of `k256` and their bytes are arguments. In what is read, the outer
-- `none` is a panic and the inner one is an error.
pub mod Laws
mod Tests
use arm_noir.Prelude.{
  ℕ, ◌+◌, Bool, Option, none, some, List, [], ◌∷◌, ◌++◌, length, take, drop, leb, ◌==◌,
  if◌then◌else◌, ◌>>=◌,
}
use arm_noir.Bytes.{Bytes, zeros, write_parts, read_bytes}
use arm_noir.Crypto.{Hashes, FieldOps}
use arm_noir.Instance.{EmbeddedCurvePoint}
use arm_noir.Curve.{
  EmbeddedCurveScalar, point_to_bytes, point_from_bytes, scalar_to_bytes, scalar_from_bytes,
}

-- A type of `k256` with the bytes it is written in.
pub record Codec (A : Type 0) : Type 0 where
  pub to_bytes : A → Bytes
  pub from_slice : Bytes → Option A

pub record K256 : Type 1 where
  pub VerifyingKey : Type 0
  pub SigningKey : Type 0
  pub SecretKey : Type 0
  pub PublicKey : Type 0
  pub verifying : Codec VerifyingKey
  pub signing : Codec SigningKey
  pub secret : Codec SecretKey
  pub public : Codec PublicKey
  pub verifying_key : SigningKey → VerifyingKey
  pub public_key : SecretKey → PublicKey

pub record ExtendedFullViewingKey (k : K256) (F : Type 0) : Type 0 where
  pub verifying_key : k.VerifyingKey
  pub encryption_secret_key : EmbeddedCurveScalar F
  pub discovery_secret_key : k.SecretKey
  pub nullifier_key : Bytes

pub record PaymentAddress (k : K256) (F : Type 0) : Type 0 where
  pub verifying_key : k.VerifyingKey
  pub encryption_public_key : EmbeddedCurvePoint F
  pub discovery_public_key : k.PublicKey
  pub nullifier_key_commitment : Bytes

pub record ExtendedSpendingKey (k : K256) (F : Type 0) : Type 0 where
  pub signing_key : k.SigningKey
  pub encryption_secret_key : EmbeddedCurveScalar F
  pub discovery_secret_key : k.SecretKey
  pub nullifier_key : Bytes

abbrev pub verifying_key_len : ℕ
verifying_key_len = 33

abbrev pub public_key_len : ℕ
public_key_len = 33

abbrev pub grumpkin_public_key_len : ℕ
grumpkin_public_key_len = 64

-- The length of a signing key, of a secret key of either curve, of a nullifier key and of its
-- commitment.
abbrev pub key_len : ℕ
key_len = 32

-- The value, or the error of the code.
abbrev pub or_error : {A B : Type 0} → Option A → (A → Option (Option B)) → Option (Option B)
or_error none next = some none
or_error (some a) next = next a

-- `read_exact` from a slice: n bytes and those behind them.
unfoldable pub read_exact : ℕ → Bytes → Option (Bytes × Bytes)
read_exact n v = if leb n (length v) then some (take n v, drop n v) else none

-- `try_from_slice` refuses bytes that are left over.
abbrev pub no_rest : {A : Type 0} → Bytes → A → Option (Option A)
no_rest [] a = some (some a)
no_rest (x ∷ rest) a = some none

module _ (k : K256) {F : Type 0} where
  -- `ExtendedSpendingKey::to_viewing_key`
  unfoldable pub to_viewing_key : ExtendedSpendingKey k F → ExtendedFullViewingKey k F
  to_viewing_key self = record {
    verifying_key = k.verifying_key self.signing_key;
    encryption_secret_key = self.encryption_secret_key;
    discovery_secret_key = self.discovery_secret_key;
    nullifier_key = self.nullifier_key;
  }

  -- `ExtendedFullViewingKey::to_payment_address`, with the generator, the multiplication of the
  -- embedded curve and the hash of the nullifier key as arguments
  unfoldable pub to_payment_address :
      Hashes
      → EmbeddedCurvePoint F
      → (EmbeddedCurvePoint F → EmbeddedCurveScalar F → EmbeddedCurvePoint F)
      → ExtendedFullViewingKey k F
      → PaymentAddress k F
  to_payment_address hashes generator mul self = record {
    verifying_key = self.verifying_key;
    encryption_public_key = mul generator self.encryption_secret_key;
    discovery_public_key = k.public_key self.discovery_secret_key;
    nullifier_key_commitment = hashes.keccak256 self.nullifier_key;
  }

  module _ (field : FieldOps F) where
    -- `BorshSerialize` for `ExtendedFullViewingKey`
    unfoldable pub viewing_to_vec : ExtendedFullViewingKey k F → Option Bytes
    viewing_to_vec self = do
      esk ← scalar_to_bytes field self.encryption_secret_key
      some (
          k.verifying.to_bytes self.verifying_key
          ++ (esk ++ (k.secret.to_bytes self.discovery_secret_key ++ self.nullifier_key)))

    -- `BorshDeserialize` for `ExtendedFullViewingKey`
    unfoldable pub viewing_from_slice : Bytes → Option (Option (ExtendedFullViewingKey k F))
    unfolding read_exact
    viewing_from_slice v = or_error (read_exact verifying_key_len v) λ (vk_bytes, v1).
        or_error (k.verifying.from_slice vk_bytes) λ verifying_key.
          or_error (read_exact key_len v1) λ (esk_bytes, v2).
            scalar_from_bytes field esk_bytes >>= λ encryption_secret_key.
            or_error (read_exact key_len v2) λ (dsk_bytes, v3).
              or_error (k.secret.from_slice dsk_bytes) λ discovery_secret_key.
                or_error (read_exact key_len v3) λ (nullifier_key, rest). no_rest rest (record {
                  verifying_key = verifying_key;
                  encryption_secret_key = encryption_secret_key;
                  discovery_secret_key = discovery_secret_key;
                  nullifier_key = nullifier_key;
                })

    -- `PaymentAddress::to_vec`
    unfoldable pub address_to_vec : PaymentAddress k F → Option Bytes
    address_to_vec self = do
      epk ← point_to_bytes field self.encryption_public_key
      (bytes, _) ←
          write_parts
            (k.verifying.to_bytes self.verifying_key
              ∷ epk
              ∷ k.public.to_bytes self.discovery_public_key
              ∷ self.nullifier_key_commitment
              ∷ [])
            (zeros (verifying_key_len + public_key_len + grumpkin_public_key_len + key_len), 0)
      some bytes

    -- `PaymentAddress::from_slice`
    unfoldable pub address_from_slice : Bytes → Option (Option (PaymentAddress k F))
    address_from_slice v =
        let parsed = (do
          (vk_bytes, o1) ← read_bytes verifying_key_len v 0
          or_error (k.verifying.from_slice vk_bytes) λ vk. (do
            (epk_bytes, o2) ← read_bytes grumpkin_public_key_len v o1
            epk ← point_from_bytes field epk_bytes
            (dpk_bytes, o3) ← read_bytes public_key_len v o2
            or_error (k.public.from_slice dpk_bytes) λ dpk. (do
              (nk_commit, _) ← read_bytes key_len v o3
              some (
                  some (record {
                    verifying_key = vk;
                    encryption_public_key = epk;
                    discovery_public_key = dpk;
                    nullifier_key_commitment = nk_commit;
                  }))))) in
        if length v == verifying_key_len + grumpkin_public_key_len + public_key_len + key_len
        then parsed
        else some none

    -- `ExtendedSpendingKey::to_vec`
    unfoldable pub spending_to_vec : ExtendedSpendingKey k F → Option Bytes
    spending_to_vec self = do
      esk ← scalar_to_bytes field self.encryption_secret_key
      (bytes, _) ←
          write_parts
            (k.signing.to_bytes self.signing_key
              ∷ esk
              ∷ k.secret.to_bytes self.discovery_secret_key
              ∷ self.nullifier_key
              ∷ [])
            (zeros (key_len + key_len + key_len + key_len), 0)
      some bytes

    -- `ExtendedSpendingKey::from_slice`
    unfoldable pub spending_from_slice : Bytes → Option (Option (ExtendedSpendingKey k F))
    spending_from_slice v =
        let parsed = (do
          (sk_bytes, o1) ← read_bytes key_len v 0
          or_error (k.signing.from_slice sk_bytes) λ sk. (do
            (esk_bytes, o2) ← read_bytes key_len v o1
            esk ← scalar_from_bytes field esk_bytes
            (dsk_bytes, o3) ← read_bytes key_len v o2
            or_error (k.secret.from_slice dsk_bytes) λ dsk. (do
              (nk, _) ← read_bytes key_len v o3
              some (
                  some (record {
                    signing_key = sk;
                    encryption_secret_key = esk;
                    discovery_secret_key = dsk;
                    nullifier_key = nk;
                  }))))) in
        if length v == key_len + key_len + key_len + key_len then parsed else some none
