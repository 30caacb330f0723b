-- ===== src/Crypto.antt =====
-- What nodes/src takes from its libraries: hash functions and field elements. The functions are
-- arguments of the definitions that call them, and the laws are hypotheses of the theorems that
-- need them.
pub mod Samples
use arm_noir.Prelude.{ℕ, ◌≡◌, Bool, length}
use arm_noir.Bytes.{Bytes}

-- `keccak256` of `alloy`, `Sha256::digest` of `sha2`.
pub record Hashes : Type 0 where
  pub keccak256 : Bytes → Bytes
  pub sha256 : Bytes → Bytes

-- `AcirField` for the type `FieldElement`.
pub record FieldOps (F : Type 0) : Type 0 where
  pub zero : F
  pub is_zero : F → Bool
  pub to_be_bytes : F → Bytes
  pub to_le_bytes : F → Bytes
  pub from_be_bytes_reduce : Bytes → F
  pub from_le_bytes_reduce : Bytes → F

-- A hash has 32 bytes.
pub record HashLaws (hashes : Hashes) : Type 0 where
  pub length-keccak256 : (m : Bytes) → length (hashes.keccak256 m) ≡ 32
  pub length-sha256 : (m : Bytes) → length (hashes.sha256 m) ≡ 32

-- A field element is written in 32 bytes and read back.
pub record FieldLaws {F : Type 0} (field : FieldOps F) : Type 0 where
  pub length-to_be_bytes : (x : F) → length (field.to_be_bytes x) ≡ 32
  pub length-to_le_bytes : (x : F) → length (field.to_le_bytes x) ≡ 32
  pub from_be-to_be : (x : F) → field.from_be_bytes_reduce (field.to_be_bytes x) ≡ x
  pub from_le-to_le : (x : F) → field.from_le_bytes_reduce (field.to_le_bytes x) ≡ x
