-- ===== src/Instance.antt =====
-- The public instances of nodes/src/types.rs: `ConsumedResourcePublic`, `CreatedResourcePublic`,
-- `EmbeddedCurvePoint`, `ComplianceInstance`, `ExpirableBlob`, `AppData`, `ResourceLogicInstance`
-- and their digests. `none` is a panic. The field of the proof system is the type F.
pub mod Digest
pub mod Compliance
mod Tests
use arm_noir.Prelude.{
  ℕ, ◌+◌, ◌*◌, Option, none, some, List, [], ◌∷◌, ◌++◌, Bool, false, ◌&&◌, if◌then◌else◌, replicate,
  ◌>>=◌,
}
use arm_noir.Bytes.{Bytes, zeros, write_parts, finish, le_bytes, flag_byte}
use arm_noir.Crypto.{Hashes, FieldOps}

abbrev pub max_blob_len : ℕ
max_blob_len = 340

abbrev pub max_blobs_per_payload : ℕ
max_blobs_per_payload = 1

abbrev pub max_logic_digest_buf_len : ℕ
max_logic_digest_buf_len = 1461

abbrev pub max_compliance_digest_buf_len : ℕ
max_compliance_digest_buf_len = 3 * 32 * 4 + 2 * 32 * 4 + 4 + 4 + 2 * 32

pub record ConsumedResourcePublic : Type 0 where
  pub resource_nullifier : Bytes
  pub resource_logic_ref : Bytes
  pub commitment_tree_root : Bytes

pub record CreatedResourcePublic : Type 0 where
  pub resource_commitment : Bytes
  pub resource_logic_ref : Bytes

pub record EmbeddedCurvePoint (F : Type 0) : Type 0 where
  pub x : F
  pub y : F

pub record ComplianceInstance (F : Type 0) : Type 0 where
  pub consumed_publics : List ConsumedResourcePublic
  pub consumed_count : ℕ
  pub created_publics : List CreatedResourcePublic
  pub created_count : ℕ
  pub delta : EmbeddedCurvePoint F

pub record ExpirableBlob : Type 0 where
  pub blob : Bytes
  pub blob_len : ℕ
  pub deletion_criterion : Bool

pub record AppData : Type 0 where
  pub resource_payload : List ExpirableBlob
  pub resource_payload_len : ℕ
  pub application_payload : List ExpirableBlob
  pub application_payload_len : ℕ
  pub external_payload : List ExpirableBlob
  pub external_payload_len : ℕ
  pub discovery_payload : List ExpirableBlob
  pub discovery_payload_len : ℕ

-- `AppData::default`
abbrev pub empty_payload : List ExpirableBlob
empty_payload =
    replicate max_blobs_per_payload
      (record { blob = zeros max_blob_len; blob_len = 0; deletion_criterion = false })

abbrev pub default_app_data : AppData
default_app_data = record {
  resource_payload = empty_payload;
  resource_payload_len = 0;
  application_payload = empty_payload;
  application_payload_len = 0;
  external_payload = empty_payload;
  external_payload_len = 0;
  discovery_payload = empty_payload;
  discovery_payload_len = 0;
}

pub record ResourceLogicInstance : Type 0 where
  pub tag : Bytes
  pub action_root : Bytes
  pub is_consumed : Bool
  pub app_data : AppData

-- The writes of the loop over `consumed_publics`, and of that over `created_publics`.
abbrev pub consumed_parts : List ConsumedResourcePublic → List Bytes
consumed_parts [] = []
consumed_parts (c ∷ cs) =
    c.resource_nullifier ∷ c.resource_logic_ref ∷ c.commitment_tree_root ∷ consumed_parts cs

abbrev pub created_parts : List CreatedResourcePublic → List Bytes
created_parts [] = []
created_parts (c ∷ cs) = c.resource_commitment ∷ c.resource_logic_ref ∷ created_parts cs

-- The writes for the blobs of one payload, and for one of the four lists.
abbrev pub blob_parts : List ExpirableBlob → List Bytes
blob_parts [] = []
blob_parts (p ∷ ps) =
    le_bytes 4 p.blob_len ∷ p.blob ∷ (flag_byte p.deletion_criterion ∷ []) ∷ blob_parts ps

abbrev pub payload_parts : List ExpirableBlob → ℕ → List Bytes
payload_parts blobs len = le_bytes 4 len ∷ blob_parts blobs

abbrev pub logic_parts : ResourceLogicInstance → List Bytes
logic_parts self =
    let d = self.app_data in
    self.tag
    ∷ self.action_root
    ∷ (flag_byte self.is_consumed ∷ [])
    ∷ (payload_parts d.resource_payload d.resource_payload_len
        ++ (payload_parts d.application_payload d.application_payload_len
            ++ (payload_parts d.external_payload d.external_payload_len
                ++ payload_parts d.discovery_payload d.discovery_payload_len)))

-- The buffer that `ResourceLogicInstance::digest` hashes.
unfoldable pub logic_preimage : ResourceLogicInstance → Option Bytes
logic_preimage self = do
  b ← write_parts (logic_parts self) (zeros max_logic_digest_buf_len, 0)
  finish max_logic_digest_buf_len b

module _ {F : Type 0} (field : FieldOps F) where
  open field use {is_zero, to_le_bytes, from_le_bytes_reduce}

  abbrev pub is_infinite : EmbeddedCurvePoint F → Bool
  is_infinite p = is_zero p.x && is_zero p.y

  abbrev pub compliance_parts : ComplianceInstance F → List Bytes
  compliance_parts self =
      le_bytes 4 self.consumed_count
      ∷ (consumed_parts self.consumed_publics
          ++ (le_bytes 4 self.created_count
              ∷ (created_parts self.created_publics
                  ++ (to_le_bytes self.delta.x ∷ to_le_bytes self.delta.y ∷ []))))

  -- The buffer that `ComplianceInstance::digest` hashes.
  unfoldable pub compliance_preimage : ComplianceInstance F → Option Bytes
  compliance_preimage self = if is_infinite self.delta then none else (do
    b ← write_parts (compliance_parts self) (zeros max_compliance_digest_buf_len, 0)
    finish max_compliance_digest_buf_len b)

  module _ (hashes : Hashes) where
    open hashes use {keccak256}

    -- `ResourceLogicInstance::digest`
    unfoldable pub logic_digest : ResourceLogicInstance → Option F
    logic_digest self = do
      preimage ← logic_preimage self
      some (from_le_bytes_reduce (keccak256 preimage))

    -- `ComplianceInstance::digest`
    unfoldable pub compliance_digest : ComplianceInstance F → Option F
    compliance_digest self = do
      preimage ← compliance_preimage self
      some (from_le_bytes_reduce (keccak256 preimage))
