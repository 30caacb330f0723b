-- ===== src/Abi/Witness.antt =====
-- The private inputs of the circuits: `ValueInfo`, `LabelInfo`, `PermitInfo`, `ForwarderInfo`,
-- `EncryptionInfo`, `TransferAuthWitness`, `MerklePath`, `ConsumedResourceWitness` and
-- `ComplianceWitness` of nodes/src/types.rs.
use arm_noir.Prelude.{
  ℕ, zero, suc, ◌-◌, Option, none, some, List, [], ◌∷◌, map, reverse, replicate, Bool, false, ltb,
  ◌==◌, if◌then◌else◌, ◌>>=◌,
}
use arm_noir.Bytes.{Bytes, zeros, copy_from_slice}
use arm_noir.Crypto.{FieldOps}
use arm_noir.Resource.{Resource, NullifierKey}
use arm_noir.Instance.{EmbeddedCurvePoint}
use arm_noir.Curve.{EmbeddedCurveScalar, point_at_infinity, zero_scalar}
use arm_noir.Abi.{
  InputValues, no_input, input, integer_value, bool_value, array_value, option_value,
  resource_value, nullifier_key_value, point_value, scalar_value,
}

abbrev pub max_tree_depth : ℕ
max_tree_depth = 32

pub record ValueInfo (F : Type 0) : Type 0 where
  pub auth_pk : Bytes
  pub encryption_pk : EmbeddedCurvePoint F

pub record LabelInfo : Type 0 where
  pub forwarder_addr : Bytes
  pub erc20_token_addr : Bytes

pub record PermitInfo : Type 0 where
  pub permit_nonce : Bytes
  pub permit_deadline : Bytes
  pub permit_sig : Bytes

pub record ForwarderInfo : Type 0 where
  pub call_type : ℕ
  pub ethereum_account_addr : Bytes
  pub permit : Option PermitInfo

pub record EncryptionInfo (F : Type 0) : Type 0 where
  pub sender_sk : EmbeddedCurveScalar F
  pub encryption_nonce : Bytes
  pub discovery_ciphertext : Bytes
  pub discovery_ciphertext_len : ℕ

pub record TransferAuthWitness (F : Type 0) : Type 0 where
  pub resource : Resource
  pub is_consumed : Bool
  pub action_root : Bytes
  pub nullifier_key : Option NullifierKey
  pub value_info : Option (ValueInfo F)
  pub auth_sig : Option Bytes
  pub encryption_info : Option (EncryptionInfo F)
  pub label_info : Option LabelInfo
  pub forwarder_info : Option ForwarderInfo

-- The siblings with a flag for a leaf on the right, of which `depth` are in use.
pub record MerklePath (F : Type 0) : Type 0 where
  pub path : List (F × Bool)
  pub depth : ℕ

pub record ConsumedResourceWitness (F : Type 0) : Type 0 where
  pub resource : Resource
  pub cm_merkle_path : MerklePath F
  pub nf_key : NullifierKey

pub record ComplianceWitness (F : Type 0) : Type 0 where
  pub consumed_data : List (ConsumedResourceWitness F)
  pub consumed_count : ℕ
  pub created_resources : List Resource
  pub created_count : ℕ
  pub ephemeral_root : Bytes
  pub rcv : EmbeddedCurveScalar F

-- The values of `Default`.
abbrev pub default_permit : PermitInfo
default_permit = record {
  permit_nonce = zeros 32;
  permit_deadline = zeros 32;
  permit_sig = zeros 65;
}

abbrev pub default_label : LabelInfo
default_label = record { forwarder_addr = zeros 20; erc20_token_addr = zeros 20 }

abbrev pub default_forwarder : ForwarderInfo
default_forwarder = record { call_type = 0; ethereum_account_addr = zeros 20; permit = none }

module _ {F : Type 0} (field : FieldOps F) where
  open field use {zero as zero_element}

  abbrev pub default_value_info : ValueInfo F
  default_value_info = record { auth_pk = zeros 65; encryption_pk = point_at_infinity field }

  abbrev pub default_encryption : EncryptionInfo F
  default_encryption = record {
    sender_sk = zero_scalar field;
    encryption_nonce = zeros 12;
    discovery_ciphertext = zeros 340;
    discovery_ciphertext_len = 0;
  }

  -- `MerklePath::empty`
  abbrev pub empty_path : MerklePath F
  empty_path = record { path = replicate max_tree_depth (zero_element, false); depth = 0 }

  module _ (poseidon2_hash : Bytes → Bytes → Bytes) where
    open field use {to_be_bytes, from_le_bytes_reduce}

    -- The loop of `MerklePath::root`: the rounds that are left, the index, the siblings from there.
    unfoldable pub hash_path : ℕ → ℕ → List (F × Bool) → Bytes → Option Bytes
    hash_path depth zero path current_root = some current_root
    hash_path depth (suc rounds) [] current_root =
        if ltb (max_tree_depth - suc rounds) depth
        then none
        else hash_path depth rounds [] current_root
    hash_path depth (suc rounds) ((sibling, leaf_is_on_right) ∷ path) current_root =
        let next =
          (if leaf_is_on_right
            then poseidon2_hash (to_be_bytes sibling) current_root
            else poseidon2_hash current_root (to_be_bytes sibling)) in
        hash_path depth rounds path
          (if ltb (max_tree_depth - suc rounds) depth then next else current_root)

    -- `MerklePath::root`
    unfoldable pub path_root : MerklePath F → Bytes → Option Bytes
    unfolding hash_path copy_from_slice
    path_root self leaf = do
      root ← hash_path self.depth max_tree_depth self.path (to_be_bytes (from_le_bytes_reduce leaf))
      bytes ← copy_from_slice 32 root
      some (reverse bytes)

  -- `MerklePath::is_empty`
  abbrev pub path_is_empty : MerklePath F → Bool
  path_is_empty self = self.depth == 0

  module _ {V : Type 0} (abi : InputValues F V) where
    open abi use {field_value, vec_value, struct_value}

    unfoldable pub value_info_value : ValueInfo F → V
    value_info_value res = struct_value (
        input "encryption_pk" (point_value abi res.encryption_pk)
          (input "auth_pk" (array_value abi res.auth_pk) no_input))

    unfoldable pub label_info_value : LabelInfo → V
    label_info_value res = struct_value (
        input "erc20_token_addr" (array_value abi res.erc20_token_addr)
          (input "forwarder_addr" (array_value abi res.forwarder_addr) no_input))

    unfoldable pub permit_info_value : PermitInfo → V
    permit_info_value res = struct_value (
        input "permit_sig" (array_value abi res.permit_sig) (
          input "permit_deadline" (array_value abi res.permit_deadline)
            (input "permit_nonce" (array_value abi res.permit_nonce) no_input)))

    unfoldable pub forwarder_info_value : ForwarderInfo → V
    forwarder_info_value res = struct_value (
        input "permit" (option_value abi permit_info_value default_permit res.permit) (
          input "call_type" (integer_value abi res.call_type)
            (input "ethereum_account_addr" (array_value abi res.ethereum_account_addr) no_input)))

    unfoldable pub encryption_info_value : EncryptionInfo F → V
    encryption_info_value res = struct_value (
        input "discovery_ciphertext" (array_value abi res.discovery_ciphertext) (
          input "discovery_ciphertext_len" (integer_value abi res.discovery_ciphertext_len) (
            input "encryption_nonce" (array_value abi res.encryption_nonce)
              (input "sender_sk" (scalar_value abi res.sender_sk) no_input))))

    unfoldable pub transfer_auth_value : TransferAuthWitness F → V
    transfer_auth_value res = struct_value (
        input "forwarder_info"
          (option_value abi forwarder_info_value default_forwarder res.forwarder_info)
          (input "label_info" (option_value abi label_info_value default_label res.label_info) (
            input "encryption_info"
              (option_value abi encryption_info_value default_encryption res.encryption_info)
              (input "value_info"
                (option_value abi value_info_value default_value_info res.value_info)
                (input "nullifier_key"
                  (option_value abi (nullifier_key_value abi) (record { bytes = zeros 32 })
                    res.nullifier_key)
                  (input "auth_sig" (option_value abi (array_value abi) (zeros 64) res.auth_sig) (
                    input "action_root" (array_value abi res.action_root) (
                      input "is_consumed" (bool_value abi res.is_consumed)
                        (input "resource" (resource_value abi res.resource) no_input)))))))))

    unfoldable pub merkle_path_value : MerklePath F → V
    merkle_path_value res = struct_value (
        input "path"
          (vec_value
            (map (λ step. vec_value (field_value step.0 ∷ bool_value abi step.1 ∷ [])) res.path))
          (input "depth" (integer_value abi res.depth) no_input))

    unfoldable pub consumed_witness_value : ConsumedResourceWitness F → V
    consumed_witness_value res = struct_value (
        input "nf_key" (nullifier_key_value abi res.nf_key) (
          input "cm_merkle_path" (merkle_path_value res.cm_merkle_path)
            (input "resource" (resource_value abi res.resource) no_input)))

    unfoldable pub compliance_witness_value : ComplianceWitness F → V
    compliance_witness_value res = struct_value (
        input "rcv" (scalar_value abi res.rcv) (
          input "ephemeral_root" (array_value abi res.ephemeral_root) (
            input "created_count" (integer_value abi res.created_count) (
              input "created_resources" (vec_value (map (resource_value abi) res.created_resources))
                (input "consumed_count" (integer_value abi res.consumed_count) (
                  input "consumed_data" (vec_value (map consumed_witness_value res.consumed_data))
                    no_input))))))
