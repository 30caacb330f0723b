-- ===== src/Circuit.antt =====
-- `BarretenbergCircuit` and `circuit_verify` of nodes/src/lib.rs. The compiled program, which only
-- proving reads, is left out; the verifier of the proof system is an argument.
use arm_noir.Prelude.{Bool, List}
use arm_noir.Bytes.{Bytes}

pub record ProofSystemSettings : Type 0 where
  pub ipa_accumulation : Bool
  pub oracle_hash_type : Bytes
  pub disable_zk : Bool
  pub optimized_solidity_verifier : Bool

-- `CircuitComputeVkResponse`
pub record VkResponse : Type 0 where
  pub bytes : Bytes
  pub hash : Bytes

pub record BarretenbergCircuit : Type 0 where
  pub compute_vk_response : VkResponse
  pub proof_system_settings : ProofSystemSettings
  pub circuit_name : Bytes
  pub program_bytecode : Bytes

-- The fields of a `CircuitProveResponse` that a verification sends.
pub record ProveResponse : Type 0 where
  pub proof : List Bytes
  pub public_inputs : List Bytes
  pub vk : VkResponse

-- What the backend answers: an error of its own, or whether the proof verified.
pub data VerifyResult : Type 0 where
  backend_error : VerifyResult
  verified : Bool → VerifyResult

-- `BarretenbergApi::circuit_verify`: key, public inputs, proof, settings.
abbrev pub VerifyApi : Type 0
VerifyApi = Bytes → List Bytes → List Bytes → ProofSystemSettings → VerifyResult

unfoldable pub circuit_verify : VerifyApi → BarretenbergCircuit → ProveResponse → VerifyResult
circuit_verify api self prove_response =
    api self.compute_vk_response.bytes prove_response.public_inputs prove_response.proof
      self.proof_system_settings
