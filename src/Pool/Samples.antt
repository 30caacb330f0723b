-- ===== src/Pool/Samples.antt =====
-- Runs of the pool on concrete inputs: the field is ℕ, the hashes are sums, a proof is accepted
-- that repeats its public inputs, and a signature that repeats its first half.
use arm_noir.Prelude.{
  ℕ, ◌+◌, ◌*◌, ◌%◌, ◌≡◌, refl, Bool, true, false, List, [], ◌∷◌, ◌++◌, Option, none, some, reverse,
  bytes_eq, bytes_Eq, replicate, ◌==◌,
}
use arm_noir.Bytes.{Bytes, zeros, be_bytes, le_bytes, write_bytes, write_parts}
use arm_noir.Crypto.{Hashes, FieldOps}
use arm_noir.Circuit.{BarretenbergCircuit, VerifyResult, circuit_verify}
use arm_noir.Instance.{
  ConsumedResourcePublic, CreatedResourcePublic, ComplianceInstance, ResourceLogicInstance,
  default_app_data, logic_digest, compliance_digest, logic_preimage, compliance_preimage,
}
use arm_noir.Pool.Outcome.{ok}
use arm_noir.Pool.History.{Reached, start, registered}
use arm_noir.Pool.State.{
  new, register_logic, Transaction, ShieldedPool, Backend, Proof, commitment_root, cmt_node_new,
}
use arm_noir.Merkle.Root.{root_of}
use arm_noir.Pool.Submit.{submit}

abbrev pub sum : Bytes → ℕ
sum [] = 0
sum (x ∷ xs) = x + sum xs

abbrev pub big_endian : ℕ → Bytes → ℕ
big_endian acc [] = acc
big_endian acc (x ∷ xs) = big_endian (acc * 256 + x) xs

abbrev pub hashes : Hashes
hashes = record { keccak256 = λ m. be_bytes 32 (sum m + 1); sha256 = λ m. be_bytes 32 (sum m + 2) }

abbrev pub field : FieldOps ℕ
field = record {
  zero = 0;
  is_zero = λ x. x == 0;
  to_be_bytes = be_bytes 32;
  to_le_bytes = le_bytes 32;
  from_be_bytes_reduce = big_endian 0;
  from_le_bytes_reduce = λ m. big_endian 0 (reverse m);
}

abbrev pub accepts : List Bytes → List Bytes → Bool
accepts (x ∷ []) (y ∷ []) = bytes_eq x y
accepts xs ys = false

abbrev pub backend : Backend ℕ
backend = record {
  hashes = hashes;
  field = field;
  poseidon2_hash = λ a b. be_bytes 32 ((3 * sum a + 5 * sum b + 1) % 60000);
  verify_api = λ vk inputs proof settings. VerifyResult.verified (accepts inputs proof);
  schnorr_verify = λ msg x y s e. some (bytes_eq s e);
  transaction_to_vec = λ tx. zeros 8;
}

abbrev pub circuit : BarretenbergCircuit
circuit = record {
  compute_vk_response = record { bytes = 9 ∷ []; hash = zeros 32 };
  proof_system_settings = record {
    ipa_accumulation = false;
    oracle_hash_type = [];
    disable_zk = false;
    optimized_solidity_verifier = false;
  };
  circuit_name = [];
  program_bytecode = [];
}

abbrev pub from_some : {A : Type 0} → A → Option A → A
from_some a none = a
from_some a (some b) = b

abbrev pub no_pool : ShieldedPool ℕ
no_pool = record {
  nullifiers = [];
  commitments = [];
  transactions = [];
  anchors = [];
  logic_circuits = [];
}

abbrev pub empty_anchor : Bytes
empty_anchor = from_some [] (commitment_root backend [])

abbrev pub logic_ref : Bytes
logic_ref = zeros 32

abbrev pub pool : ShieldedPool ℕ
pool = record {
  nullifiers = [];
  commitments = [];
  transactions = [];
  anchors = empty_anchor ∷ [];
  logic_circuits = (logic_ref, circuit) ∷ [];
}

abbrev pub nullifier : Bytes
nullifier = replicate 32 3

abbrev pub commitment : Bytes
commitment = replicate 32 4

abbrev pub no_consumed : ConsumedResourcePublic
no_consumed = record {
  resource_nullifier = zeros 32;
  resource_logic_ref = zeros 32;
  commitment_tree_root = zeros 32;
}

abbrev pub no_created : CreatedResourcePublic
no_created = record { resource_commitment = zeros 32; resource_logic_ref = zeros 32 }

abbrev pub consumed : ConsumedResourcePublic
consumed = record {
  resource_nullifier = nullifier;
  resource_logic_ref = logic_ref;
  commitment_tree_root = reverse empty_anchor;
}

abbrev pub created : CreatedResourcePublic
created = record { resource_commitment = commitment; resource_logic_ref = logic_ref }

abbrev pub compliance_instance : ComplianceInstance ℕ
compliance_instance = record {
  consumed_publics = consumed ∷ no_consumed ∷ no_consumed ∷ no_consumed ∷ [];
  consumed_count = 1;
  created_publics = created ∷ no_created ∷ no_created ∷ no_created ∷ [];
  created_count = 1;
  delta = record { x = 1; y = 2 };
}

abbrev pub action_root : Bytes
action_root = hashes.keccak256 (nullifier ++ commitment)

abbrev pub consumed_logic : ResourceLogicInstance
consumed_logic = record {
  tag = nullifier;
  action_root = action_root;
  is_consumed = true;
  app_data = default_app_data;
}

abbrev pub created_logic : ResourceLogicInstance
created_logic = record {
  tag = commitment;
  action_root = action_root;
  is_consumed = false;
  app_data = default_app_data;
}

abbrev pub logic_proof_of : ResourceLogicInstance → Proof
logic_proof_of l = be_bytes 32 (from_some 0 (logic_digest field hashes l)) ∷ []

abbrev pub tx : Transaction ℕ
tx = record {
  logic_instances =
      (consumed_logic, logic_proof_of consumed_logic)
      ∷ (created_logic, logic_proof_of created_logic)
      ∷ [];
  compliance_instance = compliance_instance;
  compliance_proof =
      be_bytes 32 (from_some 0 (compliance_digest field hashes compliance_instance)) ∷ [];
  signature = some (7 ∷ [], 7 ∷ []);
}

abbrev pub after : ShieldedPool ℕ
after = (submit backend pool circuit tx).0

pub tx-accepted : submit backend pool circuit tx ≡ (after, ok tt)
unfolding submit root_of be_bytes compliance_digest compliance_preimage write_parts write_bytes
    le_bytes zeros commitment_root circuit_verify cmt_node_new logic_digest logic_preimage
tx-accepted = refl

-- The pool before its logic is registered.
abbrev pub first_pool : ShieldedPool ℕ
first_pool = record pool { logic_circuits = [] }

pub first_pool-Reached : Reached backend first_pool
unfolding new root_of commitment_root
first_pool-Reached = start first_pool refl

pub pool-Reached : Reached backend pool
unfolding register_logic zeros
pool-Reached = registered circuit first_pool-Reached
