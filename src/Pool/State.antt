-- ===== src/Pool/State.antt =====
-- The state of the pool, the transaction, and what the pool takes from its libraries.
use arm_noir.Prelude.{
  ℕ, Bool, List, [], ◌∷◌, ◌++◌, Option, some, lookup, put, erase, insert, ◌>>=◌, bytes_Eq, reverse,
}
use arm_noir.Bytes.{Bytes}
use arm_noir.Crypto.{Hashes, FieldOps}
use arm_noir.Circuit.{BarretenbergCircuit, VerifyApi}
use arm_noir.Instance.{ComplianceInstance, ResourceLogicInstance}
use arm_noir.Merkle.{Hashable}
use arm_noir.Merkle.Root.{root_of}

-- A proof is a list of field elements as bytes.
abbrev pub Proof : Type 0
Proof = List Bytes

-- `Transaction` of client.rs
pub record Transaction (F : Type 0) : Type 0 where
  pub logic_instances : List (ResourceLogicInstance × Proof)
  pub compliance_instance : ComplianceInstance F
  pub compliance_proof : Proof
  pub signature : Option (Bytes × Bytes)

pub record ShieldedPool (F : Type 0) : Type 0 where
  pub nullifiers : List Bytes
  pub commitments : List Bytes
  pub transactions : List (Transaction F)
  pub anchors : List Bytes
  pub logic_circuits : List (Bytes × BarretenbergCircuit)

-- The libraries: hashes, field elements, the Poseidon hash of two nodes, the verifiers of proofs
-- and of Schnorr signatures (message, public key, s, e; `none` is a failed call, which panics), and
-- the Borsh encoding of a transaction.
pub record Backend (F : Type 0) : Type 0 where
  pub hashes : Hashes
  pub field : FieldOps F
  pub poseidon2_hash : Bytes → Bytes → Bytes
  pub verify_api : VerifyApi
  pub schnorr_verify : Bytes → Bytes → Bytes → Bytes → Bytes → Option Bool
  pub transaction_to_vec : Transaction F → Bytes

abbrev pub max_tree_depth : ℕ
max_tree_depth = 32

-- sha256("EMPTY"), which pads action trees.
abbrev pub padding_leaf : Bytes
padding_leaf =
    0xcc ∷ 0x1d ∷ 0x2f ∷ 0x83 ∷ 0x84 ∷ 0x45 ∷ 0xdb ∷ 0x7a ∷ 0xec ∷ 0x43 ∷ 0x1d ∷ 0xf9 ∷ 0xee ∷ 0x8a
    ∷ 0x87 ∷ 0x1f ∷ 0x40 ∷ 0xe7 ∷ 0xaa ∷ 0x5e ∷ 0x06 ∷ 0x4f ∷ 0xc0 ∷ 0x56 ∷ 0x63 ∷ 0x3e ∷ 0xf8
    ∷ 0xc6 ∷ 0x0f ∷ 0xab ∷ 0x7b ∷ 0x06 ∷ []

-- The same number with the top byte first: `PADDING_LEAF_CMT_NODE`
abbrev pub padding_leaf_cmt_node : Bytes
padding_leaf_cmt_node =
    0x06 ∷ 0x7b ∷ 0xab ∷ 0x0f ∷ 0xc6 ∷ 0xf8 ∷ 0x3e ∷ 0x63 ∷ 0x56 ∷ 0xc0 ∷ 0x4f ∷ 0x06 ∷ 0x5e ∷ 0xaa
    ∷ 0xe7 ∷ 0x40 ∷ 0x1f ∷ 0x87 ∷ 0x8a ∷ 0xee ∷ 0xf9 ∷ 0x1d ∷ 0x43 ∷ 0xec ∷ 0x7a ∷ 0xdb ∷ 0x45
    ∷ 0x84 ∷ 0x83 ∷ 0x2f ∷ 0x1d ∷ 0xcc ∷ []

module _ {F : Type 0} (backend : Backend F) where
  open backend use {hashes, field, poseidon2_hash}

  -- `CmtNode`: a field element of 32 bytes, top byte first
  abbrev pub cmt_node : Hashable Bytes
  cmt_node = record {
    combine = λ _ lhs rhs. poseidon2_hash lhs rhs;
    empty_leaf = padding_leaf_cmt_node;
  }

  -- `ActNode`: the hash of the two digests side by side
  abbrev pub act_node : Hashable Bytes
  act_node = record {
    combine = λ _ lhs rhs. hashes.keccak256 (lhs ++ rhs);
    empty_leaf = padding_leaf;
  }

  -- `CmtNode::new`, by `from_scalar` of the reversed bytes
  unfoldable pub cmt_node_new : Bytes → Bytes
  cmt_node_new repr = field.to_be_bytes (field.from_be_bytes_reduce (reverse repr))

  -- The root of a commitment tree.
  unfoldable pub commitment_root : List Bytes → Option Bytes
  commitment_root commitments = root_of cmt_node max_tree_depth commitments

  -- `ShieldedPool::new`: the anchor of the empty tree
  unfoldable pub new : Option (ShieldedPool F)
  new = do
    anchor ← commitment_root []
    some (record {
      nullifiers = [];
      commitments = [];
      transactions = [];
      anchors = insert anchor [];
      logic_circuits = [];
    })

module _ {F : Type 0} where
  unfoldable pub register_logic : ShieldedPool F → BarretenbergCircuit → ShieldedPool F
  register_logic self logic_circuit = record self {
    logic_circuits = put logic_circuit.compute_vk_response.hash logic_circuit self.logic_circuits;
  }

  -- The circuit that was registered is returned.
  unfoldable pub deregister_logic :
      ShieldedPool F → Bytes → ShieldedPool F × Option BarretenbergCircuit
  deregister_logic self logic_hash = (
    record self { logic_circuits = erase logic_hash self.logic_circuits },
    lookup logic_hash self.logic_circuits,
  )
