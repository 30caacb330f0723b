-- ===== src/Client.antt =====
-- `ClientState::synchronize` of nodes/src/client.rs: a client's view of the shielded pool. `none` is a
-- panic. The keys and points of `k256`, those of `ark_grumpkin`, AES and the Borsh decoding of a
-- resource are arguments.
pub mod Decrypt
pub mod Scan
pub mod Notes
pub mod Owned
pub mod Synchronize
pub mod Payloads
pub mod Lawful
pub mod Total
pub mod Succeeds
pub mod OffCurve
pub mod Padding
pub mod Tree
pub mod Samples
pub mod SmallSamples
mod Tests
use arm_noir.Prelude.{ℕ, Option, List, [], ◌∷◌, ltb, ◌==◌, if◌then◌else◌, bytes_Eq}
use arm_noir.Bytes.{Bytes}
use arm_noir.Resource.{Resource}
use arm_noir.Curve.Group.{Grumpkin}
use arm_noir.Calldata.Ciphertext.{PointCodec}
use arm_noir.Merkle.{CommitmentTree}
use arm_noir.Wallet.KeyBytes.{K256}

pub record ResourceWithLabel : Type 0 where
  pub resource : Resource
  pub forwarder_addr : Bytes
  pub erc20_token_addr : Bytes

-- Sets and maps from positions are in ascending order; nf_map and pos_map are read by key only, and
-- a viewing key is compared by its bytes.
pub record ClientState : Type 0 where
  pub tree : CommitmentTree Bytes
  pub pos_map : List (Bytes × List ℕ)
  pub nf_map : List (Bytes × ℕ)
  pub note_map : List (ℕ × ResourceWithLabel)
  pub spent_notes : List ℕ
  pub current_pos : ℕ

-- `ClientState::default`
abbrev pub default_state : ClientState
default_state = record {
  tree = record { nodes = []; leaf_count = 0; cache = []; depth = 0 };
  pos_map = [];
  nf_map = [];
  note_map = [];
  spent_notes = [];
  current_pos = 0;
}

-- `BTreeMap::insert` and `BTreeSet::insert` of positions
abbrev pub insert_note : {A : Type 0} → ℕ → A → List (ℕ × A) → List (ℕ × A)
insert_note pos a [] = (pos, a) ∷ []
insert_note pos a ((p, b) ∷ rest) =
    let later = insert_note pos a rest in
    if pos == p
    then (p, a) ∷ rest
    else if ltb pos p
    then (pos, a) ∷ (p, b) ∷ rest
    else (p, b) ∷ later

abbrev pub insert_pos : ℕ → List ℕ → List ℕ
insert_pos pos [] = pos ∷ []
insert_pos pos (p ∷ rest) =
    let later = insert_pos pos rest in
    if pos == p then p ∷ rest else if ltb pos p then pos ∷ p ∷ rest else p ∷ later

-- `diffie_hellman` and the public key of `k256`, the points of `ark_grumpkin`, `aes_decrypt` with
-- the cipher, the nonce, the key and a length (`none` is a failed call), and the decoding of a resource.
pub record Decryption (k : K256) (F : Type 0) : Type 1 where
  pub AffinePoint : Type 0
  pub codec : PointCodec AffinePoint
  pub diffie_hellman : k.SecretKey → AffinePoint → Bytes
  pub to_encoded_point : k.PublicKey → Bytes
  pub grumpkin : Grumpkin F
  pub aes_decrypt : Bytes → Bytes → Bytes → ℕ → Option Bytes
  pub resource_from_slice : Bytes → Option ResourceWithLabel
