-- ===== src/Client/Samples.antt =====
-- Clients and pools for the tests: AES keeps its input, and the points of k256 are bytes.
use arm_noir.Prelude.{
  ℕ, false, Option, none, some, [], ◌∷◌, ◌++◌, replicate, bytes_Eq, bytes_eq, if◌then◌else◌,
}
use arm_noir.Bytes.{Bytes, zeros}
use arm_noir.Curve.Group.{Grumpkin}
use arm_noir.Resource.{Resource, nullifier}
use arm_noir.Instance.{ExpirableBlob, AppData}
use arm_noir.Pool.State.{Transaction, ShieldedPool}
use arm_noir.Pool.Samples.{backend, hashes, tx, pool, created_logic, from_some}
use arm_noir.Wallet.KeyBytes.{Codec, K256, ExtendedFullViewingKey}
use arm_noir.Client.{ResourceWithLabel, ClientState, Decryption, default_state}
use arm_noir.Client.Scan.{synchronize}

abbrev pub any_codec : Codec Bytes
any_codec = record { to_bytes = λ b. b; from_slice = λ b. some b }

abbrev pub plain : K256
plain = record {
  VerifyingKey = Bytes;
  SigningKey = Bytes;
  SecretKey = Bytes;
  PublicKey = Bytes;
  verifying = any_codec;
  signing = any_codec;
  secret = any_codec;
  public = any_codec;
  verifying_key = λ b. b;
  public_key = λ b. b;
}

abbrev pub viewing : ExtendedFullViewingKey plain ℕ
viewing = record {
  verifying_key = 8 ∷ [];
  encryption_secret_key = record { lo = 1; hi = 2 };
  discovery_secret_key = 9 ∷ [];
  nullifier_key = replicate 32 1;
}

abbrev pub coin : Resource
coin = record {
  logic_ref = replicate 32 2;
  label_ref = replicate 32 3;
  value_ref = replicate 32 4;
  quantity = 500;
  nonce = replicate 32 5;
  nk_commitment = hashes.keccak256 (replicate 32 1);
  rand_seed = replicate 32 6;
  is_ephemeral = false;
}

abbrev pub note : ResourceWithLabel
note = record { resource = coin; forwarder_addr = zeros 20; erc20_token_addr = zeros 20 }

-- Every point of k256 is a string of bytes, and a plaintext of sevens is the note.
abbrev pub read_note : Bytes → Option ResourceWithLabel
read_note plaintext = if bytes_eq plaintext (replicate 240 7) then some note else none

-- A group of all pairs, in which every product is the point itself.
abbrev pub pairs : Grumpkin ℕ
pairs = record {
  Affine = ℕ × ℕ;
  Fr = Bytes;
  affine_new = λ x y. some (x, y);
  affine_x = λ p. p.0;
  affine_y = λ p. p.1;
  affine_generator = (1, 2);
  from_le_bytes_mod_order = λ b. b;
  affine_mul = λ p s. p;
}

abbrev pub decryption : Decryption plain ℕ
decryption = record {
  AffinePoint = Bytes;
  codec = record { to_encoded_point = λ b. b; from_encoded_point = λ b. some b };
  diffie_hellman = λ s p. replicate 32 0;
  to_encoded_point = λ b. replicate 65 4;
  grumpkin = pairs;
  aes_decrypt = λ cipher nonce key size. some cipher;
  resource_from_slice = read_note;
}

abbrev pub payload : ExpirableBlob
payload = record {
  blob = zeros 12 ++ (4 ∷ zeros 64 ++ (replicate 240 7 ++ (replicate 16 16 ++ zeros 7)));
  blob_len = 333;
  deletion_criterion = false;
}

abbrev pub discovery : ExpirableBlob
discovery = record {
  blob = zeros 12 ++ (replicate 65 4 ++ (0 ∷ replicate 15 15 ++ zeros 247));
  blob_len = 93;
  deletion_criterion = false;
}

abbrev pub app_data : AppData
app_data = record created_logic.app_data {
  resource_payload = payload ∷ [];
  resource_payload_len = 1;
  discovery_payload = discovery ∷ [];
  discovery_payload_len = 1;
}

-- A pool whose second created resource is the note, which is spent.
abbrev pub sent : Transaction ℕ
sent = record tx {
  logic_instances = (created_logic, []) ∷ (record created_logic { app_data = app_data }, []) ∷ [];
}

abbrev pub note_nullifier : Bytes
note_nullifier = from_some [] (nullifier hashes coin (record { bytes = replicate 32 1 }))

abbrev pub sent_pool : ShieldedPool ℕ
sent_pool = record pool { transactions = sent ∷ []; nullifiers = note_nullifier ∷ [] }

abbrev pub view : ShieldedPool ℕ → ClientState
view p = from_some default_state (synchronize backend decryption (viewing ∷ []) p)
