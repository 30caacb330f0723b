-- ===== src/Client/SmallSamples.antt =====
-- Clients and pools over the field of two elements, whose arguments keep their laws.
use arm_noir.Prelude.{
  ◌%◌, Bool-cases, inl, inr, length-map, ◌≡◌, refl, Bool, true, false, none, some, [], ◌∷◌, ◌++◌,
  map, replicate, bytes_Eq, bytes_eq, if◌then◌else◌, arith,
}
use arm_noir.Bytes.Reads.{AreBytes}
use arm_noir.Crypto.Samples.{adding, adding-HashLaws, two, two-FieldLaws}
use arm_noir.Resource.Preimage.{IsResource}
use arm_noir.Client.Lawful.{Lawful}
use arm_noir.Bytes.{Bytes, zeros, be_bytes}
use arm_noir.Curve.Group.{Grumpkin, to_affine}
use arm_noir.Instance.{ExpirableBlob, AppData}
use arm_noir.Pool.State.{Backend, Transaction, ShieldedPool}
use arm_noir.Pool.Samples.{backend, created_logic}
use arm_noir.Wallet.KeyBytes.{ExtendedFullViewingKey}
use arm_noir.Client.{ResourceWithLabel, Decryption}
use arm_noir.Client.Samples.{plain, coin, note, read_note, payload}

-- The pairs of which the second is zero are points, and every product is the point itself.
abbrev pub small_group : Grumpkin Bool
small_group = record {
  Affine = Bool × Bool;
  Fr = Bytes;
  affine_new = λ x y. if y then none else some (x, y);
  affine_x = λ p. p.0;
  affine_y = λ p. p.1;
  affine_generator = (true, false);
  from_le_bytes_mod_order = λ b. b;
  affine_mul = λ p s. p;
}

-- AES that keeps its input, as bytes.
abbrev pub to_bytes : Bytes → Bytes
to_bytes b = map (λ x. x % 256) b

pub to_bytes-AreBytes : (b : Bytes) → AreBytes (to_bytes b)
to_bytes-AreBytes [] = tt
to_bytes-AreBytes (x ∷ b) = (omega arith, to_bytes-AreBytes b)

abbrev pub small_decryption : Decryption plain Bool
small_decryption = record {
  AffinePoint = Bytes;
  codec = record { to_encoded_point = λ b. b; from_encoded_point = λ b. some b };
  diffie_hellman = λ s p. replicate 32 0;
  to_encoded_point = λ b. replicate 65 4;
  grumpkin = small_group;
  aes_decrypt = λ cipher nonce key size. some (to_bytes cipher);
  resource_from_slice = read_note;
}

abbrev pub small_backend : Backend Bool
small_backend = record {
  hashes = adding;
  field = two;
  poseidon2_hash = backend.poseidon2_hash;
  verify_api = backend.verify_api;
  schnorr_verify = backend.schnorr_verify;
  transaction_to_vec = λ tx. [];
}

pub coin-IsResource : IsResource coin
unfolding be_bytes
coin-IsResource = record {
  logic = refl;
  label = refl;
  value = refl;
  amount = omega arith;
  nonce_size = refl;
  nk = refl;
  seed = refl;
}

pub read_note-IsResource :
    (b : Bytes) (r : ResourceWithLabel) → read_note b ≡ some r → IsResource r.resource
read_note-IsResource b r e = elim (Bool-cases (bytes_eq b (replicate 240 7))) [
  | inl ours ↦ let same : note ≡ r = cc (rw ours at e) in rw (← same) coin-IsResource
  | inr other ↦ absurd (cc (rw other at e))
]

pub small-Lawful : Lawful small_backend small_decryption
unfolding to_affine
small-Lawful = record {
  hash_laws = adding-HashLaws;
  field_laws = two-FieldLaws;
  length-diffie_hellman = λ s p. refl;
  length-to_encoded_point = λ p. refl;
  generator_on_curve = ((true, false), refl, tt);
  aes = λ cipher nonce key _ _ _.
      (to_bytes cipher, refl, (length-map cipher (λ x. x % 256), to_bytes-AreBytes cipher));
  decoded = read_note-IsResource;
}

abbrev pub small_viewing : ExtendedFullViewingKey plain Bool
small_viewing = record {
  verifying_key = 8 ∷ [];
  encryption_secret_key = record { lo = true; hi = false };
  discovery_secret_key = 9 ∷ [];
  nullifier_key = replicate 32 1;
}

abbrev pub small_tx : AppData → Transaction Bool
small_tx data_sent = record {
  logic_instances = (record created_logic { app_data = data_sent }, []) ∷ [];
  compliance_instance = record {
    consumed_publics = [];
    consumed_count = 0;
    created_publics = [];
    created_count = 0;
    delta = record { x = true; y = false };
  };
  compliance_proof = [];
  signature = none;
}

abbrev pub small_pool : AppData → ShieldedPool Bool
small_pool data_sent = record {
  nullifiers = [];
  commitments = [];
  transactions = small_tx data_sent ∷ [];
  anchors = [];
  logic_circuits = [];
}

-- A payload of which no byte is in use.
abbrev pub short_payload : ExpirableBlob
short_payload = record payload { blob_len = 0 }

-- The sample payload with a point whose second coordinate is one.
abbrev pub off_curve_payload : ExpirableBlob
off_curve_payload = record payload {
  blob = zeros 12 ++ (4 ∷ zeros 63 ++ (1 ∷ replicate 240 7 ++ (replicate 16 16 ++ zeros 7)));
}
