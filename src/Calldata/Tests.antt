-- ===== src/Calldata/Tests.antt =====
-- Encodings of calls and of ciphertexts.
use arm_noir.Prelude.{
  ◌≡◌, refl, Bool, true, false, some, none, length, replicate, bytes_eq, if◌then◌else◌, arith,
}
use arm_noir.Bytes.{Bytes}
use arm_noir.Crypto.Samples.{two, two-FieldLaws}
use arm_noir.Instance.{EmbeddedCurvePoint}
use arm_noir.Calldata.Laws.{
  WrapInput, IsWrapInput, UnwrapInput, IsUnwrapInput, encode_wrap-injective,
}
use arm_noir.Calldata.Ciphertext.{
  Ciphertext, PointCodec, discovery_to_bytes, discovery_from_bytes, encryption_to_bytes,
  encryption_from_bytes, discovery_from_bytes-discovery_to_bytes,
  encryption_from_bytes-encryption_to_bytes,
}

abbrev wrap : WrapInput
wrap = record {
  erc20_token_addr = replicate 20 1;
  quantity = 1000;
  nonce = replicate 32 2;
  deadline = replicate 32 3;
  ethereum_account_addr = replicate 20 4;
  action_tree_root = replicate 32 5;
  signature = replicate 65 6;
}

wrap-IsWrapInput : IsWrapInput wrap
wrap-IsWrapInput = record {
  token = refl;
  amount = omega arith;
  nonce_size = refl;
  deadline_size = refl;
  account = refl;
  root = refl;
  signed = refl;
}

abbrev unwrap : UnwrapInput
unwrap = record {
  erc20_token_addr = replicate 20 1;
  ethereum_account_addr = replicate 20 4;
  quantity = 1000;
}

unwrap-IsUnwrapInput : IsUnwrapInput unwrap
unwrap-IsUnwrapInput = record { token = refl; account = refl; amount = omega arith }

encode_wrap-injective_example : wrap ≡ wrap
encode_wrap-injective_example =
    encode_wrap-injective wrap wrap wrap-IsWrapInput wrap-IsWrapInput refl

-- Points that are a flag, in 65 bytes.
abbrev flags : PointCodec Bool
flags = record {
  to_encoded_point = λ p. if p then replicate 65 4 else replicate 65 7;
  from_encoded_point = λ b.
      if bytes_eq b (replicate 65 4)
      then some true
      else if bytes_eq b (replicate 65 7)
      then some false
      else none;
}

abbrev found : Ciphertext Bool
found = record { cipher = replicate 16 1; nonce = replicate 12 2; pk = true }

discovery_from_bytes-discovery_to_bytes_example :
    (bytes : Bytes) × (discovery_to_bytes flags found ≡ some bytes)
    × (length bytes ≡ 93)
    × (discovery_from_bytes flags bytes ≡ some (some found))
discovery_from_bytes-discovery_to_bytes_example =
    discovery_from_bytes-discovery_to_bytes flags found refl refl refl refl

abbrev sent : Ciphertext (EmbeddedCurvePoint Bool)
sent = record {
  cipher = replicate 256 1;
  nonce = replicate 12 2;
  pk = record { x = true; y = false };
}

encryption_from_bytes-encryption_to_bytes_example :
    (bytes : Bytes) × (encryption_to_bytes two sent ≡ some bytes)
    × (length bytes ≡ 333)
    × (encryption_from_bytes two bytes ≡ some (some sent))
encryption_from_bytes-encryption_to_bytes_example =
    encryption_from_bytes-encryption_to_bytes two two-FieldLaws sent refl refl
