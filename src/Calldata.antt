-- ===== src/Calldata.antt =====
-- The encoders of contract calls in nodes/src/types.rs, and `Ciphertext` as bytes. `none` is a write
-- or a read out of range.
pub mod Laws
pub mod Ciphertext
mod Tests
use arm_noir.Prelude.{ℕ, Option, none, some, List, [], ◌∷◌, ◌>>=◌}
use arm_noir.Bytes.{Bytes, Buffer, zeros, write_parts, be_bytes}

abbrev pub max_input_len : ℕ
max_input_len = 256

abbrev pub max_forwarder_calldata_len : ℕ
max_forwarder_calldata_len = 340

abbrev pub call_type_wrap : ℕ
call_type_wrap = 0

abbrev pub call_type_unwrap : ℕ
call_type_unwrap = 1

-- The quantity is a u128. The result is the array and the number of bytes in use.
unfoldable pub encode_wrap_forwarder_input :
    Bytes → ℕ → Bytes → Bytes → Bytes → Bytes → Bytes → Option Buffer
encode_wrap_forwarder_input erc20_token_addr quantity nonce deadline ethereum_account_addr
      action_tree_root signature =
    write_parts
      ((call_type_wrap ∷ [])
        ∷ erc20_token_addr
        ∷ be_bytes 16 quantity
        ∷ nonce
        ∷ deadline
        ∷ ethereum_account_addr
        ∷ action_tree_root
        ∷ signature
        ∷ [])
      (zeros max_input_len, 0)

unfoldable pub encode_unwrap_forwarder_input : Bytes → Bytes → ℕ → Option Buffer
encode_unwrap_forwarder_input erc20_token_addr ethereum_account_addr quantity =
    write_parts
      ((call_type_unwrap ∷ [])
        ∷ erc20_token_addr
        ∷ ethereum_account_addr
        ∷ be_bytes 16 quantity
        ∷ [])
      (zeros max_input_len, 0)

unfoldable pub encode_forwarder_calldata : Bytes → Bytes → Bytes → Option Buffer
encode_forwarder_calldata forwarder input output =
    write_parts (forwarder ∷ input ∷ output ∷ []) (zeros max_forwarder_calldata_len, 0)
