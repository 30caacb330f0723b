-- ===== src/Calldata/Laws.antt =====
-- What the encoders write, and that a call is determined by its bytes.
use arm_noir.Prelude.{
  ℕ, ◌^◌, ◌<◌, ◌≡◌, ◌≢◌, sym, ◌∙◌, Option, some, List, [], ◌∷◌, ◌++◌, length, length-append,
  append-nil, arith,
}
use arm_noir.Bytes.{Bytes, Buffer, zeros, join, be_bytes}
use arm_noir.Bytes.Laws.{write_parts_short, write_parts_lem, length-be_bytes, be_bytes-injective}
use arm_noir.Bytes.Parts.{SameShape, join-injective}
use arm_noir.Calldata.{
  call_type_wrap, call_type_unwrap, encode_wrap_forwarder_input, encode_unwrap_forwarder_input,
  encode_forwarder_calldata,
}

-- The arguments of a wrap.
pub record WrapInput : Type 0 where
  pub erc20_token_addr : Bytes
  pub quantity : ℕ
  pub nonce : Bytes
  pub deadline : Bytes
  pub ethereum_account_addr : Bytes
  pub action_tree_root : Bytes
  pub signature : Bytes

-- The arrays have their lengths, and the quantity fits a u128.
pub record IsWrapInput (w : WrapInput) : Type 0 where
  pub token : length w.erc20_token_addr ≡ 20
  pub amount : w.quantity < 256 ^ 16
  pub nonce_size : length w.nonce ≡ 32
  pub deadline_size : length w.deadline ≡ 32
  pub account : length w.ethereum_account_addr ≡ 20
  pub root : length w.action_tree_root ≡ 32
  pub signed : length w.signature ≡ 65

abbrev pub encode_wrap : WrapInput → Option Buffer
encode_wrap w =
    encode_wrap_forwarder_input w.erc20_token_addr w.quantity w.nonce w.deadline
      w.ethereum_account_addr w.action_tree_root w.signature

abbrev wrap_parts : WrapInput → List Bytes
wrap_parts w =
    (call_type_wrap ∷ [])
    ∷ w.erc20_token_addr
    ∷ be_bytes 16 w.quantity
    ∷ w.nonce
    ∷ w.deadline
    ∷ w.ethereum_account_addr
    ∷ w.action_tree_root
    ∷ w.signature
    ∷ []

length-wrap_parts : (w : WrapInput) → IsWrapInput w → length (join (wrap_parts w)) ≡ 218
length-wrap_parts w v = omega (
  arith,
  length-append {0},
  length-be_bytes 16 w.quantity,
  v.token,
  v.nonce_size,
  v.deadline_size,
  v.account,
  v.root,
  v.signed,
)

-- A wrap is encoded in 218 bytes, the parts in order and zeros behind them.
pub encode_wrap_lem :
    (w : WrapInput) → IsWrapInput w → encode_wrap w ≡ some (join (wrap_parts w) ++ zeros 38, 218)
unfolding encode_wrap_forwarder_input
encode_wrap_lem w v =
    let size = length-wrap_parts w v in
    rw size at (write_parts_short 256 (wrap_parts w) (omega arith))

wrap-SameShape :
    (w w' : WrapInput) → IsWrapInput w → IsWrapInput w' → SameShape (wrap_parts w) (wrap_parts w')
wrap-SameShape w w' v v' =
    let amounts : length (be_bytes 16 w.quantity) ≡ length (be_bytes 16 w'.quantity) =
      length-be_bytes 16 w.quantity ∙ sym (length-be_bytes 16 w'.quantity) in
    (
      omega arith,
      (
        v.token ∙ sym v'.token,
        (
          amounts,
          (
            v.nonce_size ∙ sym v'.nonce_size,
            (
              v.deadline_size ∙ sym v'.deadline_size,
              (v.account ∙ sym v'.account, (v.root ∙ sym v'.root, (v.signed ∙ sym v'.signed, tt))),
            ),
          ),
        ),
      ),
    )

-- Two wraps with arguments in range (`IsWrapInput`) and the same encoding have the same arguments.
pub encode_wrap-injective :
    (w w' : WrapInput) → IsWrapInput w → IsWrapInput w' → encode_wrap w ≡ encode_wrap w' → w ≡ w'
encode_wrap-injective w w' v v' e =
    let same : join (wrap_parts w) ++ zeros 38 ≡ join (wrap_parts w') ++ zeros 38 =
      cc (encode_wrap_lem w v, encode_wrap_lem w' v') in
    let parts =
      join-injective (wrap_parts w) (wrap_parts w') (zeros 38) (zeros 38) (wrap-SameShape w w' v v')
        same in
    let amount = be_bytes-injective 16 w.quantity w'.quantity v.amount v'.amount (cc parts) in cc

-- The arguments of an unwrap.
pub record UnwrapInput : Type 0 where
  pub erc20_token_addr : Bytes
  pub ethereum_account_addr : Bytes
  pub quantity : ℕ

pub record IsUnwrapInput (u : UnwrapInput) : Type 0 where
  pub token : length u.erc20_token_addr ≡ 20
  pub account : length u.ethereum_account_addr ≡ 20
  pub amount : u.quantity < 256 ^ 16

abbrev pub encode_unwrap : UnwrapInput → Option Buffer
encode_unwrap u =
    encode_unwrap_forwarder_input u.erc20_token_addr u.ethereum_account_addr u.quantity

abbrev unwrap_parts : UnwrapInput → List Bytes
unwrap_parts u =
    (call_type_unwrap ∷ [])
    ∷ u.erc20_token_addr
    ∷ u.ethereum_account_addr
    ∷ be_bytes 16 u.quantity
    ∷ []

-- An unwrap is encoded in 57 bytes, the parts in order and zeros behind them.
pub encode_unwrap_lem :
    (u : UnwrapInput)
    → IsUnwrapInput u
    → encode_unwrap u ≡ some (join (unwrap_parts u) ++ zeros 199, 57)
unfolding encode_unwrap_forwarder_input
encode_unwrap_lem u v =
    let size : length (join (unwrap_parts u)) ≡ 57 =
      omega (arith, length-append {0}, length-be_bytes 16 u.quantity, v.token, v.account) in
    rw size at (write_parts_short 256 (unwrap_parts u) (omega arith))

-- No wrap with arguments in range (`IsWrapInput`) has the encoding of an unwrap with arguments in
-- range (`IsUnwrapInput`).
pub encode_wrap-encode_unwrap :
    (w : WrapInput) (u : UnwrapInput)
    → IsWrapInput w
    → IsUnwrapInput u
    → encode_wrap w ≢ encode_unwrap u
encode_wrap-encode_unwrap w u v v' e = cc (encode_wrap_lem w v, encode_unwrap_lem u v')

-- For an address of 20 bytes, an input of 256 and an output of 64, the call data of a forwarder is
-- these one behind the other, 340 bytes in all.
pub encode_forwarder_calldata_lem :
    (forwarder input output : Bytes)
    → length forwarder ≡ 20
    → length input ≡ 256
    → length output ≡ 64
    → encode_forwarder_calldata forwarder input output ≡ some (forwarder ++ (input ++ output), 340)
unfolding encode_forwarder_calldata
encode_forwarder_calldata_lem forwarder input output p q r =
    let parts = forwarder ∷ input ∷ output ∷ [] in
    rw (append-nil output) at
      (write_parts_lem 340 parts (omega (arith, length-append {0}, p, q, r)))
