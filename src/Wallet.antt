-- ===== src/Wallet.antt =====
-- The key store of nodes/src/wallet.rs: `Store`, six maps from aliases. The types of keys and
-- addresses are arguments, and so are the derivation of keys, the encryption by a passphrase and the
-- parsers of literals. `inl` is an error of the code.
pub mod Laws
pub mod Merge
pub mod KeyBytes
mod Tests
use Prim.Native.String.{String}
use arm_noir.Prelude.{
  ◌≡◌, refl, Bool, true, false, ◌||◌, Option, none, some, List, [], ◌∷◌, ◌++◌, map, ◌⊎◌, inl, inr,
  string_Eq, contains, lookup, erase, put, contains_key, length, ◌==◌, if◌then◌else◌,
}
use arm_noir.Bytes.{Bytes}

-- The types that the store holds.
pub record Types : Type 1 where
  pub ViewingKey : Type 0
  pub SpendingKey : Type 0
  pub PaymentAddress : Type 0
  pub SigningKey : Type 0
  pub VerifyingKey : Type 0
  pub Address : Type 0

-- The reasons of errors: a library refused, or an alias is not in the store.
pub data Error : Type 0 where
  other : Error
  not_found : Error
  invalid_data : Error

pub record Store (t : Types) : Type 0 where
  pub viewing_keys : List (String × t.ViewingKey)
  pub spending_keys : List (String × Bytes)
  pub payment_addrs : List (String × t.PaymentAddress)
  pub signing_keys : List (String × Bytes)
  pub verifying_keys : List (String × t.VerifyingKey)
  pub addresses : List (String × t.Address)

-- What the store takes from elsewhere: the derivation of keys, the keys as bytes, `age::encrypt` and
-- `age::decrypt` with a passphrase, and the parsers of literals. `none` is a failure.
pub record Keys (t : Types) : Type 0 where
  pub to_viewing_key : t.SpendingKey → t.ViewingKey
  pub to_payment_address : t.ViewingKey → t.PaymentAddress
  pub public_key : t.SigningKey → t.VerifyingKey
  pub address : t.SigningKey → t.Address
  pub spending_to_vec : t.SpendingKey → Bytes
  pub spending_from_slice : Bytes → Option t.SpendingKey
  pub signing_to_bytes : t.SigningKey → Bytes
  pub signing_from_slice : Bytes → Option t.SigningKey
  pub encrypt : String → Bytes → Option Bytes
  pub decrypt : String → Bytes → Option Bytes
  pub parse_address : String → Option t.Address
  pub parse_viewing_key : String → Option t.ViewingKey
  pub parse_payment_address : String → Option t.PaymentAddress

-- The keys of a map.
abbrev pub aliases : {V : Type 0} → List (String × V) → List String
aliases m = map (λ p. p.0) m

-- `BTreeMap::extend`
abbrev pub extend : {V : Type 0} → List (String × V) → List (String × V) → List (String × V)
extend m [] = m
extend m ((k, v) ∷ rest) = extend (put k v m) rest

module _ {t : Types} where
  -- `Store::default`
  abbrev pub empty_store : Store t
  empty_store = record {
    viewing_keys = [];
    spending_keys = [];
    payment_addrs = [];
    signing_keys = [];
    verifying_keys = [];
    addresses = [];
  }

  unfoldable pub exists_alias : Store t → String → Bool
  exists_alias self alias =
      contains_key alias self.viewing_keys
      || contains_key alias self.spending_keys
      || contains_key alias self.payment_addrs
      || contains_key alias self.signing_keys
      || contains_key alias self.verifying_keys
      || contains_key alias self.addresses

  unfoldable pub remove : Store t → String → Store t
  remove self alias = record {
    viewing_keys = erase alias self.viewing_keys;
    spending_keys = erase alias self.spending_keys;
    payment_addrs = erase alias self.payment_addrs;
    signing_keys = erase alias self.signing_keys;
    verifying_keys = erase alias self.verifying_keys;
    addresses = erase alias self.addresses;
  }

  -- `keys().for_each(|x| self.remove(x))`
  unfoldable pub remove_all : List String → Store t → Store t
  unfolding remove
  remove_all [] self = self
  remove_all (x ∷ xs) self = remove_all xs (remove self x)

  -- Every alias of a store.
  abbrev pub all_aliases : Store t → List String
  all_aliases store =
      aliases store.viewing_keys
      ++ (aliases store.spending_keys
          ++ (aliases store.payment_addrs
              ++ (aliases store.signing_keys
                  ++ (aliases store.verifying_keys ++ aliases store.addresses))))

  unfoldable pub merge : Store t → Store t → Store t
  unfolding remove_all
  merge self store =
      let cleared = remove_all (all_aliases store) self in
      record {
        viewing_keys = extend cleared.viewing_keys store.viewing_keys;
        spending_keys = extend cleared.spending_keys store.spending_keys;
        payment_addrs = extend cleared.payment_addrs store.payment_addrs;
        signing_keys = extend cleared.signing_keys store.signing_keys;
        verifying_keys = extend cleared.verifying_keys store.verifying_keys;
        addresses = extend cleared.addresses store.addresses;
      }

  unfoldable pub store_address : Store t → String → t.Address → Store t
  unfolding remove
  store_address self alias addr =
      let cleared = remove self alias in
      record cleared { addresses = put alias addr cleared.addresses }

  unfoldable pub store_payment_address : Store t → String → t.PaymentAddress → Store t
  unfolding remove
  store_payment_address self alias addr =
      let cleared = remove self alias in
      record cleared { payment_addrs = put alias addr cleared.payment_addrs }

  module _ (keys : Keys t) where
    open keys use {
      to_viewing_key, to_payment_address, public_key, address, spending_to_vec, spending_from_slice,
      signing_to_bytes, signing_from_slice, encrypt, decrypt, parse_address, parse_viewing_key,
      parse_payment_address,
    }

    unfoldable pub store_viewing_key : Store t → String → t.ViewingKey → Store t
    unfolding remove
    store_viewing_key self alias key =
        let cleared = remove self alias in
        record cleared {
          viewing_keys = put alias key cleared.viewing_keys;
          payment_addrs = put alias (to_payment_address key) cleared.payment_addrs;
        }

    -- The alias is removed before the encryption, which may fail.
    unfoldable pub store_spending_key :
        Store t → String → t.SpendingKey → String → Store t × (Error ⊎ Unit {0})
    unfolding remove
    store_spending_key self alias extsk passphrase =
        let cleared = remove self alias in
        elim (encrypt passphrase (spending_to_vec extsk)) [
          | none ↦ (cleared, inl other)
          | some encrypted ↦
              let extfvk = to_viewing_key extsk in
              (
                record cleared {
                  spending_keys = put alias encrypted cleared.spending_keys;
                  viewing_keys = put alias extfvk cleared.viewing_keys;
                  payment_addrs = put alias (to_payment_address extfvk) cleared.payment_addrs;
                },
                inr tt,
              )
        ]

    unfoldable pub store_signing_key :
        Store t → String → t.SigningKey → String → Store t × (Error ⊎ Unit {0})
    unfolding remove
    store_signing_key self alias key passphrase =
        let cleared = remove self alias in
        elim (encrypt passphrase (signing_to_bytes key)) [
          | none ↦ (cleared, inl other)
          | some encrypted ↦ (
            record cleared {
              signing_keys = put alias encrypted cleared.signing_keys;
              verifying_keys = put alias (public_key key) cleared.verifying_keys;
              addresses = put alias (address key) cleared.addresses;
            },
            inr tt,
          )
        ]

    -- The key with an alias, decrypted.
    unfoldable pub decrypt_spending_key : Store t → String → String → Error ⊎ t.SpendingKey
    decrypt_spending_key self alias passphrase = elim (lookup alias self.spending_keys) [
      | none ↦ inl not_found
      | some enc_sk ↦ elim (decrypt passphrase enc_sk) [
        | none ↦ inl other
        | some decrypted ↦ elim (spending_from_slice decrypted) [
          | none ↦ inl invalid_data
          | some key ↦ inr key
        ]
      ]
    ]

    -- The bytes are converted to an array of 32 before they are read.
    unfoldable pub decrypt_signing_key : Store t → String → String → Error ⊎ t.SigningKey
    decrypt_signing_key self alias passphrase = elim (lookup alias self.signing_keys) [
      | none ↦ inl not_found
      | some enc_sk ↦ elim (decrypt passphrase enc_sk) [
        | none ↦ inl other
        | some decrypted ↦
            if length decrypted == 32
            then elim (signing_from_slice decrypted) [ none ↦ inl other | some key ↦ inr key ]
            else inl invalid_data
      ]
    ]

    -- A literal first, then an alias.
    abbrev pub evaluate :
        {V : Type 0} → (String → Option V) → List (String × V) → String → Error ⊎ V
    evaluate parse m expr = elim (parse expr) [
      | some value ↦ inr value
      | none ↦ elim (lookup expr m) [ some value ↦ inr value | none ↦ inl other ]
    ]

    abbrev pub evaluate_address : Store t → String → Error ⊎ t.Address
    evaluate_address self expr = evaluate parse_address self.addresses expr

    abbrev pub evaluate_viewing_key : Store t → String → Error ⊎ t.ViewingKey
    evaluate_viewing_key self expr = evaluate parse_viewing_key self.viewing_keys expr

    abbrev pub evaluate_payment_address : Store t → String → Error ⊎ t.PaymentAddress
    evaluate_payment_address self expr = evaluate parse_payment_address self.payment_addrs expr
