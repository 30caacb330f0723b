-- ===== src/Wallet/Tests.antt =====
-- A store whose keys are numbers and bytes.
use Prim.Native.String.{String}
use text.Mathlib.Text.{◌==◌ as str_eq}
use arm_noir.Prelude.{
  ◌≡◌, refl, true, false, Option, none, some, [], ◌∷◌, ◌⊎◌, inl, inr, if◌then◌else◌,
}
use arm_noir.Bytes.{Bytes}
use arm_noir.Wallet.{
  Types, Store, Keys, exists_alias, merge, store_spending_key, decrypt_spending_key,
  evaluate_payment_address, other,
}
use arm_noir.Wallet.Laws.{SameAt}
use arm_noir.Wallet.Merge.{IsStore, merge_lem, store_spending_key_lem, store_spending_key_lost}

abbrev plain : Types
plain = record {
  ViewingKey = Bytes;
  SpendingKey = Bytes;
  PaymentAddress = Bytes;
  SigningKey = Bytes;
  VerifyingKey = Bytes;
  Address = Bytes;
}

abbrev tail : Bytes → Option Bytes
tail [] = none
tail (x ∷ xs) = some xs

-- An empty passphrase is refused.
abbrev keys : Keys plain
keys = record {
  to_viewing_key = λ k. 1 ∷ k;
  to_payment_address = λ k. 2 ∷ k;
  public_key = λ k. 3 ∷ k;
  address = λ k. 4 ∷ k;
  spending_to_vec = λ k. k;
  spending_from_slice = λ b. some b;
  signing_to_bytes = λ k. k;
  signing_from_slice = λ b. some b;
  encrypt = λ p b. if str_eq p "" then none else some (9 ∷ b);
  decrypt = λ p b. tail b;
  parse_address = λ s. none;
  parse_viewing_key = λ s. none;
  parse_payment_address = λ s. none;
}

abbrev mine : Store plain
mine = record {
  viewing_keys = ("bob", 5 ∷ []) ∷ [];
  spending_keys = [];
  payment_addrs = ("alice", 6 ∷ []) ∷ ("bob", 7 ∷ []) ∷ [];
  signing_keys = [];
  verifying_keys = [];
  addresses = ("carol", 8 ∷ []) ∷ [];
}

abbrev theirs : Store plain
theirs = record {
  viewing_keys = [];
  spending_keys = [];
  payment_addrs = ("bob", 17 ∷ []) ∷ [];
  signing_keys = [];
  verifying_keys = [];
  addresses = ("alice", 18 ∷ []) ∷ [];
}

theirs-IsStore : IsStore theirs
theirs-IsStore = record {
  viewing = tt;
  spending = tt;
  payment = (refl, tt);
  signing = tt;
  verifying = tt;
  addressed = (refl, tt);
}

merge_lem_example :
    (exists_alias theirs "bob" ≡ true) × SameAt (merge mine theirs) theirs "bob"
    ⊎ (exists_alias theirs "bob" ≡ false) × SameAt (merge mine theirs) mine "bob"
merge_lem_example = merge_lem mine theirs "bob" theirs-IsStore

store_spending_key_lem_example :
    (self' : Store plain) × (store_spending_key keys mine "bob" (30 ∷ []) "secret"
      ≡ (self', inr tt))
    × (decrypt_spending_key keys self' "bob" "secret" ≡ inr (30 ∷ []))
    × (evaluate_payment_address keys self' "bob" ≡ inr (2 ∷ 1 ∷ 30 ∷ []))
    × ((j : String) → (j ≡ "bob") ⊎ SameAt self' mine j)
store_spending_key_lem_example =
    store_spending_key_lem keys mine "bob" (30 ∷ []) "secret" refl refl refl refl

store_spending_key_lost_example :
    (self' : Store plain) × (store_spending_key keys mine "bob" (30 ∷ []) "" ≡ (self', inl other))
    × (exists_alias self' "bob" ≡ false)
store_spending_key_lost_example = store_spending_key_lost keys mine "bob" (30 ∷ []) "" refl
