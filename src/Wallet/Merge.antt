-- ===== src/Wallet/Merge.antt =====
-- `Store::merge` and the operations that store a key, alias by alias.
use Prim.Native.String.{String}
use arm_noir.Prelude.{
  ◌≡◌, refl, ap, ◌∙◌, true, false, Bool-cases, none, some, List, ◌⊎◌, inl, inr, string_Eq, Distinct,
  lookup, lookup-put, put, contains_key, if◌then◌else◌, arith,
}
use arm_noir.Bytes.{Bytes}
use arm_noir.Wallet.{
  other, Types, Store, Keys, exists_alias, remove, remove_all, aliases, extend, all_aliases, merge,
  store_spending_key, decrypt_spending_key, evaluate, evaluate_payment_address,
}
use arm_noir.Wallet.Laws.{
  SameAt, remove-gone, SameAt-trans, lookup-extend, contains_key-none, remove-kept, remove_all-kept,
  remove_all-gone, exists-aliases,
}

-- Every map of the store has each alias once.
pub record IsStore {t : Types} (s : Store t) : Type 0 where
  pub viewing : Distinct (aliases s.viewing_keys)
  pub spending : Distinct (aliases s.spending_keys)
  pub payment : Distinct (aliases s.payment_addrs)
  pub signing : Distinct (aliases s.signing_keys)
  pub verifying : Distinct (aliases s.verifying_keys)
  pub addressed : Distinct (aliases s.addresses)

-- The entry of a map that is merged into one without the alias, and the entry of a map that it is
-- merged into where it does not have the alias.
merge-gone :
    {V : Type 0} (j : String) (m n : List (String × V))
    → Distinct (aliases n)
    → lookup j m ≡ none
    → lookup j (extend m n) ≡ lookup j n
merge-gone j m n d e = ground (arith, lookup-extend j m n d, contains_key-none j n)

merge-kept :
    {V : Type 0} (j : String) (m n : List (String × V))
    → Distinct (aliases n)
    → contains_key j n ≡ false
    → lookup j (extend m n) ≡ lookup j m
merge-kept j m n d e = ground (arith, lookup-extend j m n d)

put-other :
    {V : Type 0} (j k : String) (v : V) (m : List (String × V))
    → string_Eq.beq j k ≡ false
    → lookup j (put k v m) ≡ lookup j m
put-other j k v m e = rw (lookup-put j k v m, e)

module _ {t : Types} where
  unmerged :
      (cleared store : Store t) (j : String)
      → IsStore store
      → exists_alias store j ≡ false
      → SameAt
          (record {
            viewing_keys = extend cleared.viewing_keys store.viewing_keys;
            spending_keys = extend cleared.spending_keys store.spending_keys;
            payment_addrs = extend cleared.payment_addrs store.payment_addrs;
            signing_keys = extend cleared.signing_keys store.signing_keys;
            verifying_keys = extend cleared.verifying_keys store.verifying_keys;
            addresses = extend cleared.addresses store.addresses;
          })
          cleared
          j
  unfolding exists_alias
  unmerged cleared store j v lacks = record {
    viewing = merge-kept j cleared.viewing_keys store.viewing_keys v.viewing (ground arith);
    spending = merge-kept j cleared.spending_keys store.spending_keys v.spending (ground arith);
    payment = merge-kept j cleared.payment_addrs store.payment_addrs v.payment (ground arith);
    signing = merge-kept j cleared.signing_keys store.signing_keys v.signing (ground arith);
    verifying = merge-kept j cleared.verifying_keys store.verifying_keys v.verifying (ground arith);
    addressed = merge-kept j cleared.addresses store.addresses v.addressed (ground arith);
  }

  remove-exists : (self : Store t) (alias : String) → exists_alias (remove self alias) alias ≡ false
  unfolding exists_alias
  remove-exists self alias =
      let gone = remove-gone self alias alias (inl ((string_Eq.beq_iff alias alias).1 refl)) in
      ground (
        arith, gone.viewing, gone.spending, gone.payment, gone.signing, gone.verifying,
        gone.addressed,
      )

  -- Another alias after a spending key is stored.
  stored-kept :
      (self : Store t) (alias j : String) (encrypted : Bytes) (key : t.ViewingKey)
      (addr : t.PaymentAddress)
      → string_Eq.beq j alias ≡ false
      → SameAt
          (record (remove self alias) {
            spending_keys = put alias encrypted (remove self alias).spending_keys;
            viewing_keys = put alias key (remove self alias).viewing_keys;
            payment_addrs = put alias addr (remove self alias).payment_addrs;
          })
          self
          j
  stored-kept self alias j encrypted key addr differs =
      let cleared = remove self alias in
      let kept = remove-kept self alias j differs in
      record {
        viewing = put-other j alias key cleared.viewing_keys differs ∙ kept.viewing;
        spending = put-other j alias encrypted cleared.spending_keys differs ∙ kept.spending;
        payment = put-other j alias addr cleared.payment_addrs differs ∙ kept.payment;
        signing = kept.signing;
        verifying = kept.verifying;
        addressed = kept.addressed;
      }

  -- Where each map of the merged store has each alias once: after `merge`, an alias that the
  -- merged store has anywhere has exactly the entries of that store, in all six maps, and any
  -- other alias has the entries it had before.
  pub merge_lem :
      (self store : Store t) (j : String)
      → IsStore store
      → (exists_alias store j ≡ true) × SameAt (merge self store) store j
        ⊎ (exists_alias store j ≡ false) × SameAt (merge self store) self j
  unfolding merge
  merge_lem self store j v =
      let cleared = remove_all (all_aliases store) self in
      elim (Bool-cases (exists_alias store j)) [
        | inl has ↦
            let gone =
              remove_all-gone (all_aliases store) self j (inl (exists-aliases store j ∙ has)) in
            inl (
              has,
              record {
                viewing =
                    merge-gone j cleared.viewing_keys store.viewing_keys v.viewing gone.viewing;
                spending =
                    merge-gone j cleared.spending_keys store.spending_keys v.spending gone.spending;
                payment =
                    merge-gone j cleared.payment_addrs store.payment_addrs v.payment gone.payment;
                signing =
                    merge-gone j cleared.signing_keys store.signing_keys v.signing gone.signing;
                verifying =
                    merge-gone j cleared.verifying_keys store.verifying_keys v.verifying
                      gone.verifying;
                addressed =
                    merge-gone j cleared.addresses store.addresses v.addressed gone.addressed;
              },
            )
        | inr lacks ↦
            let kept =
              remove_all-kept (all_aliases store) self j (exists-aliases store j ∙ lacks) in
            inr (
              lacks,
              SameAt-trans (merge self store) cleared self j (unmerged cleared store j v lacks)
                  kept,
            )
      ]

  module _ (keys : Keys t) where
    open keys use {
      to_viewing_key, to_payment_address, spending_to_vec, spending_from_slice, encrypt, decrypt,
      parse_payment_address,
    }

    decrypted :
        (s : Store t) (alias passphrase : String) {encrypted bytes : Bytes} {extsk : t.SpendingKey}
        → lookup alias s.spending_keys ≡ some encrypted
        → decrypt passphrase encrypted ≡ some bytes
        → spending_from_slice bytes ≡ some extsk
        → decrypt_spending_key keys s alias passphrase ≡ inr extsk
    unfolding decrypt_spending_key
    decrypted s alias passphrase e d f = rw (e, decrypt_spending_key) (rw d (rw f))

    evaluated :
        (s : Store t) (alias : String) {addr : t.PaymentAddress}
        → parse_payment_address alias ≡ none
        → lookup alias s.payment_addrs ≡ some addr
        → evaluate_payment_address keys s alias ≡ inr addr
    evaluated s alias p e = rw (p, evaluate) (rw e)

    -- Where the encryption succeeds, and decryption and decoding undo it, a spending key that is stored
    -- under an alias is decrypted from it with the passphrase; unless it is a literal, the alias evaluates
    -- to the payment address of the key; and every other alias has the entries it had before.
    pub store_spending_key_lem :
        (self : Store t) (alias : String) (extsk : t.SpendingKey) (passphrase : String)
        {encrypted : Bytes}
        → encrypt passphrase (spending_to_vec extsk) ≡ some encrypted
        → decrypt passphrase encrypted ≡ some (spending_to_vec extsk)
        → spending_from_slice (spending_to_vec extsk) ≡ some extsk
        → parse_payment_address alias ≡ none
        → (self' : Store t) × (store_spending_key keys self alias extsk passphrase
            ≡ (self', inr tt))
          × (decrypt_spending_key keys self' alias passphrase ≡ inr extsk)
          × (evaluate_payment_address keys self' alias
              ≡ inr (to_payment_address (to_viewing_key extsk)))
          × ((j : String) → (j ≡ alias) ⊎ SameAt self' self j)
    unfolding store_spending_key decrypt_spending_key
    store_spending_key_lem self alias extsk passphrase {encrypted} e d f p =
        let cleared = remove self alias in
        let after = record cleared {
          spending_keys = put alias encrypted cleared.spending_keys;
          viewing_keys = put alias (to_viewing_key extsk) cleared.viewing_keys;
          payment_addrs =
              put alias (to_payment_address (to_viewing_key extsk)) cleared.payment_addrs;
        } in
        let self_eq : string_Eq.beq alias alias ≡ true = (string_Eq.beq_iff alias alias).1 refl in
        let address = to_payment_address (to_viewing_key extsk) in
        let found : lookup alias after.spending_keys ≡ some encrypted =
          lookup-put alias alias encrypted cleared.spending_keys
          ∙ ap (λ b. if b then some encrypted else lookup alias cleared.spending_keys) self_eq in
        let derived : lookup alias after.payment_addrs ≡ some address =
          lookup-put alias alias address cleared.payment_addrs
          ∙ ap (λ b. if b then some address else lookup alias cleared.payment_addrs) self_eq in
        (
          after,
          rw (e, store_spending_key),
          decrypted after alias passphrase found d f,
          evaluated after alias p derived,
          λ j. elim (Bool-cases (string_Eq.beq j alias)) [
            | inl same ↦ inl ((string_Eq.beq_iff j alias).0 same)
            | inr differs ↦
                inr (stored-kept self alias j encrypted (to_viewing_key extsk) _ differs)
          ],
        )

    -- Where the encryption fails, the error is returned and yet every entry of the alias is gone.
    pub store_spending_key_lost :
        (self : Store t) (alias : String) (extsk : t.SpendingKey) (passphrase : String)
        → encrypt passphrase (spending_to_vec extsk) ≡ none
        → (self' : Store t) × (store_spending_key keys self alias extsk passphrase
            ≡ (self', inl other))
          × (exists_alias self' alias ≡ false)
    unfolding store_spending_key
    store_spending_key_lost self alias extsk passphrase e =
        (remove self alias, rw (e, store_spending_key), remove-exists self alias)
