-- ===== src/Wallet/Laws.antt =====
-- What the operations of the store do at an alias.
use Prim.Native.String.{String}
use arm_noir.Prelude.{
  ◌≡◌, refl, ◌∙◌, true, false, Bool-cases, none, List, [], ◌∷◌, ◌++◌, ◌⊎◌, inl, inr, string_Eq,
  contains, contains-append, Distinct, lookup, erase, put, contains_key, lookup-erase, lookup-put,
  if◌then◌else◌, arith,
}
use arm_noir.Wallet.{
  empty_store, Types, Store, exists_alias, remove, remove_all, aliases, extend, all_aliases,
}

-- The entries of two stores at an alias are the same.
pub record SameAt {t : Types} (a b : Store t) (alias : String) : Type 0 where
  pub viewing : lookup alias a.viewing_keys ≡ lookup alias b.viewing_keys
  pub spending : lookup alias a.spending_keys ≡ lookup alias b.spending_keys
  pub payment : lookup alias a.payment_addrs ≡ lookup alias b.payment_addrs
  pub signing : lookup alias a.signing_keys ≡ lookup alias b.signing_keys
  pub verifying : lookup alias a.verifying_keys ≡ lookup alias b.verifying_keys
  pub addressed : lookup alias a.addresses ≡ lookup alias b.addresses

erase-other :
    {V : Type 0} (j k : String) (m : List (String × V))
    → string_Eq.beq j k ≡ false
    → lookup j (erase k m) ≡ lookup j m
erase-other j k m e = rw (lookup-erase j k m, e)

pub contains_key-none :
    {V : Type 0} (j : String) (m : List (String × V)) → contains_key j m ≡ false → lookup j m ≡ none
contains_key-none j m e = ground arith

contains_key-aliases :
    {V : Type 0} (j : String) (m : List (String × V)) → contains j (aliases m) ≡ contains_key j m
contains_key-aliases j [] = refl
contains_key-aliases j ((k, v) ∷ m) = ground (arith, contains_key-aliases j m)

-- `extend` with a map that has each key once.
pub lookup-extend :
    {V : Type 0} (j : String) (m n : List (String × V))
    → Distinct (aliases n)
    → lookup j (extend m n) ≡ (if contains_key j n then lookup j n else lookup j m)
lookup-extend j m [] d = refl
lookup-extend j m ((k, v) ∷ n) (absent, d) =
    let ih = lookup-extend j (put k v m) n d in
    ground (
      arith,
      ih,
      lookup-put j k v m,
      contains_key-aliases j n,
      contains_key-none j n,
      contains_key-aliases k n,
      string_Eq.beq_iff j k,
    )

erase-none :
    {V : Type 0} (j k : String) (m : List (String × V))
    → (string_Eq.beq j k ≡ true) ⊎ (lookup j m ≡ none)
    → lookup j (erase k m) ≡ none
erase-none j k m p = ground (arith, lookup-erase j k m)

module _ {t : Types} where
  pub SameAt-trans : (a b c : Store t) (j : String) → SameAt a b j → SameAt b c j → SameAt a c j
  SameAt-trans a b c j p q = record {
    viewing = p.viewing ∙ q.viewing;
    spending = p.spending ∙ q.spending;
    payment = p.payment ∙ q.payment;
    signing = p.signing ∙ q.signing;
    verifying = p.verifying ∙ q.verifying;
    addressed = p.addressed ∙ q.addressed;
  }

  pub remove-kept :
      (self : Store t) (alias j : String)
      → string_Eq.beq j alias ≡ false
      → SameAt (remove self alias) self j
  unfolding remove
  remove-kept self alias j e = record {
    viewing = erase-other j alias self.viewing_keys e;
    spending = erase-other j alias self.spending_keys e;
    payment = erase-other j alias self.payment_addrs e;
    signing = erase-other j alias self.signing_keys e;
    verifying = erase-other j alias self.verifying_keys e;
    addressed = erase-other j alias self.addresses e;
  }

  pub remove-gone :
      (self : Store t) (alias j : String)
      → (string_Eq.beq j alias ≡ true) ⊎ SameAt self empty_store j
      → SameAt (remove self alias) empty_store j
  unfolding remove
  remove-gone self alias j (inl p) = record {
    viewing = erase-none j alias self.viewing_keys (inl p);
    spending = erase-none j alias self.spending_keys (inl p);
    payment = erase-none j alias self.payment_addrs (inl p);
    signing = erase-none j alias self.signing_keys (inl p);
    verifying = erase-none j alias self.verifying_keys (inl p);
    addressed = erase-none j alias self.addresses (inl p);
  }
  remove-gone self alias j (inr p) = record {
    viewing = erase-none j alias self.viewing_keys (inr p.viewing);
    spending = erase-none j alias self.spending_keys (inr p.spending);
    payment = erase-none j alias self.payment_addrs (inr p.payment);
    signing = erase-none j alias self.signing_keys (inr p.signing);
    verifying = erase-none j alias self.verifying_keys (inr p.verifying);
    addressed = erase-none j alias self.addresses (inr p.addressed);
  }

  pub remove_all-kept :
      (xs : List String) (self : Store t) (j : String)
      → contains j xs ≡ false
      → SameAt (remove_all xs self) self j
  unfolding remove_all
  remove_all-kept [] self j e = record {
    viewing = refl;
    spending = refl;
    payment = refl;
    signing = refl;
    verifying = refl;
    addressed = refl;
  }
  remove_all-kept (x ∷ xs) self j e =
      SameAt-trans _ (remove self x) self j (remove_all-kept xs (remove self x) j (ground arith))
        (remove-kept self x j (ground arith))

  pub remove_all-gone :
      (xs : List String) (self : Store t) (j : String)
      → (contains j xs ≡ true) ⊎ SameAt self empty_store j
      → SameAt (remove_all xs self) empty_store j
  unfolding remove_all
  remove_all-gone [] self j (inl e) = absurd (cc)
  remove_all-gone [] self j (inr p) = p
  remove_all-gone (x ∷ xs) self j (inr p) =
      remove_all-gone xs (remove self x) j (inr (remove-gone self x j (inr p)))
  remove_all-gone (x ∷ xs) self j (inl e) = elim (Bool-cases (string_Eq.beq j x)) [
    | inl here ↦ remove_all-gone xs (remove self x) j (inr (remove-gone self x j (inl here)))
    | inr there ↦ remove_all-gone xs (remove self x) j (inl (ground arith))
  ]

  pub exists-aliases :
      (store : Store t) (j : String) → contains j (all_aliases store) ≡ exists_alias store j
  unfolding exists_alias
  exists-aliases store j = ground (
    arith,
    contains-append j (aliases store.viewing_keys) (
        aliases store.spending_keys
        ++ (aliases store.payment_addrs
            ++ (aliases store.signing_keys
                ++ (aliases store.verifying_keys ++ aliases store.addresses)))),
    contains-append j (aliases store.spending_keys) (
        aliases store.payment_addrs
        ++ (aliases store.signing_keys
            ++ (aliases store.verifying_keys ++ aliases store.addresses))),
    contains-append j (aliases store.payment_addrs)
        (aliases store.signing_keys ++ (aliases store.verifying_keys ++ aliases store.addresses)),
    contains-append j (aliases store.signing_keys)
        (aliases store.verifying_keys ++ aliases store.addresses),
    contains-append j (aliases store.verifying_keys) (aliases store.addresses),
    contains_key-aliases j store.viewing_keys,
    contains_key-aliases j store.spending_keys,
    contains_key-aliases j store.payment_addrs,
    contains_key-aliases j store.signing_keys,
    contains_key-aliases j store.verifying_keys,
    contains_key-aliases j store.addresses,
  )
