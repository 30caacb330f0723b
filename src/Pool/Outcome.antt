-- ===== src/Pool/Outcome.antt =====
-- How a call of `submit` ends: a panic, an error, or a value.
use arm_noir.Prelude.{Bool, true, false, Option, none, some, ◌≡◌, refl}

-- `ShieldedPoolError`
pub data Error : Type 0 where
  barretenberg_error : Error
  logic_proof : Error
  compliance_proof : Error
  duplicate_nullifier : Error
  duplicate_commitment : Error
  unpaired_nullifier : Error
  unpaired_commitment : Error
  circuit_not_registered : Error
  non_existent_anchor : Error
  invalid_action_tree_root : Error
  invalid_signature : Error

pub data Outcome (A : Type 0) : Type 0 where
  panic : Outcome A
  err : Error → Outcome A
  ok : A → Outcome A

infixl 5 ◌>>=◌ ◌>>◌
abbrev pub ◌>>=◌ : {A B : Type 0} → Outcome A → (A → Outcome B) → Outcome B
panic >>= f = panic
err e >>= f = err e
ok a >>= f = f a

abbrev pub ◌>>◌ : {B : Type 0} → Outcome (Unit {0}) → Outcome B → Outcome B
m >> k = m >>= λ _. k

-- `if c { return Err(e) }`
abbrev pub reject_if : Bool → Error → Outcome (Unit {0})
reject_if true e = err e
reject_if false e = ok tt

-- `expect`, an index, an assertion
abbrev pub or_panic : {A : Type 0} → Option A → Outcome A
or_panic none = panic
or_panic (some a) = ok a

-- `ok_or(e)?`
abbrev pub or_err : {A : Type 0} → Option A → Error → Outcome A
or_err none e = err e
or_err (some a) e = ok a

-- Inversion of a successful chain.
pub >>=-eq-ok :
    {A B : Type 0} (m : Outcome A) (f : A → Outcome B) {b : B}
    → (m >>= f) ≡ ok b
    → (a : A) × (m ≡ ok a) × (f a ≡ ok b)
>>=-eq-ok panic f h = cc
>>=-eq-ok (err e) f h = cc
>>=-eq-ok (ok a) f h = (a, refl, h)

-- The same for a proof that goes on from the parts.
pub from_>>= {ℓ} :
    {A B : Type 0} {R : Type ℓ} (m : Outcome A) (f : A → Outcome B) {b : B}
    → (m >>= f) ≡ ok b
    → ((a : A) → m ≡ ok a → f a ≡ ok b → R)
    → R
from_>>= m f h next = let (a, p, q) = >>=-eq-ok m f h in next a p q

pub reject_if-ok : (c : Bool) (e : Error) → reject_if c e ≡ ok tt → c ≡ false
reject_if-ok true e h = cc
reject_if-ok false e h = refl

pub or_panic-ok : {A : Type 0} (o : Option A) {a : A} → or_panic o ≡ ok a → o ≡ some a
or_panic-ok none h = cc
or_panic-ok (some a) h = cc

pub or_err-ok : {A : Type 0} (o : Option A) (e : Error) {a : A} → or_err o e ≡ ok a → o ≡ some a
or_err-ok none e h = cc
or_err-ok (some a) e h = cc
