-- ===== src/Prelude/Results.antt =====
-- What holds of the result of a computation that may panic, where it does not.
use mathlib.Core.Path.{◌≡◌, refl}
use mathlib.Core.Logic.{◌⊎◌}
use mathlib.Core.List.{List, [], ◌∷◌}
use mathlib.Core.Option.{Option, none, some}
use mathlib.Core.Bool.{Bool, true, false}
use arm_noir.Prelude.Tests.{◌>>=◌, if◌then◌else◌}

abbrev pub Holds : {A : Type 0} → (A → Type 0) → Option A → Type 0
Holds P none = Unit {0}
Holds P (some a) = P a

pub Holds-bind :
    {A B : Type 0} (P : A → Type 0) (Q : B → Type 0) (o : Option A) (f : A → Option B)
    → Holds P o
    → ((a : A) → P a → Holds Q (f a))
    → Holds Q (o >>= f)
Holds-bind P Q none f h k = tt
Holds-bind P Q (some a) f h k = k a h

pub Holds-map :
    {A : Type 0} (P Q : A → Type 0) (o : Option A) → Holds P o → ((a : A) → P a → Q a) → Holds Q o
Holds-map P Q none h k = tt
Holds-map P Q (some a) h k = k a h

-- A second step, where nothing is known of the first result but its equation.
pub Holds-any :
    {A B : Type 0} (Q : B → Type 0) (o : Option A) (f : A → Option B)
    → ((a : A) → (o ≡ some a) → Holds Q (f a))
    → Holds Q (o >>= f)
Holds-any Q none f k = tt
Holds-any Q (some a) f k = k a refl

pub Holds-if :
    {A : Type 0} (P : A → Type 0) (b : Bool) (x y : Option A)
    → ((b ≡ true) → Holds P x)
    → ((b ≡ false) → Holds P y)
    → Holds P (if b then x else y)
Holds-if P true x y h k = h refl
Holds-if P false x y h k = k refl

pub Holds-some : {A : Type 0} (P : A → Type 0) (o : Option A) (a : A) → Holds P o → o ≡ some a → P a
Holds-some P none a h e = absurd (cc e)
Holds-some P (some b) a h e = let same : b ≡ a = cc e in subst_in P same h
  where
    subst_in : {A : Type 0} (P : A → Type 0) {a b : A} → a ≡ b → P a → P b
    subst_in P e h = rw (← e) h

-- Membership by recursion, with the place.
abbrev pub In : {A : Type 0} → A → List A → Type 0
In x [] = ⊥
In x (y ∷ ys) = (x ≡ y) ⊎ In x ys

-- A computation that does not panic, and what holds of its result.
abbrev pub Returns : {A : Type 0} → (A → Type 0) → Option A → Type 0
Returns {A} P o = (a : A) × (o ≡ some a) × P a

pub Returns-bind :
    {A B : Type 0} (P : A → Type 0) (Q : B → Type 0) (o : Option A) (f : A → Option B)
    → Returns P o
    → ((a : A) → P a → Returns Q (f a))
    → Returns Q (o >>= f)
Returns-bind P Q o f (a, e, p) k = let (b, g, q) = k a p in (b, rw e g, q)

pub Returns-if :
    {A : Type 0} (P : A → Type 0) (b : Bool) (x y : Option A)
    → ((b ≡ true) → Returns P x)
    → ((b ≡ false) → Returns P y)
    → Returns P (if b then x else y)
Returns-if P true x y h k = h refl
Returns-if P false x y h k = k refl
