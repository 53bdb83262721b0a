-- ===== src/Prelude/Outcome.antt =====
-- Code that may raise: an exception with its text, or what is returned.
use mathlib.Core.Path.{◌≡◌, refl, subst}
use mathlib.Core.Logic.{◌⊎◌, inl, inr}
use mathlib.Core.Bool.{Bool, true, false}
use mathlib.Core.Option.{Option, none, some}
use zabawheels.Prelude.Chars.{Text}

pub data Outcome {ℓ} (A : Type ℓ) : Type ℓ where
  raised : Text → Outcome A
  returned : A → Outcome A

infixl 5 ◌>>=◌ ◌>>◌
abbrev pub ◌>>=◌ {ℓ κ} : {A : Type ℓ} {B : Type κ} → Outcome A → (A → Outcome B) → Outcome B
raised e >>= f = raised e
returned a >>= f = f a

abbrev pub ◌>>◌ {ℓ} : {B : Type ℓ} → Outcome (Unit {0}) → Outcome B → Outcome B
m >> k = m >>= λ _. k

-- `if not test: raise ValueError(message)`
abbrev pub require : Bool → Text → Outcome (Unit {0})
require true message = returned tt
require false message = raised message

abbrev pub or_raise {ℓ} : {A : Type ℓ} → Option A → Text → Outcome A
or_raise none message = raised message
or_raise (some a) message = returned a

pub Outcome-cases {ℓ} :
    {A : Type ℓ} (o : Outcome A) → ((e : Text) × (o ≡ raised e)) ⊎ ((a : A) × (o ≡ returned a))
Outcome-cases (raised e) = inl (e, refl)
Outcome-cases (returned a) = inr (a, refl)

-- What is returned, if anything is, has the property.
abbrev pub Holds {ℓ κ} : {A : Type ℓ} → (A → Type κ) → Outcome A → Type κ
Holds P (raised e) = Unit
Holds P (returned a) = P a

pub Holds-returned {ℓ κ} :
    {A : Type ℓ} (P : A → Type κ) {o : Outcome A} {a : A} → o ≡ returned a → Holds P o → P a
Holds-returned P e h = subst (Holds P) e h

pub Holds-weaken {ℓ κ κ'} :
    {A : Type ℓ} (P : A → Type κ) (Q : A → Type κ') (o : Outcome A)
    → ((a : A) → P a → Q a)
    → Holds P o
    → Holds Q o
Holds-weaken P Q (raised e) k h = tt
Holds-weaken P Q (returned a) k h = k a h

pub Holds-bind {ℓ κ ℓ' κ'} :
    {A : Type ℓ} {B : Type ℓ'} (P : A → Type κ) (Q : B → Type κ') (o : Outcome A)
    (f : A → Outcome B)
    → Holds P o
    → ((a : A) → P a → Holds Q (f a))
    → Holds Q (o >>= f)
Holds-bind P Q (raised e) f h k = tt
Holds-bind P Q (returned a) f h k = k a h

pub Holds-require {ℓ κ} :
    {B : Type ℓ} (Q : B → Type κ) (test : Bool) (message : Text) (k : Outcome B)
    → (test ≡ true → Holds Q k)
    → Holds Q (require test message >> k)
Holds-require Q true message k h = h refl
Holds-require Q false message k h = tt
