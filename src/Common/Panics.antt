-- ===== src/Common/Panics.antt =====
-- What a call does that may panic: it returns a value, or the thread panics.
use mathlib.Core.Path.{◌≡◌, refl, subst, ap}
use Prim.Native.Nat.{ℕ, zero, suc}
use mathlib.Core.List.{List, [], ◌∷◌}
use mathlib.Core.Logic.{◌⊎◌, inl, inr}
use mathlib.Core.Bool.{Bool, true, false}

pub data Outcome {ℓ} (A : Type ℓ) : Type ℓ where
  returns : A → Outcome A
  panics : Outcome A

infixl 5 ◌>>=◌ ◌>>◌
abbrev pub ◌>>=◌ {ℓ κ} : {A : Type ℓ} {B : Type κ} → Outcome A → (A → Outcome B) → Outcome B
returns a >>= f = f a
panics >>= f = panics

abbrev pub ◌>>◌ {ℓ} : {B : Type ℓ} → Outcome (Unit {0}) → Outcome B → Outcome B
m >> k = m >>= λ _. k

-- `assert!(b)`.
abbrev pub assert : Bool → Outcome (Unit {0})
assert true = returns tt
assert false = panics

-- Inversion of a bind that returns.
pub >>=-eq-returns {ℓ κ} :
    {A : Type ℓ} {B : Type κ} (m : Outcome A) (f : A → Outcome B) {b : B}
    → (m >>= f) ≡ returns b
    → (a : A) × (m ≡ returns a) × (f a ≡ returns b)
>>=-eq-returns (returns a) f h = (a, refl, h)
>>=-eq-returns panics f h = cc

abbrev value_or {ℓ} : {A : Type ℓ} → A → Outcome A → A
value_or d (returns a) = a
value_or d panics = d

pub returns-injective {ℓ} : {A : Type ℓ} {a b : A} → returns a ≡ returns b → a ≡ b
returns-injective {a} h = ap (value_or a) h

-- What holds of the value, if the call returns one.
abbrev pub Ensures {ℓ κ} : {A : Type ℓ} → (A → Type κ) → Outcome A → Type κ
Ensures P (returns a) = P a
Ensures P panics = Unit

pub Ensures-returns {ℓ κ} :
    {A : Type ℓ} (P : A → Type κ) (m : Outcome A) {a : A} → Ensures P m → m ≡ returns a → P a
Ensures-returns P (returns b) {a} p h = subst P (returns-injective h) p
Ensures-returns P panics p h = cc

pub Outcome-cases {ℓ} : {A : Type ℓ} (m : Outcome A) → ((a : A) × (m ≡ returns a)) ⊎ (m ≡ panics)
Outcome-cases (returns a) = inl (a, refl)
Outcome-cases panics = inr refl

-- `xs[i]`.
abbrev pub index {ℓ} : {A : Type ℓ} → List A → ℕ → Outcome A
index [] i = panics
index (x ∷ xs) zero = returns x
index (x ∷ xs) (suc i) = index xs i
