-- ===== src/Prelude/Outcome.antt =====
-- The result of code that may panic, and of a loop that is given fuel.
use mathlib.Core.Path.{◌≡◌, refl, sym, subst}
use mathlib.Core.Logic.{◌⊎◌, inl, inr}
use mathlib.Core.Option.{Option, none, some}

pub data Outcome {ℓ} (A : Type ℓ) : Type ℓ where
  ok : A → Outcome A
  panicked : Outcome A
  exhausted : Outcome A

infixl 5 ◌>>=◌
abbrev pub ◌>>=◌ {ℓ κ} : {A : Type ℓ} {B : Type κ} → Outcome A → (A → Outcome B) → Outcome B
ok a >>= f = f a
panicked >>= f = panicked
exhausted >>= f = exhausted

-- `none` is an access out of bounds.
abbrev pub or_panic {ℓ} : {A : Type ℓ} → Option A → Outcome A
or_panic none = panicked
or_panic (some a) = ok a

-- The code returns, and its result has the property.
abbrev pub Returns {ℓ κ} : {A : Type ℓ} → (A → Type κ) → Outcome A → Type (ℓ ⊔ κ)
Returns {A} P r = (a : A) × (r ≡ ok a) × P a

pub Outcome-cases {ℓ} :
    {A : Type ℓ} (r : Outcome A) → (r ≡ panicked) ⊎ (r ≡ exhausted) ⊎ ((a : A) × (r ≡ ok a))
Outcome-cases panicked = inl refl
Outcome-cases exhausted = inr (inl refl)
Outcome-cases (ok a) = inr (inr (a, refl))

pub bind-Returns {ℓ κ ι ι'} :
    {A : Type ℓ} {B : Type ι} (P : A → Type κ) (Q : B → Type ι') (r : Outcome A) (f : A → Outcome B)
    → Returns P r
    → ((a : A) → P a → Returns Q (f a))
    → Returns Q (r >>= f)
bind-Returns P Q r f (a, e, p) g = subst (λ r. Returns Q (r >>= f)) (sym e) (g a p)
