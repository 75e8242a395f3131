-- ===== src/Base/Panic.antt =====
-- Go code that returns or panics, and has no error: `none` is the panic.
use mathlib.Core.Path.{◌≡◌, refl}
use mathlib.Core.Option.{Option, none, some}

infixl 5 ◌>>=◌
abbrev pub ◌>>=◌ {ℓ κ} : {A : Type ℓ} {B : Type κ} → Option A → (A → Option B) → Option B
none >>= rest = none
some value >>= rest = rest value

-- the code returns, with a result that satisfies `P`
abbrev pub Returns {ℓ} : {A : Type ℓ} → (A → Type 0) → Option A → Type 0
Returns P none = ⊥
Returns P (some a) = P a

pub Returns-bind {ℓ κ} :
    {A : Type ℓ} {B : Type κ} (P : A → Type 0) (Q : B → Type 0) (o : Option A) (k : A → Option B)
    → Returns P o
    → ((a : A) → P a → Returns Q (k a))
    → Returns Q (o >>= k)
Returns-bind P Q none k h g = absurd h
Returns-bind P Q (some a) k h g = g a h

pub Returns-some {ℓ} :
    {A : Type ℓ} (P : A → Type 0) (o : Option A) → Returns P o → (a : A) × (o ≡ some a) × P a
Returns-some P none h = absurd h
Returns-some P (some a) h = (a, refl, h)

pub Returns-weaken {ℓ} :
    {A : Type ℓ} (P Q : A → Type 0) (o : Option A)
    → Returns P o
    → ((a : A) → P a → Q a)
    → Returns Q o
Returns-weaken P Q none p f = p
Returns-weaken P Q (some a) p f = f a p

-- if the code returns, the result satisfies `P`
abbrev pub WhenReturns {ℓ} : {A : Type ℓ} → (A → Type 0) → Option A → Type 0
WhenReturns P none = Unit
WhenReturns P (some a) = P a

pub WhenReturns-bind {ℓ κ} :
    {A : Type ℓ} {B : Type κ} (P : A → Type 0) (Q : B → Type 0) (o : Option A) (k : A → Option B)
    → WhenReturns P o
    → ((a : A) → P a → WhenReturns Q (k a))
    → WhenReturns Q (o >>= k)
WhenReturns-bind P Q none k h g = tt
WhenReturns-bind P Q (some a) k h g = g a h

pub WhenReturns-any {ℓ} : {A : Type ℓ} (o : Option A) → WhenReturns (λ a. Unit) o
WhenReturns-any none = tt
WhenReturns-any (some a) = tt

pub WhenReturns-weaken {ℓ} :
    {A : Type ℓ} (P Q : A → Type 0) (o : Option A)
    → WhenReturns P o
    → ((a : A) → P a → Q a)
    → WhenReturns Q o
WhenReturns-weaken P Q none p f = tt
WhenReturns-weaken P Q (some a) p f = f a p

pub Returns-and {ℓ} :
    {A : Type ℓ} (P Q : A → Type 0) (o : Option A)
    → Returns P o
    → WhenReturns Q o
    → Returns (λ a. P a × Q a) o
Returns-and P Q none p q = p
Returns-and P Q (some a) p q = (p, q)
