-- ===== src/Base/Result.antt =====
-- Go's `(value, error)` results: a value, an error, or the run-time panic of an access out of range.
use mathlib.Core.Path.{◌≡◌, refl}
use mathlib.Core.Logic.{◌⊎◌, inl, inr}
use mathlib.Core.Bool.{Bool, true, false}

pub data Result {ℓ κ} (E : Type ℓ) (A : Type κ) : Type (ℓ ⊔ κ) where
  ok : A → Result E A
  err : E → Result E A
  panic : Result E A

module _ {ℓ κ μ} {E : Type ℓ} {A : Type κ} {B : Type μ} where
  infixl 5 ◌>>=◌
  abbrev pub ◌>>=◌ : Result E A → (A → Result E B) → Result E B
  panic >>= rest = panic
  err e >>= rest = err e
  ok value >>= rest = rest value

  -- A chain that succeeds has a first step that succeeds, and its rest does on that value.
  pub bind-eq-ok :
      (first : Result E A) (rest : A → Result E B) {result : B}
      → (first >>= rest) ≡ ok result
      → (value : A) × (first ≡ ok value) × (rest value ≡ ok result)
  bind-eq-ok panic rest done = cc
  bind-eq-ok (err e) rest done = cc
  bind-eq-ok (ok value) rest done = (value, refl, done)

pub ok-injective {ℓ κ} :
    {E : Type ℓ} {A : Type κ} {a b : A} → ◌≡◌ {A = Result E A} (ok a) (ok b) → a ≡ b
ok-injective h = cc

module _ {ℓ κ} {E : Type ℓ} {B : Type κ} where
  infixl 5 ◌>>◌
  abbrev pub ◌>>◌ : Result E (Unit {0}) → Result E B → Result E B
  m >> k = m >>= λ _. k

-- `if bad { return err }`
abbrev pub refuse {ℓ} : {E : Type ℓ} → Bool → E → Result E (Unit {0})
refuse true e = err e
refuse false e = ok tt

pub Result-cases {ℓ κ} :
    {E : Type ℓ} {A : Type κ} (r : Result E A)
    → ((a : A) × (r ≡ ok a)) ⊎ ((e : E) × (r ≡ err e)) ⊎ (r ≡ panic)
Result-cases (ok a) = inl (a, refl)
Result-cases (err e) = inr (inl (e, refl))
Result-cases panic = inr (inr refl)

pub refuse-then {ℓ κ} :
    {E : Type ℓ} {A : Type κ} (b : Bool) (e : E) (k : Result E A) {a : A}
    → refuse b e >> k ≡ ok a
    → (b ≡ false) × (k ≡ ok a)
refuse-then true e k h = cc
refuse-then false e k h = (refl, h)

-- the code does not panic, and if it succeeds the value satisfies `P`
abbrev pub Safe {ℓ κ} : {E : Type ℓ} {A : Type κ} → (A → Type 0) → Result E A → Type 0
Safe P (ok a) = P a
Safe P (err e) = Unit
Safe P panic = ⊥

module _ {ℓ κ μ} {E : Type ℓ} {A : Type κ} {B : Type μ} where
  pub Safe-bind :
      (P : A → Type 0) (Q : B → Type 0) (r : Result E A) (k : A → Result E B)
      → Safe P r
      → ((a : A) → P a → Safe Q (k a))
      → Safe Q (r >>= k)
  Safe-bind P Q (ok a) k h f = f a h
  Safe-bind P Q (err e) k h f = tt
  Safe-bind P Q panic k h f = absurd h

pub Safe-refuse {ℓ κ} :
    {E : Type ℓ} {A : Type κ} (Q : A → Type 0) (b : Bool) (e : E) (k : Result E A)
    → (b ≡ false → Safe Q k)
    → Safe Q (refuse b e >> k)
Safe-refuse Q true e k f = tt
Safe-refuse Q false e k f = f refl

pub Safe-weaken {ℓ κ} :
    {E : Type ℓ} {A : Type κ} (P Q : A → Type 0) (r : Result E A)
    → Safe P r
    → ((a : A) → P a → Q a)
    → Safe Q r
Safe-weaken P Q (ok a) h f = f a h
Safe-weaken P Q (err e) h f = tt
Safe-weaken P Q panic h f = h

pub Safe-self : {E A : Type 0} (r : Result E A) → Safe (λ a. Unit) r → Safe (λ a. r ≡ ok a) r
Safe-self (ok a) h = refl
Safe-self (err e) h = tt
Safe-self panic h = h
