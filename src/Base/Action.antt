-- ===== src/Base/Action.antt =====
-- Go methods that change a state and return a result: a chain of them ends at the first error, with
-- the state as it is then.
use mathlib.Core.Path.{◌≡◌, refl, ap, subst}
use go_database.Base.Result.{Result, ok, err, panic, ok-injective}

abbrev pub Action {ℓ κ μ} : Type ℓ → Type κ → Type μ → Type (ℓ ⊔ κ ⊔ μ)
Action S E A = S → S × Result E A

module _ {ℓ κ μ ν} {S : Type ℓ} {E : Type κ} {A : Type μ} {B : Type ν} where
  abbrev pub continue : S × Result E A → (A → Action S E B) → S × Result E B
  continue (s, ok a) rest = rest a s
  continue (s, err e) rest = (s, err e)
  continue (s, panic) rest = (s, panic)

  infixl 5 ◌>>=◌
  abbrev pub ◌>>=◌ : Action S E A → (A → Action S E B) → Action S E B
  first >>= rest = λ s. continue (first s) rest

  continue-ok :
      (r : S × Result E A) (rest : A → Action S E B) {s : S} {b : B}
      → continue r rest ≡ (s, ok b)
      → (t : S) × (a : A) × (r ≡ (t, ok a)) × (rest a t ≡ (s, ok b))
  continue-ok (t, ok a) rest h = (t, a, refl, h)
  continue-ok (t, err e) rest h = absurd (err-ne-ok (ap (λ p. p.1) h))
    where
      err-ne-ok : {e : E} {b : B} → ◌≡◌ {A = Result E B} (err e) (ok b) → ⊥
      err-ne-ok h = cc
  continue-ok (t, panic) rest h = absurd (panic-ne-ok (ap (λ p. p.1) h))
    where
      panic-ne-ok : {b : B} → ◌≡◌ {A = Result E B} panic (ok b) → ⊥
      panic-ne-ok h = cc

  -- a chain that succeeds has a first step that succeeds, and its rest does from there
  pub bind-ok :
      (first : Action S E A) (rest : A → Action S E B) (start : S) {s : S} {b : B}
      → (first >>= rest) start ≡ (s, ok b)
      → (t : S) × (a : A) × (first start ≡ (t, ok a)) × (rest a t ≡ (s, ok b))
  bind-ok first rest start h = continue-ok (first start) rest h

-- a result that leaves the state alone, and a change that cannot fail
abbrev pub lift {ℓ κ μ} : {S : Type ℓ} {E : Type κ} {A : Type μ} → Result E A → Action S E A
lift r = λ s. (s, r)

abbrev pub finish {ℓ κ μ} : {S : Type ℓ} {E : Type κ} {A : Type μ} → S → A → Action S E A
finish t a = λ s. (t, ok a)

-- two equal outcomes have the same properties
pub outcome-subst {ℓ κ μ ν} :
    {S : Type ℓ} {E : Type κ} {A : Type μ} (P : S → A → Type ν) {s t : S} {a b : A}
    → ◌≡◌ {A = S × Result E A} (s, ok a) (t, ok b)
    → P s a
    → P t b
outcome-subst P {s = s} {t = t} {a = a} {b = b} h p =
    let f = ap (λ r. r.0) h in
    let g : a ≡ b = ok-injective (ap (λ r. r.1) h) in subst (λ z. P z b) f (subst (λ x. P s x) g p)

pub no-panic {ℓ κ μ ν} :
    {S : Type ℓ} {E : Type κ} {A : Type μ} {X : Type ν} {s t : S} {b : A}
    → ◌≡◌ {A = S × Result E A} (s, panic) (t, ok b)
    → X
no-panic {E = E} {A = A} h = absurd (panic-ne-ok (ap (λ r. r.1) h))
  where
    panic-ne-ok : {b : A} → ◌≡◌ {A = Result E A} panic (ok b) → ⊥
    panic-ne-ok k = cc

pub no-err {ℓ κ μ ν} :
    {S : Type ℓ} {E : Type κ} {A : Type μ} {X : Type ν} {s t : S} {e : E} {b : A}
    → ◌≡◌ {A = S × Result E A} (s, err e) (t, ok b)
    → X
no-err {E = E} {A = A} h = absurd (err-ne-ok (ap (λ r. r.1) h))
  where
    err-ne-ok : {e : E} {b : A} → ◌≡◌ {A = Result E A} (err e) (ok b) → ⊥
    err-ne-ok k = cc
