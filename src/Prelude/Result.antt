-- ===== src/Prelude/Result.antt =====
-- Results of code that may raise.
use mathlib.Core.Path.{◌≡◌, refl, ap, subst}
use native.Mathlib.Omega.{arith}
use mathlib.Core.Bool.{Bool, true, false}

pub data Result {ℓ κ} (E : Type ℓ) (A : Type κ) : Type (ℓ ⊔ κ) where
  ok : A → Result E A
  err : E → Result E A

infixl 5 ◌>>=◌ ◌>>◌
abbrev pub ◌>>=◌ {ℓ κ μ} :
    {E : Type ℓ} {A : Type κ} {B : Type μ} → Result E A → (A → Result E B) → Result E B
ok a >>= f = f a
err e >>= f = err e

abbrev pub ◌>>◌ {ℓ κ} : {E : Type ℓ} {B : Type κ} → Result E (Unit {0}) → Result E B → Result E B
m >> k = m >>= λ _. k

-- if not test: raise
abbrev pub ensure {ℓ} : {E : Type ℓ} → Bool → E → Result E (Unit {0})
ensure true e = ok tt
ensure false e = err e

pub ok-inj {ℓ κ} : {E : Type ℓ} {A : Type κ} {a b : A} → ◌≡◌ {A = Result E A} (ok a) (ok b) → a ≡ b
ok-inj {a = a} e = ap (λ r. elim r [ ok x ↦ x | err _ ↦ a ]) e

pub bind-ok {ℓ κ μ} :
    {E : Type ℓ} {A : Type κ} {B : Type μ} (m : Result E A) (f : A → Result E B) (b : B)
    → (m >>= f) ≡ ok b
    → (a : A) × (m ≡ ok a) × (f a ≡ ok b)
bind-ok (ok a) f b run = (a, refl, run)
bind-ok (err e) f b run = absurd (ground (arith, run))

pub ensure-ok {ℓ} :
    {E : Type ℓ} (test : Bool) (e : E) (u : Unit {0}) → ensure test e ≡ ok u → test ≡ true
ensure-ok true e u run = refl
ensure-ok false e u run = absurd (ground (arith, run))

-- What a result satisfies if there is one.
pub data Holds {ℓ κ μ} {E : Type ℓ} {A : Type κ} (P : A → Type μ)
    : Result E A → Type (ℓ ⊔ κ ⊔ μ) where
  holds : (a : A) → P a → Holds P (ok a)
  fails : (e : E) → Holds P (err e)

pub bind-Holds {ℓ κ μ ν ξ} :
    {E : Type ℓ} {A : Type κ} {B : Type μ} {P : A → Type ν} {Q : B → Type ξ} {m : Result E A}
    (f : A → Result E B)
    → Holds P m
    → ((a : A) → P a → Holds Q (f a))
    → Holds Q (m >>= f)
bind-Holds f (holds a h) k = k a h
bind-Holds f (fails e) k = fails e

pub skip-Holds {ℓ κ μ ξ} :
    {E : Type ℓ} {A : Type κ} {B : Type μ} {Q : B → Type ξ} (m : Result E A) (f : A → Result E B)
    → ((a : A) → Holds Q (f a))
    → Holds Q (m >>= f)
skip-Holds (ok a) f k = k a
skip-Holds (err e) f k = fails e

pub ensure-Holds {ℓ} : {E : Type ℓ} (test : Bool) (e : E) → Holds (λ _. test ≡ true) (ensure test e)
ensure-Holds true e = holds tt refl
ensure-Holds false e = fails e

pub ok-Holds {ℓ κ μ} :
    {E : Type ℓ} {A : Type κ} {P : A → Type μ} {m : Result E A} {a : A} → Holds P m → m ≡ ok a → P a
ok-Holds {P = P} (holds a h) e = subst P (ok-inj e) h
ok-Holds (fails x) e = absurd (ground (arith, e))

pub weaken-Holds {ℓ κ μ ν} :
    {E : Type ℓ} {A : Type κ} {P : A → Type μ} {Q : A → Type ν} {m : Result E A}
    → ((a : A) → P a → Q a)
    → Holds P m
    → Holds Q m
weaken-Holds k (holds a h) = holds a (k a h)
weaken-Holds k (fails e) = fails e
