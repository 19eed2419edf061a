-- ===== src/Prelude/Results.antt =====
-- Results of code that may throw, with their chaining.
use mathlib.Core.Logic.{◌⊎◌, inl, inr}
use mathlib.Core.Bool.{Bool, true, false}
use terllama.Prelude.Tests.{if◌then◌else◌}
use mathlib.Core.Path.{◌≡◌, refl}

pub data Result {ℓ κ} (E : Type ℓ) (A : Type κ) : Type (ℓ ⊔ κ) where
  ok : A → Result E A
  err : E → Result E A

infixl 5 ◌>>=◌
abbrev pub ◌>>=◌ {ℓ κ μ} :
    {E : Type ℓ} {A : Type κ} {B : Type μ} → Result E A → (A → Result E B) → Result E B
ok a >>= f = f a
err e >>= f = err e

-- What a chain that succeeds went through.
pub bind_ok {ℓ κ μ} :
    {E : Type ℓ} {A : Type κ} {B : Type μ} (r : Result E A) (f : A → Result E B) (b : B)
    → (r >>= f) ≡ ok b
    → (a : A) × (r ≡ ok a) × (f a ≡ ok b)
bind_ok (ok a) f b h = (a, refl, h)
bind_ok (err e) f b h = absurd (cc h)

-- A guard that the success of the rest shows to be passed.
pub guard_ok {ℓ κ} :
    {E : Type ℓ} {A : Type κ} (c : Bool) (e : E) (x : Result E A) (a : A)
    → (if c then err e else x) ≡ ok a
    → (c ≡ false) × (x ≡ ok a)
guard_ok true e x a h = absurd (cc h)
guard_ok false e x a h = (refl, h)

pub test_ok {ℓ κ} :
    {E : Type ℓ} {A : Type κ} (c : Bool) (e : E) (x : Result E A) (a : A)
    → (if c then x else err e) ≡ ok a
    → (c ≡ true) × (x ≡ ok a)
test_ok true e x a h = (refl, h)
test_ok false e x a h = absurd (cc h)

pub ok_injective {ℓ κ} :
    {E : Type ℓ} {A : Type κ} (x y : A) → ◌≡◌ {A = Result E A} (ok x) (ok y) → x ≡ y
ok_injective x y h = cc h

pub Result-cases {ℓ κ} :
    {E : Type ℓ} {A : Type κ} (r : Result E A) → ((e : E) × (r ≡ err e)) ⊎ ((a : A) × (r ≡ ok a))
Result-cases (ok a) = inr (a, refl)
Result-cases (err e) = inl (e, refl)
