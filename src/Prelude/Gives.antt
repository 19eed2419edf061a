-- ===== src/Prelude/Gives.antt =====
-- Total correctness of code that may throw: that it succeeds, and what holds of its result.
use mathlib.Core.Path.{◌≡◌, refl}
use mathlib.Core.Bool.{Bool, true, false}
use terllama.Prelude.Tests.{if◌then◌else◌}
use terllama.Prelude.Results.{Result, ok, ◌>>=◌}

pub record Gives {E A : Type 0} (r : Result E A) (P : A → Type 0) : Type 0 where
  pub value : A
  pub is : r ≡ ok value
  pub holds : P value

module _ {E A : Type 0} where
  pub gives_ok : (P : A → Type 0) (a : A) → P a → Gives {E = E} (ok a) P
  gives_ok P a h = record { value = a; is = refl; holds = h }

  pub gives_bind :
      {B : Type 0} {r : Result E A} {f : A → Result E B} {P : A → Type 0} {Q : B → Type 0}
      → Gives r P
      → ((a : A) → P a → Gives (f a) Q)
      → Gives (r >>= f) Q
  gives_bind h next = rw h.is (next h.value h.holds)

  pub gives_weaken :
      {r : Result E A} {P Q : A → Type 0} → Gives r P → ((a : A) → P a → Q a) → Gives r Q
  gives_weaken h weaker = record { value = h.value; is = h.is; holds = weaker h.value h.holds }

  pub gives_if :
      (c : Bool) {x y : Result E A} {P : A → Type 0}
      → (c ≡ true → Gives x P)
      → (c ≡ false → Gives y P)
      → Gives (if c then x else y) P
  gives_if true h k = h refl
  gives_if false h k = k refl

  pub gives_then :
      (c : Bool) {x : Result E A} (y : Result E A) {P : A → Type 0}
      → c ≡ true
      → Gives x P
      → Gives (if c then x else y) P
  gives_then c y e h = rw e h

  pub gives_else :
      (c : Bool) (x : Result E A) {y : Result E A} {P : A → Type 0}
      → c ≡ false
      → Gives y P
      → Gives (if c then x else y) P
  gives_else c x e h = rw e h
