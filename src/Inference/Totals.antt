-- ===== src/Inference/Totals.antt =====
-- When the accesses and the loops of the model succeed.
use terllama.Prelude.{
  some, ◌*◌, get_elem?, ℕ, zero, suc, ◌+◌, ◌≤◌, ◌<◌, ◌≡◌, refl, List, [], ◌∷◌, length, take, drop,
  All, arith, leb, true, length-take, length-drop, ==_iff,
}
use native.Mathlib.Nat.{add-mul, mul-le-mul_right}
use terllama.Prelude.Results.{ok, Result}
use terllama.Prelude.Gives.{Gives, gives_ok, gives_bind}
use terllama.Inference.{Error, slice, at, fills, for_each, for_sum}

abbrev pub HasLength : {A : Type 0} → ℕ → List A → Type 0
HasLength n xs = length xs ≡ n

module _ {A : Type 0} where
  pub slice-Gives :
      (start n : ℕ) (xs : List A) → start + n ≤ length xs → Gives (slice start n xs) (HasLength n)
  unfolding slice
  slice-Gives start n xs h =
      let fits : leb (start + n) (length xs) ≡ true = ground (arith, h) in
      rw fits (
        gives_ok (HasLength n) (take n (drop start xs))
          (omega (arith, h, length-take n (drop start xs), length-drop start xs)))

  pub at-Gives :
      (P : A → Type 0) (xs : List A) (i : ℕ) → i < length xs → All P xs → Gives (at xs i) P
  unfolding at
  at-Gives P [] i h all = absurd (omega arith)
  at-Gives P (x ∷ xs) zero h (px, all) = gives_ok P x px
  at-Gives P (x ∷ xs) (suc i) h (px, all) = at-Gives P xs i (omega arith) all

  pub fills-Gives : (n : ℕ) (xs : List A) → length xs ≡ n → Gives (fills n xs) (HasLength n)
  unfolding fills
  fills-Gives n xs h = rw ((==_iff (length xs) n).1 h) (gives_ok (HasLength n) xs h)

  abbrev pub Rows : (A → Type 0) → ℕ → List A → Type 0
  Rows P n xs = (length xs ≡ n) × All P xs

  module _ (P : A → Type 0) where
    pub for_each-Gives :
        (turn : ℕ → Result Error A) (i todo : ℕ)
        → ((j : ℕ) → j < i + todo → Gives (turn j) P)
        → Gives (for_each turn i todo) (Rows P todo)
    unfolding for_each
    for_each-Gives turn i zero h = gives_ok (Rows P 0) [] (refl, tt)
    for_each-Gives turn i (suc todo) h = gives_bind (h i (omega arith)) λ a ha.
        gives_bind (for_each-Gives turn (suc i) todo (λ j hj. h j (omega (arith, hj))))
          λ rest hr. gives_ok (Rows P (suc todo)) (a ∷ rest) (omega (arith, hr.0), (ha, hr.1))

    pub for_sum-Gives :
        (turn : ℕ → A → Result Error A) (i todo : ℕ) (a : A)
        → ((j : ℕ) (b : A) → j < i + todo → P b → Gives (turn j b) P)
        → P a
        → Gives (for_sum turn i todo a) P
    unfolding for_sum
    for_sum-Gives turn i zero a h pa = gives_ok P a pa
    for_sum-Gives turn i (suc todo) a h pa =
        gives_bind (h i a (omega arith) pa)
          λ b pb. for_sum-Gives turn (suc i) todo b (λ j c hj pc. h j c (omega (arith, hj)) pc) pb

pub anything : {A : Type 0} (xs : List A) → All (λ x. Unit {0}) xs
anything [] = tt
anything (x ∷ xs) = (tt, anything xs)

-- The end of a row of `n` elements, one of `out_f` rows.
pub row_end : (row n out_f : ℕ) → row < out_f → row * n + n ≤ out_f * n
row_end row n out_f h =
    omega (arith, mul-le-mul_right {m = suc row} {n = out_f} n (omega (arith, h)), add-mul 1 row n)

pub at_found : {A : Type 0} (xs : List A) (i : ℕ) (a : A) → get_elem? xs i ≡ some a → at xs i ≡ ok a
unfolding at
at_found xs i a h = rw h refl
