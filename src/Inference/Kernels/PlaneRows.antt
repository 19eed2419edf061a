-- ===== src/Inference/Kernels/PlaneRows.antt =====
-- The bit planes of a layer of the old layout (ternary_linear of src/dispatcher.cpp).
use terllama.Prelude.{
  ℕ, ◌+◌, ◌*◌, ◌≤◌, ◌<◌, ◌≡◌, inl, inr, true, List, [], ◌∷◌, length, take, All, arith, leb, ◌==◌,
  Bool-cases, replicate, length-replicate, All-take, min,
}
use terllama.Prelude.Int.{negsuc, eq_ℤ}
use terllama.Prelude.Gives.{Gives, gives_ok, gives_bind, gives_weaken, gives_if}
use terllama.Inference.{FloatOps, BitplaneTerm, Layer, slice}
use terllama.Inference.Totals.{row_end, HasLength, slice-Gives, for_each-Gives}
use terllama.Inference.Kernels.{
  zero_f, active, extract_term_data, plane_row, plane_rows, ternary_mul_scalar, ternary_linear,
}
use terllama.Inference.Kernels.Fit.{words_per_row, FitsPlanes, AnyValue}

active-All :
    (P : BitplaneTerm → Type 0) (terms : List BitplaneTerm) → All P terms → All P (active terms)
unfolding active
active-All P [] h = tt
active-All P (t ∷ terms) h = elim (Bool-cases (eq_ℤ t.alpha_exp (negsuc 127))) [
  | inl e ↦ rw e (active-All P terms h.1)
  | inr e ↦ rw e (h.0, active-All P terms h.1)
]

abbrev HasWords : ℕ → ℕ → BitplaneTerm → Type 0
HasWords in_f out_f t = out_f * words_per_row in_f ≤ length t.combined

extract-Gives :
    (P : BitplaneTerm → Type 0) (l : Layer)
    → l.num_terms ≤ length l.terms
    → All P l.terms
    → Gives (extract_term_data l) (All P)
unfolding extract_term_data slice
extract-Gives P l room h =
    let fits : leb (0 + min l.num_terms 32) (length l.terms) ≡ true = ground (arith, room) in
    rw fits (
      gives_ok (All P) (active (take (min l.num_terms 32) l.terms))
        (active-All P _ (All-take P (min l.num_terms 32) l.terms h)))

module _ {F : Type 0} ⦃o : FloatOps F⦄ where
  module _ (in_f out_f : ℕ) where
    plane_rows-Gives :
        (xs : List F) (i : ℕ) (before : F) (terms : List BitplaneTerm)
        → i < out_f
        → All (HasWords in_f out_f) terms
        → Gives (plane_rows in_f xs terms i before) AnyValue
    unfolding plane_rows plane_row
    plane_rows-Gives xs i before [] hi h = gives_ok AnyValue before tt
    plane_rows-Gives xs i before (t ∷ terms) hi (ht, h) =
        gives_bind {P = AnyValue}
          (gives_bind
            (slice-Gives (i * words_per_row in_f) (words_per_row in_f) t.combined
              (omega (arith, ht, row_end i (words_per_row in_f) out_f hi)))
            λ words hw. gives_ok AnyValue _ tt)
          λ sum hs. plane_rows-Gives xs i sum terms hi h

    scalar-Gives :
        (terms : List BitplaneTerm) (input : List F)
        → in_f ≤ length input
        → All (HasWords in_f out_f) terms
        → Gives (ternary_mul_scalar terms out_f in_f input) (HasLength out_f)
    unfolding ternary_mul_scalar
    scalar-Gives terms input hi h = gives_bind (slice-Gives 0 in_f input (omega arith)) λ xs hx.
        gives_weaken
          (for_each-Gives AnyValue (λ i. plane_rows in_f xs terms i zero_f) 0 out_f
            (λ i hi'. plane_rows-Gives xs i zero_f terms (omega (arith, hi')) h))
          (λ ys hy. hy.0)

  pub planes-Gives :
      (l : Layer) (input : List F)
      → l.typed.in_features ≤ length input
      → FitsPlanes l
      → Gives (ternary_linear l input) (HasLength l.typed.out_features)
  unfolding ternary_linear
  planes-Gives l input hi h =
      let in_f = l.typed.in_features in
      let out_f = l.typed.out_features in
      gives_bind (extract-Gives (HasWords in_f out_f) l h.room h.words) λ ts ht.
        gives_if (length ts == 0)
          (λ e. gives_ok (HasLength out_f) (replicate out_f zero_f) (length-replicate out_f zero_f))
          (λ e. scalar-Gives in_f out_f ts input hi ht)
