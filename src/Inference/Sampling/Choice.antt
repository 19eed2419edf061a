-- ===== src/Inference/Sampling/Choice.antt =====
-- What the samplers choose (sample_argmax and sample_multinomial of src/core/inference.cpp).
use terllama.Prelude.{
  ℕ, suc, ◌+◌, ◌-◌, ◌≤◌, ◌<◌, ◌≡◌, refl, ap, sym, ◌∙◌, true, false, some, List, [], ◌∷◌, length,
  get_elem?, take, arith, length-take, ◌⊎◌, Bool-cases, inl, inr, leb, All,
}
use terllama.Prelude.Int.{ℤ}
use terllama.Prelude.Gives.{Gives, gives_ok, gives_bind}
use terllama.Inference.{FloatOps, slice}
use terllama.Inference.Totals.{slice-Gives}
use terllama.Inference.Kernels.{zero_f}
use terllama.Inference.Attention.Heads.{max_value-Gives}
use terllama.Inference.Sampling.{
  greatest_index, max_index, sample_argmax, weights_from, first_above, sample_multinomial,
}

module _ {F : Type 0} ⦃o : FloatOps F⦄ where
  greatest_index-lt :
      (n at_best : ℕ) (best : F) (i : ℕ) (xs : List F)
      → at_best < n
      → i + length xs ≤ n
      → greatest_index at_best best i xs < n
  unfolding greatest_index
  greatest_index-lt n at_best best i [] hb h = hb
  greatest_index-lt n at_best best i (x ∷ xs) hb h = elim (Bool-cases (o.less best x)) [
    | inl e ↦ rw e (greatest_index-lt n i x (suc i) xs (omega (arith, h)) (omega (arith, h)))
    | inr e ↦ rw e (greatest_index-lt n at_best best (suc i) xs hb (omega (arith, h)))
  ]

  first_above-lt :
      (n : ℕ) (r acc : F) (last i : ℕ) (probs : List F)
      → last < n
      → i + length probs ≤ n
      → first_above r acc last i probs < n
  unfolding first_above
  first_above-lt n r acc last i [] hl h = hl
  first_above-lt n r acc last i (p ∷ probs) hl h = elim (Bool-cases (o.less r (o.add acc p))) [
    | inl e ↦ rw e (omega (arith, h))
    | inr e ↦ rw e (first_above-lt n r (o.add acc p) last (suc i) probs hl (omega (arith, h)))
  ]

  length-weights_from :
      (f : ℕ → F → F) (i : ℕ) (xs : List F) → length (weights_from f i xs) ≡ length xs
  length-weights_from f i [] = refl
  length-weights_from f i (x ∷ xs) = ap suc (length-weights_from f (suc i) xs)

  max_index-lt : (n : ℕ) (xs : List F) → length xs ≡ n → 0 < n → max_index xs < n
  unfolding max_index
  max_index-lt n [] h hn = hn
  max_index-lt n (x ∷ xs) h hn = greatest_index-lt n 0 x 1 xs hn (omega (arith, h))

  pub argmax-Gives :
      (logits : List F) (n : ℕ)
      → n ≤ length logits
      → 0 < n
      → Gives (sample_argmax logits n) (λ t. t < n)
  unfolding sample_argmax
  argmax-Gives logits n h hn =
      gives_bind (slice-Gives 0 n logits (omega (arith, h)))
        λ front hf. gives_ok (λ t. t < n) (max_index front) (max_index-lt n front hf hn)

  pub multinomial-Gives :
      (logits : List F) (n : ℕ) (temp : F) (prev : List ℤ) (penalty draw : F)
      → n ≤ length logits
      → 0 < n
      → Gives (sample_multinomial logits n temp prev penalty draw) (λ t. t < n)
  unfolding sample_multinomial
  multinomial-Gives logits n temp prev penalty draw h hn =
      gives_bind (slice-Gives 0 n logits (omega (arith, h))) λ front hf.
        gives_bind (max_value-Gives front (omega (arith, hf, hn))) λ m hm.
          gives_ok (λ t. t < n) _
            (first_above-lt n _ zero_f (n - 1) 0 (weights_from _ 0 front) (omega (arith, hn))
              (omega (arith, length-weights_from _ 0 front, hf)))

-- The order of floats: no number is below itself, and the order is transitive. Both hold with NaNs too.
pub record IsOrder {F : Type 0} (o : FloatOps F) : Type 0 where
  pub never : (a : F) → o.less a a ≡ false
  pub trans : (a b c : F) → o.less a b ≡ true → o.less b c ≡ true → o.less a c ≡ true

module _ {F : Type 0} ⦃o : FloatOps F⦄ (order : IsOrder o) where
  -- `v` is not below `y`.
  abbrev pub NotBelow : F → F → Type 0
  NotBelow v y = o.less v y ≡ false

  -- `v` is `best` or above it.
  abbrev IsOver : F → F → Type 0
  IsOver best v = (v ≡ best) ⊎ (o.less best v ≡ true)

  over-NotBelow : (best v x : F) → NotBelow best x → IsOver best v → NotBelow v x
  over-NotBelow best v x h over = elim (Bool-cases (o.less v x)) [
    | inr e ↦ e
    | inl e ↦ elim over [
      | inl same ↦ absurd (cc (h, e, same))
      | inr above ↦ absurd (cc (h, order.trans best v x above e))
    ]
  ]

  greatest_index-top :
      (all : List F) (at_best : ℕ) (best : F) (i : ℕ) (xs : List F)
      → get_elem? all at_best ≡ some best
      → ((j : ℕ) (x : F) → get_elem? xs j ≡ some x → get_elem? all (i + j) ≡ some x)
      → (v : F) × (get_elem? all (greatest_index at_best best i xs) ≡ some v)
        × IsOver best v
        × All (NotBelow v) xs
  unfolding greatest_index
  greatest_index-top all at_best best i [] hb h = (best, hb, inl refl, tt)
  greatest_index-top all at_best best i (x ∷ xs) hb h =
      let rest = λ (j : ℕ) (y : F) (e : get_elem? xs j ≡ some y).
        let place : i + suc j ≡ suc i + j = omega arith in
        ap (get_elem? all) (sym place) ∙ h (suc j) y e in
      let first : i + 0 ≡ i = omega arith in
      let at_x : get_elem? all i ≡ some x = ap (get_elem? all) (sym first) ∙ h 0 x refl in
      elim (Bool-cases (o.less best x)) [
        | inl e ↦
            let (v, at_v, over, tops) = greatest_index-top all i x (suc i) xs at_x rest in
            let above : o.less best v ≡ true = elim over [
              | inl same ↦ rw same e
              | inr up ↦ order.trans best x v e up
            ] in
            rw e (v, at_v, inr above, (over-NotBelow x v x (order.never x) over, tops))
        | inr e ↦
            let (v, at_v, over, tops) = greatest_index-top all at_best best (suc i) xs hb rest in
            rw e (v, at_v, over, (over-NotBelow best v x e over, tops))
      ]

  max_index-top :
      (xs : List F)
      → 0 < length xs
      → (v : F) × (get_elem? xs (max_index xs) ≡ some v) × All (NotBelow v) xs
  unfolding max_index
  max_index-top [] h = absurd (omega arith)
  max_index-top (x ∷ xs) h =
      let shift = λ (j : ℕ) (y : F) (e : get_elem? xs j ≡ some y).
        let place : 1 + j ≡ suc j = omega arith in ap (get_elem? (x ∷ xs)) place ∙ e in
      let (v, at_v, over, tops) = greatest_index-top (x ∷ xs) 0 x 1 xs refl shift in
      (v, at_v, (over-NotBelow x v x (order.never x) over, tops))

  -- sample_argmax gives an index among the first `n` logits whose logit is below none of them.
  pub argmax-greatest :
      (logits : List F) (n : ℕ)
      → n ≤ length logits
      → 0 < n
      → Gives (sample_argmax logits n) (λ t.
        (t < n)
        × (v : F) × (get_elem? (take n logits) t ≡ some v)
        × All (NotBelow v) (take n logits))
  unfolding sample_argmax slice
  argmax-greatest logits n h hn =
      let len : length (take n logits) ≡ n = omega (arith, h, length-take n logits) in
      let fits : leb (0 + n) (length logits) ≡ true = ground (arith, h) in
      let (v, at_v, tops) = max_index-top (take n logits) (omega (arith, len, hn)) in
      rw fits (
        gives_ok _ (max_index (take n logits))
          (max_index-lt n (take n logits) len hn, v, at_v, tops))
