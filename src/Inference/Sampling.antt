-- ===== src/Inference/Sampling.antt =====
-- The choice of the next token: sample_argmax and sample_multinomial of src/core/inference.cpp. A draw of
-- the generator, over its greatest value, is an argument.
pub mod Choice
use terllama.Prelude.{ℕ, suc, ◌-◌, Bool, false, ◌||◌, List, [], ◌∷◌, if◌then◌else◌}
use terllama.Prelude.Int.{ℤ, pos, eq_ℤ}
use terllama.Prelude.Results.{Result, ok, ◌>>=◌}
use terllama.Inference.{Error, FloatOps, slice}
use terllama.Inference.Kernels.{zero_f}
use terllama.Inference.Attention.{one_f, max_value, sum_of}

abbrev pub among : ℕ → List ℤ → Bool
among i [] = false
among i (t ∷ tokens) = eq_ℤ (pos i) t || among i tokens

module _ {F : Type 0} ⦃o : FloatOps F⦄ where
  open o use {add, sub, mul, div, exp, less}

  -- `best` stands at index `at_best`, and the list starts at index `i`.
  unfoldable pub greatest_index : ℕ → F → ℕ → List F → ℕ
  greatest_index at_best best i [] = at_best
  greatest_index at_best best i (x ∷ xs) =
      greatest_index (if less best x then i else at_best) (if less best x then x else best) (suc i)
        xs

  unfoldable pub max_index : List F → ℕ
  max_index [] = 0
  max_index (x ∷ xs) = greatest_index 0 x 1 xs

  unfoldable pub sample_argmax : List F → ℕ → Result Error ℕ
  sample_argmax logits n = do front ← slice 0 n logits; ok (max_index front)

  abbrev pub penalized : F → List ℤ → ℕ → F → F
  penalized repeat_penalty prev_tokens i val =
      if less one_f repeat_penalty
      then (if among i prev_tokens
          then (if less val zero_f then mul val repeat_penalty else div val repeat_penalty)
          else val)
      else val

  abbrev pub weights_from : (ℕ → F → F) → ℕ → List F → List F
  weights_from f i [] = []
  weights_from f i (x ∷ xs) = f i x ∷ weights_from f (suc i) xs

  -- The first index at which the running sum passes `r`, or the last.
  unfoldable pub first_above : F → F → ℕ → ℕ → List F → ℕ
  first_above r acc last i [] = last
  first_above r acc last i (p ∷ probs) =
      let more = first_above r (add acc p) last (suc i) probs in
      if less r (add acc p) then i else more

  unfoldable pub sample_multinomial : List F → ℕ → F → List ℤ → F → F → Result Error ℕ
  sample_multinomial logits n temp prev_tokens repeat_penalty draw = do
    front ← slice 0 n logits
    maxv ← max_value front
    let probs =
        weights_from
          (λ i val. exp (div (sub (penalized repeat_penalty prev_tokens i val) maxv) temp)) 0 front
    ok (first_above (mul draw (sum_of zero_f probs)) zero_f (n - 1) 0 probs)
