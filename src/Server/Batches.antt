-- ===== src/Server/Batches.antt =====
-- Streamed answers against whole ones: the streaming and non-streaming halves of handle_chat_completions
-- and handle_completions of src/server/handlers.cpp.
pub mod Stream
use terllama.Prelude.{
  ℕ, zero, suc, ◌+◌, ◌-◌, ◌≤◌, ◌<◌, ◌≡◌, refl, ap, sym, ◌∙◌, Bool, true, false, not, ◌&&◌, ◌||◌,
  some, List, [], ◌∷◌, ◌++◌, length, take, Bool-cases, inl, inr, if◌then◌else◌, All, arith, ltb,
  leb, ◌==◌, length-append,
}
use mathlib.Core.Path.{subst}
use mathlib.Core.List.{append_assoc, append-nil}
use terllama.Prelude.Int.{ℤ, pos, eq_ℤ}
use terllama.Prelude.Results.{Result, ok, ◌>>=◌}
use terllama.Inference.{Error, FloatOps}
use terllama.Inference.Block.{Caches}
use terllama.Inference.Generate.{generate, generate_stream}
use terllama.Inference.Generate.Fold.{fold, stream-fold}
use terllama.Server.{
  Env, State, Params, completion, events, is_empty, within_context, decode_with_fallback,
}
use terllama.Server.Respond.{
  Batch, is_full, with_text, on_token, flush, frames, complete, floor_temperature, generated_text,
  last_is_zero,
}

unfoldable pub flatten : List (List ℤ) → List ℤ
flatten [] = []
flatten (b ∷ batches) = b ++ flatten batches

flatten-snoc :
    (batches : List (List ℤ)) (b : List ℤ) → flatten (batches ++ b ∷ []) ≡ flatten batches ++ b
unfolding flatten
flatten-snoc [] b = append-nil b
flatten-snoc (c ∷ batches) b =
    ap (λ (l : List ℤ). c ++ l) (flatten-snoc batches b) ∙ sym (append_assoc c (flatten batches) b)

-- From 1 to 16 tokens.
abbrev pub IsBatch : List ℤ → Type 0
IsBatch b = (0 < length b) × (length b ≤ 16)

All-snoc :
    {A : Type 0} (P : A → Type 0) (xs : List A) (x : A) → All P xs → P x → All P (xs ++ x ∷ [])
All-snoc P [] x h p = (p, tt)
All-snoc P (y ∷ xs) x h p = (h.0, All-snoc P xs x h.1 p)

is_empty-nil : (l : List ℤ) → is_empty l ≡ true → l ≡ []
is_empty-nil [] e = refl
is_empty-nil (t ∷ l) e = absurd (cc e)

some_tokens : (l : List ℤ) → is_empty l ≡ false → 0 < length l
some_tokens [] e = absurd (cc e)
some_tokens (t ∷ l) e = omega arith

module _ {F : Type 0} (env : Env F) where
  -- The texts of the batches, those without text left out.
  unfoldable pub texts : List (List ℤ) → List (List ℕ)
  texts [] = []
  texts (b ∷ batches) =
      let text = decode_with_fallback env b in
      let rest = texts batches in if is_empty text then rest else text ∷ rest

  texts-snoc :
      (batches : List (List ℤ)) (b : List ℤ)
      → texts (batches ++ b ∷ []) ≡ with_text (texts batches) (decode_with_fallback env b)
  unfolding texts
  texts-snoc [] b = refl
  texts-snoc (c ∷ batches) b = elim (Bool-cases (is_empty (decode_with_fallback env c))) [
    | inl e ↦ rw e (texts-snoc batches b)
    | inr e ↦
        rw (e, texts-snoc batches b)
          (elim (Bool-cases (is_empty (decode_with_fallback env b))) [
            | inl e' ↦ rw e' refl
            | inr e' ↦ rw e' refl
          ])
  ]

  unfoldable pub step : Batch → ℤ → Batch
  step b token =
      let batch = b.waiting ++ token ∷ [] in
      if is_full batch token
      then record { waiting = []; written = with_text b.written (decode_with_fallback env batch) }
      else record b { waiting = batch }

  pub on_token-step :
      env.interrupted ≡ false
      → env.sink_open ≡ true
      → (b : Batch) (token : ℤ) (logits : List F)
      → on_token env b token logits ≡ (true, step b token)
  unfolding on_token step decode_with_fallback
  on_token-step going open_sink b token logits =
      let full = is_full (b.waiting ++ token ∷ []) token in
      let no_text = is_empty (decode_with_fallback env (b.waiting ++ token ∷ [])) in
      rw (going, open_sink)
        (elim (Bool-cases full) [
          | inl e ↦ rw e (elim (Bool-cases no_text) [ inl e' ↦ rw e' refl | inr e' ↦ rw e' refl ])
          | inr e ↦ rw e refl
        ])

  -- The tokens so far in batches, and what waits.
  pub record IsBatched (tokens : List ℤ) (b : Batch) : Type 0 where
    pub batches : List (List ℤ)
    pub whole : tokens ≡ flatten batches ++ b.waiting
    pub sized : All IsBatch batches
    pub is_text : b.written ≡ texts batches
    pub short : length b.waiting < 16

  close :
      (tokens waiting : List ℤ) (batches : List (List ℤ)) (token : ℤ)
      → tokens ≡ flatten batches ++ waiting
      → tokens ++ token ∷ [] ≡ flatten (batches ++ (waiting ++ token ∷ []) ∷ [])
  close tokens waiting batches token h =
      ap (λ (l : List ℤ). l ++ token ∷ []) h
      ∙ append_assoc (flatten batches) waiting (token ∷ [])
      ∙ sym (flatten-snoc batches (waiting ++ token ∷ []))

  step-IsBatched :
      (tokens : List ℤ) (b : Batch) (token : ℤ)
      → IsBatched tokens b
      → IsBatched (tokens ++ token ∷ []) (step b token)
  unfolding step
  step-IsBatched tokens b token h =
      let batch = b.waiting ++ token ∷ [] in
      let len : length batch ≡ length b.waiting + 1 = length-append b.waiting (token ∷ []) in
      let at_most : length b.waiting < 16 = h.short in
      elim (Bool-cases (is_full batch token)) [
        | inl e ↦ rw e (record {
          batches = h.batches ++ batch ∷ [];
          whole = close tokens b.waiting h.batches token h.whole ∙ sym (append-nil _);
          sized =
              All-snoc IsBatch h.batches batch h.sized
                (omega (arith, len), omega (arith, len, at_most));
          is_text =
              ap (λ (w : List (List ℕ)). with_text w (decode_with_fallback env batch)) h.is_text
              ∙ sym (texts-snoc h.batches batch);
          short = omega arith;
        })
        | inr e ↦ rw e (record {
          batches = h.batches;
          whole =
              ap (λ (l : List ℤ). l ++ token ∷ []) h.whole
              ∙ append_assoc (flatten h.batches) b.waiting (token ∷ []);
          sized = h.sized;
          is_text = h.is_text;
          short = ground (arith, e);
        })
      ]

  pub fold-IsBatched :
      (before tokens : List ℤ) (b : Batch)
      → IsBatched before b
      → IsBatched (before ++ tokens) (fold step b tokens)
  unfolding fold
  fold-IsBatched before [] b h = subst (λ (l : List ℤ). IsBatched l b) (sym (append-nil before)) h
  fold-IsBatched before (t ∷ tokens) b h =
      subst (λ (l : List ℤ). IsBatched l (fold step (step b t) tokens))
        (append_assoc before (t ∷ []) tokens)
        (fold-IsBatched (before ++ t ∷ []) tokens (step b t) (step-IsBatched before b t h))

  -- Tokens in batches, with the texts that are written.
  pub record Batched (tokens : List ℤ) (written : List (List ℕ)) : Type 0 where
    pub batches : List (List ℤ)
    pub whole : flatten batches ≡ tokens
    pub sized : All IsBatch batches
    pub is_text : written ≡ texts batches

  pub flush-Batched :
      (tokens : List ℤ) (b : Batch)
      → env.sink_open ≡ true
      → IsBatched tokens b
      → Batched tokens (flush env b)
  unfolding flush decode_with_fallback texts
  flush-Batched tokens b open_sink h = elim (Bool-cases (is_empty b.waiting)) [
    | inl e ↦ rw e (record {
      batches = h.batches;
      whole = sym (
          h.whole
          ∙ ap (λ (l : List ℤ). flatten h.batches ++ l) (is_empty-nil b.waiting e)
          ∙ append-nil (flatten h.batches));
      sized = h.sized;
      is_text = h.is_text;
    })
    | inr e ↦
        rw (e, open_sink)
          (record {
            batches = h.batches ++ b.waiting ∷ [];
            whole = flatten-snoc h.batches b.waiting ∙ sym h.whole;
            sized =
                All-snoc IsBatch h.batches b.waiting h.sized
                  (some_tokens b.waiting e, omega (arith, h.short));
            is_text =
                ap (λ (w : List (List ℕ)). with_text w (decode_with_fallback env b.waiting))
                  h.is_text
                ∙ sym (texts-snoc h.batches b.waiting);
          })
  ]
