-- ===== src/Inference/Generate/Fold.antt =====
-- A stream whose callback never aborts folds its state over the tokens that generate gives
-- (generate_stream and generate of src/core/inference.cpp).
use terllama.Prelude.{
  ℕ, zero, suc, ◌≡◌, refl, Bool, true, some, List, [], ◌∷◌, ◌++◌, length, take, Bool-cases, inl,
  inr,
}
use terllama.Prelude.Int.{ℤ, pos, eq_ℤ}
use terllama.Prelude.Results.{ok, ◌>>=◌, Result-cases}
use terllama.Inference.{FloatOps}
use terllama.Inference.Index.{IndexCache}
use terllama.Inference.Block.{Model, Caches, model_forward}
use terllama.Inference.Generate.{
  prefill_length, token_limit, first_input, sample, prefill, decode, generate, fresh, decode_stream,
  generate_stream,
}

unfoldable pub fold : {A U : Type 0} → (U → A → U) → U → List A → U
fold step u [] = u
fold step u (a ∷ more) = fold step (step u a) more

fold-snoc :
    {A U : Type 0} (step : U → A → U) (u : U) (xs : List A) (x : A)
    → fold step u (xs ++ x ∷ []) ≡ step (fold step u xs) x
unfolding fold
fold-snoc step u [] x = refl
fold-snoc step u (y ∷ xs) x = fold-snoc step (step u y) xs x

module _ {F : Type 0} ⦃o : FloatOps F⦄ (m : Model F) (temperature : F) (draws : ℕ → F) where
  module _ {U : Type 0} (callback : U → ℤ → List F → Bool × U) (step : U → ℤ → U) where
    decode_stream-fold :
        ((u : U) (t : ℤ) (logits : List F) → callback u t logits ≡ (true, step u t))
        → (start : U) (todo seq_pos : ℕ) (next : ℤ) (tokens : List ℤ) (s : Caches F)
        → decode_stream m temperature draws
            (some callback)
            todo
            seq_pos
            next
            tokens
            s
            (fold step start tokens)
          ≡ (decode m temperature draws todo seq_pos next tokens s >>= λ r.
              ok (true, fold step start r.0))
    unfolding decode_stream decode
    decode_stream-fold goes start zero seq_pos next tokens s = refl
    decode_stream-fold goes start (suc todo) seq_pos next tokens s =
        elim (Result-cases (model_forward m next seq_pos s)) [
          | inl (e, h) ↦ rw h refl
          | inr (run, h) ↦ rw h (elim (Result-cases (sample m.cfg temperature draws run.0 tokens)) [
            | inl (e, h') ↦ rw h' refl
            | inr (t, h') ↦
                rw
                  (
                    h',
                    goes (fold step start tokens) (pos t) run.0,
                    ← fold-snoc step start tokens (pos t),
                  )
                  (elim (Bool-cases (eq_ℤ (pos t) m.cfg.eos_token_id)) [
                    | inl e ↦ rw e refl
                    | inr e ↦ rw e (
                        decode_stream-fold goes start todo (suc seq_pos) (pos t)
                          (tokens ++ pos t ∷ []) run.1)
                  ])
          ])
        ]

    pub stream-fold :
        ((u : U) (t : ℤ) (logits : List F) → callback u t logits ≡ (true, step u t))
        → (idx : IndexCache) (prompt : List ℤ) (max_tokens : ℕ) (start : U)
        → generate_stream m idx prompt max_tokens temperature draws (some callback) start ≡ (
            generate m idx prompt max_tokens temperature draws >>= λ r.
            ok (true, fold step start r.0))
    unfolding generate_stream generate fold
    stream-fold goes idx prompt max_tokens start =
        let n = prefill_length m.cfg.max_position_embeddings (length prompt) in
        elim (Result-cases (prefill m (take n prompt) 0 (fresh m idx))) [
          | inl (e, h) ↦ rw h refl
          | inr (s, h) ↦ rw h (
              decode_stream-fold goes start (token_limit m.cfg.max_position_embeddings n max_tokens)
                n (first_input (take n prompt) m.cfg.eos_token_id) [] s)
        ]
