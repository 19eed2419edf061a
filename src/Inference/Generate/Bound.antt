-- ===== src/Inference/Generate/Bound.antt =====
-- How many tokens generate of src/core/inference.cpp gives, whatever the model.
use terllama.Prelude.{
  ℕ, zero, suc, ◌+◌, ◌≤◌, ◌≡◌, ap, List, [], ◌∷◌, ◌++◌, length, take, arith, Bool-cases, inl, inr,
  length-append,
}
use terllama.Prelude.Int.{ℤ, pos, eq_ℤ}
use terllama.Prelude.Results.{Result, ok, bind_ok, ok_injective}
use terllama.Inference.{Error, FloatOps}
use terllama.Inference.Index.{IndexCache}
use terllama.Inference.Block.{Model, Caches, model_forward}
use terllama.Inference.Generate.{
  prefill_length, token_limit, first_input, sample, prefill, decode, generate, fresh,
}

module _ {F : Type 0} ⦃o : FloatOps F⦄ (m : Model F) (temperature : F) (draws : ℕ → F) where
  decode-length :
      (todo seq_pos : ℕ) (next : ℤ) (tokens : List ℤ) (s : Caches F) (r : List ℤ × Caches F)
      → decode m temperature draws todo seq_pos next tokens s ≡ ok r
      → length r.0 ≤ length tokens + todo
  unfolding decode
  decode-length zero seq_pos next tokens s r h =
      let same : tokens ≡ r.0 = ap (λ x. x.0) (ok_injective (tokens, s) r h) in
      omega (arith, ap (λ (l : List ℤ). length l) same)
  decode-length (suc todo) seq_pos next tokens s r h =
      let (run, hr, h1) = bind_ok (model_forward m next seq_pos s) _ r h in
      let (t, ht, h2) = bind_ok (sample m.cfg temperature draws run.0 tokens) _ r h1 in
      let longer = tokens ++ pos t ∷ [] in
      let one_more : length longer ≡ length tokens + 1 = length-append tokens (pos t ∷ []) in
      elim (Bool-cases (eq_ℤ (pos t) m.cfg.eos_token_id)) [
        | inl e ↦
            let h3 : ◌≡◌ {A = Result Error (List ℤ × Caches F)} (ok (longer, run.1)) (ok r) =
              rw e at h2 in
            let same : longer ≡ r.0 = ap (λ x. x.0) (ok_injective (longer, run.1) r h3) in
            omega (arith, one_more, ap (λ (l : List ℤ). length l) same)
        | inr e ↦
            let h3 : decode m temperature draws todo (suc seq_pos) (pos t) longer run.1 ≡ ok r =
              rw e at h2 in
            omega (arith, one_more, decode-length todo (suc seq_pos) (pos t) longer run.1 r h3)
      ]

  pub generate-length :
      (idx : IndexCache) (prompt : List ℤ) (max_tokens : ℕ) (r : List ℤ × Caches F)
      → generate m idx prompt max_tokens temperature draws ≡ ok r
      → length r.0 ≤ max_tokens
  unfolding generate
  generate-length idx prompt max_tokens r h =
      let max_seq = m.cfg.max_position_embeddings in
      let n = prefill_length max_seq (length prompt) in
      let limit = token_limit max_seq n max_tokens in
      let (s, hs, h1) = bind_ok (prefill m (take n prompt) 0 (fresh m idx)) _ r h in
      let at_most : limit ≤ max_tokens = ground arith in
      omega (
        arith,
        at_most,
        decode-length limit n (first_input (take n prompt) m.cfg.eos_token_id) [] s r h1,
      )
