-- ===== src/Inference/Generate/Stream.antt =====
-- Streaming against the generation of a whole answer (generate_stream and generate of
-- src/core/inference.cpp).
use terllama.Prelude.{
  ℕ, zero, suc, ◌≡◌, refl, ap, sym, ◌∙◌, Bool, true, false, some, List, [], ◌∷◌, ◌++◌, length, take,
  Bool-cases, inl, inr, if◌then◌else◌,
}
use mathlib.Core.List.{append_assoc, append-nil}
use terllama.Prelude.Int.{ℤ, pos, eq_ℤ}
use terllama.Prelude.Results.{Result, ok, Result-cases, bind_ok, ok_injective}
use terllama.Inference.{Error, FloatOps}
use terllama.Inference.Index.{IndexCache}
use terllama.Inference.Block.{Model, Caches, model_forward}
use terllama.Inference.Generate.{
  prefill_length, token_limit, first_input, sample, prefill, decode, generate, fresh, decode_stream,
  generate_stream,
}

module _ {F : Type 0} ⦃o : FloatOps F⦄ (m : Model F) (temperature : F) (draws : ℕ → F) where
  module _ {U : Type 0} (callback : U → ℤ → List F → Bool × U) where
    -- The callback beside the tokens that it has been given.
    abbrev pub watched : U × List ℤ → ℤ → List F → Bool × (U × List ℤ)
    watched state token logits =
        let answer = callback state.0 token logits in (answer.0, (answer.1, state.1 ++ token ∷ []))

    -- What a stream leaves of an answer: its first tokens, and all of them unless it was aborted.
    pub record IsPrefix (r : Result Error (Bool × (U × List ℤ))) (tokens : List ℤ) : Type 0 where
      pub done : Bool
      pub state : U
      pub seen : List ℤ
      pub rest : List ℤ
      pub is : r ≡ ok (done, (state, seen))
      pub whole : tokens ≡ seen ++ rest
      pub unless_aborted : done ≡ true → rest ≡ []

  decode-extends :
      (todo seq_pos : ℕ) (next : ℤ) (tokens : List ℤ) (s : Caches F) (r : List ℤ × Caches F)
      → decode m temperature draws todo seq_pos next tokens s ≡ ok r
      → (rest : List ℤ) × (r.0 ≡ tokens ++ rest)
  unfolding decode
  decode-extends zero seq_pos next tokens s r h =
      ([], ap (λ x. x.0) (sym (ok_injective (tokens, s) r h)) ∙ sym (append-nil tokens))
  decode-extends (suc todo) seq_pos next tokens s r h =
      let (run, hr, h1) = bind_ok (model_forward m next seq_pos s) _ r h in
      let (t, ht, h2) = bind_ok (sample m.cfg temperature draws run.0 tokens) _ r h1 in
      let longer = tokens ++ pos t ∷ [] in
      elim (Bool-cases (eq_ℤ (pos t) m.cfg.eos_token_id)) [
        | inl e ↦
            let h3 : ◌≡◌ {A = Result Error (List ℤ × Caches F)} (ok (longer, run.1)) (ok r) =
              rw e at h2 in
            (pos t ∷ [], ap (λ x. x.0) (sym (ok_injective (longer, run.1) r h3)))
        | inr e ↦
            let h3 : decode m temperature draws todo (suc seq_pos) (pos t) longer run.1 ≡ ok r =
              rw e at h2 in
            let (rest, same) = decode-extends todo (suc seq_pos) (pos t) longer run.1 r h3 in
            (pos t ∷ rest, same ∙ append_assoc tokens (pos t ∷ []) rest)
      ]

  module _ {U : Type 0} (callback : U → ℤ → List F → Bool × U) where
    -- The callback's answer and the test for the end of the text.
    after_token :
        (go stop : Bool) (longer : List ℤ) (c : Caches F) (u : U)
        (more : Result Error (List ℤ × Caches F)) (streamed : Result Error (Bool × (U × List ℤ)))
        (r : List ℤ × Caches F)
        → (more ≡ ok r → (rest : List ℤ) × (r.0 ≡ longer ++ rest))
        → (more ≡ ok r → IsPrefix callback streamed r.0)
        → (if stop then ok (longer, c) else more) ≡ ok r
        → IsPrefix callback
            (if go
              then (if stop then ok (true, (u, longer)) else streamed)
              else ok (false, (u, longer)))
            r.0
    after_token true true longer c u more streamed r ext ih h = record {
      done = true;
      state = u;
      seen = longer;
      rest = [];
      is = refl;
      whole = ap (λ x. x.0) (sym (ok_injective (longer, c) r h)) ∙ sym (append-nil longer);
      unless_aborted = λ d. refl;
    }
    after_token true false longer c u more streamed r ext ih h = ih h
    after_token false true longer c u more streamed r ext ih h = record {
      done = false;
      state = u;
      seen = longer;
      rest = [];
      is = refl;
      whole = ap (λ x. x.0) (sym (ok_injective (longer, c) r h)) ∙ sym (append-nil longer);
      unless_aborted = λ d. refl;
    }
    after_token false false longer c u more streamed r ext ih h =
        let (rest, same) = ext h in
        record {
          done = false;
          state = u;
          seen = longer;
          rest = rest;
          is = refl;
          whole = same;
          unless_aborted = λ d. absurd (cc d);
        }

    decode_stream-IsPrefix :
        (todo seq_pos : ℕ) (next : ℤ) (tokens : List ℤ) (s : Caches F) (u : U)
        (r : List ℤ × Caches F)
        → decode m temperature draws todo seq_pos next tokens s ≡ ok r
        → IsPrefix callback
            (decode_stream m temperature draws
              (some (watched callback))
              todo
              seq_pos
              next
              tokens
              s
              (u, tokens))
            r.0
    unfolding decode_stream decode
    decode_stream-IsPrefix zero seq_pos next tokens s u r h = record {
      done = true;
      state = u;
      seen = tokens;
      rest = [];
      is = refl;
      whole = ap (λ x. x.0) (sym (ok_injective (tokens, s) r h)) ∙ sym (append-nil tokens);
      unless_aborted = λ d. refl;
    }
    decode_stream-IsPrefix (suc todo) seq_pos next tokens s u r h =
        elim (Result-cases (model_forward m next seq_pos s)) [
          | inl (e, failed) ↦ absurd (let wrong = rw failed at h in cc wrong)
          | inr (run, hr) ↦
              let h1 = rw hr at h in
              rw hr (elim (Result-cases (sample m.cfg temperature draws run.0 tokens)) [
                | inl (e, failed) ↦ absurd (let wrong = rw failed at h1 in cc wrong)
                | inr (t, ht) ↦
                    let h2 = rw ht at h1 in
                    let longer = tokens ++ pos t ∷ [] in
                    let answer = callback u (pos t) run.0 in
                    rw ht (
                      after_token answer.0 (eq_ℤ (pos t) m.cfg.eos_token_id) longer run.1 answer.1
                        (decode m temperature draws todo (suc seq_pos) (pos t) longer run.1)
                        (decode_stream m temperature draws (some (watched callback)) todo
                          (suc seq_pos) (pos t) longer run.1 (answer.1, longer))
                        r (decode-extends todo (suc seq_pos) (pos t) longer run.1 r)
                        (decode_stream-IsPrefix todo (suc seq_pos) (pos t) longer run.1 answer.1 r)
                        h2)
              ])
        ]

    -- Whatever the callback answers, what it is given is a beginning of the tokens that generate gives, and
    -- all of them where generate_stream answers true.
    pub stream-IsPrefix :
        (idx : IndexCache) (prompt : List ℤ) (max_tokens : ℕ) (u : U) (r : List ℤ × Caches F)
        → generate m idx prompt max_tokens temperature draws ≡ ok r
        → IsPrefix callback
            (generate_stream m idx prompt max_tokens temperature draws
              (some (watched callback))
              (u, []))
            r.0
    unfolding generate_stream generate
    stream-IsPrefix idx prompt max_tokens u r h =
        let max_seq = m.cfg.max_position_embeddings in
        let n = prefill_length max_seq (length prompt) in
        elim (Result-cases (prefill m (take n prompt) 0 (fresh m idx))) [
          | inl (e, failed) ↦ absurd (let wrong = rw failed at h in cc wrong)
          | inr (s, hs) ↦ rw hs (
              decode_stream-IsPrefix (token_limit max_seq n max_tokens) n
                (first_input (take n prompt) m.cfg.eos_token_id) [] s u r (rw hs at h))
        ]
