-- ===== src/Server/Batches/Stream.antt =====
-- A stream and a whole answer to the same request: the two halves of handle_chat_completions and
-- handle_completions of src/server/handlers.cpp.
use terllama.Prelude.{
  ℕ, ◌-◌, ◌≤◌, ◌≡◌, refl, ◌∙◌, ap, Bool, true, false, List, [], ◌∷◌, length, arith, ltb, some,
}
use terllama.Prelude.Int.{ℤ}
use terllama.Prelude.Results.{Result, ok, ◌>>=◌}
use terllama.Inference.{FloatOps, Error}
use terllama.Inference.Block.{Caches}
use terllama.Inference.Generate.{generate, generate_stream}
use terllama.Inference.Generate.Fold.{fold, stream-fold}
use terllama.Server.{Env, State, Params, completion, events, within_context}
use terllama.Server.Respond.{
  Batch, on_token, flush, frames, complete, floor_temperature, generated_text, last_is_zero,
  answer_stream,
}
use terllama.Server.Batches.{
  flatten, Batched, IsBatched, step, on_token-step, fold-IsBatched, flush-Batched, texts,
}

module _ {F : Type 0} ⦃o : FloatOps F⦄ (env : Env F) where
  nothing_yet : IsBatched env [] (record { waiting = []; written = [] })
  unfolding flatten texts
  nothing_yet = record {
    batches = [];
    whole = refl;
    sized = tt;
    is_text = refl;
    short = omega arith;
  }

  -- For a prompt that fits the context, where generation succeeds, the answer that is not streamed holds what
  -- `generated_text` gives for the prompt and the tokens and counts the tokens of each, and the stream of the same request, where the client takes every frame and
  -- nothing interrupts it, is the texts of the same tokens: cut into batches of 1 to 16 tokens that
  -- together are those tokens in order, one frame for each batch whose text is not empty, and then the frame
  -- that says that it is done.
  pub stream-whole :
      (s : State F) (p : Params F) (max_tokens : ℕ) (t : ℤ) (rest : List ℤ) (r : List ℤ × Caches F)
      → env.interrupted ≡ false
      → env.sink_open ≡ true
      → length (t ∷ rest) ≤ s.model.cfg.max_position_embeddings
      → generate s.model env.index
          (t ∷ rest)
          (within_context (s.model.cfg.max_position_embeddings - length (t ∷ rest)) max_tokens)
          (floor_temperature env p.temperature)
          env.draws
        ≡ ok r
      → (complete env s (record p { stream = false }) max_tokens (t ∷ rest)
          ≡ completion
              (generated_text env (t ∷ rest) r.0)
              (length (t ∷ rest))
              (length r.0)
              (last_is_zero r.0))
        × (written : List (List ℕ)) × (complete env s
              (record p { stream = true })
              max_tokens
              (t ∷ rest)
            ≡ events (frames true written))
        × Batched env r.0 written
  unfolding complete
  stream-whole s p max_tokens t rest r going open_sink fits h =
      let context = s.model.cfg.max_position_embeddings in
      let prompt = t ∷ rest in
      let limit = within_context (context - length prompt) max_tokens in
      let temperature = floor_temperature env p.temperature in
      let start : Batch = record { waiting = []; written = [] } in
      let short : ltb context (length prompt) ≡ false = ground (arith, fits) in
      let last = fold (step env) start r.0 in
      let streamed : generate_stream s.model env.index prompt limit temperature env.draws
            (some (on_token env)) start
          ≡ ok (true, last) =
        stream-fold s.model temperature env.draws (on_token env) (step env)
          (on_token-step env going open_sink) env.index prompt limit start
        ∙ ap
            (λ (x : Result Error (List ℤ × Caches F)).
              x >>= λ y. ok (true, fold (step env) start y.0))
            h in
      let batched =
        flush-Batched env r.0 last open_sink (fold-IsBatched env [] r.0 start nothing_yet) in
      (
        rw (short, h) refl,
        flush env last,
        rw short (
            ap (answer_stream env) streamed
            ∙ ap (λ (b : Bool). events (frames b (flush env last))) open_sink),
        batched,
      )
