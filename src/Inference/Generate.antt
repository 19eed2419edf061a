-- ===== src/Inference/Generate.antt =====
-- The generation loops: generate_stream and generate of src/core/inference.cpp. max_tokens and
-- max_position_embeddings are not negative. The callback is a function on a state of its own; the draws of
-- the random generator are a function of their number. The scheduler's choice of threads does not touch
-- what is computed.
pub mod Total
pub mod Stream
pub mod Fold
pub mod Bound
use terllama.Prelude.{
  ℕ, zero, suc, ◌-◌, Bool, true, false, Option, none, some, List, [], ◌∷◌, ◌++◌, length, drop, take,
  if◌then◌else◌, ltb, leb,
}
use terllama.Prelude.Int.{ℤ, pos, negsuc, eq_ℤ}
use terllama.Prelude.Results.{Result, ok, ◌>>=◌}
use terllama.Inference.{Error, FloatOps, ModelConfig}
use terllama.Inference.Cache.{new_cache}
use terllama.Inference.Block.{Model, Caches, model_forward}
use terllama.Inference.Index.{IndexCache}
use terllama.Inference.Sampling.{sample_argmax, sample_multinomial}

-- The prompt that is run: room is left for one token.
abbrev pub prefill_length : ℕ → ℕ → ℕ
prefill_length max_seq n_prompt = if leb max_seq n_prompt then max_seq - 1 else n_prompt

abbrev pub token_limit : ℕ → ℕ → ℕ → ℕ
token_limit max_seq n_prompt max_tokens =
    if ltb (max_seq - n_prompt) max_tokens then max_seq - n_prompt else max_tokens

-- The last eight tokens.
abbrev pub recent : List ℤ → List ℤ
recent output_tokens = drop (length output_tokens - 8) output_tokens

-- The last token of the prompt that was run, or the end-of-text token, or 0.
abbrev pub or_zero : ℤ → ℤ
or_zero (pos t) = pos t
or_zero (negsuc n) = pos 0

abbrev pub first_input : List ℤ → ℤ → ℤ
first_input [] eos = or_zero eos
first_input (t ∷ []) eos = t
first_input (t ∷ u ∷ tokens) eos = first_input (u ∷ tokens) eos

module _ {F : Type 0} ⦃o : FloatOps F⦄ where
  open o use {less, of_bits}

  -- One draw of the generator is used for each token that is sampled, below 0.01f none.
  unfoldable pub sample : ModelConfig F → F → (ℕ → F) → List F → List ℤ → Result Error ℕ
  sample cfg temperature draws logits output_tokens =
      if less temperature (of_bits 0x3C23D70A)
      then sample_argmax logits cfg.vocab_size
      else sample_multinomial logits cfg.vocab_size temperature (recent output_tokens)
          (of_bits 0x3F933333) (draws (length output_tokens))

  unfoldable pub prefill : Model F → List ℤ → ℕ → Caches F → Result Error (Caches F)
  prefill m [] seq_pos s = ok s
  prefill m (t ∷ tokens) seq_pos s = do
    run ← model_forward m t seq_pos s
    prefill m tokens (suc seq_pos) run.1

  unfoldable pub decode :
      Model F → F → (ℕ → F) → ℕ → ℕ → ℤ → List ℤ → Caches F → Result Error (List ℤ × Caches F)
  decode m temperature draws zero seq_pos next_token output_tokens s = ok (output_tokens, s)
  decode m temperature draws (suc todo) seq_pos next_token output_tokens s =
      model_forward m next_token seq_pos s >>= λ run.
      sample m.cfg temperature draws run.0 output_tokens >>= λ token.
      let longer = output_tokens ++ pos token ∷ [] in
      let more = decode m temperature draws todo (suc seq_pos) (pos token) longer run.1 in
      if eq_ℤ (pos token) m.cfg.eos_token_id then ok (longer, run.1) else more

  -- The caches of keys and values are new, the cache of indices is the one of the thread.
  unfoldable pub fresh : Model F → IndexCache → Caches F
  fresh m idx = record {
    kv =
        new_cache m.cfg.max_position_embeddings m.cfg.num_hidden_layers m.cfg.num_key_value_heads
          m.cfg.head_dim;
    idx = idx;
  }

  unfoldable pub generate :
      Model F → IndexCache → List ℤ → ℕ → F → (ℕ → F) → Result Error (List ℤ × Caches F)
  generate m idx prompt_tokens max_tokens temperature draws =
      let max_seq = m.cfg.max_position_embeddings in
      let n_prompt = prefill_length max_seq (length prompt_tokens) in
      let prompt = take n_prompt prompt_tokens in
      prefill m prompt 0 (fresh m idx) >>= λ s.
      decode m temperature draws (token_limit max_seq n_prompt max_tokens) n_prompt
        (first_input prompt m.cfg.eos_token_id) [] s

  module _ {U : Type 0} where
    -- The callback's answer and its new state. No callback goes on.
    abbrev pub call : Option (U → ℤ → List F → Bool × U) → U → ℤ → List F → Bool × U
    call none u token logits = (true, u)
    call (some callback) u token logits = callback u token logits

    unfoldable pub decode_stream :
        Model F
        → F
        → (ℕ → F)
        → Option (U → ℤ → List F → Bool × U)
        → ℕ
        → ℕ
        → ℤ
        → List ℤ
        → Caches F
        → U
        → Result Error (Bool × U)
    decode_stream m temperature draws callback zero seq_pos next_token output_tokens s u =
        ok (true, u)
    decode_stream m temperature draws callback (suc todo) seq_pos next_token output_tokens s u =
        model_forward m next_token seq_pos s >>= λ run.
        sample m.cfg temperature draws run.0 output_tokens >>= λ token.
        let longer = output_tokens ++ pos token ∷ [] in
        let answer = call callback u (pos token) run.0 in
        let more =
          decode_stream m temperature draws callback todo (suc seq_pos) (pos token) longer run.1
            answer.1 in
        if answer.0
        then (if eq_ℤ (pos token) m.cfg.eos_token_id then ok (true, answer.1) else more)
        else ok (false, answer.1)

    unfoldable pub generate_stream :
        Model F
        → IndexCache
        → List ℤ
        → ℕ
        → F
        → (ℕ → F)
        → Option (U → ℤ → List F → Bool × U)
        → U
        → Result Error (Bool × U)
    generate_stream m idx prompt_tokens max_tokens temperature draws callback u =
        let max_seq = m.cfg.max_position_embeddings in
        let n_prompt = prefill_length max_seq (length prompt_tokens) in
        let prompt = take n_prompt prompt_tokens in
        prefill m prompt 0 (fresh m idx) >>= λ s.
        decode_stream m temperature draws callback (token_limit max_seq n_prompt max_tokens)
          n_prompt (first_input prompt m.cfg.eos_token_id) [] s u
