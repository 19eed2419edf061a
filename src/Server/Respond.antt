-- ===== src/Server/Respond.antt =====
-- What becomes of a request: handle_chat_completions and handle_completions of src/server/handlers.cpp.
use terllama.Prelude.{
  ℕ, ◌-◌, Bool, true, false, not, ◌&&◌, ◌||◌, Option, none, some, List, [], ◌∷◌, ◌++◌, length, drop,
  if◌then◌else◌, ltb, leb, ◌==◌,
}
use terllama.Prelude.Int.{ℤ, pos, eq_ℤ}
use terllama.Prelude.Results.{Result, ok, err}
use terllama.RateLimit.{rate_limit_allow}
use terllama.Inference.{Error, FloatOps}
use terllama.Inference.Kernels.{zero_f}
use terllama.Inference.Block.{Caches}
use terllama.Inference.Generate.{generate, generate_stream}
use terllama.Server.{
  Refusal, unauthorized, rate_limited, service_unavailable, invalid_json, bad_parameter,
  nothing_asked, bad_max_tokens, tokenization_failed, prompt_too_long, unhandled, Event, chunk,
  done, Response, refused, completion, events, broken, Params, Parsed, not_json, wrong_type, fields,
  Request, State, Env, asks_nothing, prompt_of, is_empty, check_api_key, decode_with_fallback,
  sanitize_max_tokens, within_context, try_reserve_request, release, ensure_loaded,
}

-- The batch of tokens that waits to be decoded (tls_decode_buffer), and the texts that the client took.
pub record Batch : Type 0 where
  pub waiting : List ℤ
  pub written : List (List ℕ)

-- A batch is written when it has 16 tokens or ends with token 0.
abbrev pub is_full : List ℤ → ℤ → Bool
is_full waiting token = leb 16 (length waiting) || eq_ℤ token (pos 0)

abbrev pub with_text : List (List ℕ) → List ℕ → List (List ℕ)
with_text written text = if is_empty text then written else written ++ text ∷ []

-- The spaces in front of a text are erased.
abbrev pub trim_front : List ℕ → List ℕ
trim_front [] = []
trim_front (c ∷ text) = let rest = trim_front text in if c == 32 then rest else c ∷ text

abbrev pub last_is_zero : List ℤ → Bool
last_is_zero [] = false
last_is_zero (t ∷ []) = eq_ℤ t (pos 0)
last_is_zero (t ∷ u ∷ tokens) = last_is_zero (u ∷ tokens)

-- The frames of the texts, and the last one where the client still takes frames.
abbrev pub frames : Bool → List (List ℕ) → List Event
frames sink_open [] = if sink_open then done ∷ [] else []
frames sink_open (text ∷ texts) = chunk text ∷ frames sink_open texts

module _ {F : Type 0} (env : Env F) where
  -- The callback of a stream.
  unfoldable pub on_token : Batch → ℤ → List F → Bool × Batch
  on_token b token logits =
      if env.interrupted
      then (false, b)
      else (let batch = b.waiting ++ token ∷ [] in
          let text = decode_with_fallback env batch in
          if is_full batch token
          then (if not (is_empty text) && not env.sink_open
              then (false, record b { waiting = batch })
              else (true, record { waiting = []; written = with_text b.written text }))
          else (true, record b { waiting = batch }))

  -- What is left in the batch is written at the end.
  unfoldable pub flush : Batch → List (List ℕ)
  flush b =
      if is_empty b.waiting || not env.sink_open
      then b.written
      else with_text b.written (decode_with_fallback env b.waiting)

  -- The text of an answer is the text of all tokens less the text of the prompt.
  unfoldable pub generated_text : List ℤ → List ℤ → List ℕ
  generated_text prompt_tokens output_tokens =
      let decoded = decode_with_fallback env (prompt_tokens ++ output_tokens) in
      let prompt_decoded = decode_with_fallback env prompt_tokens in
      if ltb (length prompt_decoded) (length decoded)
      then trim_front (drop (length prompt_decoded) decoded)
      else decoded

module _ {F : Type 0} ⦃o : FloatOps F⦄ (env : Env F) where
  -- Below 0.01f a temperature counts as 0.
  abbrev pub floor_temperature : F → F
  floor_temperature t = if o.less t (o.of_bits 0x3C23D70A) then zero_f else t

  abbrev pub answer_stream : Result Error (Bool × Batch) → Response
  answer_stream (err e) = broken
  answer_stream (ok r) = events (frames env.sink_open (flush env r.1))

  abbrev pub answer_whole : List ℤ → Result Error (List ℤ × Caches F) → Response
  answer_whole prompt_tokens (err e) = refused unhandled
  answer_whole prompt_tokens (ok r) =
      completion (generated_text env prompt_tokens r.0) (length prompt_tokens) (length r.0)
        (last_is_zero r.0)

  -- From the tokens of the prompt on. `max_tokens` is sanitized.
  unfoldable pub complete : State F → Params F → ℕ → List ℤ → Response
  complete s p max_tokens prompt_tokens =
      let context = s.model.cfg.max_position_embeddings in
      let limit = within_context (context - length prompt_tokens) max_tokens in
      let temperature = floor_temperature p.temperature in
      if is_empty prompt_tokens
      then refused tokenization_failed
      else if ltb context (length prompt_tokens)
      then refused prompt_too_long
      else if p.stream
      then answer_stream (
          generate_stream s.model env.index prompt_tokens limit temperature env.draws
            (some (on_token env)) (record { waiting = []; written = [] }))
      else answer_whole prompt_tokens
          (generate s.model env.index prompt_tokens limit temperature env.draws)

  abbrev pub with_limit : State F → Params F → Option ℕ → Response
  with_limit s p none = refused bad_max_tokens
  with_limit s p (some max_tokens) = complete s p max_tokens (env.encode (prompt_of p.ask))

  -- From the parsed body on.
  unfoldable pub respond : State F → Parsed (Params F) → Response
  respond s not_json = refused invalid_json
  respond s wrong_type = refused bad_parameter
  respond s (fields p) =
      if asks_nothing p.ask
      then refused nothing_asked
      else with_limit s p (sanitize_max_tokens p.max_tokens)

  -- The slot is taken, the request answered and the slot given back, on every path.
  unfoldable pub admit : State F → Parsed (Params F) → State F × Response
  admit s parsed =
      let (admitted, reserved) = try_reserve_request s in
      if admitted
      then (release reserved, respond reserved parsed)
      else (s, refused service_unavailable)

  abbrev pub admit_loaded : Parsed (Params F) → State F × Option Refusal → State F × Response
  admit_loaded parsed (s, none) = admit s parsed
  admit_loaded parsed (s, some refusal) = (s, refused refusal)

  unfoldable pub handle : Request → Parsed (Params F) → State F → State F × Response
  handle req parsed s =
      let (allowed, shards) =
        rate_limit_allow env.same_addr env.hash req.now req.remote_addr s.shards in
      let counted = record s { shards = shards } in
      if check_api_key s.api_key req.authorization
      then (if allowed
          then admit_loaded parsed (ensure_loaded env counted)
          else (counted, refused rate_limited))
      else (s, refused unauthorized)
