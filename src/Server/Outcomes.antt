-- ===== src/Server/Outcomes.antt =====
-- What a completion says about the request and the server (handle_chat_completions and handle_completions of
-- src/server/handlers.cpp).
pub mod Loading
pub mod Handled
use terllama.Prelude.{
  ℕ, zero, suc, ◌+◌, ◌-◌, ◌≤◌, ◌<◌, ◌≡◌, ◌≢◌, refl, sym, ◌∙◌, ap, Bool, true, false, Option, none,
  some, List, [], ◌∷◌, length, arith, ltb, if◌then◌else◌, max,
}
use terllama.Prelude.Int.{ℤ, pos, negsuc}
use terllama.Prelude.Results.{Result, ok, err}
use terllama.Inference.{FloatOps, Error}
use terllama.Inference.Block.{Caches}
use terllama.Inference.Generate.{generate, generate_stream}
use terllama.Inference.Generate.Bound.{generate-length}
use terllama.Server.{
  Env, State, Params, Response, refused, completion, events, broken, Refusal, bad_max_tokens,
  invalid_json, bad_parameter, Parsed, fields, not_json, wrong_type, asks_nothing, prompt_of,
  within_context, is_empty, sanitize_max_tokens, max_tokens_ceiling,
}
use terllama.Server.Respond.{
  Batch, on_token, flush, complete, with_limit, respond, floor_temperature, answer_stream,
  answer_whole,
}

-- A completion with the numbers of tokens of the prompt and of the text.
pub record Counts (r : Response) (n k : ℕ) : Type 0 where
  pub written : List ℕ
  pub stopped : Bool
  pub is : r ≡ completion written n k stopped

pub not_refused : (refusal : Refusal) (n k : ℕ) {P : Type 0} → Counts (refused refusal) n k → P
not_refused refusal n k h = absurd (cc h.is)

pub past_guard :
    (c : Bool) (refusal : Refusal) (r : Response) (n k : ℕ)
    → Counts (if c then refused refusal else r) n k
    → Counts r n k × (c ≡ false)
past_guard true refusal r n k h = not_refused refusal n k h
past_guard false refusal r n k h = (h, refl)

module _ {F : Type 0} where
  -- What a completion says once the tokens of the prompt are known.
  pub record IsCounted (context : ℕ) (p : Params F) (max_tokens n k : ℕ) : Type 0 where
    pub not_stream : p.stream ≡ false
    pub some_prompt : 0 < n
    pub prompt_fits : n ≤ context
    pub few : k ≤ max_tokens
    pub room : k ≤ max 1 (context - n)

  -- What it says of the body.
  pub record IsAsked (context : ℕ) (parsed : Parsed (Params F)) (n k : ℕ) : Type 0 where
    pub params : Params F
    pub parsed_right : parsed ≡ fields params
    pub asked : asks_nothing params.ask ≡ false
    pub wanted : ℕ
    pub max_tokens_is : params.max_tokens ≡ pos wanted
    pub capped : k ≤ max_tokens_ceiling
    pub counted : IsCounted context params wanted n k

module _ {F : Type 0} ⦃o : FloatOps F⦄ (env : Env F) where
  not_streamed :
      (c : Bool) (a : Result Error (Bool × Batch)) (r : Response) (n k : ℕ)
      → Counts (if c then answer_stream env a else r) n k
      → Counts r n k × (c ≡ false)
  not_streamed true (ok a) r n k h = absurd (cc h.is)
  not_streamed true (err e) r n k h = absurd (cc h.is)
  not_streamed false a r n k h = (h, refl)

  whole_lem :
      (prompt : List ℤ) (a : Result Error (List ℤ × Caches F)) (n k : ℕ)
      → Counts (answer_whole env prompt a) n k
      → (r : List ℤ × Caches F) × (a ≡ ok r) × (n ≡ length prompt) × (k ≡ length r.0)
  whole_lem prompt (ok r) n k h = (r, refl, cc h.is, cc h.is)
  whole_lem prompt (err e) n k h = absurd (cc h.is)

  some_length : (prompt : List ℤ) → is_empty prompt ≡ false → 0 < length prompt
  some_length [] e = absurd (cc e)
  some_length (t ∷ prompt) e = omega arith

  complete-IsCounted :
      (s : State F) (p : Params F) (max_tokens : ℕ) (prompt : List ℤ) (n k : ℕ)
      → 0 < max_tokens
      → Counts (complete env s p max_tokens prompt) n k
      → IsCounted s.model.cfg.max_position_embeddings p max_tokens n k
  unfolding complete
  complete-IsCounted s p max_tokens prompt n k some_tokens h =
      let context = s.model.cfg.max_position_embeddings in
      let limit = within_context (context - length prompt) max_tokens in
      let (h1, not_empty) = past_guard (is_empty prompt) _ _ n k h in
      let (h2, short) = past_guard (ltb context (length prompt)) _ _ n k h1 in
      let (h3, whole) = not_streamed p.stream _ _ n k h2 in
      let (r, got, n_is, k_is) = whole_lem prompt _ n k h3 in
      let at_most : length r.0 ≤ limit =
        generate-length s.model (floor_temperature env p.temperature) env.draws env.index prompt
          limit r got in
      let some_prompt = some_length prompt not_empty in
      record {
        not_stream = whole;
        some_prompt = omega (arith, n_is, some_prompt);
        prompt_fits = ground (arith, n_is, short);
        few = ground (arith, k_is, at_most, some_tokens);
        room = ground (arith, n_is, k_is, at_most);
      }

  sanitized :
      (z : ℤ) (limit : ℕ)
      → sanitize_max_tokens z ≡ some limit
      → (wanted : ℕ) × (z ≡ pos wanted)
        × (0 < limit)
        × (limit ≤ wanted)
        × (limit ≤ max_tokens_ceiling)
  unfolding sanitize_max_tokens
  sanitized (negsuc n) limit h = absurd (cc h)
  sanitized (pos zero) limit h = absurd (cc h)
  sanitized (pos (suc n)) limit h =
      let same : (if ltb max_tokens_ceiling (suc n) then max_tokens_ceiling else suc n) ≡ limit =
        cc h in
      (suc n, refl, ground (arith, same), ground (arith, same), ground (arith, same))

  with_limit-IsCounted :
      (s : State F) (p : Params F) (limit : Option ℕ) (n k : ℕ)
      → Counts (with_limit env s p limit) n k
      → (max_tokens : ℕ) × (limit ≡ some max_tokens)
        × (0 < max_tokens → IsCounted s.model.cfg.max_position_embeddings p max_tokens n k)
  with_limit-IsCounted s p none n k h = not_refused bad_max_tokens n k h
  with_limit-IsCounted s p (some limit) n k h = (
    limit,
    refl,
    λ some_tokens. complete-IsCounted s p limit (env.encode (prompt_of p.ask)) n k some_tokens h,
  )

  pub respond-IsAsked :
      (s : State F) (parsed : Parsed (Params F)) (n k : ℕ)
      → Counts (respond env s parsed) n k
      → IsAsked s.model.cfg.max_position_embeddings parsed n k
  unfolding respond
  respond-IsAsked s not_json n k h = not_refused invalid_json n k h
  respond-IsAsked s wrong_type n k h = not_refused bad_parameter n k h
  respond-IsAsked s (fields p) n k h =
      let (h1, asked) = past_guard (asks_nothing p.ask) _ _ n k h in
      let (limit, limit_is, counted) =
        with_limit-IsCounted s p (sanitize_max_tokens p.max_tokens) n k h1 in
      let (wanted, wanted_is, some_tokens, at_most, below) =
        sanitized p.max_tokens limit limit_is in
      let c = counted some_tokens in
      record {
        params = p;
        parsed_right = refl;
        asked = asked;
        wanted = wanted;
        max_tokens_is = wanted_is;
        capped = omega (arith, below, c.few);
        counted = record {
          not_stream = c.not_stream;
          some_prompt = c.some_prompt;
          prompt_fits = c.prompt_fits;
          few = omega (arith, at_most, c.few);
          room = c.room;
        };
      }
