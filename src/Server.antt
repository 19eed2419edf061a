-- ===== src/Server.antt =====
-- The HTTP handlers of the server: src/server/handlers.cpp, handle_chat_completions and handle_completions
-- with what they call, over a request's life from its arrival to the release of its slot. JSON is the
-- library nlohmann, encoding the library gigatoken: what they make of a body or a text is an argument, and
-- so are the files that init_server of src/server.cpp would load. The log, the headers and the time of the
-- last request, which the keep-alive watchdog reads, are left out; size_t sums are exact.
pub mod Respond
pub mod Admission
pub mod Outcomes
pub mod Batches
pub mod Runs
use terllama.Prelude.{
  ℕ, zero, suc, ◌+◌, ◌-◌, ◌*◌, Bool, true, false, not, ◌&&◌, Option, none, some, List, [], ◌∷◌,
  ◌++◌, length, drop, take, if◌then◌else◌, ltb, max,
}
use terllama.Prelude.Int.{ℤ, pos, negsuc}
use terllama.ModelFile.{same_name}
use terllama.RateLimit.{Shards}
use terllama.Inference.{Layer, NormWeights}
use terllama.Inference.Index.{IndexCache, codes}
use terllama.Inference.Block.{Model}

-- Why a request is refused, with the status of each below. `unhandled` is an exception that cpp-httplib
-- catches.
pub data Refusal : Type 0 where
  unauthorized rate_limited model_load_failed model_not_loaded service_unavailable invalid_json
        bad_parameter nothing_asked bad_max_tokens tokenization_failed prompt_too_long unhandled :
      Refusal

unfoldable pub status : Refusal → ℕ
status unauthorized = 401
status rate_limited = 429
status model_load_failed = 500
status model_not_loaded = 503
status service_unavailable = 503
status invalid_json = 400
status bad_parameter = 500
status nothing_asked = 400
status bad_max_tokens = 400
status tokenization_failed = 500
status prompt_too_long = 400
status unhandled = 500

-- Frames of a stream; the last one says that it is done.
pub data Event : Type 0 where
  chunk : List ℕ → Event
  done : Event

-- A refusal; a text with the numbers of tokens of the prompt and of the text, and whether it ended with
-- token 0; the frames of a stream; or a stream that an exception broke off.
pub data Response : Type 0 where
  refused : Refusal → Response
  completion : List ℕ → ℕ → ℕ → Bool → Response
  events : List Event → Response
  broken : Response

pub record Message : Type 0 where
  pub role : List ℕ
  pub content : List ℕ

-- The messages of a chat, or a text to go on with.
pub data Ask : Type 0 where
  chat : List Message → Ask
  text : List ℕ → Ask

-- The fields of a body, once their types were right.
pub record Params (F : Type 0) : Type 0 where
  pub stream : Bool
  pub temperature : F
  pub max_tokens : ℤ
  pub ask : Ask

-- What nlohmann::json makes of a body: no JSON, a field of a wrong type, or the fields.
pub data Parsed (A : Type 0) : Type 0 where
  not_json : Parsed A
  wrong_type : Parsed A
  fields : A → Parsed A

pub record Request : Type 0 where
  pub remote_addr : ℕ
  pub now : ℕ
  pub authorization : List ℕ

pub record State (F : Type 0) : Type 0 where
  pub api_key : List ℕ
  pub shards : ℕ → List (ℕ × List ℕ)
  pub loaded : Bool
  pub has_dir : Bool
  pub model : Model F
  pub file_sizes : List ℕ
  pub memory_limit : ℕ
  pub active_requests : ℕ

-- What the server is given by libraries and by the system. The flag of an interruption and the client's
-- connection do not change during one request.
pub record Env (F : Type 0) : Type 0 where
  pub same_addr : ℕ → ℕ → Bool
  pub hash : ℕ → ℕ
  pub load_model : Option (Model F)
  pub encode : List ℕ → List ℤ
  pub native_decode : List ℤ → List ℕ
  pub giga_decode : List ℤ → List ℕ
  pub index : IndexCache
  pub draws : ℕ → F
  pub interrupted : Bool
  pub sink_open : Bool

abbrev pub is_empty : {A : Type 0} → List A → Bool
is_empty [] = true
is_empty (x ∷ xs) = false

unfoldable pub check_api_key : List ℕ → List ℕ → Bool
check_api_key api_key auth =
    if is_empty api_key
    then true
    else ltb 7 (length auth)
      && (same_name (take 7 auth) (codes "Bearer ") && same_name (drop 7 auth) api_key)

-- Messages with no role are dropped when they are read.
abbrev pub roles_only : List Message → List Message
roles_only [] = []
roles_only (m ∷ messages) =
    let rest = roles_only messages in if is_empty m.role then rest else m ∷ rest

-- The loop of build_chat_prompt.
unfoldable pub chat_prompt : List Message → Bool → List ℕ → List ℕ
chat_prompt [] first_user prompt = prompt
chat_prompt (m ∷ messages) first_user prompt =
    let user = same_name m.role (codes "user") in
    let tagged = codes "[INST] " ++ (m.content ++ codes " [/INST]") in
    chat_prompt messages
      (if same_name m.role (codes "system") then first_user else if user then false else first_user)
      (if same_name m.role (codes "system")
        then codes "[INST] " ++ (m.content ++ (codes " [/INST]" ++ (10 ∷ prompt)))
        else if user
        then (if first_user then prompt else prompt ++ codes " ") ++ tagged
        else if same_name m.role (codes "assistant")
        then prompt ++ (codes " " ++ m.content)
        else prompt)

unfoldable pub build_chat_prompt : List Message → List ℕ
build_chat_prompt messages = chat_prompt messages true []

abbrev pub asks_nothing : Ask → Bool
asks_nothing (chat messages) = is_empty (roles_only messages)
asks_nothing (text prompt) = is_empty prompt

unfoldable pub prompt_of : Ask → List ℕ
prompt_of (chat messages) = build_chat_prompt (roles_only messages)
prompt_of (text prompt) = prompt

-- The answer `?`, of a vocabulary that cannot be decoded natively, counts as none.
unfoldable pub decode_with_fallback : {F : Type 0} → Env F → List ℤ → List ℕ
decode_with_fallback env tokens =
    let native = env.native_decode tokens in
    if not (is_empty native) && not (same_name native (63 ∷ []))
    then native
    else env.giga_decode tokens

abbrev pub max_tokens_ceiling : ℕ
max_tokens_ceiling = 4096

unfoldable pub sanitize_max_tokens : ℤ → Option ℕ
sanitize_max_tokens (negsuc n) = none
sanitize_max_tokens (pos zero) = none
sanitize_max_tokens (pos (suc n)) =
    some (if ltb max_tokens_ceiling (suc n) then max_tokens_ceiling else suc n)

-- No more tokens than the context has left, but one at least.
abbrev pub within_context : ℕ → ℕ → ℕ
within_context budget max_tokens = if ltb budget max_tokens then max 1 budget else max_tokens

unfoldable pub file_total : List ℕ → ℕ
file_total [] = 0
file_total (n ∷ ns) = n + file_total ns

unfoldable pub get_kv_cache_size_bytes : {F : Type 0} → State F → ℕ
get_kv_cache_size_bytes s =
    let cfg = s.model.cfg in
    if s.loaded
    then cfg.num_hidden_layers * cfg.max_position_embeddings * cfg.num_key_value_heads
      * cfg.head_dim * 4 * 2
    else 128 * 1024 * 1024

abbrev pub sum_by : {A : Type 0} → (A → ℕ) → List A → ℕ
sum_by f [] = 0
sum_by f (x ∷ xs) = f x + sum_by f xs

abbrev pub layer_bytes : Layer → ℕ
layer_bytes l =
    length l.typed.raw_weights * 4
    + sum_by (λ t. length t.combined * 4) l.terms
    + sum_by (λ blocks. sum_by (λ b. length b.packed) blocks) l.typed.block_terms

abbrev pub norm_bytes : {F : Type 0} → NormWeights F → ℕ
norm_bytes w = length w.input_layernorm * 4 + length w.post_attention_layernorm * 4

unfoldable pub get_model_size_bytes : {F : Type 0} → State F → ℕ
get_model_size_bytes s =
    let m = s.model in
    if s.loaded
    then length m.embedding * 4
      + length m.final_norm * 4
      + sum_by (λ w. norm_bytes w) m.layer_norms
      + sum_by layer_bytes m.layers
      + length m.rope.sin * 4
      + length m.rope.cos * 4
    else if s.has_dir
    then file_total s.file_sizes
    else 0

-- The check against the memory limit and the reservation are one step under a mutex.
unfoldable pub try_reserve_request : {F : Type 0} → State F → Bool × State F
try_reserve_request s =
    let projected = get_model_size_bytes s + (s.active_requests + 1) * get_kv_cache_size_bytes s in
    if ltb 0 s.memory_limit && ltb s.memory_limit projected
    then (false, s)
    else (true, record s { active_requests = s.active_requests + 1 })

-- The destructor of RequestGuard.
unfoldable pub release : {F : Type 0} → State F → State F
release s = record s { active_requests = s.active_requests - 1 }

-- A model that the watchdog unloaded is loaded again.
unfoldable pub ensure_loaded : {F : Type 0} → Env F → State F → State F × Option Refusal
ensure_loaded env s =
    if s.loaded
    then (s, none)
    else if s.has_dir
    then elim env.load_model [
      | none ↦ (s, some model_load_failed)
      | some m ↦ (record s { loaded = true; model = m }, none)
    ]
    else (s, some model_not_loaded)
