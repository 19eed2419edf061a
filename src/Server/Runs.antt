-- ===== src/Server/Runs.antt =====
-- The theorems on the handlers at a small model.
use terllama.Prelude.{
  ℕ, ◌+◌, ◌*◌, ◌≤◌, ◌≡◌, refl, ap, ◌⊎◌, true, false, none, List, [], ◌∷◌, length, arith, ◌==◌, map,
  All,
}
use terllama.RateLimit.{rate_limit_allow, shard_allow, expire, find, put, bound_memory}
use terllama.Prelude.Int.{ℤ, pos, negsuc, pos_part}
use terllama.Prelude.Gives.{Gives}
use terllama.Inference.Generate.{generate}
use terllama.Inference.Generate.Total.{Stops, IsToken, IsAt, generate-Gives}
use terllama.Inference.Index.{codes}
use terllama.Inference.Runs.{
  counts, some_model, no_index, prompt, draws, some_model-IsSound, no_index-IsIndexOf,
}
use terllama.Server.{
  check_api_key, sanitize_max_tokens, ensure_loaded, release, Env, State, Params, fields, text,
  Request, completion, events, try_reserve_request, get_model_size_bytes, get_kv_cache_size_bytes,
}
use terllama.Server.Respond.{
  respond, admit, answer_whole, complete, handle, frames, floor_temperature, generated_text,
  last_is_zero,
}
use terllama.Server.Admission.{
  counted_bytes, Reach, here, next, reserve, Reach-IsWithin, with_active, cache_bytes,
}
use terllama.Server.Batches.{Batched}
use terllama.Server.Batches.Stream.{stream-whole}
use terllama.Server.Outcomes.{Counts}
use terllama.Server.Outcomes.Handled.{IsServed, handle-IsServed, handle-active}

abbrev pub letters : List ℤ → List ℕ
letters tokens = map (λ t. 65 + pos_part t) tokens

abbrev pub some_env : Env ℕ
some_env = record {
  same_addr = λ a b. a == b;
  hash = λ a. a;
  load_model = none;
  encode = λ t. prompt;
  native_decode = letters;
  giga_decode = letters;
  index = no_index;
  draws = draws;
  interrupted = false;
  sink_open = true;
}

abbrev some_state : State ℕ
some_state = record {
  api_key = codes "key";
  shards = λ i. [];
  loaded = true;
  has_dir = true;
  model = some_model;
  file_sizes = [];
  memory_limit = 100000;
  active_requests = 0;
}

abbrev some_params : Params ℕ
some_params = record {
  stream = false;
  temperature = 1;
  max_tokens = pos 9;
  ask = text (codes "on");
}

abbrev some_request : Request
some_request = record { remote_addr = 5; now = 7; authorization = codes "Bearer key" }

abbrev made :
    Gives (generate some_model no_index prompt 2 (floor_temperature some_env 1) draws) (λ r.
      Stops some_model some_model-IsSound 2 r.0
      × All (IsToken some_model some_model-IsSound) r.0
      × IsAt some_model some_model-IsSound (2 + length r.0) r.1)
made =
    generate-Gives some_model some_model-IsSound no_index prompt 2 (floor_temperature some_env 1)
      draws no_index-IsIndexOf

stream-whole_example :
    (complete some_env some_state (record some_params { stream = false }) 9 prompt
      ≡ completion
          (generated_text some_env prompt made.value.0)
          2
          (length made.value.0)
          (last_is_zero made.value.0))
    × (written : List (List ℕ)) × (complete some_env some_state
          (record some_params { stream = true })
          9
          prompt
        ≡ events (frames true written))
    × Batched some_env made.value.0 written
stream-whole_example =
    stream-whole some_env some_state some_params 9 (pos 1) (negsuc 3 ∷ []) made.value refl refl
      (omega arith) made.is

handle-active_example :
    (handle some_env some_request (fields some_params) some_state).0.active_requests ≡ 0
handle-active_example = handle-active some_env some_request (fields some_params) some_state

served :
    Counts (handle some_env some_request (fields some_params) some_state).1 2 (length made.value.0)
unfolding handle check_api_key rate_limit_allow shard_allow expire find put bound_memory admit
    try_reserve_request get_model_size_bytes get_kv_cache_size_bytes respond sanitize_max_tokens
    complete ensure_loaded release
served = record {
  written = generated_text some_env prompt made.value.0;
  stopped = last_is_zero made.value.0;
  is = ap (answer_whole some_env prompt) made.is;
}

handle-IsServed_example :
    IsServed some_env some_request
      (fields some_params)
      some_state
      (handle some_env some_request (fields some_params) some_state).0
      2
      (length made.value.0)
handle-IsServed_example =
    handle-IsServed some_env some_request (fields some_params) some_state 2 (length made.value.0)
      served

one_taken : Reach some_state (with_active some_state 1)
unfolding try_reserve_request get_model_size_bytes get_kv_cache_size_bytes
one_taken = next here (reserve refl)

Reach-IsWithin_example :
    ((with_active some_state 1).active_requests ≡ 0)
    ⊎ (counted_bytes some_model + 1 * cache_bytes (with_active some_state 1) ≤ 100000)
Reach-IsWithin_example =
    Reach-IsWithin some_state (with_active some_state 1) (omega arith) refl refl one_taken
