-- ===== src/Cluster.antt =====
-- A model split over workers: handle_forward and handle_reset of distributed/worker.cpp, pipeline,
-- post_reset and generate of distributed/coordinator.cpp.
-- The network is the field `up` of a worker: a request to a worker that is not up gets no answer, and
-- another is answered by the worker's handler. The JSON text of an error's body is left out.
pub mod Layers
pub mod Refused
use terllama.Prelude.{
  ℕ, zero, suc, ◌-◌, Bool, ◌&&◌, Option, none, some, List, [], ◌∷◌, length, if◌then◌else◌, ltb,
  ◌==◌,
}
use terllama.Prelude.Int.{ℤ, pos, negsuc}
use terllama.Prelude.Results.{Result, ok, err}
use terllama.Protocol.{
  ShardSpec, ForwardRequest, unpack_forward_request, pack_forward_response, input_token,
  input_hidden,
}

-- The arithmetic of the model, on the 32-bit patterns of floats. `block` is transformer_block at a layer
-- and a position; it reads and writes that layer's part of the KV cache. `head` is the final norm with
-- the lm_head layer, `none` where that layer is missing. `of_int` and `to_int` are the conversions
-- between int and float.
pub record Model : Type 1 where
  pub Cache : Type 0
  pub no_cache : Cache
  pub hidden_size : ℕ
  pub vocab_size : ℕ
  pub embedding : ℕ → List ℕ
  pub block : ℕ → ℕ → List ℕ → Cache → List ℕ × Cache
  pub head : List ℕ → Option (List ℕ)
  pub of_int : ℕ → ℕ
  pub to_int : ℕ → ℤ

pub data Response : Type 0 where
  reply : List ℕ → Response
  failure : ℕ → Response

-- The coordinator's exceptions, with the worker's number.
pub data Error : Type 0 where
  no_answer : ℕ → Error
  bad_status : ℕ → ℕ → Error
  bad_response : ℕ → Error

module _ (M : Model) where
  -- The KV cache, layer by layer.
  abbrev pub Kv : Type 0
  Kv = ℕ → M.Cache

  abbrev pub update : Kv → ℕ → M.Cache → Kv
  update kv i cache j = if j == i then cache else kv j

  pub record Shard : Type 0 where
    pub spec : ShardSpec
    pub kv : Kv

  pub record ClusterWorker : Type 0 where
    pub up : Bool
    pub loaded : Option Shard

  -- `todo` layers from layer `i` on.
  unfoldable pub run_layers : ℕ → ℕ → ℕ → List ℕ → Kv → List ℕ × Kv
  run_layers zero i seq_pos hidden kv = (hidden, kv)
  run_layers (suc todo) i seq_pos hidden kv =
      let (hidden', cache) = M.block i seq_pos hidden (kv i) in
      run_layers todo (suc i) seq_pos hidden' (update kv i cache)

  unfoldable pub embed : ℤ → Option (List ℕ)
  embed (pos token) = if ltb token M.vocab_size then some (M.embedding token) else none
  embed (negsuc n) = none

  abbrev pub found_row : Option (List ℕ) → Result ℕ (List ℕ)
  found_row none = err 500
  found_row (some row) = ok row

  unfoldable pub token_input : List ℕ → Result ℕ (List ℕ)
  token_input [] = err 500
  token_input (t ∷ ts) = found_row (embed (M.to_int t))

  -- The hidden state that a request brings in, or the status of the refusal.
  unfoldable pub take_input : ShardSpec → ForwardRequest → Result ℕ (List ℕ)
  take_input spec r =
      if spec.is_first && (r.input_kind == input_token)
      then token_input r.payload
      else if r.input_kind == input_hidden
      then (if length r.payload == M.hidden_size then ok r.payload else err 500)
      else err 400

  -- The answer to a hidden state: logits from the last shard.
  unfoldable pub answer : ShardSpec → List ℕ → Response
  answer spec hidden =
      if spec.is_last
      then elim (M.head hidden) [
        | none ↦ failure 500
        | some logits ↦ reply (pack_forward_response logits)
      ]
      else reply (pack_forward_response hidden)

  unfoldable pub run_shard : Shard → ForwardRequest → Shard × Response
  run_shard m r = elim (take_input m.spec r) [
    | err status ↦ (m, failure status)
    | ok hidden ↦
        let (hidden', kv') =
          run_layers (m.spec.end_layer - m.spec.start_layer) m.spec.start_layer r.seq_pos hidden
            m.kv in
        (record { spec = m.spec; kv = kv' }, answer m.spec hidden')
  ]

  unfoldable pub handle_forward : Option Shard → List ℕ → Option Shard × Response
  handle_forward loaded body = elim (unpack_forward_request body) [
    | none ↦ (loaded, failure 400)
    | some r ↦ elim loaded [
      | none ↦ (none, failure 500)
      | some m ↦ let (m', response) = run_shard m r in (some m', response)
    ]
  ]

  unfoldable pub handle_reset : Option Shard → Option Shard
  handle_reset none = none
  handle_reset (some m) = some (record { spec = m.spec; kv = λ i. M.no_cache })
