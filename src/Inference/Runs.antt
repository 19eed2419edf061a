-- ===== src/Inference/Runs.antt =====
-- A small model over the numbers, and the theorems on inference at it.
use terllama.Prelude.{
  ◌++◌, ℕ, zero, suc, ◌+◌, ◌-◌, ◌*◌, ◌/◌, ◌≤◌, ◌<◌, ◌≡◌, refl, true, false, some, none, List, [],
  ◌∷◌, length, take, All, arith, ltb, inl, Bool, get_elem?,
}
use terllama.Prelude.Int.{ℤ, pos, negsuc, pos_part}
use terllama.Prelude.Results.{ok}
use terllama.Prelude.Gives.{Gives}
use terllama.Inference.{FloatOps, Layer, at}
use terllama.Inference.Kernels.Fit.{HasShape}
use terllama.Inference.Cache.{new_cache, get_k, get_v, cache_length}
use terllama.Inference.Cache.History.{append_all, append_all-kept, keys, values}
use terllama.Inference.Index.{
  IndexCache, index_from, find_layer_index, attn_names, mlp_names, layer_name, to_string, digits,
  cached_attn_idx, codes,
}
use terllama.Inference.Index.Lookup.{IsIndexOf, IsOwned, cached_attn_idx-eq}
use terllama.Inference.Block.{Model, projections}
use terllama.Inference.Block.Sound.{HasBlock, IsSound}
use terllama.Inference.Sampling.{sample_argmax}
use terllama.Inference.Sampling.Choice.{IsOrder, NotBelow, argmax-greatest}
use terllama.Inference.Generate.{generate, generate_stream}
use terllama.Inference.Generate.Total.{Stops, IsToken, IsAt, generate-Gives}
use terllama.Inference.Generate.Stream.{stream-IsPrefix, IsPrefix, watched}

instance abbrev pub counts : FloatOps ℕ
counts = record {
  add = λ a b. a + b;
  sub = λ a b. a - b;
  mul = λ a b. a * b;
  div = λ a b. a / b;
  neg = λ a. a;
  exp = λ a. a + 1;
  sqrt = λ a. a;
  less = λ a b. ltb a b;
  of_int = λ z. pos_part z;
  of_bits = λ n. n;
  ldexp = λ a e. a;
}

counts-IsOrder : IsOrder counts
counts-IsOrder = record { never = λ a. ground arith; trans = λ a b c p q. ground (arith, p, q) }

-- A layer of two by two raw weights.
abbrev pub raw_layer : List ℕ → List ℕ → Layer
raw_layer name weights = record {
  name = name;
  num_terms = 0;
  terms = [];
  typed = record {
    out_features = 2;
    in_features = 2;
    has_blocks = false;
    block_qk = 128;
    block_terms = [];
    term_cache_built = false;
    term_tables = [];
    has_raw_weights = true;
    raw_weights = weights;
  };
}

abbrev pub named : List ℕ → List ℕ → Layer
named suffix weights = raw_layer (codes "model.layers.0." ++ suffix) weights

abbrev pub some_layers : List Layer
some_layers =
    named (codes "self_attn.q_proj") (1 ∷ 0 ∷ 0 ∷ 1 ∷ [])
    ∷ named (codes "self_attn.k_proj") (1 ∷ 1 ∷ 0 ∷ 1 ∷ [])
    ∷ named (codes "self_attn.v_proj") (2 ∷ 0 ∷ 0 ∷ 1 ∷ [])
    ∷ named (codes "self_attn.o_proj") (1 ∷ 0 ∷ 3 ∷ 1 ∷ [])
    ∷ named (codes "mlp.gate_proj") (1 ∷ 0 ∷ 0 ∷ 1 ∷ [])
    ∷ named (codes "mlp.up_proj") (1 ∷ 0 ∷ 2 ∷ 1 ∷ [])
    ∷ named (codes "mlp.down_proj") (1 ∷ 0 ∷ 0 ∷ 5 ∷ [])
    ∷ []

abbrev pub some_model : Model ℕ
some_model = record {
  cfg = record {
    vocab_size = 3;
    hidden_size = 2;
    intermediate_size = 2;
    num_hidden_layers = 1;
    num_attention_heads = 1;
    num_key_value_heads = 1;
    head_dim = 2;
    max_position_embeddings = 4;
    rms_norm_eps = 1;
    eos_token_id = pos 2;
  };
  embedding = 1 ∷ 0 ∷ 0 ∷ 2 ∷ 1 ∷ 1 ∷ [];
  snapshot = 7;
  layers = some_layers;
  final_norm = 1 ∷ 1 ∷ [];
  layer_norms =
      record {
        input_layernorm = 1 ∷ 1 ∷ [];
        post_attention_layernorm = 1 ∷ 2 ∷ [];
        attn_sub_norm = [];
        ffn_sub_norm = [];
        q_norm = [];
        k_norm = 1 ∷ 1 ∷ [];
      }
      ∷ [];
  rope = record { sin = 0 ∷ 1 ∷ 0 ∷ 1 ∷ []; cos = 1 ∷ 0 ∷ 1 ∷ 0 ∷ [] };
  mote_layers = [];
}

abbrev pub no_index : IndexCache
no_index = record { owner = none; attn = []; mlp = [] }

shape : (name weights : List ℕ) → 4 ≤ length weights → HasShape 2 2 (raw_layer name weights)
shape name weights h = record {
  rows = refl;
  columns = refl;
  fits = inl (record { has_raw = refl; room = h });
}

some_block : HasBlock some_model 0
unfolding attn_names mlp_names find_layer_index index_from layer_name to_string digits projections
    at
some_block = record {
  index = record { q = 0; k = 1; v = 2; o = 3 };
  named = refl;
  shapes = record {
    value = record {
      q_proj = named (codes "self_attn.q_proj") (1 ∷ 0 ∷ 0 ∷ 1 ∷ []);
      k_proj = named (codes "self_attn.k_proj") (1 ∷ 1 ∷ 0 ∷ 1 ∷ []);
      v_proj = named (codes "self_attn.v_proj") (2 ∷ 0 ∷ 0 ∷ 1 ∷ []);
      o_proj = named (codes "self_attn.o_proj") (1 ∷ 0 ∷ 3 ∷ 1 ∷ []);
    };
    is = refl;
    holds = record {
      q_shape = shape _ _ (omega arith);
      k_shape = shape _ _ (omega arith);
      v_shape = shape _ _ (omega arith);
      o_shape = shape _ _ (omega arith);
    };
  };
  ffn = record {
    index = record { g = 4; u = 5; d = 6 };
    named = refl;
    gate = named (codes "mlp.gate_proj") (1 ∷ 0 ∷ 0 ∷ 1 ∷ []);
    up = named (codes "mlp.up_proj") (1 ∷ 0 ∷ 2 ∷ 1 ∷ []);
    down = named (codes "mlp.down_proj") (1 ∷ 0 ∷ 0 ∷ 5 ∷ []);
    gate_at = refl;
    up_at = refl;
    down_at = refl;
    gate_shape = shape _ _ (omega arith);
    up_shape = shape _ _ (omega arith);
    down_shape = shape _ _ (omega arith);
  };
}

all_blocks : (i : ℕ) → i < 1 → HasBlock some_model i
all_blocks zero h = some_block
all_blocks (suc i) h = absurd (omega arith)

no_head : index_from 0 some_layers terllama.ModelFile.lm_head ≡ none
unfolding index_from
no_head = refl

pub some_model-IsSound : IsSound some_model
some_model-IsSound = record {
  groups = record { some_heads = omega arith; some_kv_heads = omega arith; whole = refl };
  some_tokens = omega arith;
  embedding_room = omega arith;
  final_room = omega arith;
  norms_room = omega arith;
  norms = (
    record {
      input_room = omega arith;
      post_room = omega arith;
      attn_sub_room = inl refl;
      ffn_sub_room = inl refl;
    },
    tt,
  );
  angles = record { sines = omega arith; cosines = omega arith };
  blocks = all_blocks;
  head = λ i l e at. absurd (cc (e, no_head));
}

pub no_index-IsIndexOf : IsIndexOf 7 some_layers no_index
no_index-IsIndexOf = record {
  same = refl;
  attn_right = λ o j a at. absurd (cc at);
  mlp_right = λ o j a at. absurd (cc at);
}

abbrev pub prompt : List ℤ
prompt = pos 1 ∷ negsuc 3 ∷ []

abbrev pub draws : ℕ → ℕ
draws n = n

generate-Gives_example : Gives (generate some_model no_index prompt 9 1 draws) (λ r.
    Stops some_model some_model-IsSound 2 r.0
    × All (IsToken some_model some_model-IsSound) r.0
    × IsAt some_model some_model-IsSound (2 + length r.0) r.1)
generate-Gives_example =
    generate-Gives some_model some_model-IsSound no_index prompt 9 1 draws no_index-IsIndexOf

abbrev refuse_second : ℕ → ℤ → List ℕ → Bool × ℕ
refuse_second u t logits = (ltb u 1, u + 1)

stream-IsPrefix_example :
    IsPrefix some_model 1 draws refuse_second
      (generate_stream some_model no_index prompt 9 1 draws
        (some (watched some_model 1 draws refuse_second))
        (0, []))
      (generate-Gives some_model some_model-IsSound no_index prompt 9 1 draws
        no_index-IsIndexOf).value.0
stream-IsPrefix_example =
    stream-IsPrefix some_model 1 draws refuse_second no_index prompt 9 0
      (generate-Gives some_model some_model-IsSound no_index prompt 9 1 draws
        no_index-IsIndexOf).value
      (generate-Gives some_model some_model-IsSound no_index prompt 9 1 draws no_index-IsIndexOf).is

abbrev rows : List (List ℕ × List ℕ)
rows = (1 ∷ 2 ∷ [], 3 ∷ 4 ∷ []) ∷ (5 ∷ 6 ∷ [], 7 ∷ 8 ∷ []) ∷ []

append_all-kept_example :
    Gives (append_all (new_cache {F = ℕ} 3 2 1 2) 1 0 rows) (λ c.
      (get_k c 1 ≡ ok (keys rows)) × (get_v c 1 ≡ ok (values rows)) × (cache_length c 1 ≡ ok 2))
append_all-kept_example =
    append_all-kept 3 2 1 2 1 rows (omega arith) ((refl, refl), ((refl, refl), tt)) (omega arith)

cached_attn_idx-eq_example :
    IsOwned 7 some_layers (cached_attn_idx 7 some_layers 0 no_index).0
    × ((cached_attn_idx 7 some_layers 0 no_index).1 ≡ attn_names some_layers 0)
cached_attn_idx-eq_example = cached_attn_idx-eq 7 some_layers 0 no_index no_index-IsIndexOf

abbrev some_logits : List ℕ
some_logits = 3 ∷ 9 ∷ 9 ∷ 1 ∷ []

argmax-greatest_example : Gives (sample_argmax some_logits 3) (λ t.
    (t < 3)
    × (v : ℕ) × (get_elem? (take 3 some_logits) t ≡ some v)
    × All (NotBelow counts-IsOrder v) (take 3 some_logits))
argmax-greatest_example = argmax-greatest counts-IsOrder some_logits 3 (omega arith) (omega arith)
