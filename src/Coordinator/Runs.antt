-- ===== src/Coordinator/Runs.antt =====
-- Two workers with a layer each, and the theorems at them.
use terllama.Prelude.{
  ℕ, suc, ◌+◌, ◌%◌, ◌^◌, ◌≤◌, ◌<◌, ◌≡◌, refl, ap, ◌∙◌, ◌⊎◌, true, false, Option, none, some, List,
  [], ◌∷◌, ◌++◌, map, length, length-map, length-append, All, All-append, arith, ◌==◌,
}
use terllama.Prelude.Bytes.{IsU32, le_bytes, le_word, read_le, words_bytes, read_words}
use terllama.Prelude.Int.{pos}
use terllama.Prelude.Results.{ok, err}
use terllama.Protocol.{
  ShardSpec, input_token, pack_forward_request, unpack_forward_request, pack_forward_response,
  unpack_forward_response,
}
use terllama.Cluster.{
  Model, Kv, Shard, no_answer, run_layers, failure, handle_forward, run_shard, take_input,
  token_input, embed, answer,
}
use terllama.Cluster.Refused.{handle_forward-refused}
use terllama.Coordinator.{
  Workers, pipeline, post_forward, read_answer, generate, reset_all, run_request,
}
use terllama.Coordinator.Chain.{IsModel, IsShard, IsChain}
use terllama.Coordinator.Pipeline.{Gives, pipeline-Gives}
use terllama.Coordinator.Solo.{solo_generate}
use terllama.Coordinator.Generate.{generate-solo}
use terllama.Coordinator.Limits.{generate-length}

-- A block adds its layer's number and the number of earlier tokens; two tokens, one value a state.
abbrev shift : ℕ → ℕ → ℕ
shift k x = (x + k) % 2 ^ 32

abbrev toy : Model
toy = record {
  Cache = ℕ;
  no_cache = 0;
  hidden_size = 1;
  vocab_size = 2;
  embedding = λ t. t % 2 ^ 32 ∷ [];
  block = λ i p h c. (map (shift (i + c)) h, suc c);
  head = λ h. some (h ++ h);
  of_int = λ t. t % 2 ^ 32;
  to_int = λ f. pos f;
}

shift-IsU32 : (k : ℕ) (h : List ℕ) → All IsU32 (map (shift k) h)
shift-IsU32 k [] = tt
shift-IsU32 k (x ∷ h) = (omega arith, shift-IsU32 k h)

toy-IsModel : IsModel toy
toy-IsModel = record {
  hidden_fits = omega arith;
  block_keeps = λ i p h c good. (length-map (shift (i + c)) h ∙ good.0, shift-IsU32 (i + c) h);
  embedding_hidden = λ t small. (refl, (omega arith, tt));
  head_logits = λ h good.
      (h ++ h, refl, omega (arith, length-append h h, good.0), All-append IsU32 h h good.1 good.1);
  of_int_float = λ t. omega arith;
  to_int-of_int = λ t small. let same : t % 2 ^ 32 ≡ t = omega (arith, small) in ap pos same;
}

abbrev shard : ℕ → ShardSpec
shard i = record {
  device_rank = i;
  world_size = 2;
  start_layer = i;
  end_layer = suc i;
  n_layers = 2;
  is_first = i == 0;
  is_last = suc i == 2;
}

abbrev fresh : Kv toy
fresh = λ i. 0

abbrev two_workers : Workers toy
two_workers =
    record { up = true; loaded = some (record { spec = shard 0; kv = fresh }) }
    ∷ record { up = true; loaded = some (record { spec = shard 1; kv = fresh }) }
    ∷ []

shard-IsShard : (i : ℕ) → i < 2 → IsShard toy 2 i (shard i)
shard-IsShard i small = record {
  starts = refl;
  some_layers = omega arith;
  ends = omega arith;
  first = refl;
  last = refl;
}

two_workers-IsChain : IsChain toy 2 0 two_workers fresh
two_workers-IsChain = (
  record { spec = shard 0; kv = fresh },
  refl,
  refl,
  shard-IsShard 0 (omega arith),
  (λ j low high. refl),
  (
    record { spec = shard 1; kv = fresh },
    refl,
    refl,
    shard-IsShard 1 (omega arith),
    (λ j low high. refl),
    refl,
  ),
)

-- The second worker is down.
half_up : Workers toy
half_up = record { up = true; loaded = none } ∷ record { up = false; loaded = none } ∷ []

gives_up :
    (generate toy (λ logits recent. 1) (λ out. true) (pos 9) 8 (1 ∷ []) 3 [] half_up).1
    ≡ err (no_answer 1)
unfolding generate run_request reset_all half_up
gives_up = refl

pipeline-Gives_example :
    Gives toy toy-IsModel 2 0
      (run_layers toy 2 0 5 (1 ∷ []) fresh)
      (pipeline toy 0 5 input_token (1 ∷ []) two_workers)
pipeline-Gives_example =
    pipeline-Gives toy toy-IsModel 2 5 (omega arith) two_workers 1 fresh (omega arith) (omega arith)
      two_workers-IsChain

generate-solo_example :
    (workers' : Workers toy) × (generate toy
        (λ logits recent. 1)
        (λ out. true)
        (pos 9)
        8
        (0 ∷ 1 ∷ [])
        3
        []
        two_workers
      ≡ (
        workers',
        ok (solo_generate toy 2 (λ logits recent. 1) (λ out. true) (pos 9) 8 (0 ∷ 1 ∷ []) 3 []),
      ))
generate-solo_example =
    generate-solo toy toy-IsModel 2 (omega arith) (λ logits recent. 1) (λ out. true) (pos 9)
      (λ logits recent. omega arith) 8 3 (0 ∷ 1 ∷ []) [] two_workers fresh (omega arith)
      (omega arith, (omega arith, tt)) two_workers-IsChain

ran : (pipeline toy 0 5 input_token (1 ∷ []) two_workers).1 ≡ ok (2 ∷ 2 ∷ [])
unfolding pipeline post_forward read_answer handle_forward run_shard run_layers take_input
    token_input embed answer pack_forward_request unpack_forward_request pack_forward_response
    unpack_forward_response le_bytes le_word read_le words_bytes read_words
ran = refl

abbrev three_ones : List ℕ
three_ones = solo_generate toy 2 (λ logits recent. 1) (λ out. true) (pos 9) 8 (0 ∷ 1 ∷ []) 3 []

generated :
    (generate toy (λ logits recent. 1) (λ out. true) (pos 9) 8 (0 ∷ 1 ∷ []) 3 [] two_workers).1
    ≡ ok three_ones
generated =
    ap (λ r. r.1)
      (generate-solo toy toy-IsModel 2 (omega arith) (λ logits recent. 1) (λ out. true) (pos 9)
        (λ logits recent. omega arith) 8 3 (0 ∷ 1 ∷ []) [] two_workers fresh (omega arith)
        (omega arith, (omega arith, tt)) two_workers-IsChain).1

generate-length_example :
    (length three_ones ≤ 3) × ((length three_ones ≡ 0) ⊎ (2 + length three_ones ≤ 8))
generate-length_example =
    generate-length toy (λ logits recent. 1) (λ out. true) (pos 9) 8 3 (0 ∷ 1 ∷ []) [] two_workers
      three_ones generated

-- A token, which the second worker's shard does not take.
abbrev second : Option (Shard toy)
second = some (record { spec = shard 1; kv = fresh })

abbrev token_body : List ℕ
token_body =
    pack_forward_request (record { seq_pos = 0; input_kind = input_token; payload = 1 ∷ [] })

refused : (handle_forward toy second token_body).1 ≡ failure 400
unfolding handle_forward run_shard take_input pack_forward_request unpack_forward_request le_bytes
    le_word read_le words_bytes read_words
refused = refl

handle_forward-refused_example : (handle_forward toy second token_body).0 ≡ second
handle_forward-refused_example = handle_forward-refused toy second token_body refused
