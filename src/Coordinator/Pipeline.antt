-- ===== src/Coordinator/Pipeline.antt =====
-- A pipeline of workers computes what one machine with all layers computes (pipeline of
-- distributed/coordinator.cpp).
use mathlib.Core.Path.{subst}
use terllama.Prelude.{
  ℕ, suc, ◌+◌, ◌-◌, ◌^◌, ◌≤◌, ◌<◌, ◌≡◌, inl, inr, ◌⊎◌, refl, sym, ap, ◌∙◌, true, false, some, List,
  [], ◌∷◌, length, All, arith, ltb, ◌==◌, ==_iff,
}
use terllama.Prelude.Bytes.{IsU32}
use terllama.Prelude.Results.{Result, ok}
use terllama.Protocol.{ShardSpec, pack_forward_response, input_token, input_hidden}
use terllama.Cluster.{
  Model, Kv, Shard, ClusterWorker, reply, Error, run_layers, embed, found_row, token_input,
  take_input, answer,
}
use terllama.Cluster.Layers.{
  IsHidden, run_layers-IsHidden, run_layers-Agree, run_layers-outside, run_layers-split,
}
use terllama.Coordinator.{Workers, pipeline}
use terllama.Coordinator.Chain.{
  IsModel, IsShard, IsChain, IsChain-cache, posted, later_input, pipeline_step,
}

unequal : (a b : ℕ) → (a < b) ⊎ (b < a) → (a == b) ≡ false
unequal a b h = ground arith

module _ (M : Model) (laws : IsModel M) where
  -- What the pipeline gives: the logits that the last layer gives for the hidden state `run.0`, and
  -- workers that hold the caches `run.1`.
  abbrev pub Gives : ℕ → ℕ → List ℕ × Kv M → Workers M × Result Error (List ℕ) → Type 0
  Gives n start run result =
      (workers : Workers M) × (logits : List ℕ) × (M.head run.0 ≡ some logits)
      × (result ≡ (workers, ok logits))
      × IsChain M n start workers run.1

  last_answer :
      (spec : ShardSpec) (h logits : List ℕ)
      → spec.is_last ≡ true
      → M.head h ≡ some logits
      → answer M spec h ≡ reply (pack_forward_response logits)
  unfolding answer
  last_answer spec h logits last given = rw (answer, last, given) refl

  middle_answer :
      (spec : ShardSpec) (h : List ℕ)
      → spec.is_last ≡ false
      → answer M spec h ≡ reply (pack_forward_response h)
  unfolding answer
  middle_answer spec h middle = rw (answer, middle) refl

  module _ (n p : ℕ) (hp : IsU32 p) where
    -- What a worker with shard `m` becomes.
    abbrev turned : ℕ → List ℕ → Shard M → ClusterWorker M
    turned start hidden m = record {
      up = true;
      loaded = some (record {
        spec = m.spec;
        kv = (run_layers M (m.spec.end_layer - start) start p hidden m.kv).1;
      });
    }

    -- The whole run, cut where a shard ends.
    cut :
        (start end_layer : ℕ) (hidden : List ℕ) (g : Kv M)
        → start ≤ end_layer
        → end_layer ≤ n
        → run_layers M (n - start) start p hidden g
          ≡ run_layers M
              (n - end_layer)
              end_layer
              p
              (run_layers M (end_layer - start) start p hidden g).0
              (run_layers M (end_layer - start) start p hidden g).1
    cut start end_layer hidden g low high =
        let count : n - start ≡ (end_layer - start) + (n - end_layer) = omega arith in
        let next : start + (end_layer - start) ≡ end_layer = omega arith in
        let run = run_layers M (end_layer - start) start p hidden g in
        ap (λ k. run_layers M k start p hidden g) count
        ∙ run_layers-split M (end_layer - start) (n - end_layer) start p hidden g
        ∙ ap (λ k. run_layers M (n - end_layer) k p run.0 run.1) next

    -- Workers that hold the layers of a chain, started with an input that the first of them takes, give
    -- what the layers give when they run one after the other on one machine, and are left with its caches.
    pub chain_run :
        (workers : Workers M) (c : ClusterWorker M) (w start kind : ℕ) (cur hidden : List ℕ)
        (g : Kv M)
        → IsU32 kind
        → All IsU32 cur
        → length cur < 2 ^ 32
        → IsHidden M hidden
        → IsChain M n start (c ∷ workers) g
        → ((spec : ShardSpec)
            → IsShard M n start spec
            → take_input M spec (record { seq_pos = p; input_kind = kind; payload = cur })
              ≡ ok hidden)
        → Gives n start
            (run_layers M (n - start) start p hidden g)
            (pipeline M w p kind cur (c ∷ workers))
    unfolding pipeline
    chain_run [] c w start kind cur hidden g hk hc hl good (m, up, loaded, s, same, e) takes =
        let stop = m.spec.end_layer in
        let mine = run_layers M (stop - start) start p hidden m.kv in
        let (hidden_same, caches_same) =
          run_layers-Agree M (stop - start) start p hidden m.kv g same in
        let to_end : run_layers M (stop - start) start p hidden g
            ≡ run_layers M (n - start) start p hidden g =
          ap (λ k. run_layers M (k - start) start p hidden g) e in
        let fine = run_layers-IsHidden M laws.block_keeps (stop - start) start p hidden m.kv good in
        let (logits, given, short, floats) = laws.head_logits mine.0 fine in
        let last : m.spec.is_last ≡ true = s.last ∙ (==_iff stop n).1 e in
        (
          (turned start hidden m ∷ []),
          logits,
          ap (λ r. M.head r.0) (sym to_end) ∙ ap M.head (sym hidden_same) ∙ given,
          pipeline_step M laws w p kind cur logits c (turned start hidden m) [] (
              posted M laws w p kind start cur hidden logits c m up loaded s.starts hp hk hc hl
                (takes m.spec s) (last_answer m.spec mine.0 logits last given) floats short),
          (
            record { spec = m.spec; kv = mine.1 },
            refl,
            refl,
            s,
            (λ j low high. caches_same j low high ∙ ap (λ r. r.1 j) to_end),
            e,
          ),
        )
    chain_run (c₂ ∷ workers) c w start kind cur hidden g hk hc hl good
          (m, up, loaded, s, same, rest) takes =
        let stop = m.spec.end_layer in
        let mine = run_layers M (stop - start) start p hidden m.kv in
        let one = run_layers M (stop - start) start p hidden g in
        let (hidden_same, caches_same) =
          run_layers-Agree M (stop - start) start p hidden m.kv g same in
        let fine = run_layers-IsHidden M laws.block_keeps (stop - start) start p hidden m.kv good in
        let (m₂, up₂, loaded₂, s₂, same₂, rest₂) = rest in
        let middle : m.spec.is_last ≡ false =
          s.last ∙ unequal stop n (inl (omega (arith, s₂.some_layers, s₂.ends))) in
        let kept : (j : ℕ) → stop ≤ j → g j ≡ one.1 j = λ j low. sym (
          run_layers-outside M (stop - start) start p j hidden g
            (inr (omega (arith, low, s.some_layers)))) in
        let (workers', logits, given, result, chain) =
          chain_run workers c₂ (suc w) stop input_hidden mine.0 mine.0 one.1 (omega arith) fine.1
            (omega (arith, fine.0, laws.hidden_fits)) fine
            (IsChain-cache M n stop (c₂ ∷ workers) g one.1 kept rest)
            (λ spec t.
              later_input M laws spec p mine.0
                (t.first ∙ unequal stop 0 (inr (omega (arith, s.some_layers)))) fine.0) in
        let joined : run_layers M (n - stop) stop p mine.0 one.1
            ≡ run_layers M (n - start) start p hidden g =
          ap (λ h. run_layers M (n - stop) stop p h one.1) hidden_same
          ∙ sym (cut start stop hidden g (omega (arith, s.some_layers)) s.ends) in
        let step =
          pipeline_step M laws w p kind cur mine.0 c (turned start hidden m) (c₂ ∷ workers) (
            posted M laws w p kind start cur hidden mine.0 c m up loaded s.starts hp hk hc hl
              (takes m.spec s) (middle_answer m.spec mine.0 middle) fine.1
              (omega (arith, fine.0, laws.hidden_fits))) in
        (
          (turned start hidden m ∷ workers'),
          logits,
          ap (λ r. M.head r.0) (sym joined) ∙ given,
          step ∙ ap (λ r. (turned start hidden m ∷ r.0, r.1)) result,
          (
            record { spec = m.spec; kv = mine.1 },
            refl,
            refl,
            s,
            (λ j low high.
                caches_same j low high
                ∙ sym (
                    run_layers-outside M (n - stop) stop p j mine.0 one.1
                      (inl (omega (arith, low, high, s.some_layers))))
                ∙ ap (λ r. r.1 j) joined),
            subst (λ r. IsChain M n stop workers' r.1) joined chain,
          ),
        )

    embed_token :
        (token : ℕ)
        → token < M.vocab_size
        → embed M (M.to_int (M.of_int token)) ≡ some (M.embedding token)
    unfolding embed
    embed_token token small =
        let known : ltb token M.vocab_size ≡ true = ground arith in
        ap (embed M) (laws.to_int-of_int token small) ∙ rw known refl

    first_input :
        (spec : ShardSpec) (token : ℕ)
        → token < M.vocab_size
        → IsShard M n 0 spec
        → take_input M spec
            (record { seq_pos = p; input_kind = input_token; payload = M.of_int token ∷ [] })
          ≡ ok (M.embedding token)
    unfolding take_input token_input
    first_input spec token small s =
        let first : spec.is_first ≡ true = s.first in
        rw (take_input, first) (ap (found_row M) (embed_token token small))

    -- A pipeline whose workers hold layers 0 to `n` end to end, given a token below vocab_size at a position
    -- below 2^32, throws nothing and gives the logits that one machine gets when it runs all layers on the
    -- token's embedding, and its workers are left with the caches of that machine.
    pub pipeline-Gives :
        (workers : Workers M) (token : ℕ) (g : Kv M)
        → 0 < n
        → token < M.vocab_size
        → IsChain M n 0 workers g
        → Gives n 0
            (run_layers M n 0 p (M.embedding token) g)
            (pipeline M 0 p input_token (M.of_int token ∷ []) workers)
    pipeline-Gives [] token g layers small chain = absurd (omega (arith, chain))
    pipeline-Gives (c ∷ workers) token g layers small chain =
        let layers_left : n - 0 ≡ n = omega arith in
        subst
          (λ k.
            Gives n 0 (run_layers M k 0 p (M.embedding token) g)
              (pipeline M 0 p input_token (M.of_int token ∷ []) (c ∷ workers)))
          layers_left
          (chain_run workers c 0 0 input_token (M.of_int token ∷ []) (M.embedding token) g
            (omega arith) (laws.of_int_float token, tt) (omega arith)
            (laws.embedding_hidden token small) chain (λ spec s. first_input spec token small s))
