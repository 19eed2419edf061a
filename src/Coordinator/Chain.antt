-- ===== src/Coordinator/Chain.antt =====
-- Workers whose shards follow on each other and answer as one machine (pipeline of
-- distributed/coordinator.cpp, handle_forward of distributed/worker.cpp).
use mathlib.Core.List.{append-nil}
use terllama.Prelude.{
  ℕ, suc, ◌-◌, ◌^◌, ◌≤◌, ◌<◌, ◌≡◌, refl, sym, ap, ◌∙◌, true, false, some, List, [], ◌∷◌, length,
  All, arith, ◌==◌, ==_iff,
}
use terllama.Prelude.Bytes.{IsU32}
use terllama.Prelude.Int.{pos}
use terllama.Prelude.Results.{ok}
use terllama.Protocol.{
  ShardSpec, ForwardRequest, pack_forward_request, unpack_forward_request, pack_forward_response,
  unpack_forward_response, input_hidden,
}
use terllama.Protocol.RoundTrip.{IsSendable, unpack-pack_request, unpack-pack_response}
use terllama.Cluster.{
  Model, Kv, Shard, ClusterWorker, reply, run_layers, take_input, answer, run_shard, handle_forward,
}
use terllama.Cluster.Layers.{IsHidden, BlockKeeps, Agree}
use terllama.Coordinator.{Workers, read_answer, post_forward, pipeline}

module _ (M : Model) where
  -- What the theorems ask of the arithmetic: sizes in 32 bits; a block, an embedding row and the last
  -- layer give as many 32-bit values as they should; an int that is a token survives its way through a
  -- float.
  pub record IsModel : Type 0 where
    pub hidden_fits : M.hidden_size < 2 ^ 32
    pub block_keeps : BlockKeeps M
    pub embedding_hidden : (t : ℕ) → t < M.vocab_size → IsHidden M (M.embedding t)
    pub head_logits :
        (h : List ℕ)
        → IsHidden M h
        → (logits : List ℕ) × (M.head h ≡ some logits) × (length logits < 2 ^ 32) × All IsU32 logits
    pub of_int_float : (t : ℕ) → IsU32 (M.of_int t)
    pub to_int-of_int : (t : ℕ) → t < M.vocab_size → M.to_int (M.of_int t) ≡ pos t

  -- A shard of `n` layers that starts at `start`.
  pub record IsShard (n start : ℕ) (spec : ShardSpec) : Type 0 where
    pub starts : spec.start_layer ≡ start
    pub some_layers : start < spec.end_layer
    pub ends : spec.end_layer ≤ n
    pub first : spec.is_first ≡ (start == 0)
    pub last : spec.is_last ≡ (spec.end_layer == n)

  -- The workers are up and hold the layers from `start` on, one after the other up to `n`, and each has
  -- in its own cache what `g` has for its layers.
  abbrev pub IsChain : ℕ → ℕ → Workers M → Kv M → Type 0
  IsChain n start [] g = start ≡ n
  IsChain n start (c ∷ workers) g =
      (m : Shard M) × (c.up ≡ true)
      × (c.loaded ≡ some m)
      × IsShard n start m.spec
      × Agree M start (m.spec.end_layer - start) m.kv g
      × IsChain n m.spec.end_layer workers g

  pub IsChain-end :
      (n start : ℕ) (workers : Workers M) (g : Kv M) → IsChain n start workers g → start ≤ n
  IsChain-end n start [] g h = omega (arith, h)
  IsChain-end n start (c ∷ workers) g (m, up, loaded, s, same, rest) =
      omega (arith, s.some_layers, s.ends)

  -- Only the caches from `start` on matter.
  pub IsChain-cache :
      (n start : ℕ) (workers : Workers M) (g g' : Kv M)
      → ((j : ℕ) → start ≤ j → g j ≡ g' j)
      → IsChain n start workers g
      → IsChain n start workers g'
  IsChain-cache n start [] g g' e h = h
  IsChain-cache n start (c ∷ workers) g g' e (m, up, loaded, s, same, rest) = (
    m,
    up,
    loaded,
    s,
    (λ j low high. same j low high ∙ e j low),
    IsChain-cache n m.spec.end_layer workers g g' (λ j low. e j (omega (arith, s.some_layers, low)))
        rest,
  )

  module _ (laws : IsModel) where
    -- The request as the worker receives it.
    receive :
        (p kind : ℕ) (cur : List ℕ)
        → IsU32 p
        → IsU32 kind
        → All IsU32 cur
        → length cur < 2 ^ 32
        → unpack_forward_request
            (pack_forward_request (record { seq_pos = p; input_kind = kind; payload = cur }))
          ≡ some (record { seq_pos = p; input_kind = kind; payload = cur })
    receive p kind cur hp hk hc hl =
        let r : ForwardRequest = record { seq_pos = p; input_kind = kind; payload = cur } in
        let sendable : IsSendable r = record {
          seq_pos_fits = hp;
          kind_fits = hk;
          payload_fits = hc;
          count_fits = hl;
        } in
        ap unpack_forward_request (sym (append-nil (pack_forward_request r)))
        ∙ unpack-pack_request r [] sendable

    -- A shard's answer to a request whose input it takes.
    handled :
        (m : Shard M) (p kind : ℕ) (cur hidden : List ℕ)
        → IsU32 p
        → IsU32 kind
        → All IsU32 cur
        → length cur < 2 ^ 32
        → take_input M m.spec (record { seq_pos = p; input_kind = kind; payload = cur }) ≡ ok hidden
        → let run =
            run_layers M (m.spec.end_layer - m.spec.start_layer) m.spec.start_layer p hidden m.kv in
          handle_forward M
            (some m)
            (pack_forward_request (record { seq_pos = p; input_kind = kind; payload = cur }))
          ≡ (some (record { spec = m.spec; kv = run.1 }), answer M m.spec run.0)
    unfolding handle_forward run_shard
    handled m p kind cur hidden hp hk hc hl taken =
        rw (handle_forward, receive p kind cur hp hk hc hl, run_shard, taken) refl

    -- One round of the coordinator's loop with a worker that is up.
    pub posted :
        (w p kind start : ℕ) (cur hidden out : List ℕ) (c : ClusterWorker M) (m : Shard M)
        → c.up ≡ true
        → c.loaded ≡ some m
        → m.spec.start_layer ≡ start
        → IsU32 p
        → IsU32 kind
        → All IsU32 cur
        → length cur < 2 ^ 32
        → take_input M m.spec (record { seq_pos = p; input_kind = kind; payload = cur }) ≡ ok hidden
        → answer M m.spec (run_layers M (m.spec.end_layer - start) start p hidden m.kv).0
          ≡ reply (pack_forward_response out)
        → All IsU32 out
        → length out < 2 ^ 32
        → post_forward M w p kind cur c ≡ (
          record {
            up = true;
            loaded = some (record {
              spec = m.spec;
              kv = (run_layers M (m.spec.end_layer - start) start p hidden m.kv).1;
            });
          },
          ok out,
        )
    unfolding post_forward read_answer
    posted w p kind start cur hidden out c m up loaded starts hp hk hc hl taken answered ho hn =
        let run = run_layers M (m.spec.end_layer - start) start p hidden m.kv in
        let same = ap (λ x. run_layers M (m.spec.end_layer - x) x p hidden m.kv) starts in
        let body =
          pack_forward_request (record { seq_pos = p; input_kind = kind; payload = cur }) in
        let got : handle_forward M c.loaded body
            ≡ (some (record { spec = m.spec; kv = run.1 }), reply (pack_forward_response out)) =
          ap (λ l. handle_forward M l body) loaded
          ∙ handled m p kind cur hidden hp hk hc hl taken
          ∙ ap (λ r. (some (record { spec = m.spec; kv = r.1 }), answer M m.spec r.0)) same
          ∙ ap (λ a. (some (record { spec = m.spec; kv = run.1 }), a)) answered in
        let read : unpack_forward_response (pack_forward_response out) ≡ some out =
          ap unpack_forward_response (sym (append-nil (pack_forward_response out)))
          ∙ unpack-pack_response out [] ho hn in
        rw (post_forward, got, up, read_answer, read) refl

    pub later_input :
        (spec : ShardSpec) (p : ℕ) (h : List ℕ)
        → spec.is_first ≡ false
        → length h ≡ M.hidden_size
        → take_input M spec (record { seq_pos = p; input_kind = input_hidden; payload = h }) ≡ ok h
    unfolding take_input
    later_input spec p h later size =
        let fits : (length h == M.hidden_size) ≡ true = (==_iff (length h) M.hidden_size).1 size in
        rw (take_input, later, fits) refl

    pub pipeline_step :
        (w p kind : ℕ) (cur out : List ℕ) (c c' : ClusterWorker M) (workers : Workers M)
        → post_forward M w p kind cur c ≡ (c', ok out)
        → pipeline M w p kind cur (c ∷ workers) ≡ (
          c' ∷ (pipeline M (suc w) p input_hidden out workers).0,
          (pipeline M (suc w) p input_hidden out workers).1,
        )
    unfolding pipeline
    pipeline_step w p kind cur out c c' workers h =
        let given : (post_forward M w p kind cur c).1 ≡ ok out = ap (λ r. r.1) h in
        let after : (post_forward M w p kind cur c).0 ≡ c' = ap (λ r. r.0) h in
        rw (pipeline, given, after) refl
