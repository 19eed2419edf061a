-- ===== src/Cluster/Refused.antt =====
-- A request that handle_forward refuses (distributed/worker.cpp).
use terllama.Prelude.{
  ℕ, ◌-◌, ◌≡◌, refl, sym, ap, ◌∙◌, Option, none, some, List, Bool-cases, Option-cases, inl, inr,
  arith,
}
use terllama.Prelude.Results.{Result-cases}
use terllama.Protocol.{ShardSpec, ForwardRequest, unpack_forward_request, pack_forward_response}
use terllama.Cluster.{
  Model, Shard, Response, reply, failure, answer, take_input, run_layers, run_shard, handle_forward,
}

abbrev status_of : Response → ℕ
status_of (reply body) = 0
status_of (failure status) = status

module _ (M : Model) where
  answered : (spec : ShardSpec) (h : List ℕ) → answer M spec h ≡ failure 400 → ⊥
  unfolding answer
  answered spec h refused = elim (Bool-cases spec.is_last) [
    | inr middle ↦
        let sent : answer M spec h ≡ reply (pack_forward_response h) = rw (answer, middle) refl in
        absurd (omega (arith, ap status_of (sym sent ∙ refused)))
    | inl last ↦ elim (Option-cases (M.head h)) [
      | inl missing ↦
          let failed : answer M spec h ≡ failure 500 = rw (answer, last, missing) refl in
          absurd (omega (arith, ap status_of (sym failed ∙ refused)))
      | inr (logits, given) ↦
          let sent : answer M spec h ≡ reply (pack_forward_response logits) =
            rw (answer, last, given) refl in
          absurd (omega (arith, ap status_of (sym sent ∙ refused)))
    ]
  ]

  shard_refused :
      (m : Shard M) (r : ForwardRequest)
      → (run_shard M m r).1 ≡ failure 400
      → (run_shard M m r).0 ≡ m
  unfolding run_shard
  shard_refused m r refused = elim (Result-cases (take_input M m.spec r)) [
    | inl (status, e) ↦ rw (run_shard, e) refl
    | inr (h, e) ↦
        let run =
          run_layers M (m.spec.end_layer - m.spec.start_layer) m.spec.start_layer r.seq_pos h
            m.kv in
        let given : (run_shard M m r).1 ≡ answer M m.spec run.0 = rw (run_shard, e) refl in
        absurd (answered m.spec run.0 (sym given ∙ refused))
  ]

  -- A worker that answers a forward request with status 400, for a body that is no request or an input
  -- kind that its shard does not take, is left as it was: no layer has run and no cache has changed.
  pub handle_forward-refused :
      (loaded : Option (Shard M)) (body : List ℕ)
      → (handle_forward M loaded body).1 ≡ failure 400
      → (handle_forward M loaded body).0 ≡ loaded
  unfolding handle_forward
  handle_forward-refused none body refused = elim (Option-cases (unpack_forward_request body)) [
    | inl e ↦ rw (handle_forward, e) refl
    | inr (r, e) ↦ rw (handle_forward, e) refl
  ]
  handle_forward-refused (some m) body refused = elim (Option-cases (unpack_forward_request body)) [
    | inl e ↦ rw (handle_forward, e) refl
    | inr (r, e) ↦
        let given : (handle_forward M (some m) body).1 ≡ (run_shard M m r).1 =
          rw (handle_forward, e) refl in
        rw (handle_forward, e) (ap some (shard_refused m r (sym given ∙ refused)))
  ]
