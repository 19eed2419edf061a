-- ===== src/Coordinator/Solo.antt =====
-- Generation by one process that runs all layers: a reference for generate of distributed/coordinator.cpp that
-- is written without its helpers. What the resets and the prefill of a cluster do is what it does.
use terllama.Prelude.{
  ℕ, zero, suc, ◌+◌, ◌-◌, ◌^◌, ◌≤◌, ◌<◌, ◌≡◌, refl, ap, ◌∙◌, min, Bool, true, not, ◌||◌, Option,
  none, some, List, [], ◌∷◌, ◌++◌, length, drop, All, arith, if◌then◌else◌, leb, ◌==◌,
}
use terllama.Prelude.Int.{ℤ, pos, eq_ℤ}
use terllama.Prelude.Results.{ok}
use terllama.Protocol.{input_token}
use terllama.Cluster.{Model, Kv, ClusterWorker, run_layers, handle_reset}
use terllama.Coordinator.{Workers, pipeline, reset_all, prefill}
use terllama.Coordinator.Chain.{IsModel, IsChain}
use terllama.Coordinator.Pipeline.{pipeline-Gives}

unfoldable pub last_eight : List ℕ → List ℕ
last_eight tokens = drop (length tokens - 8) tokens

unfoldable pub token_at : ℕ → List ℕ → ℕ
token_at i [] = 0
token_at zero (token ∷ tokens) = token
token_at (suc i) (token ∷ tokens) = token_at i tokens

module _ (M : Model) (n : ℕ) where
  abbrev pub logits_of : Option (List ℕ) → List ℕ
  logits_of none = []
  logits_of (some logits) = logits

  -- All layers on a token at a position.
  abbrev pub solo_step : ℕ → ℕ → Kv M → List ℕ × Kv M
  solo_step p token g = run_layers M n 0 p (M.embedding token) g

  unfoldable pub solo_prefill : ℕ → List ℕ → Kv M → Kv M
  solo_prefill p [] g = g
  solo_prefill p (token ∷ tokens) g = solo_prefill (suc p) tokens (solo_step p token g).1

  module _ (sample : List ℕ → List ℕ → ℕ) (on_token : List ℕ → Bool) (eos : ℤ) where
    -- The sampler sees the last eight of the earlier tokens `prev` and those generated.
    unfoldable pub solo_decode : ℕ → ℕ → ℕ → List ℕ → List ℕ → Kv M → List ℕ
    solo_decode zero p next prev output g = output
    solo_decode (suc todo) p next prev output g =
        let run = solo_step p next g in
        let token = sample (logits_of (M.head run.0)) (last_eight (prev ++ output)) in
        let output' = output ++ (token ∷ []) in
        let rest = solo_decode todo (suc p) token prev output' run.1 in
        if not (on_token output') || eq_ℤ (pos token) eos then output' else rest

    unfoldable pub solo_generate : ℕ → List ℕ → ℕ → List ℕ → List ℕ
    solo_generate max_seq [] max_tokens prev = []
    solo_generate max_seq (first ∷ others) max_tokens prev =
        let n_prompt = length (first ∷ others) in
        if (max_tokens == 0) || leb max_seq n_prompt
        then []
        else solo_decode (min max_tokens (max_seq - n_prompt)) n_prompt
            (token_at (length others) (first ∷ others)) prev []
            (solo_prefill 0 (first ∷ others) (λ i. M.no_cache))

module _ (M : Model) (laws : IsModel M) (n : ℕ) (layers : 0 < n) where
  abbrev pub IsToken : ℕ → Type 0
  IsToken t = t < M.vocab_size

  pub reset-IsChain :
      (w start : ℕ) (workers : Workers M) (g : Kv M)
      → IsChain M n start workers g
      → (workers' : Workers M) × (reset_all M w workers ≡ (workers', ok tt))
        × IsChain M n start workers' (λ i. M.no_cache)
  unfolding reset_all handle_reset
  reset-IsChain w start [] g h = ([], refl, h)
  reset-IsChain w start (c ∷ workers) g (m, up, loaded, s, same, rest) =
      let (workers', done, chain) = reset-IsChain (suc w) m.spec.end_layer workers g rest in
      let ready : ClusterWorker M = record {
        up = true;
        loaded = some (record { spec = m.spec; kv = λ i. M.no_cache });
      } in
      (
        (ready ∷ workers'),
        rw (up, loaded, done) refl,
        (
          record { spec = m.spec; kv = λ i. M.no_cache },
          refl,
          refl,
          s,
          (λ j low high. refl),
          chain,
        ),
      )

  prefill_step :
      (p token : ℕ) (tokens : List ℕ) (workers workers' : Workers M) (out : List ℕ)
      → pipeline M 0 p input_token (M.of_int token ∷ []) workers ≡ (workers', ok out)
      → prefill M p (token ∷ tokens) workers ≡ prefill M (suc p) tokens workers'
  unfolding prefill
  prefill_step p token tokens workers workers' out h =
      let given : (pipeline M 0 p input_token (M.of_int token ∷ []) workers).1 ≡ ok out =
        ap (λ r. r.1) h in
      let after : (pipeline M 0 p input_token (M.of_int token ∷ []) workers).0 ≡ workers' =
        ap (λ r. r.0) h in
      rw (prefill, given, after) refl

  pub prefill-IsChain :
      (p : ℕ) (tokens : List ℕ) (workers : Workers M) (g : Kv M)
      → p + length tokens ≤ 2 ^ 32
      → All IsToken tokens
      → IsChain M n 0 workers g
      → (workers' : Workers M) × (prefill M p tokens workers ≡ (workers', ok tt))
        × IsChain M n 0 workers' (solo_prefill M n p tokens g)
  unfolding solo_prefill
  prefill-IsChain p [] workers g fits good chain = (workers, unfold prefill in refl, chain)
  prefill-IsChain p (token ∷ tokens) workers g fits (small, good) chain =
      let (next, logits, given, result, chain') =
        pipeline-Gives M laws n p (omega arith) workers token g layers small chain in
      let (workers', done, chain'') =
        prefill-IsChain (suc p) tokens next (solo_step M n p token g).1 (omega arith) good chain' in
      (workers', prefill_step p token tokens workers next logits result ∙ done, chain'')
