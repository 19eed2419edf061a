-- ===== src/Coordinator/Steps.antt =====
-- The steps of generate, one at a time (distributed/coordinator.cpp).
use terllama.Prelude.{
  ℕ, suc, ◌-◌, ◌<◌, ◌≡◌, refl, ap, Bool, not, ◌||◌, List, [], ◌∷◌, ◌++◌, length, drop, All,
  if◌then◌else◌,
}
use terllama.Prelude.Int.{ℤ, pos, eq_ℤ}
use terllama.Prelude.Results.{ok}
use terllama.Protocol.{input_token}
use terllama.Cluster.{Model}
use terllama.Coordinator.{
  Workers, pipeline, reset_all, prefill, push_recent, decode_loop, last_token, run_request,
}

module _ (M : Model) (sample : List ℕ → List ℕ → ℕ) (on_token : List ℕ → Bool) (eos : ℤ) where
  abbrev pub finished : ℕ → List ℕ → Bool
  finished token output = not (on_token output) || eq_ℤ (pos token) eos

  pub decode_step :
      (todo p next : ℕ) (recent output logits : List ℕ) (workers workers' : Workers M)
      → pipeline M 0 p input_token (M.of_int next ∷ []) workers ≡ (workers', ok logits)
      → decode_loop M sample on_token eos (suc todo) p next recent output workers ≡ (
          if finished (sample logits recent) (output ++ (sample logits recent ∷ []))
          then (workers', ok (output ++ (sample logits recent ∷ [])))
          else decode_loop M sample on_token eos todo
              (suc p)
              (sample logits recent)
              (push_recent M recent (sample logits recent))
              (output ++ (sample logits recent ∷ []))
              workers')
  unfolding decode_loop
  decode_step todo p next recent output logits workers workers' h =
      let given : (pipeline M 0 p input_token (M.of_int next ∷ []) workers).1 ≡ ok logits =
        ap (λ r. r.1) h in
      let after : (pipeline M 0 p input_token (M.of_int next ∷ []) workers).0 ≡ workers' =
        ap (λ r. r.0) h in
      rw (decode_loop, given, after) refl

  pub request_step :
      (todo first : ℕ) (others prev : List ℕ) (workers reset ready : Workers M)
      → reset_all M 0 workers ≡ (reset, ok tt)
      → prefill M 0 (first ∷ others) reset ≡ (ready, ok tt)
      → run_request M sample on_token eos todo first others prev workers
        ≡ decode_loop M sample on_token eos todo
            (length (first ∷ others))
            (last_token M sample on_token eos first others)
            (drop (length prev - 8) prev)
            []
            ready
  unfolding run_request
  request_step todo first others prev workers reset ready h h' =
      let reset_given : (reset_all M 0 workers).1 ≡ ok tt = ap (λ r. r.1) h in
      let reset_after : (reset_all M 0 workers).0 ≡ reset = ap (λ r. r.0) h in
      let ready_given : (prefill M 0 (first ∷ others) reset).1 ≡ ok tt = ap (λ r. r.1) h' in
      let ready_after : (prefill M 0 (first ∷ others) reset).0 ≡ ready = ap (λ r. r.0) h' in
      rw (run_request, reset_given, reset_after, ready_given, reset_after, ready_after) refl

  pub last_token-IsToken :
      (first : ℕ) (others : List ℕ)
      → first < M.vocab_size
      → All (λ t. t < M.vocab_size) others
      → last_token M sample on_token eos first others < M.vocab_size
  unfolding last_token
  last_token-IsToken first [] small good = small
  last_token-IsToken first (t ∷ others) small (ht, good) = last_token-IsToken t others ht good
