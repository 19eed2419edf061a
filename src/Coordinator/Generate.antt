-- ===== src/Coordinator/Generate.antt =====
-- A cluster generates what one machine generates (generate of distributed/coordinator.cpp).
use terllama.Prelude.{
  ℕ, zero, suc, ◌+◌, ◌-◌, ◌^◌, ◌≤◌, ◌<◌, ◌≡◌, refl, sym, ap, ◌∙◌, min, Bool, ◌||◌, List, [], ◌∷◌,
  ◌++◌, length, length-append, length-drop, drop, drop-add, All, arith, leb, ltb, ◌==◌, Bool-cases,
  inl, inr,
}
use terllama.Prelude.Int.{ℤ}
use mathlib.Core.List.{append_assoc, append-nil}
use terllama.Prelude.Results.{ok}
use terllama.Cluster.{Model, Kv}
use terllama.Coordinator.{Workers, push_recent, decode_loop, last_token, run_request, generate}
use terllama.Coordinator.Chain.{IsModel, IsChain}
use terllama.Coordinator.Pipeline.{pipeline-Gives}
use terllama.Coordinator.Steps.{finished, decode_step, last_token-IsToken, request_step}
use terllama.Coordinator.Solo.{
  last_eight, token_at, logits_of, solo_step, solo_prefill, solo_decode, solo_generate,
  reset-IsChain, prefill-IsChain,
}

drop_before :
    (k : ℕ) (x : List ℕ) (t : ℕ) → k ≤ length x → drop k x ++ t ∷ [] ≡ drop k (x ++ t ∷ [])
drop_before zero x t h = refl
drop_before (suc k) [] t h = absurd (omega (arith, h))
drop_before (suc k) (y ∷ x) t h = drop_before k x t (omega (arith, h))

-- Dropping the oldest of nine keeps the last eight.
push_recent-last_eight :
    (M : Model) (x : List ℕ) (t : ℕ) → push_recent M (last_eight x) t ≡ last_eight (x ++ t ∷ [])
unfolding push_recent last_eight
push_recent-last_eight M x t =
    let k = length x - 8 in
    let before = drop_before k x t (omega arith) in
    let grown : length (x ++ t ∷ []) ≡ length x + 1 = length-append x (t ∷ []) in
    let long : length (drop k (x ++ t ∷ [])) ≡ length x + 1 - k =
      omega (arith, length-drop k (x ++ t ∷ []), grown) in
    rw before (elim (Bool-cases (ltb 8 (length (drop k (x ++ t ∷ []))))) [
      | inl e ↦
          let next : k + 1 ≡ length (x ++ t ∷ []) - 8 = ground (arith, e, long, grown) in
          rw e (sym (drop-add k 1 (x ++ t ∷ [])) ∙ ap (λ (n : ℕ). drop n (x ++ t ∷ [])) next)
      | inr e ↦
          let same : k ≡ length (x ++ t ∷ []) - 8 = ground (arith, e, long, grown) in
          rw e (ap (λ (n : ℕ). drop n (x ++ t ∷ [])) same)
    ])

last_token-at :
    (M : Model) (sample : List ℕ → List ℕ → ℕ) (on_token : List ℕ → Bool) (eos : ℤ) (first : ℕ)
    (others : List ℕ)
    → last_token M sample on_token eos first others ≡ token_at (length others) (first ∷ others)
unfolding last_token token_at
last_token-at M sample on_token eos first [] = refl
last_token-at M sample on_token eos first (t ∷ others) =
    last_token-at M sample on_token eos t others

window_after :
    (M : Model) (prev output recent : List ℕ) (t : ℕ)
    → recent ≡ last_eight (prev ++ output)
    → push_recent M recent t ≡ last_eight (prev ++ (output ++ t ∷ []))
window_after M prev output recent t h =
    ap (λ (r : List ℕ). push_recent M r t) h
    ∙ push_recent-last_eight M (prev ++ output) t
    ∙ ap last_eight (append_assoc prev output (t ∷ []))

window_before : (prev : List ℕ) → drop (length prev - 8) prev ≡ last_eight (prev ++ [])
unfolding last_eight
window_before prev = ap last_eight (sym (append-nil prev))

module _ (M : Model) (laws : IsModel M) (n : ℕ) (layers : 0 < n) (sample : List ℕ → List ℕ → ℕ)
    (on_token : List ℕ → Bool) (eos : ℤ) where
  module _ (samples : (logits recent : List ℕ) → sample logits recent < M.vocab_size) where
    decode-solo :
        (todo p next : ℕ) (recent prev output : List ℕ) (workers : Workers M) (g : Kv M)
        → recent ≡ last_eight (prev ++ output)
        → p + todo ≤ 2 ^ 32
        → next < M.vocab_size
        → IsChain M n 0 workers g
        → (workers' : Workers M) × (decode_loop M sample on_token eos todo p next recent output
              workers
            ≡ (workers', ok (solo_decode M n sample on_token eos todo p next prev output g)))
    unfolding solo_decode
    decode-solo zero p next recent prev output workers g window fits small chain =
        (workers, unfold decode_loop in refl)
    decode-solo (suc todo) p next recent prev output workers g window fits small chain =
        let (ready, logits, given, result, chain') =
          pipeline-Gives M laws n p (omega arith) workers next g layers small chain in
        let run = solo_step M n p next g in
        let same : logits_of M n (M.head run.0) ≡ logits = ap (logits_of M n) given in
        let token = sample logits recent in
        let output' = output ++ (token ∷ []) in
        let (workers', rest) =
          decode-solo todo (suc p) token (push_recent M recent token) prev output' ready run.1
            (window_after M prev output recent token window) (omega arith) (samples logits recent)
            chain' in
        let step =
          decode_step M sample on_token eos todo p next recent output logits workers ready result in
        elim (Bool-cases (finished M sample on_token eos token output')) [
          | inl stop ↦ (ready, step ∙ rw (sym window, same, stop) refl)
          | inr go ↦ (workers', step ∙ rw (sym window, same, go) rest)
        ]

    run-solo :
        (todo first : ℕ) (others prev : List ℕ) (workers : Workers M) (g : Kv M)
        → length (first ∷ others) + todo ≤ 2 ^ 32
        → All (λ t. t < M.vocab_size) (first ∷ others)
        → IsChain M n 0 workers g
        → (workers' : Workers M) × (run_request M sample on_token eos todo first others prev workers
            ≡ (
              workers',
              ok (
                  solo_decode M n sample on_token eos todo
                    (length (first ∷ others))
                    (token_at (length others) (first ∷ others))
                    prev
                    []
                    (solo_prefill M n 0 (first ∷ others) (λ i. M.no_cache))),
            ))
    run-solo todo first others prev workers g fits (small, good) chain =
        let (reset, reset_done, chain₁) = reset-IsChain M laws n layers 0 0 workers g chain in
        let (ready, prefill_done, chain₂) =
          prefill-IsChain M laws n layers 0 (first ∷ others) reset (λ i. M.no_cache) (omega arith)
            (small, good) chain₁ in
        let from_token = λ (token : ℕ).
          solo_decode M n sample on_token eos todo (length (first ∷ others)) token prev []
            (solo_prefill M n 0 (first ∷ others) (λ i. M.no_cache)) in
        let (workers', decoded) =
          decode-solo todo (length (first ∷ others)) (last_token M sample on_token eos first others)
            (drop (length prev - 8) prev) prev [] ready _ (window_before prev) fits
            (last_token-IsToken M sample on_token eos first others small good) chain₂ in
        (
          workers',
          request_step M sample on_token eos todo first others prev workers reset ready reset_done
                prefill_done
              ∙ decoded
              ∙ ap (λ (token : ℕ). (workers', ok (from_token token)))
                  (last_token-at M sample on_token eos first others),
        )

    -- For a cluster that is up and holds all layers end to end, a prompt of tokens below vocab_size, a context of
    -- at most 2^32 positions and a sampler that gives tokens below vocab_size, `generate` throws nothing and
    -- gives the tokens of `solo_generate`: one process runs all layers from empty caches on the prompt and
    -- then on the prompt's last token and each new one, samples with the last eight of the earlier and the
    -- new tokens, and stops by the clamp of max_tokens, the callback and the end-of-sequence token.
    pub generate-solo :
        (max_seq max_tokens : ℕ) (prompt prev : List ℕ) (workers : Workers M) (g : Kv M)
        → max_seq ≤ 2 ^ 32
        → All (λ t. t < M.vocab_size) prompt
        → IsChain M n 0 workers g
        → (workers' : Workers M) × (generate M sample on_token eos max_seq prompt max_tokens prev
              workers
            ≡ (workers', ok (solo_generate M n sample on_token eos max_seq prompt max_tokens prev)))
    unfolding generate solo_generate
    generate-solo max_seq max_tokens [] prev workers g fits good chain = (workers, refl)
    generate-solo max_seq max_tokens (first ∷ others) prev workers g fits good chain =
        elim (Bool-cases ((max_tokens == 0) || leb max_seq (length (first ∷ others)))) [
          | inl nothing ↦ (workers, rw nothing refl)
          | inr something ↦
              let room : length (first ∷ others) ≤ max_seq = ground (arith, something) in
              let (workers', done) =
                run-solo (min max_tokens (max_seq - length (first ∷ others))) first others prev
                  workers g (omega (arith, room)) good chain in
              (workers', rw something done)
        ]
