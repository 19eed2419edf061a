-- ===== src/Coordinator/Limits.antt =====
-- How many tokens a request gives, whatever its workers do (generate of distributed/coordinator.cpp), and
-- what a refused request leaves (handle_forward of distributed/worker.cpp).
use terllama.Prelude.{
  ℕ, zero, suc, ◌+◌, ◌-◌, ◌≤◌, ◌≡◌, refl, sym, ap, ◌∙◌, min, Bool, ◌||◌, List, [], ◌∷◌, ◌++◌,
  length, drop, arith, leb, ◌==◌, Bool-cases, inl, inr, ◌⊎◌, length-append,
}
use terllama.Prelude.Int.{ℤ}
use terllama.Prelude.Results.{Result, ok, err, Result-cases, ok_injective}
use terllama.Protocol.{input_token}
use terllama.Cluster.{Model, Error}
use terllama.Coordinator.{
  Workers, pipeline, reset_all, prefill, push_recent, decode_loop, last_token, run_request,
  generate,
}
use terllama.Coordinator.Steps.{finished, decode_step}

err_not_ok : (e : Error) (out : List ℕ) → ◌≡◌ {A = Result Error (List ℕ)} (err e) (ok out) → ⊥
err_not_ok e out h = cc h

module _ (M : Model) (sample : List ℕ → List ℕ → ℕ) (on_token : List ℕ → Bool) (eos : ℤ) where
  decode_failed :
      (todo p next : ℕ) (recent output : List ℕ) (workers : Workers M) (e : Error)
      → (pipeline M 0 p input_token (M.of_int next ∷ []) workers).1 ≡ err e
      → (decode_loop M sample on_token eos (suc todo) p next recent output workers).1 ≡ err e
  unfolding decode_loop
  decode_failed todo p next recent output workers e h = rw (decode_loop, h) refl

  decode-length :
      (todo p next : ℕ) (recent output : List ℕ) (workers : Workers M) (out : List ℕ)
      → (decode_loop M sample on_token eos todo p next recent output workers).1 ≡ ok out
      → length out ≤ length output + todo
  unfolding decode_loop
  decode-length zero p next recent output workers out h =
      omega (arith, ap length (ok_injective output out h))
  decode-length (suc todo) p next recent output workers out h =
      elim (Result-cases (pipeline M 0 p input_token (M.of_int next ∷ []) workers).1) [
        | inl (e, failed) ↦
            absurd (
              err_not_ok e out (sym (decode_failed todo p next recent output workers e failed) ∙ h))
        | inr (logits, given) ↦
            let workers' = (pipeline M 0 p input_token (M.of_int next ∷ []) workers).0 in
            let token = sample logits recent in
            let output' = output ++ (token ∷ []) in
            let step =
              decode_step M sample on_token eos todo p next recent output logits workers workers'
                (λ i. (workers', given i)) in
            let longer : length output' ≡ length output + 1 = length-append output (token ∷ []) in
            elim (Bool-cases (finished M sample on_token eos token output')) [
              | inl stop ↦
                  let last =
                    ok_injective output' out (sym (ap (λ r. r.1) step ∙ rw stop refl) ∙ h) in
                  omega (arith, ap length last, longer)
              | inr go ↦
                  let rest =
                    decode-length todo (suc p) token (push_recent M recent token) output' workers'
                      out (sym (ap (λ r. r.1) step ∙ rw go refl) ∙ h) in
                  omega (arith, rest, longer)
            ]
      ]

  request-length :
      (todo first : ℕ) (others prev : List ℕ) (workers : Workers M) (out : List ℕ)
      → (run_request M sample on_token eos todo first others prev workers).1 ≡ ok out
      → length out ≤ todo
  unfolding run_request
  request-length todo first others prev workers out h =
      elim (Result-cases (reset_all M 0 workers).1) [
        | inl (e, failed) ↦ absurd (err_not_ok e out (sym (rw (run_request, failed) refl) ∙ h))
        | inr (t, given) ↦
            elim (Result-cases (prefill M 0 (first ∷ others) (reset_all M 0 workers).0).1) [
              | inl (e, failed) ↦
                  absurd (err_not_ok e out (sym (rw (run_request, given, failed) refl) ∙ h))
              | inr (u, given') ↦
                  let few =
                    decode-length todo (length (first ∷ others))
                      (last_token M sample on_token eos first others) (drop (length prev - 8) prev)
                      [] (prefill M 0 (first ∷ others) (reset_all M 0 workers).0).0 out
                      (sym (rw (run_request, given, given') refl) ∙ h) in
                  omega (arith, few)
            ]
      ]

  -- When generate gives tokens, whatever the workers answered, they are no more than max_tokens, and prompt
  -- and tokens together fit the context unless there are no tokens.
  pub generate-length :
      (max_seq max_tokens : ℕ) (prompt prev : List ℕ) (workers : Workers M) (out : List ℕ)
      → (generate M sample on_token eos max_seq prompt max_tokens prev workers).1 ≡ ok out
      → (length out ≤ max_tokens) × ((length out ≡ 0) ⊎ (length prompt + length out ≤ max_seq))
  unfolding generate
  generate-length max_seq max_tokens [] prev workers out h =
      let none_given = ok_injective [] out h in
      (omega (arith, ap length none_given), inl (sym (ap length none_given)))
  generate-length max_seq max_tokens (first ∷ others) prev workers out h =
      let n_prompt = length (first ∷ others) in
      elim (Bool-cases ((max_tokens == 0) || leb max_seq n_prompt)) [
        | inl nothing ↦
            let none_given = ok_injective [] out (sym (rw nothing refl) ∙ h) in
            (omega (arith, ap length none_given), inl (sym (ap length none_given)))
        | inr something ↦
            let room : n_prompt ≤ max_seq = ground (arith, something) in
            let few =
              request-length (min max_tokens (max_seq - n_prompt)) first others prev workers out
                (sym (rw something refl) ∙ h) in
            (omega (arith, few), inr (omega (arith, few, room)))
      ]
