-- ===== src/Coordinator.antt =====
-- The coordinator of a distributed run (distributed/coordinator.cpp): post_reset, pipeline and generate.
-- Its workers are those of Cluster. Sampling and the callback are arguments: `sample` gives a token for
-- logits and recent tokens, `on_token` answers to the tokens so far. Tokens are not negative.
pub mod Chain
pub mod Pipeline
pub mod Solo
pub mod Steps
pub mod Generate
pub mod Limits
mod Runs
use terllama.Prelude.{
  ℕ, zero, suc, ◌-◌, min, Bool, true, not, ◌||◌, none, some, List, [], ◌∷◌, ◌++◌, length, drop,
  if◌then◌else◌, leb, ltb, ◌==◌,
}
use terllama.Prelude.Int.{ℤ, pos, eq_ℤ}
use terllama.Prelude.Results.{Result, ok, err}
use terllama.Protocol.{pack_forward_request, unpack_forward_response, input_token, input_hidden}
use terllama.Cluster.{
  Model, Response, reply, failure, Error, no_answer, bad_status, bad_response, ClusterWorker,
  handle_forward, handle_reset,
}

module _ (M : Model) where
  abbrev pub Workers : Type 0
  Workers = List (ClusterWorker M)

  unfoldable pub read_answer : ℕ → Response → Result Error (List ℕ)
  read_answer w (failure status) = err (bad_status w status)
  read_answer w (reply body) = elim (unpack_forward_response body) [
    | none ↦ err (bad_response w)
    | some out ↦ ok out
  ]

  -- One round of the loop: the worker after it and what it gave.
  unfoldable pub post_forward :
      ℕ → ℕ → ℕ → List ℕ → ClusterWorker M → ClusterWorker M × Result Error (List ℕ)
  post_forward w seq_pos input_kind cur c =
      let body =
        pack_forward_request
          (record { seq_pos = seq_pos; input_kind = input_kind; payload = cur }) in
      let (loaded, response) = handle_forward M c.loaded body in
      if c.up
      then (record { up = true; loaded = loaded }, read_answer w response)
      else (c, err (no_answer w))

  -- From worker `w` on.
  unfoldable pub pipeline : ℕ → ℕ → ℕ → List ℕ → Workers → Workers × Result Error (List ℕ)
  pipeline w seq_pos input_kind cur [] = ([], ok cur)
  pipeline w seq_pos input_kind cur (c ∷ workers) =
      let (c', result) = post_forward w seq_pos input_kind cur c in
      elim result [
        | err e ↦ (c' ∷ workers, err e)
        | ok out ↦
            let (workers', result') = pipeline (suc w) seq_pos input_hidden out workers in
            (c' ∷ workers', result')
      ]

  unfoldable pub reset_all : ℕ → Workers → Workers × Result Error (Unit {0})
  reset_all w [] = ([], ok tt)
  reset_all w (c ∷ workers) =
      let (workers', result) = reset_all (suc w) workers in
      if c.up
      then (record { up = true; loaded = handle_reset M c.loaded } ∷ workers', result)
      else (c ∷ workers, err (no_answer w))

  unfoldable pub prefill : ℕ → List ℕ → Workers → Workers × Result Error (Unit {0})
  prefill seq_pos [] workers = (workers, ok tt)
  prefill seq_pos (token ∷ tokens) workers =
      let (workers', result) = pipeline 0 seq_pos input_token (M.of_int token ∷ []) workers in
      elim result [ err e ↦ (workers', err e) | ok out ↦ prefill (suc seq_pos) tokens workers' ]

  -- The last eight tokens.
  unfoldable pub push_recent : List ℕ → ℕ → List ℕ
  push_recent recent token =
      let longer = recent ++ (token ∷ []) in if ltb 8 (length longer) then drop 1 longer else longer

  module _ (sample : List ℕ → List ℕ → ℕ) (on_token : List ℕ → Bool) (eos : ℤ) where
    unfoldable pub decode_loop :
        ℕ → ℕ → ℕ → List ℕ → List ℕ → Workers → Workers × Result Error (List ℕ)
    decode_loop zero seq_pos next recent output workers = (workers, ok output)
    decode_loop (suc todo) seq_pos next recent output workers =
        let (workers', result) = pipeline 0 seq_pos input_token (M.of_int next ∷ []) workers in
        elim result [
          | err e ↦ (workers', err e)
          | ok logits ↦
              let token = sample logits recent in
              let output' = output ++ (token ∷ []) in
              let rest =
                decode_loop todo (suc seq_pos) token (push_recent recent token) output' workers' in
              if not (on_token output') || eq_ℤ (pos token) eos
              then (workers', ok output')
              else rest
        ]

    unfoldable pub last_token : ℕ → List ℕ → ℕ
    last_token token [] = token
    last_token token (t ∷ tokens) = last_token t tokens

    -- After the guards: `todo` tokens at most.
    unfoldable pub run_request : ℕ → ℕ → List ℕ → List ℕ → Workers → Workers × Result Error (List ℕ)
    run_request todo first others prev workers =
        let (reset, result) = reset_all 0 workers in
        elim result [
          | err e ↦ (reset, err e)
          | ok t ↦
              let (ready, result') = prefill 0 (first ∷ others) reset in
              elim result' [
                | err e ↦ (ready, err e)
                | ok u ↦
                    decode_loop todo (length (first ∷ others)) (last_token first others)
                      (drop (length prev - 8) prev) [] ready
              ]
        ]

    unfoldable pub generate : ℕ → List ℕ → ℕ → List ℕ → Workers → Workers × Result Error (List ℕ)
    generate max_seq [] max_tokens prev workers = (workers, ok [])
    generate max_seq (first ∷ others) max_tokens prev workers =
        let n_prompt = length (first ∷ others) in
        if (max_tokens == 0) || leb max_seq n_prompt
        then (workers, ok [])
        else run_request (min max_tokens (max_seq - n_prompt)) first others prev workers
