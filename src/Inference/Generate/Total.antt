-- ===== src/Inference/Generate/Total.antt =====
-- Generation on a sound model succeeds, within its bounds (generate of src/core/inference.cpp).
use terllama.Prelude.{
  ℕ, zero, suc, ◌+◌, ◌≤◌, ◌<◌, ◌≡◌, refl, sym, ◌∙◌, true, false, List, [], ◌∷◌, ◌++◌, length, take,
  arith, inl, inr, ◌⊎◌, length-take, All, get_elem?-replicate,
}
use mathlib.Core.List.{append_assoc, append-nil}
use terllama.Prelude.Int.{ℤ, pos, eq_ℤ}
use terllama.Prelude.Gives.{Gives, gives_ok, gives_bind, gives_if, gives_weaken}
use terllama.Inference.{FloatOps}
use terllama.Inference.Cache.{new_cache}
use terllama.Inference.Cache.Rows.{new_cache-IsCache}
use terllama.Inference.Index.{IndexCache}
use terllama.Inference.Index.Lookup.{IsIndexOf}
use terllama.Inference.Block.{Model, Caches}
use terllama.Inference.Block.Sound.{IsSound, IsReady}
use terllama.Inference.Block.Forward.{AreLong, model_forward-Gives}
use terllama.Inference.Sampling.Choice.{argmax-Gives, multinomial-Gives}
use terllama.Inference.Generate.{
  prefill_length, token_limit, first_input, recent, sample, prefill, decode, fresh, generate,
}

module _ {F : Type 0} ⦃o : FloatOps F⦄ (m : Model F) (sound : IsSound m) where
  abbrev pub max_seq : ℕ
  max_seq = m.cfg.max_position_embeddings

  pub sample-Gives :
      (temperature : F) (draws : ℕ → F) (logits : List F) (tokens : List ℤ)
      → length logits ≡ m.cfg.vocab_size
      → Gives (sample m.cfg temperature draws logits tokens) (λ t. t < m.cfg.vocab_size)
  unfolding sample
  sample-Gives temperature draws logits tokens h =
      gives_if (o.less temperature (o.of_bits 0x3C23D70A))
        (λ e. argmax-Gives logits m.cfg.vocab_size (omega (arith, h)) sound.some_tokens)
        (λ e.
          multinomial-Gives logits m.cfg.vocab_size temperature (recent tokens) _ _
            (omega (arith, h)) sound.some_tokens)

  -- The thread is ready and every layer has `n` rows.
  abbrev pub IsAt : ℕ → Caches F → Type 0
  IsAt n s = IsReady m s × AreLong m sound n s

  pub prefill-Gives :
      (tokens : List ℤ) (seq_pos : ℕ) (s : Caches F)
      → IsAt seq_pos s
      → seq_pos + length tokens ≤ max_seq
      → Gives (prefill m tokens seq_pos s) (IsAt (seq_pos + length tokens))
  unfolding prefill
  prefill-Gives [] seq_pos s h fits =
      let same : seq_pos + 0 ≡ seq_pos = omega arith in rw same (gives_ok (IsAt seq_pos) s h)
  prefill-Gives (t ∷ tokens) seq_pos s h fits =
      let step : seq_pos + suc (length tokens) ≡ suc seq_pos + length tokens = omega arith in
      let next : seq_pos + 1 ≡ suc seq_pos = omega arith in
      gives_bind (model_forward-Gives m sound t seq_pos s (omega (arith, fits)) h.0) λ run hr.
        rw step
          (prefill-Gives tokens (suc seq_pos) run.1 (hr.1, rw (← next) hr.2) (omega (arith, fits)))

  -- Tokens of the vocabulary.
  abbrev pub IsToken : ℤ → Type 0
  IsToken t = (n : ℕ) × (t ≡ pos n) × (n < m.cfg.vocab_size)

  -- A run of `todo` tokens, or one that ends with the first end-of-text token.
  abbrev pub Stops : ℕ → List ℤ → Type 0
  Stops zero [] = Unit
  Stops zero (t ∷ more) = ⊥
  Stops (suc todo) [] = ⊥
  Stops (suc todo) (t ∷ more) =
      ((eq_ℤ t m.cfg.eos_token_id ≡ true) × (more ≡ []))
      ⊎ ((eq_ℤ t m.cfg.eos_token_id ≡ false) × Stops todo more)

  -- What the loop that began with `tokens` at `seq_pos` leaves: the tokens so far, the run, and one row in
  -- the cache for each token of the run.
  pub record IsRun (seq_pos todo : ℕ) (tokens : List ℤ) (r : List ℤ × Caches F) : Type 0 where
    pub more : List ℤ
    pub extends : r.0 ≡ tokens ++ more
    pub stops : Stops todo more
    pub are_tokens : All IsToken more
    pub rows : IsAt (seq_pos + length more) r.1

  longer :
      (seq_pos todo t : ℕ) (tokens : List ℤ) (r : List ℤ × Caches F)
      → t < m.cfg.vocab_size
      → eq_ℤ (pos t) m.cfg.eos_token_id ≡ false
      → IsRun (suc seq_pos) todo (tokens ++ pos t ∷ []) r
      → IsRun seq_pos (suc todo) tokens r
  longer seq_pos todo t tokens r ht e h =
      let count : suc seq_pos + length h.more ≡ seq_pos + suc (length h.more) = omega arith in
      record {
        more = pos t ∷ h.more;
        extends = h.extends ∙ append_assoc tokens (pos t ∷ []) h.more;
        stops = inr (e, h.stops);
        are_tokens = ((t, refl, ht), h.are_tokens);
        rows = rw (← count) h.rows;
      }

  pub decode-Gives :
      (temperature : F) (draws : ℕ → F) (todo seq_pos : ℕ) (next : ℤ) (tokens : List ℤ)
      (s : Caches F)
      → IsAt seq_pos s
      → seq_pos + todo ≤ max_seq
      → Gives (decode m temperature draws todo seq_pos next tokens s) (IsRun seq_pos todo tokens)
  unfolding decode
  decode-Gives temperature draws zero seq_pos next tokens s h fits =
      let same : seq_pos + 0 ≡ seq_pos = omega arith in
      gives_ok (IsRun seq_pos 0 tokens) (tokens, s)
        (record {
          more = [];
          extends = sym (append-nil tokens);
          stops = tt;
          are_tokens = tt;
          rows = rw same h;
        })
  decode-Gives temperature draws (suc todo) seq_pos next tokens s h fits =
      let step : seq_pos + 1 ≡ suc seq_pos = omega arith in
      gives_bind (model_forward-Gives m sound next seq_pos s (omega (arith, fits)) h.0) λ run hr.
        gives_bind (sample-Gives temperature draws run.0 tokens hr.0) λ t ht.
          gives_if (eq_ℤ (pos t) m.cfg.eos_token_id)
            (λ e.
              gives_ok (IsRun seq_pos (suc todo) tokens) (tokens ++ pos t ∷ [], run.1)
                (record {
                  more = pos t ∷ [];
                  extends = refl;
                  stops = inl (e, refl);
                  are_tokens = ((t, refl, ht), tt);
                  rows = (hr.1, hr.2);
                }))
            (λ e.
              gives_weaken
                (decode-Gives temperature draws todo (suc seq_pos) (pos t) (tokens ++ pos t ∷ [])
                  run.1 (hr.1, rw (← step) hr.2) (omega (arith, fits)))
                (λ r hx. longer seq_pos todo t tokens r ht e hx))

  pub fresh-IsAt : (idx : IndexCache) → IsIndexOf m.snapshot m.layers idx → IsAt 0 (fresh m idx)
  unfolding fresh new_cache
  fresh-IsAt idx h = (
    record {
      kv_ready =
          new_cache-IsCache max_seq m.cfg.num_hidden_layers m.cfg.num_key_value_heads
            m.cfg.head_dim;
      idx_ready = h;
    },
    λ j hj. get_elem?-replicate m.cfg.num_hidden_layers j 0 hj,
  )

  pub limits_fit :
      (n max_tokens : ℕ)
      → (prefill_length max_seq n ≤ n)
        × (prefill_length max_seq n ≤ max_seq)
        × (prefill_length max_seq n + token_limit max_seq (prefill_length max_seq n) max_tokens
            ≤ max_seq)
  limits_fit n max_tokens = (ground arith, ground arith, ground arith)

  -- Generation on a sound model, by a thread whose index cache is right, never reads or writes out of
  -- bounds and never throws, for every prompt, whatever its tokens and its length, and every temperature and
  -- random numbers. It gives tokens of the vocabulary, as many as max_tokens and the context allow or up to
  -- the first end-of-text token, and afterwards every layer's part of the cache has a row for each token of
  -- the prompt that was run and for each token of the result.
  pub generate-Gives :
      (idx : IndexCache) (prompt : List ℤ) (max_tokens : ℕ) (temperature : F) (draws : ℕ → F)
      → IsIndexOf m.snapshot m.layers idx
      → let n_prompt = prefill_length max_seq (length prompt) in
        Gives (generate m idx prompt max_tokens temperature draws) (λ r.
          Stops (token_limit max_seq n_prompt max_tokens) r.0
          × All IsToken r.0
          × IsAt (n_prompt + length r.0) r.1)
  unfolding generate
  generate-Gives idx prompt max_tokens temperature draws h =
      let n = prefill_length max_seq (length prompt) in
      let limit = token_limit max_seq n max_tokens in
      let (short, room, fits) = limits_fit (length prompt) max_tokens in
      let len : length (take n prompt) ≡ n = omega (arith, length-take n prompt, short) in
      let total : 0 + length (take n prompt) ≡ n = omega (arith, len) in
      gives_bind
        (prefill-Gives (take n prompt) 0 (fresh m idx) (fresh-IsAt idx h)
          (omega (arith, total, room)))
        λ s hs.
          gives_weaken
            (decode-Gives temperature draws limit n (first_input (take n prompt) m.cfg.eos_token_id)
              [] s (rw total at hs) fits)
            (λ r run. rw run.extends (run.stops, run.are_tokens, run.rows))
