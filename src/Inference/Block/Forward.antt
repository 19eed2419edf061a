-- ===== src/Inference/Block/Forward.antt =====
-- A token through a sound model (model_forward of src/core/inference.cpp).
use terllama.Prelude.{
  ℕ, zero, suc, ◌+◌, ◌*◌, ◌<◌, ◌≡◌, ◌≢◌, refl, ◌∙◌, Option, none, some, List, [], ◌∷◌, length,
  arith, get_elem?, get_elem?-some, get_elem?-set_self, get_elem?-set_other, length-replicate, ltb,
  inl, inr, Bool-cases,
}
use terllama.Prelude.Int.{ℤ, pos, negsuc}
use terllama.Prelude.Results.{ok, ◌>>=◌}
use terllama.Prelude.Gives.{Gives, gives_ok, gives_bind, gives_weaken}
use terllama.ModelFile.{lm_head}
use terllama.Inference.{FloatOps, Layer, slice}
use terllama.Inference.Totals.{
  HasLength, row_end, slice-Gives, at-Gives, fills-Gives, for_each-Gives,
}
use terllama.Inference.Kernels.{zero_f, dot}
use terllama.Inference.Kernels.Fit.{AnyValue, at_known}
use terllama.Inference.Kernels.Products.{dispatch-Gives}
use terllama.Inference.Attention.Lengths.{rms_norm-Gives}
use terllama.Inference.Index.{index_from}
use terllama.Inference.Block.{
  Model, Caches, fallback, emb_token, embedding_row, run_blocks, tied_logits, logits_of,
  model_forward,
}
use terllama.Inference.Block.Sound.{HasNorms, IsSound, IsReady}
use terllama.Inference.Block.Parts.{IsStep, block-Gives}

index_from-bound :
    (k : ℕ) (layers : List Layer) (name : List ℕ) (i : ℕ)
    → index_from k layers name ≡ some i
    → i < k + length layers
unfolding index_from
index_from-bound k [] name i h = absurd (cc h)
index_from-bound k (l ∷ layers) name i h = ground (arith, index_from-bound (suc k) layers name i)

fallback-below : (vocab : ℕ) (t : ℕ) → fallback vocab ≡ some t → t < vocab
fallback-below vocab t h = ground arith

emb_token-below : (vocab : ℕ) (token : ℤ) (t : ℕ) → emb_token vocab token ≡ some t → t < vocab
emb_token-below vocab (pos n) t h = ground (arith, fallback-below vocab t)
emb_token-below vocab (negsuc n) t h = fallback-below vocab t h

module _ {F : Type 0} ⦃o : FloatOps F⦄ (m : Model F) (sound : IsSound m) where
  -- All layers have `n` rows in the cache.
  abbrev pub AreLong : ℕ → Caches F → Type 0
  AreLong n s = (j : ℕ) → j < m.cfg.num_hidden_layers → get_elem? s.kv.seq_lens j ≡ some n

  -- The layers below `i` have `n` rows.
  abbrev AreLongBelow : ℕ → ℕ → Caches F → Type 0
  AreLongBelow i n s = (j : ℕ) → j < i → get_elem? s.kv.seq_lens j ≡ some n

  abbrev IsState : List F × Caches F → Type 0
  IsState r = (length r.0 ≡ m.cfg.hidden_size) × IsReady m r.1

  grown :
      (seq_pos i : ℕ) (s : Caches F) (r : List F × Caches F)
      → i < m.cfg.num_hidden_layers
      → IsReady m s
      → AreLongBelow i (seq_pos + 1) s
      → IsStep m sound seq_pos i s r
      → AreLongBelow (suc i) (seq_pos + 1) r.1
  grown seq_pos i s r hi hs below h j hj = rw h.lens (elim (Bool-cases (ltb j i)) [
    | inl e ↦
        let other : i ≢ j = ground (arith, e) in
        get_elem?-set_other s.kv.seq_lens i j (seq_pos + 1) other ∙ below j (ground (arith, e))
    | inr e ↦
        let same : j ≡ i = ground (arith, e, hj) in
        rw same
          (get_elem?-set_self s.kv.seq_lens i (seq_pos + 1) (omega (arith, hi, hs.kv_ready.lens)))
  ])

  run_blocks-Gives :
      (seq_pos i todo : ℕ) (x : List F) (s : Caches F)
      → seq_pos < m.cfg.max_position_embeddings
      → i + todo ≡ m.cfg.num_hidden_layers
      → IsState (x, s)
      → AreLongBelow i (seq_pos + 1) s
      → Gives (run_blocks m seq_pos i todo x s) (λ r. IsState r × AreLong (seq_pos + 1) r.1)
  unfolding run_blocks
  run_blocks-Gives seq_pos i zero x s hp hi h below =
      gives_ok (λ r. IsState r × AreLong (seq_pos + 1) r.1) (x, s)
        (h, λ j hj. below j (omega (arith, hi, hj)))
  run_blocks-Gives seq_pos i (suc todo) x s hp hi h below =
      let inside : i < m.cfg.num_hidden_layers = omega (arith, hi) in
      gives_bind
        (at-Gives (HasNorms m.cfg.hidden_size) m.layer_norms i
          (omega (arith, inside, sound.norms_room)) sound.norms)
        λ norms hn.
          gives_bind (block-Gives m sound x seq_pos i norms s h.0 hp inside hn h.1) λ next hx.
            run_blocks-Gives seq_pos (suc i) todo next.0 next.1 hp (omega (arith, hi))
              (hx.size, hx.ready) (grown seq_pos i s next inside h.1 below hx)

  embedding-Gives :
      (t : Option ℕ)
      → ((i : ℕ) → t ≡ some i → i < m.cfg.vocab_size)
      → Gives (embedding_row m t) (HasLength m.cfg.hidden_size)
  unfolding embedding_row
  embedding-Gives none h =
      gives_ok (HasLength m.cfg.hidden_size) _ (length-replicate m.cfg.hidden_size zero_f)
  embedding-Gives (some i) h =
      let hs = m.cfg.hidden_size in
      slice-Gives (i * hs) hs m.embedding
        (omega (arith, row_end i hs m.cfg.vocab_size (h i refl), sound.embedding_room))

  logits-Gives :
      (head : Option ℕ) (x : List F)
      → index_from 0 m.layers lm_head ≡ head
      → length x ≡ m.cfg.hidden_size
      → Gives (logits_of m head x) (HasLength m.cfg.vocab_size)
  unfolding logits_of tied_logits
  logits-Gives none x named hx =
      let hs = m.cfg.hidden_size in
      gives_weaken
        (for_each-Gives AnyValue
          (λ v. slice (v * hs) hs m.embedding >>= λ row. ok (dot zero_f row x)) 0 m.cfg.vocab_size
          (λ v hv.
            gives_bind
              (slice-Gives (v * hs) hs m.embedding (
                omega
                  (arith, row_end v hs m.cfg.vocab_size (omega (arith, hv)), sound.embedding_room)))
              λ row hr. gives_ok AnyValue _ tt))
        (λ ys h. h.0)
  logits-Gives (some i) x named hx =
      let (l, at_l) =
        get_elem?-some i m.layers (omega (arith, index_from-bound 0 m.layers lm_head i named)) in
      let shape = sound.head i l named at_l in
      gives_bind (at_known m.layers i l at_l) λ l' hl.
        let same : l' ≡ l = cc (hl, at_l) in
        gives_bind
          (dispatch-Gives m.cfg.vocab_size m.cfg.hidden_size l' x (rw same shape)
            (omega (arith, hx)))
          λ ys hy. fills-Gives m.cfg.vocab_size ys hy

  -- One token through a sound model: it succeeds and gives a logit for each token of the vocabulary, and
  -- afterwards each layer's part of the cache ends with the row of the position.
  pub model_forward-Gives :
      (token : ℤ) (seq_pos : ℕ) (s : Caches F)
      → seq_pos < m.cfg.max_position_embeddings
      → IsReady m s
      → Gives
          (model_forward m token seq_pos s)
          (λ r. (length r.0 ≡ m.cfg.vocab_size) × IsReady m r.1 × AreLong (seq_pos + 1) r.1)
  unfolding model_forward
  model_forward-Gives token seq_pos s hp hs =
      gives_bind
        (embedding-Gives (emb_token m.cfg.vocab_size token)
          (emb_token-below m.cfg.vocab_size token))
        λ x hx.
          gives_bind
            (run_blocks-Gives seq_pos 0 m.cfg.num_hidden_layers x s hp (omega arith) (hx, hs)
              (λ j hj. absurd (omega (arith, hj))))
            λ run hr.
              gives_bind
                (rms_norm-Gives run.0 m.final_norm m.cfg.hidden_size m.cfg.rms_norm_eps hr.0.0
                  sound.final_room)
                λ nx hnx.
                  gives_bind (logits-Gives (index_from 0 m.layers lm_head) nx refl hnx) λ logits hl.
                    gives_ok
                      (λ r.
                        (length r.0 ≡ m.cfg.vocab_size) × IsReady m r.1 × AreLong (seq_pos + 1) r.1)
                      (logits, run.1) (hl, hr.0.1, hr.1)
