-- ===== src/Inference/Block.antt =====
-- One token through the model: transformer_block and model_forward of src/core/inference.cpp.
-- What a thread keeps from token to token, the caches of keys and values and of indices, is passed on.
pub mod Sound
pub mod Parts
pub mod Forward
use terllama.Prelude.{
  ℕ, zero, suc, ◌*◌, Option, none, some, List, length, get_elem?, replicate, if◌then◌else◌, ltb,
  ◌==◌,
}
use terllama.Prelude.Int.{ℤ, pos, negsuc}
use terllama.Prelude.Results.{Result, ok, ◌>>=◌}
use terllama.ModelFile.{lm_head}
use terllama.Inference.{
  Error, FloatOps, Layer, ModelConfig, NormWeights, RopeCache, slice, at, fills, for_each,
}
use terllama.Inference.Kernels.{zero_f, dot, ternary_linear_dispatch}
use terllama.Inference.Mote.{MoteLayerData, mote_mlp_forward}
use terllama.Inference.Cache.{KvCache}
use terllama.Inference.Attention.{zip_with, rms_norm, attention, mlp_forward, Projections}
use terllama.Inference.Index.{AttnIndex, IndexCache, index_from, cached_attn_idx, cached_mlp_idx}

-- What model_forward is given beside the token, its position and the caches. No experts are an empty list.
pub record Model (F : Type 0) : Type 0 where
  pub cfg : ModelConfig F
  pub embedding : List F
  pub snapshot : ℕ
  pub layers : List Layer
  pub final_norm : List F
  pub layer_norms : List (NormWeights F)
  pub rope : RopeCache F
  pub mote_layers : List (MoteLayerData F)

pub record Caches (F : Type 0) : Type 0 where
  pub kv : KvCache F
  pub idx : IndexCache

unfoldable pub projections : List Layer → AttnIndex → Result Error Projections
projections layers i = do
  q ← at layers i.q
  k ← at layers i.k
  v ← at layers i.v
  o ← at layers i.o
  ok (record { q_proj = q; k_proj = k; v_proj = v; o_proj = o })

-- A token outside of the vocabulary counts as 0, and a model without a vocabulary has no row.
abbrev pub fallback : ℕ → Option ℕ
fallback vocab_size = if ltb 0 vocab_size then some 0 else none

abbrev pub emb_token : ℕ → ℤ → Option ℕ
emb_token vocab_size (pos t) = if ltb t vocab_size then some t else fallback vocab_size
emb_token vocab_size (negsuc n) = fallback vocab_size

-- The experts of a layer, if it has any.
abbrev pub mote_of : {F : Type 0} → Option (MoteLayerData F) → Option (MoteLayerData F)
mote_of none = none
mote_of (some mote) = if mote.is_mote then some mote else none

module _ {F : Type 0} ⦃o : FloatOps F⦄ where
  open o use {add, mul}

  -- The sum with the residual, after the norm of the BitNet models where there is one.
  unfoldable pub add_residual : List F → List F → List F → ℕ → Result Error (List F)
  add_residual sub_norm residual x hidden_size =
      if length sub_norm == 0
      then ok (zip_with add x residual)
      else (slice 0 hidden_size sub_norm >>= λ w. ok (zip_with add residual (zip_with mul w x)))

  unfoldable pub standard_ffn :
      Model F → List F → ℕ → IndexCache → Result Error (List F × IndexCache)
  standard_ffn m x layer_idx idx =
      let cached = cached_mlp_idx m.snapshot m.layers layer_idx idx in
      do
        im ← cached.1
        g ← at m.layers im.g
        u ← at m.layers im.u
        d ← at m.layers im.d
        out ← mlp_forward x g u d m.cfg.intermediate_size
        ok (out, cached.0)

  unfoldable pub feed_forward :
      Model F
      → Option (MoteLayerData F)
      → List F
      → ℕ
      → IndexCache
      → Result Error (List F × IndexCache)
  feed_forward m none x layer_idx idx = standard_ffn m x layer_idx idx
  feed_forward m (some mote) x layer_idx idx =
      mote_mlp_forward x mote m.cfg.hidden_size m.cfg.intermediate_size >>= λ y. ok (y, idx)

  unfoldable pub attention_part :
      Model F → List F → ℕ → ℕ → NormWeights F → Caches F → Result Error (List F × Caches F)
  attention_part m x seq_pos layer_idx norms s =
      let hs = m.cfg.hidden_size in
      let cached = cached_attn_idx m.snapshot m.layers layer_idx s.idx in
      do
        ia ← cached.1
        proj ← projections m.layers ia
        normed_x ← rms_norm x norms.input_layernorm hs m.cfg.rms_norm_eps
        attended ←
            attention normed_x seq_pos m.cfg proj norms.q_norm norms.k_norm m.rope s.kv layer_idx
        y ← add_residual norms.attn_sub_norm x attended.0 hs
        ok (y, record { kv = attended.1; idx = cached.0 })

  unfoldable pub mlp_part :
      Model F → List F → ℕ → NormWeights F → Caches F → Result Error (List F × Caches F)
  mlp_part m x layer_idx norms s =
      let hs = m.cfg.hidden_size in
      do
        normed_x ← rms_norm x norms.post_attention_layernorm hs m.cfg.rms_norm_eps
        fed ← feed_forward m (mote_of (get_elem? m.mote_layers layer_idx)) normed_x layer_idx s.idx
        y ← add_residual norms.ffn_sub_norm x fed.0 hs
        ok (y, record s { idx = fed.1 })

  unfoldable pub transformer_block :
      Model F → List F → ℕ → ℕ → NormWeights F → Caches F → Result Error (List F × Caches F)
  transformer_block m x seq_pos layer_idx norms s = do
    attended ← attention_part m x seq_pos layer_idx norms s
    mlp_part m attended.0 layer_idx norms attended.1

  unfoldable pub embedding_row : Model F → Option ℕ → Result Error (List F)
  embedding_row m none = ok (replicate m.cfg.hidden_size zero_f)
  embedding_row m (some t) = slice (t * m.cfg.hidden_size) m.cfg.hidden_size m.embedding

  unfoldable pub run_blocks :
      Model F → ℕ → ℕ → ℕ → List F → Caches F → Result Error (List F × Caches F)
  run_blocks m seq_pos i zero x s = ok (x, s)
  run_blocks m seq_pos i (suc todo) x s = do
    norms ← at m.layer_norms i
    next ← transformer_block m x seq_pos i norms s
    run_blocks m seq_pos (suc i) todo next.0 next.1

  -- The dot product with each row of the embedding, where the model has no lm_head.
  unfoldable pub tied_logits : Model F → List F → Result Error (List F)
  tied_logits m x =
      for_each
        (λ v. slice (v * m.cfg.hidden_size) m.cfg.hidden_size m.embedding >>= λ row.
          ok (dot zero_f row x))
        0 m.cfg.vocab_size

  unfoldable pub logits_of : Model F → Option ℕ → List F → Result Error (List F)
  logits_of m none x = tied_logits m x
  logits_of m (some i) x = do
    head ← at m.layers i
    logits ← ternary_linear_dispatch head x
    fills m.cfg.vocab_size logits

  unfoldable pub model_forward : Model F → ℤ → ℕ → Caches F → Result Error (List F × Caches F)
  model_forward m token seq_pos s = do
    x ← embedding_row m (emb_token m.cfg.vocab_size token)
    run ← run_blocks m seq_pos 0 m.cfg.num_hidden_layers x s
    normed_x ← rms_norm run.0 m.final_norm m.cfg.hidden_size m.cfg.rms_norm_eps
    logits ← logits_of m (index_from 0 m.layers lm_head) normed_x
    ok (logits, run.1)
