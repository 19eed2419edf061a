-- ===== src/Inference/Block/Parts.antt =====
-- A block of a sound model succeeds (transformer_block of src/core/inference.cpp).
use terllama.Prelude.{
  ℕ, ◌+◌, ◌≤◌, ◌<◌, ◌≡◌, refl, ◌∙◌, ◌⊎◌, Option, none, some, List, length, set, arith, get_elem?,
  ◌==◌,
}
use terllama.Prelude.Results.{ok}
use terllama.Prelude.Gives.{Gives, gives_ok, gives_bind, gives_if}
use terllama.Inference.{FloatOps, NormWeights}
use terllama.Inference.Totals.{HasLength, slice-Gives}
use terllama.Inference.Kernels.Fit.{at_known}
use terllama.Inference.Attention.{zip_with}
use terllama.Inference.Attention.Lengths.{length-zip_with, rms_norm-Gives}
use terllama.Inference.Attention.Total.{HasProjections, attention-Gives, mlp-Gives}
use terllama.Inference.Mote.{MoteLayerData}
use terllama.Inference.Mote.Total.{mote-Gives}
use terllama.Inference.Index.{IndexCache, cached_attn_idx, cached_mlp_idx}
use terllama.Inference.Index.Lookup.{IsIndexOf, IsOwned, cached_attn_idx-eq, cached_mlp_idx-eq}
use terllama.Inference.Block.{
  Model, Caches, projections, mote_of, add_residual, standard_ffn, feed_forward, attention_part,
  mlp_part, transformer_block,
}
use terllama.Inference.Block.Sound.{HasNorms, HasStandard, HasFfn, IsSound, IsReady}

module _ {F : Type 0} ⦃o : FloatOps F⦄ where
  module _ (m : Model F) (sound : IsSound m) where
    add_residual-Gives :
        (sub_norm residual x : List F) (hs : ℕ)
        → (length sub_norm ≡ 0) ⊎ (hs ≤ length sub_norm)
        → length residual ≡ hs
        → length x ≡ hs
        → Gives (add_residual sub_norm residual x hs) (HasLength hs)
    unfolding add_residual
    add_residual-Gives sub_norm residual x hs room hr hx =
        gives_if (length sub_norm == 0)
          (λ e.
            gives_ok (HasLength hs) (zip_with o.add x residual)
              (length-zip_with o.add hs x residual hx hr))
          (λ e. gives_bind (slice-Gives 0 hs sub_norm (ground (arith, e, room))) λ w hw.
            gives_ok (HasLength hs) (zip_with o.add residual (zip_with o.mul w x))
              (length-zip_with o.add hs residual _ hr (length-zip_with o.mul hs w x hw hx)))

    standard-Gives :
        (x : List F) (layer_idx : ℕ) (idx : IndexCache)
        → length x ≡ m.cfg.hidden_size
        → HasStandard m layer_idx
        → IsOwned m.snapshot m.layers idx
        → Gives
            (standard_ffn m x layer_idx idx)
            (λ r. (length r.0 ≡ m.cfg.hidden_size) × IsIndexOf m.snapshot m.layers r.1)
    unfolding standard_ffn
    standard-Gives x layer_idx idx hx h own =
        let hs = m.cfg.hidden_size in
        let (own', is) = cached_mlp_idx-eq m.snapshot m.layers layer_idx idx own in
        let named : (cached_mlp_idx m.snapshot m.layers layer_idx idx).1 ≡ ok h.index =
          is ∙ h.named in
        gives_bind {P = λ im. im ≡ h.index} (record { value = h.index; is = named; holds = refl })
          λ im him. gives_bind (at_known m.layers im.g h.gate (rw him h.gate_at)) λ g hg.
            gives_bind (at_known m.layers im.u h.up (rw him h.up_at)) λ u hu.
              gives_bind (at_known m.layers im.d h.down (rw him h.down_at)) λ d hd.
                let g_is : g ≡ h.gate = cc (hg, h.gate_at, him) in
                let u_is : u ≡ h.up = cc (hu, h.up_at, him) in
                let d_is : d ≡ h.down = cc (hd, h.down_at, him) in
                gives_bind
                  (mlp-Gives x g u d hs m.cfg.intermediate_size hx (rw g_is h.gate_shape)
                    (rw u_is h.up_shape) (rw d_is h.down_shape))
                  λ out hout.
                    gives_ok (λ r. (length r.0 ≡ hs) × IsIndexOf m.snapshot m.layers r.1) (out, _)
                      (hout, own'.right)

    feed_forward-Gives :
        (mote : Option (MoteLayerData F)) (x : List F) (layer_idx : ℕ) (idx : IndexCache)
        → length x ≡ m.cfg.hidden_size
        → HasFfn m layer_idx mote
        → IsOwned m.snapshot m.layers idx
        → Gives
            (feed_forward m mote x layer_idx idx)
            (λ r. (length r.0 ≡ m.cfg.hidden_size) × IsIndexOf m.snapshot m.layers r.1)
    unfolding feed_forward
    feed_forward-Gives none x layer_idx idx hx h own = standard-Gives x layer_idx idx hx h own
    feed_forward-Gives (some mote) x layer_idx idx hx h own =
        let hs = m.cfg.hidden_size in
        gives_bind (mote-Gives hs m.cfg.intermediate_size mote h x hx) λ y hy.
          gives_ok (λ r. (length r.0 ≡ hs) × IsIndexOf m.snapshot m.layers r.1) (y, idx)
            (hy, own.right)

    -- What a block leaves: the hidden state keeps its size, and the block's part of the cache has the row
    -- of the position last.
    pub record IsStep (seq_pos layer_idx : ℕ) (s : Caches F) (r : List F × Caches F) : Type 0 where
      pub size : length r.0 ≡ m.cfg.hidden_size
      pub ready : IsReady m r.1
      pub lens : r.1.kv.seq_lens ≡ set s.kv.seq_lens layer_idx (seq_pos + 1)

    module _ (x : List F) (seq_pos layer_idx : ℕ) (norms : NormWeights F) (s : Caches F)
        (hx : length x ≡ m.cfg.hidden_size) (hp : seq_pos < m.cfg.max_position_embeddings)
        (hl : layer_idx < m.cfg.num_hidden_layers) (hn : HasNorms m.cfg.hidden_size norms) where
      attention_part-Gives :
          IsReady m s
          → Gives
              (attention_part m x seq_pos layer_idx norms s)
              (λ r. IsStep seq_pos layer_idx s r × IsOwned m.snapshot m.layers r.1.idx)
      unfolding attention_part
      attention_part-Gives hs =
          let hsize = m.cfg.hidden_size in
          let block = sound.blocks layer_idx hl in
          let (own, is) = cached_attn_idx-eq m.snapshot m.layers layer_idx s.idx hs.idx_ready in
          let named : (cached_attn_idx m.snapshot m.layers layer_idx s.idx).1 ≡ ok block.index =
            is ∙ block.named in
          gives_bind {P = λ ia. ia ≡ block.index}
            (record { value = block.index; is = named; holds = refl })
            λ ia hia.
              gives_bind
                (let shapes : Gives (projections m.layers ia) (HasProjections m.cfg) =
                    rw hia block.shapes in
                  shapes)
                λ proj hproj.
                  gives_bind
                    (rms_norm-Gives x norms.input_layernorm hsize m.cfg.rms_norm_eps hx
                      hn.input_room)
                    λ nx hnx.
                      gives_bind
                        (attention-Gives m.cfg m.cfg.max_position_embeddings m.cfg.num_hidden_layers
                          sound.groups nx seq_pos layer_idx proj norms.q_norm norms.k_norm m.rope
                          s.kv hnx hp hl hproj sound.angles hs.kv_ready)
                        λ att hatt.
                          gives_bind
                            (add_residual-Gives norms.attn_sub_norm x att.0 hsize hn.attn_sub_room
                              hx hatt.0)
                            λ y hy.
                              gives_ok
                                (λ r.
                                  IsStep seq_pos layer_idx s r
                                  × IsOwned m.snapshot m.layers r.1.idx)
                                _
                                (
                                  record {
                                    size = hy;
                                    ready = record { kv_ready = hatt.1; idx_ready = own.right };
                                    lens = hatt.2;
                                  },
                                  own,
                                )

    mlp_part-Gives :
        (x : List F) (seq_pos layer_idx : ℕ) (norms : NormWeights F) (s0 s : Caches F)
        → layer_idx < m.cfg.num_hidden_layers
        → HasNorms m.cfg.hidden_size norms
        → IsStep seq_pos layer_idx s0 (x, s)
        → IsOwned m.snapshot m.layers s.idx
        → Gives (mlp_part m x layer_idx norms s) (IsStep seq_pos layer_idx s0)
    unfolding mlp_part
    mlp_part-Gives x seq_pos layer_idx norms s0 s hl hn h own =
        let hsize = m.cfg.hidden_size in
        let mote = mote_of (get_elem? m.mote_layers layer_idx) in
        gives_bind
          (rms_norm-Gives x norms.post_attention_layernorm hsize m.cfg.rms_norm_eps h.size
            hn.post_room)
          λ nx hnx.
            gives_bind
              (feed_forward-Gives mote nx layer_idx s.idx hnx (sound.blocks layer_idx hl).ffn own)
              λ fed hf.
                gives_bind
                  (add_residual-Gives norms.ffn_sub_norm x fed.0 hsize hn.ffn_sub_room h.size hf.0)
                  λ y hy. gives_ok (IsStep seq_pos layer_idx s0) _ (record {
                    size = hy;
                    ready = record { kv_ready = h.ready.kv_ready; idx_ready = hf.1 };
                    lens = h.lens;
                  })

    pub block-Gives :
        (x : List F) (seq_pos layer_idx : ℕ) (norms : NormWeights F) (s : Caches F)
        → length x ≡ m.cfg.hidden_size
        → seq_pos < m.cfg.max_position_embeddings
        → layer_idx < m.cfg.num_hidden_layers
        → HasNorms m.cfg.hidden_size norms
        → IsReady m s
        → Gives (transformer_block m x seq_pos layer_idx norms s) (IsStep seq_pos layer_idx s)
    unfolding transformer_block
    block-Gives x seq_pos layer_idx norms s hx hp hl hn hs =
        gives_bind (attention_part-Gives x seq_pos layer_idx norms s hx hp hl hn hs)
          λ att hatt. mlp_part-Gives att.0 seq_pos layer_idx norms s att.1 hl hn hatt.0 hatt.1
