-- ===== src/Inference/Attention/Total.antt =====
-- Attention and the feed-forward part succeed on layers of the right shape (attention and mlp_forward of
-- src/core/inference.cpp).
use terllama.Prelude.{
  ℕ, zero, suc, ◌+◌, ◌*◌, ◌/◌, ◌<◌, ◌≡◌, sym, ◌∙◌, ◌||◌, ◌==◌, false, List, length, set, arith,
  get_elem?-set_self, get_elem?, some,
}
use terllama.Prelude.Gives.{Gives, gives_ok, gives_bind, gives_else, gives_weaken}
use terllama.Inference.{FloatOps, Layer, ModelConfig, RopeCache}
use terllama.Inference.Totals.{HasLength, at-Gives, fills-Gives, for_each-Gives}
use terllama.Inference.Kernels.Fit.{HasShape, at_known}
use terllama.Inference.Kernels.Products.{dispatch-Gives}
use terllama.Inference.Cache.{KvCache, cache_length}
use terllama.Inference.Cache.Rows.{IsCache, append-Gives}
use terllama.Inference.Attention.{Projections, concat, attention, mlp_forward, head_out, silu}
use terllama.Inference.Attention.Lengths.{
  length-zip_with, length-concat, head_norms-Gives, HasAngles, apply_rope-Gives,
}
use terllama.Inference.Attention.Heads.{head_out-Gives}

-- The heads are whole groups, each of which shares a head of the cache.
pub record HasGroups {F : Type 0} (cfg : ModelConfig F) : Type 0 where
  pub some_heads : 0 < cfg.num_attention_heads
  pub some_kv_heads : 0 < cfg.num_key_value_heads
  pub whole :
      cfg.num_attention_heads
      ≡ cfg.num_key_value_heads * (cfg.num_attention_heads / cfg.num_key_value_heads)

pub record HasProjections {F : Type 0} (cfg : ModelConfig F) (p : Projections) : Type 0 where
  pub q_shape : HasShape (cfg.num_attention_heads * cfg.head_dim) cfg.hidden_size p.q_proj
  pub k_shape : HasShape (cfg.num_key_value_heads * cfg.head_dim) cfg.hidden_size p.k_proj
  pub v_shape : HasShape (cfg.num_key_value_heads * cfg.head_dim) cfg.hidden_size p.v_proj
  pub o_shape : HasShape cfg.hidden_size (cfg.num_attention_heads * cfg.head_dim) p.o_proj

group_pos : (heads kv_heads group : ℕ) → 0 < heads → heads ≡ kv_heads * group → 0 < group
group_pos heads kv_heads zero hh whole = absurd (omega arith)
group_pos heads kv_heads (suc g) hh whole = omega arith

module _ {F : Type 0} ⦃o : FloatOps F⦄ where
  module _ (cfg : ModelConfig F) (max_seq layers : ℕ) (hg : HasGroups cfg) where
    abbrev pub IsCacheFor : KvCache F → Type 0
    IsCacheFor c = IsCache max_seq layers cfg.num_key_value_heads cfg.head_dim c

    pub attention-Gives :
        (x : List F) (seq_pos layer_idx : ℕ) (proj : Projections) (q_norm k_norm : List F)
        (rope : RopeCache F) (c : KvCache F)
        → length x ≡ cfg.hidden_size
        → seq_pos < max_seq
        → layer_idx < layers
        → HasProjections cfg proj
        → HasAngles max_seq cfg.head_dim rope
        → IsCacheFor c
        → Gives (attention x seq_pos cfg proj q_norm k_norm rope c layer_idx) (λ r.
          (length r.0 ≡ cfg.hidden_size)
          × IsCacheFor r.1
          × (r.1.seq_lens ≡ set c.seq_lens layer_idx (seq_pos + 1)))
    unfolding attention cache_length
    attention-Gives x seq_pos layer_idx proj q_norm k_norm rope c hx hp hl hproj hrope hc =
        let heads = cfg.num_attention_heads in
        let kv = cfg.num_key_value_heads in
        let hd = cfg.head_dim in
        let hs = cfg.hidden_size in
        let eps = cfg.rms_norm_eps in
        let group = heads / kv in
        let some_group = group_pos heads kv group hg.some_heads hg.whole in
        let divides : (kv == 0) || (group == 0) ≡ false =
          ground (arith, hg.some_kv_heads, some_group) in
        gives_else ((kv == 0) || (group == 0)) _ divides (
          gives_bind
            (dispatch-Gives (heads * hd) hs proj.q_proj x hproj.q_shape (omega (arith, hx)))
            λ q_raw hq0.
              gives_bind
                (dispatch-Gives (kv * hd) hs proj.k_proj x hproj.k_shape (omega (arith, hx)))
                λ k_raw hk0.
                  gives_bind
                    (dispatch-Gives (kv * hd) hs proj.v_proj x hproj.v_shape (omega (arith, hx)))
                    λ v_raw hv0. gives_bind (fills-Gives (heads * hd) q_raw hq0) λ q hq.
                      gives_bind (fills-Gives (kv * hd) k_raw hk0) λ k hk.
                        gives_bind (fills-Gives (kv * hd) v_raw hv0) λ v hv.
                          gives_bind (head_norms-Gives q_norm heads hd eps q hq) λ qn hqn.
                            gives_bind (head_norms-Gives k_norm kv hd eps k hk) λ kn hkn.
                              gives_bind
                                (apply_rope-Gives qn kn seq_pos heads kv hd max_seq rope hrope hp
                                  hqn hkn)
                                λ roped hr.
                                  gives_bind
                                    (append-Gives max_seq layers kv hd c hc layer_idx seq_pos
                                      roped.1 v hl hp hr.1 hv)
                                    λ stored hst.
                                      let at_len : get_elem? stored.seq_lens layer_idx
                                          ≡ some (seq_pos + 1) =
                                        rw hst.1 (
                                          get_elem?-set_self c.seq_lens layer_idx (seq_pos + 1)
                                            (omega (arith, hl, hc.lens))) in
                                      let room = max_seq * (kv * hd) in
                                      gives_bind
                                        (at_known stored.seq_lens layer_idx (seq_pos + 1) at_len)
                                        λ kv_len hlen.
                                          let len_is : kv_len ≡ seq_pos + 1 = cc (hlen, at_len) in
                                          gives_bind
                                            (at-Gives (HasLength room) stored.k_cache layer_idx
                                              (omega (arith, hl, hst.0.k_layers)) hst.0.k_rooms)
                                            λ ks hks.
                                              gives_bind
                                                (at-Gives (HasLength room) stored.v_cache layer_idx
                                                  (omega (arith, hl, hst.0.v_layers)) hst.0.v_rooms)
                                                λ vs hvs.
                                                  gives_bind
                                                    (for_each-Gives (HasLength hd)
                                                      (head_out group kv hd kv_len roped.0 ks vs) 0
                                                      heads
                                                      (λ h hh.
                                                        head_out-Gives group heads kv hd kv_len
                                                          max_seq h roped.0 ks vs some_group
                                                          hg.whole (omega (arith, hh))
                                                          (omega (arith, len_is))
                                                          (omega (arith, len_is, hp)) hr.0 hks hvs))
                                                    λ outs houts.
                                                      gives_bind
                                                        (dispatch-Gives hs (heads * hd) proj.o_proj
                                                          (concat outs) hproj.o_shape
                                                          (omega (
                                                            arith,
                                                            length-concat heads hd outs houts,
                                                          )))
                                                        λ result hres.
                                                          gives_bind
                                                            (fills-Gives (length x) result
                                                            (hres ∙ sym hx))
                                                            λ out hout.
                                                            gives_ok
                                                            (λ r.
                                                            (length r.0 ≡ hs)
                                                            × IsCacheFor r.1
                                                            × (r.1.seq_lens
                                                            ≡ set c.seq_lens layer_idx
                                                            (seq_pos + 1)))
                                                            (out, stored) (hout ∙ hx, hst.0, hst.1))

  pub mlp-Gives :
      (x : List F) (gate up down : Layer) (hs inter : ℕ)
      → length x ≡ hs
      → HasShape inter hs gate
      → HasShape inter hs up
      → HasShape hs inter down
      → Gives (mlp_forward x gate up down inter) (HasLength hs)
  unfolding mlp_forward
  mlp-Gives x gate up down hs inter hx hg hu hd =
      gives_bind (dispatch-Gives inter hs gate x hg (omega (arith, hx))) λ g_raw hg0.
        gives_bind (dispatch-Gives inter hs up x hu (omega (arith, hx))) λ u_raw hu0.
          gives_bind (fills-Gives inter g_raw hg0) λ g hg1.
            gives_bind (fills-Gives inter u_raw hu0) λ u hu1.
              let both = length-zip_with (λ a b. o.mul (silu a) b) inter g u hg1 hu1 in
              gives_bind (dispatch-Gives hs inter down _ hd (omega (arith, both))) λ result hr.
                gives_weaken (fills-Gives (length x) result (hr ∙ sym hx)) (λ ys hy. hy ∙ hx)
