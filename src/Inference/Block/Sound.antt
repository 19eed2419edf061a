-- ===== src/Inference/Block/Sound.antt =====
-- Models whose files hold all that their configuration names, and a block of such a model
-- (transformer_block of src/core/inference.cpp).
use terllama.Prelude.{ℕ, ◌*◌, ◌≤◌, ◌<◌, ◌≡◌, ◌⊎◌, Option, none, some, length, All, get_elem?}
use terllama.Prelude.Results.{ok}
use terllama.Prelude.Gives.{Gives}
use terllama.ModelFile.{lm_head}
use terllama.Inference.{FloatOps, Layer, NormWeights}
use terllama.Inference.Kernels.Fit.{HasShape}
use terllama.Inference.Cache.{KvCache}
use terllama.Inference.Cache.Rows.{IsCache}
use terllama.Inference.Attention.Lengths.{HasAngles}
use terllama.Inference.Attention.Total.{HasGroups, HasProjections}
use terllama.Inference.Mote.{MoteLayerData}
use terllama.Inference.Mote.Total.{HasExperts}
use terllama.Inference.Index.{MlpIndex, AttnIndex, attn_names, mlp_names, index_from}
use terllama.Inference.Index.Lookup.{IsIndexOf}
use terllama.Inference.Block.{Model, Caches, projections, mote_of}

pub record HasNorms {F : Type 0} (hs : ℕ) (norms : NormWeights F) : Type 0 where
  pub input_room : hs ≤ length norms.input_layernorm
  pub post_room : hs ≤ length norms.post_attention_layernorm
  pub attn_sub_room : (length norms.attn_sub_norm ≡ 0) ⊎ (hs ≤ length norms.attn_sub_norm)
  pub ffn_sub_room : (length norms.ffn_sub_norm ≡ 0) ⊎ (hs ≤ length norms.ffn_sub_norm)

-- The three layers of a block's feed-forward part.
pub record HasStandard {F : Type 0} (m : Model F) (layer_idx : ℕ) : Type 0 where
  pub index : MlpIndex
  pub named : mlp_names m.layers layer_idx ≡ ok index
  pub gate : Layer
  pub up : Layer
  pub down : Layer
  pub gate_at : get_elem? m.layers index.g ≡ some gate
  pub up_at : get_elem? m.layers index.u ≡ some up
  pub down_at : get_elem? m.layers index.d ≡ some down
  pub gate_shape : HasShape m.cfg.intermediate_size m.cfg.hidden_size gate
  pub up_shape : HasShape m.cfg.intermediate_size m.cfg.hidden_size up
  pub down_shape : HasShape m.cfg.hidden_size m.cfg.intermediate_size down

abbrev pub HasFfn : {F : Type 0} → Model F → ℕ → Option (MoteLayerData F) → Type 0
HasFfn m layer_idx none = HasStandard m layer_idx
HasFfn m layer_idx (some mote) = HasExperts m.cfg.hidden_size m.cfg.intermediate_size mote

-- The layers of one block are found by their names and have their shapes.
pub record HasBlock {F : Type 0} (m : Model F) (layer_idx : ℕ) : Type 0 where
  pub index : AttnIndex
  pub named : attn_names m.layers layer_idx ≡ ok index
  pub shapes : Gives (projections m.layers index) (HasProjections m.cfg)
  pub ffn : HasFfn m layer_idx (mote_of (get_elem? m.mote_layers layer_idx))

module _ {F : Type 0} ⦃o : FloatOps F⦄ where
  -- What a loaded model has to hold.
  pub record IsSound (m : Model F) : Type 0 where
    pub groups : HasGroups m.cfg
    pub some_tokens : 0 < m.cfg.vocab_size
    pub embedding_room : m.cfg.vocab_size * m.cfg.hidden_size ≤ length m.embedding
    pub final_room : m.cfg.hidden_size ≤ length m.final_norm
    pub norms_room : m.cfg.num_hidden_layers ≤ length m.layer_norms
    pub norms : All (HasNorms m.cfg.hidden_size) m.layer_norms
    pub angles : HasAngles m.cfg.max_position_embeddings m.cfg.head_dim m.rope
    pub blocks : (i : ℕ) → i < m.cfg.num_hidden_layers → HasBlock m i
    pub head :
        (i : ℕ) (l : Layer)
        → index_from 0 m.layers lm_head ≡ some i
        → get_elem? m.layers i ≡ some l
        → HasShape m.cfg.vocab_size m.cfg.hidden_size l

  module _ (m : Model F) where
    abbrev pub IsKv : KvCache F → Type 0
    IsKv c =
        IsCache m.cfg.max_position_embeddings m.cfg.num_hidden_layers m.cfg.num_key_value_heads
          m.cfg.head_dim c

    -- What a thread keeps between tokens.
    pub record IsReady (s : Caches F) : Type 0 where
      pub kv_ready : IsKv s.kv
      pub idx_ready : IsIndexOf m.snapshot m.layers s.idx
