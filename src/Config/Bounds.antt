-- ===== src/Config/Bounds.antt =====
-- The dimensions that load_config lets through (src/loader.h).
use mathlib.Core.Path.{subst}
use terllama.Prelude.{ℕ, ◌*◌, ◌/◌, ◌^◌, ◌≤◌, ◌<◌, ◌≡◌, false, not, List, length, ltb, arith}
use native.Mathlib.Nat.{div-mul-le_self}
use terllama.Prelude.Results.{ok, guard_ok, ok_injective}
use terllama.Config.{
  unread, invalid_config, ModelConfig, positive, field, valid, cap, config_of, load_config,
}

-- Sizes that the KV cache and the attention loops rely on.
pub record IsSane (cfg : ModelConfig) : Type 0 where
  pub vocab : (0 < cfg.vocab_size) × (cfg.vocab_size < 2 ^ 31)
  pub hidden : (0 < cfg.hidden_size) × (cfg.hidden_size < 2 ^ 31)
  pub intermediate : (0 < cfg.intermediate_size) × (cfg.intermediate_size < 2 ^ 31)
  pub layers : (0 < cfg.num_hidden_layers) × (cfg.num_hidden_layers < 2 ^ 31)
  pub heads : (0 < cfg.num_attention_heads) × (cfg.num_attention_heads < 2 ^ 31)
  pub kv_heads : (0 < cfg.num_key_value_heads) × (cfg.num_key_value_heads < 2 ^ 31)
  pub context : (0 < cfg.max_position_embeddings) × (cfg.max_position_embeddings ≤ 4096)
  pub head : (0 < cfg.head_dim) × (cfg.head_dim * cfg.num_attention_heads ≤ cfg.hidden_size)

valid-facts :
    (vs hs is nl nah nkv mpe : ℕ)
    → not (valid vs hs is nl nah nkv mpe) ≡ false
    → (0 < vs)
      × (vs < 2 ^ 31)
      × (0 < hs)
      × (hs < 2 ^ 31)
      × (0 < is)
      × (is < 2 ^ 31)
      × (0 < nl)
      × (nl < 2 ^ 31)
      × (0 < nah)
      × (nah < 2 ^ 31)
      × (0 < nkv)
      × (nkv < 2 ^ 31)
      × (0 < hs / nah)
      × (0 < cap mpe)
      × (cap mpe ≤ 4096)
unfolding valid positive cap
valid-facts vs hs is nl nah nkv mpe h = ground arith

-- Every configuration that load_config accepts has positive dimensions below 2^31, a context of 1 to 4096
-- positions, and heads of at least one value that together fit a hidden state.
pub load_config-IsSane :
    (file : List ℕ) (cfg : ModelConfig) → load_config file ≡ ok cfg → IsSane cfg
unfolding load_config
load_config-IsSane file cfg h =
    let (long, h₁) = guard_ok (ltb (length file) 36) unread _ cfg h in
    let (good, h₂) =
      guard_ok
        (not (
          valid (field 0 file) (field 1 file) (field 2 file) (field 3 file) (field 4 file)
            (field 5 file) (field 8 file)))
        invalid_config _ cfg h₁ in
    let (v, v', hd, hd', m, m', l, l', nh, nh', nk, nk', d, c, c') =
      valid-facts (field 0 file) (field 1 file) (field 2 file) (field 3 file) (field 4 file)
        (field 5 file) (field 8 file) good in
    subst IsSane (ok_injective (config_of file) cfg h₂) (record {
      vocab = (v, v');
      hidden = (hd, hd');
      layers = (l, l');
      intermediate = (m, m');
      heads = (nh, nh');
      kv_heads = (nk, nk');
      context = (c, c');
      head = (d, div-mul-le_self (field 1 file) (field 4 file));
    })
