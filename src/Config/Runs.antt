-- ===== src/Config/Runs.antt =====
-- A header, accepted with its context capped, and one refused.
use terllama.Prelude.{ℕ, ◌≡◌, refl, List, [], ◌∷◌}
use terllama.Prelude.Bytes.{le_bytes, le_word, read_le, words_bytes}
use terllama.Prelude.Results.{ok, err}
use terllama.Config.{invalid_config, ModelConfig, positive, field, valid, cap, load_config}
use terllama.Config.Bounds.{IsSane, load_config-IsSane}

abbrev header : ℕ → List ℕ
header context =
    words_bytes (32000 ∷ 2048 ∷ 5632 ∷ 22 ∷ 32 ∷ 4 ∷ 0x3727c5ac ∷ 0x461c4000 ∷ context ∷ [])

abbrev config : ModelConfig
config = record {
  vocab_size = 32000;
  hidden_size = 2048;
  intermediate_size = 5632;
  num_hidden_layers = 22;
  num_attention_heads = 32;
  num_key_value_heads = 4;
  rms_norm_eps = 0x3727c5ac;
  rope_theta = 0x461c4000;
  max_position_embeddings = 4096;
  head_dim = 64;
}

capped : load_config (header 40960) ≡ ok config
unfolding load_config valid positive field cap read_le le_word le_bytes words_bytes
capped = refl

no_context : load_config (header 0) ≡ err invalid_config
unfolding load_config valid positive field cap read_le le_word le_bytes words_bytes
no_context = refl

load_config-IsSane_example : IsSane config
load_config-IsSane_example = load_config-IsSane (header 40960) config capped
