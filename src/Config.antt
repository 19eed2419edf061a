-- ===== src/Config.antt =====
-- The header of model_extra.bin: load_config of src/loader.h and ModelConfig of src/model.h.
-- An int32_t is its 32-bit pattern; it is above 0 when the pattern is, and is below 2^31. A file too short for
-- the nine fields leaves some of them unset, which is `unread` here.
pub mod Bounds
mod Runs
use terllama.Prelude.{
  ℕ, ◌+◌, ◌*◌, ◌/◌, ◌^◌, Bool, true, false, not, ◌&&◌, List, length, if◌then◌else◌, leb, ltb,
}
use terllama.Prelude.Bytes.{read_le}
use terllama.Prelude.Results.{Result, ok, err}

pub data Error : Type 0 where
  unread : Error
  invalid_config : Error

pub record ModelConfig : Type 0 where
  pub vocab_size : ℕ
  pub hidden_size : ℕ
  pub intermediate_size : ℕ
  pub num_hidden_layers : ℕ
  pub num_attention_heads : ℕ
  pub num_key_value_heads : ℕ
  pub rms_norm_eps : ℕ
  pub rope_theta : ℕ
  pub max_position_embeddings : ℕ
  pub head_dim : ℕ

-- `v > 0` of an int32_t.
unfoldable pub positive : ℕ → Bool
positive v = ltb 0 v && ltb v (2 ^ 31)

unfoldable pub field : ℕ → List ℕ → ℕ
field i file = read_le 4 (4 * i) file

unfoldable pub valid : ℕ → ℕ → ℕ → ℕ → ℕ → ℕ → ℕ → Bool
valid vs hs is nl nah nkv mpe =
    positive vs
    && positive hs
    && positive is
    && positive nl
    && positive nah
    && positive nkv
    && ltb 0 (hs / nah)
    && positive mpe
    && leb mpe 1000000

unfoldable pub cap : ℕ → ℕ
cap mpe = if ltb 4096 mpe then 4096 else mpe

abbrev pub config_of : List ℕ → ModelConfig
config_of file = record {
  vocab_size = field 0 file;
  hidden_size = field 1 file;
  intermediate_size = field 2 file;
  num_hidden_layers = field 3 file;
  num_attention_heads = field 4 file;
  num_key_value_heads = field 5 file;
  rms_norm_eps = field 6 file;
  rope_theta = field 7 file;
  max_position_embeddings = cap (field 8 file);
  head_dim = field 1 file / field 4 file;
}

unfoldable pub load_config : List ℕ → Result Error ModelConfig
load_config file =
    if ltb (length file) 36
    then err unread
    else if not (
        valid (field 0 file) (field 1 file) (field 2 file) (field 3 file) (field 4 file)
          (field 5 file) (field 8 file))
    then err invalid_config
    else ok (config_of file)
