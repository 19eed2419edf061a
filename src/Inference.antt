-- ===== src/Inference.antt =====
-- One model on one machine: the inference of src/core/inference.cpp with the structures of src/inference.h and
-- src/model.h, the scalar kernels of src/kernel_scalar.cpp and src/kernel_avx2.cpp that src/dispatcher.cpp
-- chooses on a processor without vector units, and the experts of src/kernel_mote.cpp.
-- Floats and their operations are an instance of FloatOps. An index into a vector that is out of its
-- bounds, which the source leaves undefined, is the error out_of_bounds. Printing and timing are left out.
pub mod Totals
pub mod Kernels
pub mod Mote
pub mod Cache
pub mod Attention
pub mod Index
pub mod Block
pub mod Sampling
pub mod Generate
pub mod Runs
use terllama.Prelude.{
  ℕ, ◌+◌, Bool, List, length, take, drop, if◌then◌else◌, leb, ◌==◌, Option, none, some, get_elem?,
  zero, suc, ◌∷◌, [],
}
use terllama.Prelude.Int.{ℤ}
use terllama.Prelude.Results.{Result, ok, err, ◌>>=◌}
use terllama.AlsLayer.{LayerData}

pub data Error : Type 0 where
  out_of_bounds : Error
  div_by_zero : Error
  layer_not_found : Error
  bad_tables : Error

-- IEEE single precision. `of_bits` is the float of a 32-bit pattern, `of_int` the conversion of an int.
pub record FloatOps (F : Type 0) : Type 0 where
  pub add : F → F → F
  pub sub : F → F → F
  pub mul : F → F → F
  pub div : F → F → F
  pub neg : F → F
  pub exp : F → F
  pub sqrt : F → F
  pub less : F → F → Bool
  pub of_int : ℤ → F
  pub of_bits : ℕ → F
  pub ldexp : F → ℤ → F

-- A term of the old layout: the exponent, and the words of its bit planes.
pub record BitplaneTerm : Type 0 where
  pub alpha_exp : ℤ
  pub combined : List ℕ

-- A layer with its name and its old terms; `typed` holds the fields that the loader's tables are about.
pub record Layer : Type 0 where
  pub name : List ℕ
  pub num_terms : ℕ
  pub terms : List BitplaneTerm
  pub typed : LayerData

pub record ModelConfig (F : Type 0) : Type 0 where
  pub vocab_size : ℕ
  pub hidden_size : ℕ
  pub intermediate_size : ℕ
  pub num_hidden_layers : ℕ
  pub num_attention_heads : ℕ
  pub num_key_value_heads : ℕ
  pub head_dim : ℕ
  pub max_position_embeddings : ℕ
  pub rms_norm_eps : F
  pub eos_token_id : ℤ

pub record NormWeights (F : Type 0) : Type 0 where
  pub input_layernorm : List F
  pub post_attention_layernorm : List F
  pub attn_sub_norm : List F
  pub ffn_sub_norm : List F
  pub q_norm : List F
  pub k_norm : List F

pub record RopeCache (F : Type 0) : Type 0 where
  pub sin : List F
  pub cos : List F

module _ {A : Type 0} where
  -- `n` elements from `start` on.
  unfoldable pub slice : ℕ → ℕ → List A → Result Error (List A)
  slice start n xs =
      if leb (start + n) (length xs) then ok (take n (drop start xs)) else err out_of_bounds

  abbrev pub found : Option A → Result Error A
  found none = err out_of_bounds
  found (some a) = ok a

  unfoldable pub at : List A → ℕ → Result Error A
  at xs i = found (get_elem? xs i)

  -- What a buffer of `n` elements holds after a write of all of them. A write that is longer overruns it,
  -- and after a shorter one the end would be what an earlier token left there.
  unfoldable pub fills : ℕ → List A → Result Error (List A)
  fills n xs = if length xs == n then ok xs else err out_of_bounds

  -- A loop whose turn `i` computes element `i` of the result.
  unfoldable pub for_each : (ℕ → Result Error A) → ℕ → ℕ → Result Error (List A)
  for_each turn i zero = ok []
  for_each turn i (suc todo) = do a ← turn i; rest ← for_each turn (suc i) todo; ok (a ∷ rest)

  -- A loop over `i` that updates one value.
  unfoldable pub for_sum : (ℕ → A → Result Error A) → ℕ → ℕ → A → Result Error A
  for_sum turn i zero a = ok a
  for_sum turn i (suc todo) a = do b ← turn i a; for_sum turn (suc i) todo b
