-- ===== src/Inference/Cache.antt =====
-- The key and value cache of one sequence: KVCache of src/inference.h and src/core/inference.cpp.
-- Row `p` of a layer's buffer holds the keys (or values) of all heads at position `p`.
pub mod Rows
pub mod History
use terllama.Prelude.{
  ℕ, ◌+◌, ◌*◌, List, ◌++◌, length, take, drop, set, replicate, if◌then◌else◌, leb,
}
use terllama.Prelude.Int.{ℤ, pos, negsuc}
use terllama.Prelude.Results.{Result, ok, err, ◌>>=◌}
use terllama.Inference.{Error, out_of_bounds, FloatOps, slice, at}
use terllama.Inference.Kernels.{zero_f}

pub record KvCache (F : Type 0) : Type 0 where
  pub max_seq : ℕ
  pub n_layers : ℕ
  pub n_kv_heads : ℕ
  pub head_dim : ℕ
  pub k_cache : List (List F)
  pub v_cache : List (List F)
  pub seq_lens : List ℕ

-- std::copy of `ys` into a buffer, from `start` on.
unfoldable pub write_at : {A : Type 0} → ℕ → List A → List A → Result Error (List A)
write_at start ys xs =
    if leb (start + length ys) (length xs)
    then ok (take start xs ++ (ys ++ drop (start + length ys) xs))
    else err out_of_bounds

module _ {F : Type 0} where
  unfoldable pub new_cache : ⦃o : FloatOps F⦄ → ℕ → ℕ → ℕ → ℕ → KvCache F
  new_cache max_seq n_layers n_kv hd = record {
    max_seq = max_seq;
    n_layers = n_layers;
    n_kv_heads = n_kv;
    head_dim = hd;
    k_cache = replicate n_layers (replicate (max_seq * n_kv * hd) zero_f);
    v_cache = replicate n_layers (replicate (max_seq * n_kv * hd) zero_f);
    seq_lens = replicate n_layers 0;
  }

  -- The numbers in a row.
  abbrev pub row_size : KvCache F → ℕ
  row_size c = c.n_kv_heads * c.head_dim

  unfoldable pub store_row : KvCache F → ℕ → List F → List F → ℕ → Result Error (KvCache F)
  store_row c layer k v p = do
    ks ← at c.k_cache layer
    vs ← at c.v_cache layer
    k_row ← slice 0 (row_size c) k
    v_row ← slice 0 (row_size c) v
    new_ks ← write_at (p * row_size c) k_row ks
    new_vs ← write_at (p * row_size c) v_row vs
    len ← at c.seq_lens layer
    ok (record c {
      k_cache = set c.k_cache layer new_ks;
      v_cache = set c.v_cache layer new_vs;
      seq_lens = set c.seq_lens layer (p + 1);
    })

  -- A position out of range is refused with a warning, and the cache stays as it is.
  unfoldable pub append : KvCache F → ℕ → List F → List F → ℤ → Result Error (KvCache F)
  append c layer k v (negsuc n) = ok c
  append c layer k v (pos p) = if leb c.max_seq p then ok c else store_row c layer k v p

  unfoldable pub cache_length : KvCache F → ℕ → Result Error ℕ
  cache_length c layer = at c.seq_lens layer

  unfoldable pub get_k : KvCache F → ℕ → Result Error (List F)
  get_k c layer = do
    len ← at c.seq_lens layer
    ks ← at c.k_cache layer
    slice 0 (len * row_size c) ks

  unfoldable pub get_v : KvCache F → ℕ → Result Error (List F)
  get_v c layer = do
    len ← at c.seq_lens layer
    vs ← at c.v_cache layer
    slice 0 (len * row_size c) vs
