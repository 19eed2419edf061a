-- ===== src/Inference/Attention.antt =====
-- The arithmetic of one block of the model: rms_norm, apply_rope, attention, silu and mlp_forward of
-- src/core/inference.cpp. A scratch buffer that a thread keeps is a list of the size that is asked for.
pub mod Lengths
pub mod Heads
pub mod Total
use terllama.Prelude.{
  ℕ, ◌+◌, ◌*◌, ◌/◌, not, ◌&&◌, ◌||◌, List, [], ◌∷◌, ◌++◌, map, length, drop, replicate,
  if◌then◌else◌, ◌==◌,
}
use terllama.Prelude.Int.{pos}
use terllama.Prelude.Results.{Result, ok, err, ◌>>=◌}
use terllama.Inference.{
  Error, out_of_bounds, div_by_zero, FloatOps, Layer, ModelConfig, RopeCache, slice, at, fills,
  for_each, for_sum,
}
use terllama.Inference.Kernels.{zero_f, dot, ternary_linear_dispatch}
use terllama.Inference.Cache.{KvCache, append, cache_length}

module _ {A B C : Type 0} where
  abbrev pub zip_with : (A → B → C) → List A → List B → List C
  zip_with f [] ys = []
  zip_with f (x ∷ xs) [] = []
  zip_with f (x ∷ xs) (y ∷ ys) = f x y ∷ zip_with f xs ys

abbrev pub concat : {A : Type 0} → List (List A) → List A
concat [] = []
concat (row ∷ rows) = row ++ concat rows

-- The four projections of a block.
pub record Projections : Type 0 where
  pub q_proj : Layer
  pub k_proj : Layer
  pub v_proj : Layer
  pub o_proj : Layer

module _ {F : Type 0} ⦃o : FloatOps F⦄ where
  open o use {add, sub, mul, div, neg, exp, sqrt, less, of_int, of_bits}

  -- 1.0f
  abbrev pub one_f : F
  one_f = of_bits 0x3F800000

  -- `n` numbers over their root mean square, each times its weight.
  abbrev pub normed : List F → ℕ → F → List F → List F
  normed weight n eps x =
      let rms = div one_f (sqrt (add (div (dot zero_f x x) (of_int (pos n))) eps)) in
      zip_with (λ v w. mul v (mul w rms)) x weight

  unfoldable pub rms_norm : List F → List F → ℕ → F → Result Error (List F)
  rms_norm x weight n eps = do
    front ← slice 0 n x
    ws ← slice 0 n weight
    ok (normed ws n eps front ++ drop n x)

  -- What each head makes of its part of a vector.
  unfoldable pub per_head : (List F → List F) → ℕ → ℕ → List F → Result Error (List F)
  per_head f n_heads head_dim xs = do
    rows ← for_each (λ h. slice (h * head_dim) head_dim xs >>= λ row. ok (f row)) 0 n_heads
    ok (concat rows)

  -- The norm of the heads is left out where the model has none.
  unfoldable pub head_norms : List F → ℕ → ℕ → F → List F → Result Error (List F)
  head_norms weight n_heads head_dim eps xs =
      if not (length weight == 0) && (length weight == head_dim)
      then per_head (normed weight head_dim eps) n_heads head_dim xs
      else ok xs

  -- Pairs of neighbours are turned by the angles of the position.
  abbrev pub rotate : List F → List F → List F → List F
  rotate [] cs xs = xs
  rotate (s ∷ ss) [] xs = xs
  rotate (s ∷ ss) (c ∷ cs) [] = []
  rotate (s ∷ ss) (c ∷ cs) (x0 ∷ []) = x0 ∷ []
  rotate (s ∷ ss) (c ∷ cs) (x0 ∷ x1 ∷ xs) =
      sub (mul x0 c) (mul x1 s) ∷ add (mul x0 s) (mul x1 c) ∷ rotate ss cs xs

  unfoldable pub apply_rope :
      List F → List F → ℕ → ℕ → ℕ → ℕ → RopeCache F → Result Error (List F × List F)
  apply_rope q k seq_pos n_heads n_kv_heads head_dim rope = do
    sin ← slice (seq_pos * (head_dim / 2)) (head_dim / 2) rope.sin
    cos ← slice (seq_pos * (head_dim / 2)) (head_dim / 2) rope.cos
    roped_q ← per_head (rotate sin cos) n_heads head_dim q
    roped_k ← per_head (rotate sin cos) n_kv_heads head_dim k
    ok (roped_q, roped_k)

  -- std::max_element: the first of the greatest.
  abbrev pub greatest : F → List F → F
  greatest best [] = best
  greatest best (x ∷ xs) = greatest (if less best x then x else best) xs

  abbrev pub sum_of : F → List F → F
  sum_of acc [] = acc
  sum_of acc (x ∷ xs) = sum_of (add acc x) xs

  unfoldable pub max_value : List F → Result Error F
  max_value [] = err out_of_bounds
  max_value (x ∷ xs) = ok (greatest x xs)

  unfoldable pub softmax : List F → Result Error (List F)
  softmax scores = do
    maxv ← max_value scores
    let exps = map (λ s. exp (sub s maxv)) scores
    ok (map (λ e. div e (sum_of zero_f exps)) exps)

  unfoldable pub score_row : ℕ → ℕ → ℕ → List F → List F → ℕ → Result Error (List F)
  score_row n_kv_heads head_dim kv_len k_cache_row qh kh =
      for_each
        (λ t. slice (kh * head_dim + t * n_kv_heads * head_dim) head_dim k_cache_row >>= λ kt.
          ok (div (dot zero_f qh kt) (sqrt (of_int (pos head_dim)))))
        0 kv_len

  unfoldable pub mix_row : ℕ → ℕ → ℕ → List F → List F → ℕ → Result Error (List F)
  mix_row n_kv_heads head_dim kv_len v_cache_row scores kh =
      for_sum
        (λ t outh. at scores t >>= λ score.
          slice (kh * head_dim + t * n_kv_heads * head_dim) head_dim v_cache_row >>= λ vt.
          ok (zip_with (λ out v. add out (mul score v)) outh vt))
        0 kv_len (replicate head_dim zero_f)

  -- One head over all positions of the cache. `group` heads share a head of the cache.
  unfoldable pub head_out : ℕ → ℕ → ℕ → ℕ → List F → List F → List F → ℕ → Result Error (List F)
  head_out group n_kv_heads head_dim kv_len q k_cache_row v_cache_row h = do
    qh ← slice (h * head_dim) head_dim q
    raw ← score_row n_kv_heads head_dim kv_len k_cache_row qh (h / group)
    scores ← softmax raw
    mix_row n_kv_heads head_dim kv_len v_cache_row scores (h / group)

  unfoldable pub attention :
      List F
      → ℕ
      → ModelConfig F
      → Projections
      → List F
      → List F
      → RopeCache F
      → KvCache F
      → ℕ
      → Result Error (List F × KvCache F)
  attention x seq_pos cfg proj q_norm k_norm rope cache layer_idx =
      let heads = cfg.num_attention_heads in
      let kv_heads = cfg.num_key_value_heads in
      let hd = cfg.head_dim in
      let group = heads / kv_heads in
      if (kv_heads == 0) || (group == 0) then err div_by_zero else (do
        q_raw ← ternary_linear_dispatch proj.q_proj x
        k_raw ← ternary_linear_dispatch proj.k_proj x
        v_raw ← ternary_linear_dispatch proj.v_proj x
        q ← fills (heads * hd) q_raw
        k ← fills (kv_heads * hd) k_raw
        v ← fills (kv_heads * hd) v_raw
        q_normed ← head_norms q_norm heads hd cfg.rms_norm_eps q
        k_normed ← head_norms k_norm kv_heads hd cfg.rms_norm_eps k
        roped ← apply_rope q_normed k_normed seq_pos heads kv_heads hd rope
        stored ← append cache layer_idx roped.1 v (pos seq_pos)
        kv_len ← cache_length stored layer_idx
        k_cache_row ← at stored.k_cache layer_idx
        v_cache_row ← at stored.v_cache layer_idx
        outs ← for_each (head_out group kv_heads hd kv_len roped.0 k_cache_row v_cache_row) 0 heads
        result ← ternary_linear_dispatch proj.o_proj (concat outs)
        out ← fills (length x) result
        ok (out, stored))

  abbrev pub silu : F → F
  silu x = div x (add one_f (exp (neg x)))

  unfoldable pub mlp_forward : List F → Layer → Layer → Layer → ℕ → Result Error (List F)
  mlp_forward x gate_proj up_proj down_proj intermediate_size = do
    gate_raw ← ternary_linear_dispatch gate_proj x
    up_raw ← ternary_linear_dispatch up_proj x
    gate ← fills intermediate_size gate_raw
    up ← fills intermediate_size up_raw
    result ← ternary_linear_dispatch down_proj (zip_with (λ g u. mul (silu g) u) gate up)
    fills (length x) result
