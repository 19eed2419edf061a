-- ===== src/Server/Admission.antt =====
-- Admission under the memory limit, with any number of requests at once (try_reserve_request and
-- RequestGuard of src/server/handlers.cpp). The check and the reservation hold one mutex, so that the
-- requests of all threads make a sequence of steps. Loading and unloading the model are not among the steps.
use terllama.Prelude.{
  ℕ, zero, suc, ◌+◌, ◌-◌, ◌*◌, ◌≤◌, ◌<◌, ◌≡◌, refl, ap, sym, ◌∙◌, ◌⊎◌, inl, inr, Bool, true, false,
  ◌&&◌, List, [], ◌∷◌, length, replicate, length-replicate, arith, ltb, Bool-cases,
}
use mathlib.Core.Path.{subst}
use native.Mathlib.Nat.{mul-le-mul_right, add-mul, mul_assoc}
use terllama.Inference.{FloatOps}
use terllama.Inference.Kernels.{zero_f}
use terllama.Inference.Cache.{KvCache, new_cache}
use terllama.Inference.{Layer, NormWeights, BitplaneTerm}
use terllama.Inference.Block.{Model}
use terllama.Server.{
  layer_bytes, norm_bytes, sum_by, State, try_reserve_request, release, get_model_size_bytes,
  get_kv_cache_size_bytes,
}

fewer : (n k model limit : ℕ) → model + n * k ≤ limit → model + (n - 1) * k ≤ limit
fewer n k model limit h = omega (arith, h, mul-le-mul_right {m = n - 1} {n = n} k (omega arith))

at_once :
    (n k k' model model' limit limit' : ℕ)
    → model' ≡ model
    → k' ≡ k
    → limit' ≡ limit
    → model + n * k ≤ limit
    → model' + n * k' ≤ limit'
at_once n k k' model model' limit limit' em ek el h = rw (em, ek, el) h

module _ {F : Type 0} where
  -- A thread reserves a slot, is refused, or gives its slot back.
  pub data Step : State F → State F → Type 0 where
    reserve : {s t : State F} → try_reserve_request s ≡ (true, t) → Step s t
    refuse : {s t : State F} → try_reserve_request s ≡ (false, t) → Step s t
    finish : {s t : State F} → 0 < s.active_requests → t ≡ release s → Step s t

  pub data Reach (s : State F) : State F → Type 0 where
    here : Reach s s
    next : {t u : State F} → Reach s t → Step t u → Reach s u

  -- The server's own estimate of what the model and the caches of the requests in flight take.
  abbrev pub in_use : State F → ℕ
  in_use s = get_model_size_bytes s + s.active_requests * get_kv_cache_size_bytes s

  -- Nothing is in flight, or all that is fits.
  abbrev pub IsWithin : State F → Type 0
  IsWithin s = (s.active_requests ≡ 0) ⊎ (in_use s ≤ s.memory_limit)

  -- The steps leave the model and the limit.
  pub record SameModel (s t : State F) : Type 0 where
    pub same_loaded : t.loaded ≡ s.loaded
    pub limit : t.memory_limit ≡ s.memory_limit
    pub model_size : get_model_size_bytes t ≡ get_model_size_bytes s
    pub kv_size : get_kv_cache_size_bytes t ≡ get_kv_cache_size_bytes s

  abbrev pub with_active : State F → ℕ → State F
  with_active s n = record s { active_requests = n }

  pub with_active-SameModel : (s : State F) (n : ℕ) → SameModel s (with_active s n)
  unfolding get_model_size_bytes get_kv_cache_size_bytes
  with_active-SameModel s n = record {
    same_loaded = refl;
    limit = refl;
    model_size = refl;
    kv_size = refl;
  }

  -- What an answer of try_reserve_request means.
  unfoldable pub Reserved : State F → Bool → State F → Type 0
  Reserved s true t =
      (t ≡ with_active s (s.active_requests + 1))
      × (0 < s.memory_limit
          → get_model_size_bytes s + (s.active_requests + 1) * get_kv_cache_size_bytes s
            ≤ s.memory_limit)
  Reserved s false t = t ≡ s

  pub reserved_lem : (s : State F) → Reserved s (try_reserve_request s).0 (try_reserve_request s).1
  unfolding try_reserve_request Reserved
  reserved_lem s =
      let projected =
        get_model_size_bytes s + (s.active_requests + 1) * get_kv_cache_size_bytes s in
      elim (Bool-cases (ltb 0 s.memory_limit && ltb s.memory_limit projected)) [
        | inl e ↦ rw e refl
        | inr e ↦ rw e (refl, λ h. ground (arith, e, h))
      ]

  reserved : (s t : State F) (b : Bool) → try_reserve_request s ≡ (b, t) → Reserved s b t
  reserved s t b h = subst (λ (r : Bool × State F). Reserved s r.0 r.1) h (reserved_lem s)

  Step-SameModel : {s t : State F} → Step s t → SameModel s t
  unfolding release Reserved
  Step-SameModel {s} {t} (reserve h) =
      rw (reserved s t true h).0 (with_active-SameModel s (s.active_requests + 1))
  Step-SameModel {s} {t} (refuse h) =
      rw (reserved s t false h)
        (record { same_loaded = refl; limit = refl; model_size = refl; kv_size = refl })
  Step-SameModel {s} {t} (finish some_active e) =
      rw e (with_active-SameModel s (s.active_requests - 1))

  after_finish : (s : State F) → IsWithin s → IsWithin (with_active s (s.active_requests - 1))
  unfolding get_model_size_bytes get_kv_cache_size_bytes
  after_finish s (inl none_active) = inl (omega (arith, none_active))
  after_finish s (inr fits) = inr (
      fewer s.active_requests (get_kv_cache_size_bytes s) (get_model_size_bytes s) s.memory_limit
        fits)

  after_reserve :
      (s : State F)
      → get_model_size_bytes s + (s.active_requests + 1) * get_kv_cache_size_bytes s
        ≤ s.memory_limit
      → IsWithin (with_active s (s.active_requests + 1))
  unfolding get_model_size_bytes get_kv_cache_size_bytes
  after_reserve s fits = inr fits

  Step-IsWithin : {s t : State F} → 0 < s.memory_limit → Step s t → IsWithin s → IsWithin t
  unfolding release Reserved
  Step-IsWithin {s} {t} limited (reserve h) w =
      let (is, fits) = reserved s t true h in
      subst IsWithin (sym is) (after_reserve s (fits limited))
  Step-IsWithin {s} {t} limited (refuse h) w = subst IsWithin (sym (reserved s t false h)) w
  Step-IsWithin {s} {t} limited (finish some_active e) w = subst IsWithin (sym e) (after_finish s w)

  Reach-SameModel : {s t : State F} → Reach s t → SameModel s t
  Reach-SameModel here = record {
    same_loaded = refl;
    limit = refl;
    model_size = refl;
    kv_size = refl;
  }
  Reach-SameModel (next {t} reach step) =
      let before = Reach-SameModel reach in
      let after = Step-SameModel step in
      record {
        same_loaded = after.same_loaded ∙ before.same_loaded;
        limit = after.limit ∙ before.limit;
        model_size = after.model_size ∙ before.model_size;
        kv_size = after.kv_size ∙ before.kv_size;
      }

  Reach-kept : {s t : State F} → 0 < s.memory_limit → IsWithin s → Reach s t → IsWithin t
  Reach-kept limited w here = w
  Reach-kept {s} limited w (next {t} reach step) =
      Step-IsWithin (subst (λ (n : ℕ). 0 < n) (sym (Reach-SameModel reach).limit) limited) step
        (Reach-kept limited w reach)

-- What is counted of a model: 4 bytes for each float of its embedding, its final norm, the two norms around the
-- attention of each layer, its rotary tables and its raw weights, and for each word of its bit planes, and
-- the bytes of the codes of its blocks.
abbrev layer_words : Layer → ℕ
layer_words l = length l.typed.raw_weights + sum_by (λ t. length t.combined) l.terms

abbrev layer_codes : Layer → ℕ
layer_codes l = sum_by (λ blocks. sum_by (λ b. length b.packed) blocks) l.typed.block_terms

abbrev norm_floats : {F : Type 0} → NormWeights F → ℕ
norm_floats w = length w.input_layernorm + length w.post_attention_layernorm

unfoldable pub counted_bytes : {F : Type 0} → Model F → ℕ
counted_bytes m =
    4
      * (length m.embedding
          + length m.final_norm
          + sum_by (λ w. norm_floats w) m.layer_norms
          + length m.rope.sin
          + length m.rope.cos
          + sum_by layer_words m.layers)
    + sum_by layer_codes m.layers

norms_counted :
    {F : Type 0} (ws : List (NormWeights F))
    → sum_by (λ w. norm_bytes w) ws ≡ 4 * sum_by (λ w. norm_floats w) ws
norms_counted [] = refl
norms_counted (w ∷ ws) = omega (arith, norms_counted ws)

planes_counted :
    (ts : List BitplaneTerm)
    → sum_by (λ t. length t.combined * 4) ts ≡ 4 * sum_by (λ t. length t.combined) ts
planes_counted [] = refl
planes_counted (t ∷ ts) = omega (arith, planes_counted ts)

layers_counted :
    (ls : List Layer) → sum_by layer_bytes ls ≡ 4 * sum_by layer_words ls + sum_by layer_codes ls
layers_counted [] = refl
layers_counted (l ∷ ls) = omega (arith, layers_counted ls, planes_counted l.terms)

pub get_model-counted_bytes :
    {F : Type 0} (s : State F) → s.loaded ≡ true → get_model_size_bytes s ≡ counted_bytes s.model
unfolding get_model_size_bytes counted_bytes
get_model-counted_bytes s up =
    rw up (omega (arith, norms_counted s.model.layer_norms, layers_counted s.model.layers))

abbrev floats : {F : Type 0} → List (List F) → ℕ
floats rows = sum_by length rows

floats-replicate : {F : Type 0} (n : ℕ) (row : List F) → floats (replicate n row) ≡ n * length row
floats-replicate zero row = omega arith
floats-replicate (suc n) row = omega (arith, floats-replicate n row, add-mul 1 n (length row))

four_factors : (a b c d : ℕ) → a * b * c * d ≡ a * (b * c * d)
four_factors a b c d = ap (λ (n : ℕ). n * d) (mul_assoc a b c) ∙ mul_assoc a (b * c) d

module _ {F : Type 0} ⦃o : FloatOps F⦄ where
  -- The cache that generation makes for a sequence: 4 bytes for each float of its keys and its values.
  unfoldable pub cache_bytes : State F → ℕ
  cache_bytes s =
      let cfg = s.model.cfg in
      let c : KvCache F =
        new_cache cfg.max_position_embeddings cfg.num_hidden_layers cfg.num_key_value_heads
          cfg.head_dim in
      4 * (floats c.k_cache + floats c.v_cache)

  -- The estimate of a loaded model's cache is its size.
  pub get_kv-cache_bytes :
      (s : State F) → s.loaded ≡ true → get_kv_cache_size_bytes s ≡ cache_bytes s
  unfolding get_kv_cache_size_bytes cache_bytes new_cache
  get_kv-cache_bytes s up =
      let cfg = s.model.cfg in
      let size = cfg.max_position_embeddings * cfg.num_key_value_heads * cfg.head_dim in
      let row : List F = replicate size zero_f in
      let all : floats (replicate cfg.num_hidden_layers row) ≡ cfg.num_hidden_layers * size =
        floats-replicate cfg.num_hidden_layers row
        ∙ ap (λ (n : ℕ). cfg.num_hidden_layers * n) (length-replicate size zero_f) in
      let same =
        four_factors cfg.num_hidden_layers cfg.max_position_embeddings cfg.num_key_value_heads
          cfg.head_dim in
      rw up (omega (arith, all, same))

  -- What fits by the estimates fits.
  pub at_sizes :
      (t : State F) (n limit : ℕ)
      → t.loaded ≡ true
      → get_model_size_bytes t + n * get_kv_cache_size_bytes t ≤ limit
      → counted_bytes t.model + n * cache_bytes t ≤ limit
  at_sizes t n limit up h = rw (sym (get_model-counted_bytes t up), sym (get_kv-cache_bytes t up)) h

  -- From an idle server with a memory limit and a loaded model, and as long as the model is neither unloaded nor
  -- loaded anew, however the reservations and releases of all threads interleave: unless nothing is in
  -- flight, the floats of the model's embedding, norms around the attention, rotary tables and raw weights
  -- and the words of its bit planes, 4 bytes each, the codes of its blocks, and for each request in flight
  -- the keys and values of a whole cache, 4 bytes a float, do not take more than the limit together.
  pub Reach-IsWithin :
      (s t : State F)
      → 0 < s.memory_limit
      → s.active_requests ≡ 0
      → s.loaded ≡ true
      → Reach s t
      → (t.active_requests ≡ 0)
        ⊎ (counted_bytes t.model + t.active_requests * cache_bytes t ≤ s.memory_limit)
  Reach-IsWithin s t limited idle up reach =
      let same = Reach-SameModel reach in
      let within : (t.active_requests ≡ 0) ⊎ (in_use t ≤ s.memory_limit) =
        subst (λ (n : ℕ). (t.active_requests ≡ 0) ⊎ (in_use t ≤ n)) same.limit
          (Reach-kept limited (inl idle) reach) in
      elim within [
        | inl none_active ↦ inl none_active
        | inr fits ↦ inr (at_sizes t t.active_requests s.memory_limit (same.same_loaded ∙ up) fits)
      ]
