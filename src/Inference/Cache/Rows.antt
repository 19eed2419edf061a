-- ===== src/Inference/Cache/Rows.antt =====
-- What the cache of keys and values keeps (KVCache of src/core/inference.cpp).
use terllama.Prelude.{
  ℕ, ◌+◌, ◌*◌, ◌≤◌, ◌<◌, ◌≡◌, refl, ◌∙◌, true, false, some, List, ◌++◌, length, take, drop, set,
  replicate, All, arith, leb, get_elem?, get_elem?-some, All-set, All-get, All-replicate,
  length-set, length-append, length-take, length-drop, length-replicate, take_all,
}
use native.Mathlib.Nat.{mul_assoc}
use terllama.Prelude.Int.{pos}
use terllama.Prelude.Results.{ok}
use terllama.Prelude.Gives.{Gives}
use terllama.Inference.{FloatOps, slice}
use terllama.Inference.Totals.{HasLength, row_end, at_found}
use terllama.Inference.Kernels.{zero_f}
use terllama.Inference.Cache.{KvCache, row_size, write_at, store_row, append, new_cache}

-- A cache of `layers` layers with room for `max_seq` rows of `size` numbers.
pub record IsCache {F : Type 0} (max_seq layers heads hd : ℕ) (c : KvCache F) : Type 0 where
  pub seq : c.max_seq ≡ max_seq
  pub heads_is : c.n_kv_heads ≡ heads
  pub hd_is : c.head_dim ≡ hd
  pub k_layers : length c.k_cache ≡ layers
  pub v_layers : length c.v_cache ≡ layers
  pub lens : length c.seq_lens ≡ layers
  pub k_rooms : All (HasLength (max_seq * (heads * hd))) c.k_cache
  pub v_rooms : All (HasLength (max_seq * (heads * hd))) c.v_cache
  pub below : All (λ n. n ≤ max_seq) c.seq_lens

module _ {F : Type 0} where
  -- A buffer after row `p` was written.
  abbrev pub with_row : ℕ → ℕ → List F → List F → List F
  with_row p size row xs = take (p * size) xs ++ (row ++ drop (p * size + size) xs)

  -- The cache after row `p` of a layer was appended.
  abbrev pub appended : ℕ → KvCache F → ℕ → ℕ → List F → List F → List F → List F → KvCache F
  appended size c layer p k v ks vs = record c {
    k_cache = set c.k_cache layer (with_row p size k ks);
    v_cache = set c.v_cache layer (with_row p size v vs);
    seq_lens = set c.seq_lens layer (p + 1);
  }

  pub length-with_row :
      (p size n : ℕ) (row xs : List F)
      → length row ≡ size
      → length xs ≡ n
      → p * size + size ≤ n
      → length (with_row p size row xs) ≡ n
  length-with_row p size n row xs hr hx fits = omega (
    arith,
    length-append (take (p * size) xs) (row ++ drop (p * size + size) xs),
    length-append row (drop (p * size + size) xs),
    length-take (p * size) xs,
    length-drop (p * size + size) xs,
    hr,
    hx,
    fits,
  )

  slice_all : (n : ℕ) (xs : List F) → length xs ≡ n → slice 0 n xs ≡ ok xs
  unfolding slice
  slice_all n xs h =
      let fits : leb (0 + n) (length xs) ≡ true = ground (arith, h) in
      let whole : take n xs ≡ xs = take_all n xs (omega (arith, h)) in rw (fits, whole) refl

  write_row :
      (p size : ℕ) (row xs : List F)
      → length row ≡ size
      → p * size + size ≤ length xs
      → write_at (p * size) row xs ≡ ok (with_row p size row xs)
  unfolding write_at
  write_row p size row xs hr fits =
      let room : leb (p * size + size) (length xs) ≡ true = ground (arith, fits) in
      rw (hr, room) refl

module _ {F : Type 0} (max_seq layers heads hd : ℕ) (c : KvCache F)
    (hc : IsCache max_seq layers heads hd c) (layer p : ℕ) (k v : List F) (hl : layer < layers)
    (hp : p < max_seq) (hk : length k ≡ heads * hd) (hv : length v ≡ heads * hd) where
  -- The exact effect of an append in range.
  pub append-eq :
      (ks vs : List F)
      → get_elem? c.k_cache layer ≡ some ks
      → get_elem? c.v_cache layer ≡ some vs
      → append c layer k v (pos p) ≡ ok (appended (heads * hd) c layer p k v ks vs)
  unfolding append store_row
  append-eq ks vs at_k at_v =
      let (len, at_len) = get_elem?-some layer c.seq_lens (omega (arith, hc.lens, hl)) in
      let in_range : leb c.max_seq p ≡ false = ground (arith, hc.seq, hp) in
      let size : row_size c ≡ heads * hd = rw (hc.heads_is, hc.hd_is) refl in
      let k_room =
        All-get (HasLength (max_seq * (heads * hd))) c.k_cache layer ks hc.k_rooms at_k in
      let v_room =
        All-get (HasLength (max_seq * (heads * hd))) c.v_cache layer vs hc.v_rooms at_v in
      let fits = row_end p (heads * hd) max_seq hp in
      simp (
        in_range,
        at_found c.k_cache layer ks at_k,
        at_found c.v_cache layer vs at_v,
        hc.heads_is,
        hc.hd_is,
        slice_all (heads * hd) k hk,
        slice_all (heads * hd) v hv,
        write_row p (heads * hd) k ks hk (omega (arith, k_room, fits)),
        write_row p (heads * hd) v vs hv (omega (arith, v_room, fits)),
        at_found c.seq_lens layer len at_len,
      )

  pub appended-IsCache :
      (ks vs : List F)
      → get_elem? c.k_cache layer ≡ some ks
      → get_elem? c.v_cache layer ≡ some vs
      → IsCache max_seq layers heads hd (appended (heads * hd) c layer p k v ks vs)
  appended-IsCache ks vs at_k at_v =
      let room = max_seq * (heads * hd) in
      let fits = row_end p (heads * hd) max_seq hp in
      record {
        seq = hc.seq;
        heads_is = hc.heads_is;
        hd_is = hc.hd_is;
        k_layers = length-set c.k_cache layer (with_row p (heads * hd) k ks) ∙ hc.k_layers;
        v_layers = length-set c.v_cache layer (with_row p (heads * hd) v vs) ∙ hc.v_layers;
        lens = length-set c.seq_lens layer (p + 1) ∙ hc.lens;
        k_rooms =
            All-set (HasLength room) c.k_cache layer (with_row p (heads * hd) k ks) hc.k_rooms (
              length-with_row p (heads * hd) room k ks hk
                (All-get (HasLength room) c.k_cache layer ks hc.k_rooms at_k) fits);
        v_rooms =
            All-set (HasLength room) c.v_cache layer (with_row p (heads * hd) v vs) hc.v_rooms (
              length-with_row p (heads * hd) room v vs hv
                (All-get (HasLength room) c.v_cache layer vs hc.v_rooms at_v) fits);
        below = All-set (λ n. n ≤ max_seq) c.seq_lens layer (p + 1) hc.below (omega (arith, hp));
      }

  -- An append in range succeeds, keeps the cache whole and makes the layer `p + 1` long.
  pub append-Gives :
      Gives
        (append c layer k v (pos p))
        (λ c'. IsCache max_seq layers heads hd c' × (c'.seq_lens ≡ set c.seq_lens layer (p + 1)))
  append-Gives =
      let (ks, at_k) = get_elem?-some layer c.k_cache (omega (arith, hc.k_layers, hl)) in
      let (vs, at_v) = get_elem?-some layer c.v_cache (omega (arith, hc.v_layers, hl)) in
      record {
        value = appended (heads * hd) c layer p k v ks vs;
        is = append-eq ks vs at_k at_v;
        holds = (appended-IsCache ks vs at_k at_v, refl);
      }

pub new_cache-IsCache :
    {F : Type 0} ⦃o : FloatOps F⦄ (max_seq layers heads hd : ℕ)
    → IsCache {F = F} max_seq layers heads hd (new_cache max_seq layers heads hd)
unfolding new_cache
new_cache-IsCache {F} max_seq layers heads hd =
    let at_start : 0 ≤ max_seq = omega arith in
    let room : length (replicate (max_seq * heads * hd) zero_f) ≡ max_seq * (heads * hd) =
      length-replicate (max_seq * heads * hd) zero_f ∙ mul_assoc max_seq heads hd in
    let buffer = replicate (max_seq * heads * hd) zero_f in
    record {
      seq = refl;
      heads_is = refl;
      hd_is = refl;
      k_layers = length-replicate layers buffer;
      v_layers = length-replicate layers buffer;
      lens = length-replicate layers 0;
      k_rooms = All-replicate (HasLength (max_seq * (heads * hd))) layers buffer room;
      v_rooms = All-replicate (HasLength (max_seq * (heads * hd))) layers buffer room;
      below = All-replicate (λ n. n ≤ max_seq) layers 0 at_start;
    }
