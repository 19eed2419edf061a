-- ===== src/Inference/Cache/History.antt =====
-- A layer's part of the cache after rows were appended at one position after the other
-- (KVCache of src/core/inference.cpp).
use terllama.Prelude.{
  ℕ, suc, ◌+◌, ◌*◌, ◌≤◌, ◌<◌, ◌≡◌, refl, sym, true, some, List, [], ◌∷◌, ◌++◌, map, length, take,
  drop, replicate, All, arith, leb, get_elem?, get_elem?-set_self, get_elem?-replicate, All-get,
  length-append, length-take, take-append_left,
}
use mathlib.Core.List.{append_assoc, append-nil, map-append}
use native.Mathlib.Nat.{add-mul, mul-le-mul_right, zero-mul}
use terllama.Prelude.Int.{pos}
use terllama.Prelude.Results.{Result, ok, ◌>>=◌}
use terllama.Prelude.Gives.{Gives, gives_ok, gives_bind, gives_weaken}
use terllama.Inference.{Error, FloatOps, slice}
use terllama.Inference.Totals.{HasLength, row_end, at_found}
use terllama.Inference.Attention.{concat}
use terllama.Inference.Kernels.{zero_f}
use terllama.Inference.Cache.{KvCache, append, new_cache, cache_length, get_k, get_v}
use terllama.Inference.Cache.Rows.{
  IsCache, with_row, append-eq, appended, appended-IsCache, new_cache-IsCache,
}

module _ {F : Type 0} where
  -- Appends at the positions from `p` on.
  unfoldable pub append_all : KvCache F → ℕ → ℕ → List (List F × List F) → Result Error (KvCache F)
  append_all c layer p [] = ok c
  append_all c layer p (row ∷ rows) = do
    next ← append c layer row.0 row.1 (pos p)
    append_all next layer (suc p) rows

  abbrev pub IsRow : ℕ → List F × List F → Type 0
  IsRow size row = (length row.0 ≡ size) × (length row.1 ≡ size)

  abbrev pub keys : List (List F × List F) → List F
  keys rows = concat (map (λ row. row.0) rows)

  abbrev pub values : List (List F × List F) → List F
  values rows = concat (map (λ row. row.1) rows)

  -- The rows of one layer, in the order of their positions.
  pub record Holds (size layer : ℕ) (rows : List (List F × List F)) (c : KvCache F) : Type 0 where
    pub ks : List F
    pub vs : List F
    pub at_k : get_elem? c.k_cache layer ≡ some ks
    pub at_v : get_elem? c.v_cache layer ≡ some vs
    pub at_len : get_elem? c.seq_lens layer ≡ some (length rows)
    pub k_is : take (length rows * size) ks ≡ keys rows
    pub v_is : take (length rows * size) vs ≡ values rows

  concat-append : (xs ys : List (List F)) → concat (xs ++ ys) ≡ concat xs ++ concat ys
  concat-append [] ys = refl
  concat-append (x ∷ xs) ys = simp (concat-append xs ys, append_assoc)

  take-with_row :
      (n size : ℕ) (row xs : List F)
      → length row ≡ size
      → n * size + size ≤ length xs
      → take ((n + 1) * size) (with_row n size row xs) ≡ take (n * size) xs ++ row
  take-with_row n size row xs hr fits =
      let end : (n + 1) * size ≡ n * size + size = omega (arith, add-mul n 1 size) in
      let len : length (take (n * size) xs ++ row) ≡ n * size + size =
        omega
          (arith, length-append (take (n * size) xs) row, length-take (n * size) xs, hr, fits) in
      let joined : with_row n size row xs
          ≡ (take (n * size) xs ++ row) ++ drop (n * size + size) xs =
        sym (append_assoc (take (n * size) xs) row (drop (n * size + size) xs)) in
      rw (end, joined) (take-append_left (n * size + size) (take (n * size) xs ++ row) _ len)

  module _ (max_seq layers heads hd layer : ℕ) (hl : layer < layers) where
    abbrev IsWell : List (List F × List F) → KvCache F → Type 0
    IsWell rows c = IsCache max_seq layers heads hd c × Holds (heads * hd) layer rows c

    append-Holds :
        (c : KvCache F) (rows : List (List F × List F)) (row : List F × List F)
        → IsWell rows c
        → IsRow (heads * hd) row
        → length rows < max_seq
        → Gives (append c layer row.0 row.1 (pos (length rows))) (IsWell (rows ++ row ∷ []))
    append-Holds c rows row (hc, h) (hk, hv) fits =
        let size = heads * hd in
        let n = length rows in
        let len : length (rows ++ row ∷ []) ≡ n + 1 = length-append rows (row ∷ []) in
        let k_room = All-get (HasLength (max_seq * size)) c.k_cache layer h.ks hc.k_rooms h.at_k in
        let v_room = All-get (HasLength (max_seq * size)) c.v_cache layer h.vs hc.v_rooms h.at_v in
        let end = row_end n size max_seq fits in
        record {
          value = appended size c layer n row.0 row.1 h.ks h.vs;
          is =
              append-eq max_seq layers heads hd c hc layer n row.0 row.1 hl fits hk hv h.ks h.vs
                h.at_k h.at_v;
          holds = (
            appended-IsCache max_seq layers heads hd c hc layer n row.0 row.1 hl fits hk hv h.ks
                h.vs h.at_k h.at_v,
            record {
              ks = with_row n size row.0 h.ks;
              vs = with_row n size row.1 h.vs;
              at_k =
                  get_elem?-set_self c.k_cache layer (with_row n size row.0 h.ks)
                    (omega (arith, hl, hc.k_layers));
              at_v =
                  get_elem?-set_self c.v_cache layer (with_row n size row.1 h.vs)
                    (omega (arith, hl, hc.v_layers));
              at_len =
                  rw len (get_elem?-set_self c.seq_lens layer (n + 1) (omega (arith, hl, hc.lens)));
              k_is =
                  rw (len, take-with_row n size row.0 h.ks hk (omega (arith, k_room, end)), h.k_is)
                    (simp (map-append, concat-append, append-nil));
              v_is =
                  rw (len, take-with_row n size row.1 h.vs hv (omega (arith, v_room, end)), h.v_is)
                    (simp (map-append, concat-append, append-nil));
            },
          );
        }

    append_all-Holds :
        (c : KvCache F) (before rows : List (List F × List F))
        → IsWell before c
        → All (IsRow (heads * hd)) rows
        → length before + length rows ≤ max_seq
        → Gives (append_all c layer (length before) rows) (IsWell (before ++ rows))
    unfolding append_all
    append_all-Holds c before [] h hr fits = rw (append-nil before) (gives_ok (IsWell before) c h)
    append_all-Holds c before (row ∷ rows) h (hrow, hr) fits =
        let len : length (before ++ row ∷ []) ≡ suc (length before) =
          omega (arith, length-append before (row ∷ [])) in
        gives_bind (append-Holds c before row h hrow (omega (arith, fits))) λ next hn.
          rw (← len, ← append_assoc before (row ∷ []) rows)
            (append_all-Holds next (before ++ row ∷ []) rows hn hr (omega (arith, len, fits)))

    get-Holds :
        (c : KvCache F) (rows : List (List F × List F))
        → IsWell rows c
        → length rows ≤ max_seq
        → (get_k c layer ≡ ok (keys rows))
          × (get_v c layer ≡ ok (values rows))
          × (cache_length c layer ≡ ok (length rows))
    unfolding get_k get_v cache_length slice
    get-Holds c rows (hc, h) fits =
        let size = heads * hd in
        let n = length rows in
        let below = mul-le-mul_right {m = n} {n = max_seq} size fits in
        let k_room = All-get (HasLength (max_seq * size)) c.k_cache layer h.ks hc.k_rooms h.at_k in
        let v_room = All-get (HasLength (max_seq * size)) c.v_cache layer h.vs hc.v_rooms h.at_v in
        let k_fits : leb (0 + n * size) (length h.ks) ≡ true = ground (arith, k_room, below) in
        let v_fits : leb (0 + n * size) (length h.vs) ≡ true = ground (arith, v_room, below) in
        let len = at_found c.seq_lens layer n h.at_len in
        (
          simp (len, at_found c.k_cache layer h.ks h.at_k, hc.heads_is, hc.hd_is, k_fits, h.k_is),
          simp (len, at_found c.v_cache layer h.vs h.at_v, hc.heads_is, hc.hd_is, v_fits, h.v_is),
          len,
        )

new_cache-Holds :
    {F : Type 0} ⦃o : FloatOps F⦄ (max_seq layers heads hd layer : ℕ)
    → layer < layers
    → Holds {F = F} (heads * hd) layer [] (new_cache max_seq layers heads hd)
unfolding new_cache
new_cache-Holds {F} max_seq layers heads hd layer hl =
    let buffer = replicate (max_seq * heads * hd) (zero_f {F = F}) in
    let none_yet : take (0 * (heads * hd)) buffer ≡ [] = rw (zero-mul (heads * hd)) refl in
    record {
      ks = buffer;
      vs = buffer;
      at_k = get_elem?-replicate layers layer buffer hl;
      at_v = get_elem?-replicate layers layer buffer hl;
      at_len = get_elem?-replicate layers layer 0 hl;
      k_is = none_yet;
      v_is = none_yet;
    }

-- Rows appended to a new cache at the positions from 0 on, as many as it has room for, are all kept: get_k
-- and get_v give their keys and values in order, and the layer's length is their number.
pub append_all-kept :
    {F : Type 0} ⦃o : FloatOps F⦄ (max_seq layers heads hd layer : ℕ)
    (rows : List (List F × List F))
    → layer < layers
    → All (IsRow (heads * hd)) rows
    → length rows ≤ max_seq
    → Gives (append_all (new_cache max_seq layers heads hd) layer 0 rows) (λ c.
      (get_k c layer ≡ ok (keys rows))
      × (get_v c layer ≡ ok (values rows))
      × (cache_length c layer ≡ ok (length rows)))
append_all-kept {F} max_seq layers heads hd layer rows hl hr fits =
    gives_weaken
      (append_all-Holds max_seq layers heads hd layer hl (new_cache max_seq layers heads hd) [] rows
        (
          new_cache-IsCache max_seq layers heads hd,
          new_cache-Holds max_seq layers heads hd layer hl,
        )
        hr (omega arith))
      (λ c h. get-Holds max_seq layers heads hd layer hl c rows h fits)
