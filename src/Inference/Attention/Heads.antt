-- ===== src/Inference/Attention/Heads.antt =====
-- One head over the rows of the cache (the loops of attention in src/core/inference.cpp).
use terllama.Prelude.{
  ℕ, zero, suc, ◌+◌, ◌*◌, ◌/◌, ◌≤◌, ◌<◌, ◌≡◌, refl, ap, ◌∙◌, List, [], ◌∷◌, map, length, arith,
  length-map, length-replicate, replicate,
}
use native.Mathlib.Nat.{div-lt_iff_lt-mul, mul_assoc}
use terllama.Prelude.Results.{ok, ◌>>=◌}
use terllama.Prelude.Gives.{Gives, gives_ok, gives_bind, gives_weaken}
use terllama.Inference.{FloatOps, slice, at}
use terllama.Inference.Totals.{
  HasLength, anything, row_end, slice-Gives, at-Gives, for_each-Gives, for_sum-Gives,
}
use terllama.Inference.Kernels.{zero_f, dot}
use terllama.Inference.Kernels.Fit.{AnyValue}
use terllama.Inference.Attention.{
  zip_with, max_value, softmax, score_row, mix_row, head_out, greatest,
}
use terllama.Inference.Attention.Lengths.{length-zip_with}

-- Head `kh` of row `t` lies within `max_seq` rows.
row_head :
    (t kh heads hd kv_len max_seq : ℕ)
    → t < kv_len
    → kv_len ≤ max_seq
    → kh < heads
    → kh * hd + t * heads * hd + hd ≤ max_seq * (heads * hd)
row_head t kh heads hd kv_len max_seq ht hk hh =
    let inner = row_end kh hd heads hh in
    let outer = row_end t (heads * hd) max_seq (omega (arith, ht, hk)) in
    omega (arith, inner, outer, mul_assoc t heads hd)

-- The cached head of head `h`, where the heads are whole groups.
pub kv_head :
    (h group heads kv_heads : ℕ)
    → 0 < group
    → heads ≡ kv_heads * group
    → h < heads
    → h / group < kv_heads
kv_head h group heads kv_heads hg whole hh = (div-lt_iff_lt-mul hg).1 (omega (arith, hh, whole))

module _ {F : Type 0} ⦃o : FloatOps F⦄ where
  pub max_value-Gives : (xs : List F) → 0 < length xs → Gives (max_value xs) AnyValue
  unfolding max_value
  max_value-Gives [] h = absurd (omega arith)
  max_value-Gives (x ∷ xs) h = gives_ok AnyValue (greatest x xs) tt

  softmax-Gives :
      (n : ℕ) (scores : List F) → length scores ≡ n → 0 < n → Gives (softmax scores) (HasLength n)
  unfolding softmax
  softmax-Gives n scores h hn =
      gives_bind (max_value-Gives scores (omega (arith, h, hn))) λ maxv hm.
        gives_ok (HasLength n) _
          (length-map _ (map (λ s. o.exp (o.sub s maxv)) scores) ∙ length-map _ scores ∙ h)

  module _ (kv_heads hd kv_len max_seq kh : ℕ) (rows : List F)
      (room : length rows ≡ max_seq * (kv_heads * hd)) (short : kv_len ≤ max_seq)
      (hk : kh < kv_heads) where
    score_row-Gives :
        (qh : List F) → Gives (score_row kv_heads hd kv_len rows qh kh) (HasLength kv_len)
    unfolding score_row
    score_row-Gives qh =
        gives_weaken
          (for_each-Gives AnyValue
            (λ t. slice (kh * hd + t * kv_heads * hd) hd rows >>= λ kt.
              ok (o.div (dot zero_f qh kt) (o.sqrt (o.of_int (terllama.Prelude.Int.pos hd)))))
            0 kv_len
            (λ t ht.
              gives_bind
                (slice-Gives (kh * hd + t * kv_heads * hd) hd rows (
                  omega (
                    arith,
                    room,
                    row_head t kh kv_heads hd kv_len max_seq (omega (arith, ht)) short hk,
                  )))
                λ kt hkt. gives_ok AnyValue _ tt))
          (λ ys h. h.0)

    mix_row-Gives :
        (scores : List F)
        → length scores ≡ kv_len
        → Gives (mix_row kv_heads hd kv_len rows scores kh) (HasLength hd)
    unfolding mix_row
    mix_row-Gives scores hs =
        for_sum-Gives (HasLength hd)
          (λ t outh. at scores t >>= λ score. slice (kh * hd + t * kv_heads * hd) hd rows >>= λ vt.
            ok (zip_with (λ out v. o.add out (o.mul score v)) outh vt))
          0 kv_len (replicate hd zero_f)
          (λ t outh ht hout.
            gives_bind (at-Gives AnyValue scores t (omega (arith, ht, hs)) (anything scores))
              λ score h.
                gives_bind
                  (slice-Gives (kh * hd + t * kv_heads * hd) hd rows (
                    omega (
                      arith,
                      room,
                      row_head t kh kv_heads hd kv_len max_seq (omega (arith, ht)) short hk,
                    )))
                  λ vt hv. gives_ok (HasLength hd) _ (length-zip_with _ hd outh vt hout hv))
          (length-replicate hd zero_f)

  pub head_out-Gives :
      (group heads kv_heads hd kv_len max_seq h : ℕ) (q ks vs : List F)
      → 0 < group
      → heads ≡ kv_heads * group
      → h < heads
      → 0 < kv_len
      → kv_len ≤ max_seq
      → length q ≡ heads * hd
      → length ks ≡ max_seq * (kv_heads * hd)
      → length vs ≡ max_seq * (kv_heads * hd)
      → Gives (head_out group kv_heads hd kv_len q ks vs h) (HasLength hd)
  unfolding head_out
  head_out-Gives group heads kv_heads hd kv_len max_seq h q ks vs hg whole hh some_rows short hq hks
        hvs =
      let kh = kv_head h group heads kv_heads hg whole hh in
      gives_bind (slice-Gives (h * hd) hd q (omega (arith, hq, row_end h hd heads hh))) λ qh hqh.
        gives_bind (score_row-Gives kv_heads hd kv_len max_seq (h / group) ks hks short kh qh)
          λ raw hr. gives_bind (softmax-Gives kv_len raw hr some_rows) λ scores hs.
            mix_row-Gives kv_heads hd kv_len max_seq (h / group) vs hvs short kh scores hs
