-- ===== src/Inference/Attention/Lengths.antt =====
-- The lengths of what the arithmetic of a block gives (rms_norm, apply_rope and the norms of the heads in
-- src/core/inference.cpp).
use terllama.Prelude.{
  ℕ, zero, suc, ◌*◌, ◌/◌, ◌≤◌, ◌<◌, ◌≡◌, refl, ap, ◌∙◌, not, ◌&&◌, List, [], ◌∷◌, ◌++◌, length,
  drop, arith, ◌==◌, length-append, length-drop,
}
use native.Mathlib.Nat.{add-mul, zero-mul}
use terllama.Prelude.Results.{ok, ◌>>=◌}
use terllama.Prelude.Gives.{Gives, gives_ok, gives_bind, gives_if}
use terllama.Inference.{FloatOps, RopeCache, slice}
use terllama.Inference.Totals.{HasLength, Rows, row_end, slice-Gives, for_each-Gives}
use terllama.Inference.Attention.{
  zip_with, concat, normed, rms_norm, per_head, head_norms, rotate, apply_rope,
}

pub length-zip_with :
    {A B C : Type 0} (f : A → B → C) (n : ℕ) (xs : List A) (ys : List B)
    → length xs ≡ n
    → length ys ≡ n
    → length (zip_with f xs ys) ≡ n
length-zip_with f n [] ys hx hy = hx
length-zip_with f n (x ∷ xs) [] hx hy = absurd (omega arith)
length-zip_with f zero (x ∷ xs) (y ∷ ys) hx hy = absurd (omega arith)
length-zip_with f (suc n) (x ∷ xs) (y ∷ ys) hx hy =
    ap suc (length-zip_with f n xs ys (omega (arith, hx)) (omega (arith, hy)))

pub length-concat :
    {A : Type 0} (n size : ℕ) (rows : List (List A))
    → Rows (HasLength size) n rows
    → length (concat rows) ≡ n * size
length-concat zero size [] h = rw (zero-mul size) refl
length-concat zero size (row ∷ rows) h = absurd (omega (arith, h.0))
length-concat (suc n) size [] h = absurd (omega (arith, h.0))
length-concat (suc n) size (row ∷ rows) (len, (hrow, h)) = omega (
  arith,
  length-append row (concat rows),
  hrow,
  length-concat n size rows (omega (arith, len), h),
  add-mul 1 n size,
)

module _ {F : Type 0} ⦃o : FloatOps F⦄ where
  pub rms_norm-Gives :
      (x weight : List F) (n : ℕ) (eps : F)
      → length x ≡ n
      → n ≤ length weight
      → Gives (rms_norm x weight n eps) (HasLength n)
  unfolding rms_norm
  rms_norm-Gives x weight n eps hx hw =
      gives_bind (slice-Gives 0 n x (omega (arith, hx))) λ front hf.
        gives_bind (slice-Gives 0 n weight (omega (arith, hw))) λ ws hws.
          gives_ok (HasLength n) (normed ws n eps front ++ drop n x) (
            omega (
              arith,
              length-append (normed ws n eps front) (drop n x),
              length-zip_with _ n front ws hf hws,
              length-drop n x,
              hx,
            ))

  pub per_head-Gives :
      (f : List F → List F) (n hd : ℕ) (xs : List F)
      → ((row : List F) → length row ≡ hd → length (f row) ≡ hd)
      → length xs ≡ n * hd
      → Gives (per_head f n hd xs) (HasLength (n * hd))
  unfolding per_head
  per_head-Gives f n hd xs keeps hx =
      gives_bind
        (for_each-Gives (HasLength hd) (λ h. slice (h * hd) hd xs >>= λ row. ok (f row)) 0 n
          (λ h hh.
            gives_bind
              (slice-Gives (h * hd) hd xs (omega (arith, hx, row_end h hd n (omega (arith, hh)))))
              λ row hr. gives_ok (HasLength hd) (f row) (keeps row hr)))
        λ rows h. gives_ok (HasLength (n * hd)) (concat rows) (length-concat n hd rows h)

  pub head_norms-Gives :
      (weight : List F) (n hd : ℕ) (eps : F) (xs : List F)
      → length xs ≡ n * hd
      → Gives (head_norms weight n hd eps xs) (HasLength (n * hd))
  unfolding head_norms
  head_norms-Gives weight n hd eps xs hx =
      gives_if (not (length weight == 0) && (length weight == hd))
        (λ e.
          per_head-Gives (normed weight hd eps) n hd xs
            (λ row hr. length-zip_with _ hd row weight hr (ground (arith, e))) hx)
        (λ e. gives_ok (HasLength (n * hd)) xs hx)

  pub length-rotate : (ss cs xs : List F) → length (rotate ss cs xs) ≡ length xs
  length-rotate [] cs xs = refl
  length-rotate (s ∷ ss) [] xs = refl
  length-rotate (s ∷ ss) (c ∷ cs) [] = refl
  length-rotate (s ∷ ss) (c ∷ cs) (x0 ∷ []) = refl
  length-rotate (s ∷ ss) (c ∷ cs) (x0 ∷ x1 ∷ xs) = ap (λ n. suc (suc n)) (length-rotate ss cs xs)

  -- Angles for all positions below `max_seq`.
  pub record HasAngles (max_seq hd : ℕ) (rope : RopeCache F) : Type 0 where
    pub sines : max_seq * (hd / 2) ≤ length rope.sin
    pub cosines : max_seq * (hd / 2) ≤ length rope.cos

  pub apply_rope-Gives :
      (q k : List F) (seq_pos heads kv_heads hd max_seq : ℕ) (rope : RopeCache F)
      → HasAngles max_seq hd rope
      → seq_pos < max_seq
      → length q ≡ heads * hd
      → length k ≡ kv_heads * hd
      → Gives
          (apply_rope q k seq_pos heads kv_heads hd rope)
          (λ r. (length r.0 ≡ heads * hd) × (length r.1 ≡ kv_heads * hd))
  unfolding apply_rope
  apply_rope-Gives q k seq_pos heads kv_heads hd max_seq rope h hp hq hk =
      let half = hd / 2 in
      let end = row_end seq_pos half max_seq hp in
      gives_bind (slice-Gives (seq_pos * half) half rope.sin (omega (arith, h.sines, end))) λ ss hs.
        gives_bind (slice-Gives (seq_pos * half) half rope.cos (omega (arith, h.cosines, end)))
          λ cs hc.
            gives_bind
              (per_head-Gives (rotate ss cs) heads hd q (λ row hr. length-rotate ss cs row ∙ hr) hq)
              λ a ha.
                gives_bind
                  (per_head-Gives (rotate ss cs) kv_heads hd k
                    (λ row hr. length-rotate ss cs row ∙ hr) hk)
                  λ b hb.
                    gives_ok (λ r. (length r.0 ≡ heads * hd) × (length r.1 ≡ kv_heads * hd)) (a, b)
                      (ha, hb)
