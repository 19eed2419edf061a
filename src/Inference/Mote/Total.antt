-- ===== src/Inference/Mote/Total.antt =====
-- A mixture of experts succeeds on experts of the right shape (src/kernel_mote.cpp).
use terllama.Prelude.{
  ℕ, zero, suc, ◌+◌, ◌*◌, ◌≤◌, ◌<◌, ◌≡◌, sym, ◌∙◌, not, ◌||◌, ◌==◌, List, [], ◌∷◌, map, length, All,
  arith, min, Bool-cases, inl, inr, length-map,
}
use terllama.Prelude.Results.{ok, ◌>>=◌}
use terllama.Prelude.Gives.{Gives, gives_ok, gives_bind, gives_if, gives_weaken}
use terllama.Inference.{FloatOps, Layer, at}
use terllama.Inference.Totals.{
  HasLength, anything, row_end, at-Gives, fills-Gives, for_each-Gives, for_sum-Gives,
}
use terllama.Inference.Kernels.{zero_f}
use terllama.Inference.Kernels.Fit.{HasShape, AnyValue}
use terllama.Inference.Kernels.Products.{dispatch-Gives}
use terllama.Inference.Attention.{zip_with, silu}
use terllama.Inference.Attention.Lengths.{length-zip_with}
use terllama.Inference.Attention.Total.{mlp-Gives}
use terllama.Inference.Attention.Heads.{max_value-Gives}
use terllama.Inference.Mote.{
  MoteLayerData, Scored, scored_from, pick, partial_sort, router_logit, router_probs, gated,
  add_experts, mote_mlp_forward,
}

-- Experts of the shapes of the block.
pub record HasExperts {F : Type 0} (hs inter : ℕ) (mote : MoteLayerData F) : Type 0 where
  pub gate_shape : HasShape inter hs mote.gate_proj
  pub up_shape : HasShape inter hs mote.up_proj
  pub down_shape : HasShape hs inter mote.down_proj
  pub router : hs * mote.num_experts ≤ length mote.router_weight
  pub gates : mote.num_experts ≤ length mote.expert_gate
  pub ups : mote.num_experts ≤ length mote.expert_up
  pub gate_shapes : All (HasShape inter hs) mote.expert_gate
  pub up_shapes : All (HasShape inter hs) mote.expert_up

module _ {F : Type 0} ⦃o : FloatOps F⦄ where
  module _ (P : Scored F → Type 0) where
    pick-All :
        (a : Scored F) (xs : List (Scored F))
        → P a
        → All P xs
        → P (pick a xs).0 × All P (pick a xs).1
    unfolding pick
    pick-All a [] ha h = (ha, tt)
    pick-All a (b ∷ xs) ha (hb, h) =
        let better = pick-All b xs hb h in
        let same = pick-All a xs ha h in
        elim (Bool-cases (o.less a.prob b.prob)) [
          | inl e ↦ rw e (better.0, (ha, better.1))
          | inr e ↦ rw e (same.0, (hb, same.1))
        ]

    partial_sort-All : (n : ℕ) (xs : List (Scored F)) → All P xs → All P (partial_sort n xs)
    unfolding partial_sort
    partial_sort-All zero xs h = tt
    partial_sort-All (suc n) [] h = tt
    partial_sort-All (suc n) (x ∷ xs) (hx, h) =
        let best = pick-All x xs hx h in (best.0, partial_sort-All n (pick x xs).1 best.1)

  scored-below :
      (k n : ℕ) (probs : List F) → k + length probs ≤ n → All (λ s. s.idx < n) (scored_from k probs)
  scored-below k n [] h = tt
  scored-below k n (p ∷ probs) h =
      (omega (arith, h), scored-below (suc k) n probs (omega (arith, h)))

  module _ (hs inter : ℕ) (mote : MoteLayerData F) (h : HasExperts hs inter mote) (x : List F)
      (hx : length x ≡ hs) where
    router_probs-Gives :
        0 < mote.num_experts → Gives (router_probs mote x hs) (HasLength mote.num_experts)
    unfolding router_probs router_logit
    router_probs-Gives some_experts =
        let n = mote.num_experts in
        gives_bind
          (for_each-Gives AnyValue (router_logit mote x hs) 0 n (λ k hk.
            gives_bind
              (for_sum-Gives AnyValue
                (λ i sum. at x i >>= λ xi.
                  at mote.router_weight (i * n + k) >>= λ w. ok (o.add sum (o.mul xi w)))
                0 hs zero_f
                (λ i sum hi hsum.
                  gives_bind (at-Gives AnyValue x i (omega (arith, hi, hx)) (anything x)) λ xi h1.
                    gives_bind
                      (at-Gives AnyValue mote.router_weight (i * n + k)
                        (omega (arith, h.router, hk, row_end i n hs (omega (arith, hi))))
                        (anything mote.router_weight))
                      λ w h2. gives_ok AnyValue _ tt)
                tt)
              λ sum hsum. gives_ok AnyValue _ tt))
          λ logits hl. gives_bind (max_value-Gives logits (omega (arith, hl, some_experts))) λ m hm.
            gives_ok (HasLength n) _
              (length-map _ (map (λ l. o.exp (o.sub l m)) logits) ∙ length-map _ logits ∙ hl.0)

    gated-Gives :
        (gate up : Layer) (f : F → F → F)
        → HasShape inter hs gate
        → HasShape inter hs up
        → Gives (gated x gate up inter f) (HasLength inter)
    unfolding gated
    gated-Gives gate up f hg hu =
        gives_bind (dispatch-Gives inter hs gate x hg (omega (arith, hx))) λ g_raw hg0.
          gives_bind (dispatch-Gives inter hs up x hu (omega (arith, hx))) λ u_raw hu0.
            gives_bind (fills-Gives inter g_raw hg0) λ g hg1.
              gives_bind (fills-Gives inter u_raw hu0) λ u hu1.
                gives_ok (HasLength inter) (zip_with f g u) (length-zip_with f inter g u hg1 hu1)

    add_experts-Gives :
        (chosen : List (Scored F)) (combined : List F)
        → All (λ s. s.idx < mote.num_experts) chosen
        → length combined ≡ inter
        → Gives (add_experts mote x inter chosen combined) (HasLength inter)
    unfolding add_experts
    add_experts-Gives [] combined hc hl = gives_ok (HasLength inter) combined hl
    add_experts-Gives (s ∷ chosen) combined (hs', hc) hl =
        gives_bind
          (at-Gives (HasShape inter hs) mote.expert_gate s.idx (omega (arith, hs', h.gates))
            h.gate_shapes)
          λ gate hg.
            gives_bind
              (at-Gives (HasShape inter hs) mote.expert_up s.idx (omega (arith, hs', h.ups))
                h.up_shapes)
              λ up hu.
                gives_bind (gated-Gives gate up (λ g u. o.mul (o.mul s.prob (silu g)) u) hg hu)
                  λ contrib hcon.
                    add_experts-Gives chosen (zip_with o.add combined contrib) hc
                      (length-zip_with o.add inter combined contrib hl hcon)

    pub mote-Gives : Gives (mote_mlp_forward x mote hs inter) (HasLength hs)
    unfolding mote_mlp_forward
    mote-Gives =
        let n = mote.num_experts in
        gives_if ((n == 0) || not mote.is_mote)
          (λ e.
            mlp-Gives x mote.gate_proj mote.up_proj mote.down_proj hs inter hx h.gate_shape
              h.up_shape h.down_shape)
          (λ e. gives_bind (router_probs-Gives (ground (arith, e))) λ probs hp.
            let below =
              partial_sort-All (λ s. s.idx < n) (min mote.top_k n) (scored_from 0 probs)
                (scored-below 0 n probs (omega (arith, hp))) in
            gives_bind
              (gated-Gives mote.gate_proj mote.up_proj (λ g u. o.mul (silu g) u) h.gate_shape
                h.up_shape)
              λ shared hsh.
                gives_bind
                  (add_experts-Gives (partial_sort (min mote.top_k n) (scored_from 0 probs)) shared
                    below hsh)
                  λ combined hc.
                    gives_bind
                      (dispatch-Gives hs inter mote.down_proj combined h.down_shape
                        (omega (arith, hc)))
                      λ result hr.
                        gives_weaken (fills-Gives (length x) result (hr ∙ sym hx))
                          (λ ys hy. hy ∙ hx))
