-- ===== src/Inference/Mote.antt =====
-- Mixtures of ternary experts: mote_ternary_linear of src/kernel_mote.cpp, which mote_mlp_forward of
-- src/core/inference.cpp calls with one buffer as input and output.
pub mod Total
use terllama.Prelude.{
  ℕ, zero, suc, ◌+◌, ◌*◌, Bool, not, ◌||◌, List, [], ◌∷◌, map, length, if◌then◌else◌, ◌==◌,
}
use Prim.Native.Nat.{min}
use terllama.Prelude.Results.{Result, ok, ◌>>=◌}
use terllama.Inference.{Error, FloatOps, Layer, at, fills, for_each, for_sum}
use terllama.Inference.Kernels.{zero_f, ternary_linear_dispatch}
use terllama.Inference.Attention.{zip_with, one_f, silu, max_value, sum_of, mlp_forward}

pub record MoteLayerData (F : Type 0) : Type 0 where
  pub gate_proj : Layer
  pub up_proj : Layer
  pub down_proj : Layer
  pub num_experts : ℕ
  pub top_k : ℕ
  pub expert_gate : List Layer
  pub expert_up : List Layer
  pub expert_down : List Layer
  pub router_weight : List F
  pub router_scale : F
  pub is_mote : Bool

pub record Scored (F : Type 0) : Type 0 where
  pub prob : F
  pub idx : ℕ

abbrev pub scored_from : {F : Type 0} → ℕ → List F → List (Scored F)
scored_from k [] = []
scored_from k (p ∷ probs) = record { prob = p; idx = k } ∷ scored_from (suc k) probs

module _ {F : Type 0} ⦃o : FloatOps F⦄ where
  open o use {add, sub, mul, div, exp, less, of_bits}

  -- The best of `a ∷ others`, and the rest.
  unfoldable pub pick : Scored F → List (Scored F) → Scored F × List (Scored F)
  pick a [] = (a, [])
  pick a (b ∷ others) =
      let better = pick b others in
      let same = pick a others in
      if less a.prob b.prob then (better.0, a ∷ better.1) else (same.0, b ∷ same.1)

  -- std::partial_sort, which leaves the order of equal probabilities open: here the first one wins.
  unfoldable pub partial_sort : ℕ → List (Scored F) → List (Scored F)
  partial_sort zero xs = []
  partial_sort (suc n) [] = []
  partial_sort (suc n) (x ∷ xs) = let best = pick x xs in best.0 ∷ partial_sort n best.1

  -- One logit of the router.
  unfoldable pub router_logit : MoteLayerData F → List F → ℕ → ℕ → Result Error F
  router_logit mote x hidden_size k =
      for_sum
        (λ i sum. at x i >>= λ xi.
          at mote.router_weight (i * mote.num_experts + k) >>= λ w. ok (add sum (mul xi w)))
        0 hidden_size zero_f
      >>= λ sum. ok (mul sum mote.router_scale)

  unfoldable pub router_probs : MoteLayerData F → List F → ℕ → Result Error (List F)
  router_probs mote x hidden_size = do
    logits ← for_each (router_logit mote x hidden_size) 0 mote.num_experts
    max_logit ← max_value logits
    let exps = map (λ l. exp (sub l max_logit)) logits
    let inv_sum = div one_f (add (sum_of zero_f exps) (of_bits 0x2EDBE6FF))
    ok (map (λ e. mul e inv_sum) exps)

  -- The gated product of one expert.
  unfoldable pub gated : List F → Layer → Layer → ℕ → (F → F → F) → Result Error (List F)
  gated x gate_proj up_proj intermediate_size f = do
    gate_raw ← ternary_linear_dispatch gate_proj x
    up_raw ← ternary_linear_dispatch up_proj x
    gate ← fills intermediate_size gate_raw
    up ← fills intermediate_size up_raw
    ok (zip_with f gate up)

  unfoldable pub add_experts :
      MoteLayerData F → List F → ℕ → List (Scored F) → List F → Result Error (List F)
  add_experts mote x intermediate_size [] combined = ok combined
  add_experts mote x intermediate_size (s ∷ chosen) combined = do
    gate_proj ← at mote.expert_gate s.idx
    up_proj ← at mote.expert_up s.idx
    contrib ← gated x gate_proj up_proj intermediate_size (λ g u. mul (mul s.prob (silu g)) u)
    add_experts mote x intermediate_size chosen (zip_with add combined contrib)

  unfoldable pub mote_mlp_forward : List F → MoteLayerData F → ℕ → ℕ → Result Error (List F)
  mote_mlp_forward x mote hidden_size intermediate_size =
      if (mote.num_experts == 0) || not mote.is_mote
      then mlp_forward x mote.gate_proj mote.up_proj mote.down_proj intermediate_size
      else (do
        probs ← router_probs mote x hidden_size
        let chosen = partial_sort (min mote.top_k mote.num_experts) (scored_from 0 probs)
        shared ← gated x mote.gate_proj mote.up_proj intermediate_size (λ g u. mul (silu g) u)
        combined ← add_experts mote x intermediate_size chosen shared
        result ← ternary_linear_dispatch mote.down_proj combined
        fills (length x) result)
