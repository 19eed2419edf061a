-- ===== src/Inference/Kernels/Fit.antt =====
-- Layers whose products read nothing out of bounds (the kernels of src/dispatcher.cpp).
use terllama.Prelude.{
  ℕ, zero, suc, ◌+◌, ◌-◌, ◌*◌, ◌/◌, ◌≤◌, ◌<◌, ◌≡◌, refl, ◌⊎◌, true, false, some, List, [], ◌∷◌,
  length, All, arith, get_elem?,
}
use terllama.Prelude.Gives.{Gives, gives_ok}
use terllama.AlsLayer.{LayerData}
use terllama.AlsLayer.Load.{IsLoaded}
use terllama.Inference.{Layer, at}

-- The words of a row of bit planes.
abbrev pub words_per_row : ℕ → ℕ
words_per_row in_f = (in_f + 15) / 16

-- Raw weights for all elements.
pub record FitsRaw (ld : LayerData) : Type 0 where
  pub has_raw : ld.has_raw_weights ≡ true
  pub room : ld.out_features * ld.in_features ≤ length ld.raw_weights

-- Blocks with the tables that the loader builds.
pub record FitsBlocks (ld : LayerData) : Type 0 where
  pub no_raw : ld.has_raw_weights ≡ false
  pub has_blocks : ld.has_blocks ≡ true
  pub size : ld.block_qk ≡ 128
  pub wide : 0 < ld.in_features
  pub loaded : IsLoaded ld.out_features ((ld.in_features + 128 - 1) / 128) ld

-- Bit planes with all words of all rows.
pub record FitsPlanes (l : Layer) : Type 0 where
  pub no_raw : l.typed.has_raw_weights ≡ false
  pub no_blocks : l.typed.has_blocks ≡ false
  pub room : l.num_terms ≤ length l.terms
  pub words :
      All
        (λ t. l.typed.out_features * words_per_row l.typed.in_features ≤ length t.combined)
        l.terms

-- A layer of `out_f` rows and `in_f` columns, with all the weights that this takes.
pub record HasShape (out_f in_f : ℕ) (l : Layer) : Type 0 where
  pub rows : l.typed.out_features ≡ out_f
  pub columns : l.typed.in_features ≡ in_f
  pub fits : FitsRaw l.typed ⊎ FitsBlocks l.typed ⊎ FitsPlanes l

pub get_bound : {A : Type 0} (xs : List A) (i : ℕ) (a : A) → get_elem? xs i ≡ some a → i < length xs
get_bound [] i a h = absurd (cc h)
get_bound (x ∷ xs) zero a h = omega arith
get_bound (x ∷ xs) (suc i) a h = omega (arith, get_bound xs i a h)

-- An element that is there.
pub at_known :
    {A : Type 0} (xs : List A) (i : ℕ) (a : A)
    → get_elem? xs i ≡ some a
    → Gives (at xs i) (λ b. get_elem? xs i ≡ some b)
unfolding at
at_known xs i a h = rw h (gives_ok (λ b. some a ≡ some b) a refl)

abbrev pub AnyValue : {A : Type 0} → A → Type 0
AnyValue x = Unit
