-- ===== src/Inference/Kernels/Products.antt =====
-- Every product of a layer of the right shape (ternary_linear_dispatch of src/core/inference.cpp).
use terllama.Prelude.{ℕ, ◌*◌, ◌≤◌, inl, inr, List, map, length, arith, length-map}
use terllama.Prelude.Gives.{Gives, gives_ok, gives_bind, gives_weaken, gives_then, gives_else}
use terllama.AlsLayer.{LayerData}
use terllama.Inference.{FloatOps, Layer}
use terllama.Inference.Totals.{row_end, HasLength, slice-Gives, for_each-Gives}
use terllama.Inference.Kernels.{raw_row, raw_product, ternary_linear_dispatch}
use terllama.Inference.Kernels.Fit.{FitsRaw, HasShape, AnyValue}
use terllama.Inference.Kernels.PlaneRows.{planes-Gives}
use terllama.Inference.Kernels.BlockRows.{blocks-Gives}

module _ {F : Type 0} ⦃o : FloatOps F⦄ where
  raw-Gives :
      (ld : LayerData) (input : List F)
      → ld.in_features ≤ length input
      → FitsRaw ld
      → Gives (raw_product ld input) (HasLength ld.out_features)
  unfolding raw_product raw_row
  raw-Gives ld input hi h =
      let raw = map o.of_bits ld.raw_weights in
      gives_bind (slice-Gives 0 ld.in_features input (omega arith)) λ xs hx.
        gives_weaken
          (for_each-Gives AnyValue (raw_row raw ld.in_features xs) 0 ld.out_features (λ row hr.
            gives_bind
              (slice-Gives (row * ld.in_features) ld.in_features raw (
                omega (
                  arith,
                  h.room,
                  length-map o.of_bits ld.raw_weights,
                  row_end row ld.in_features ld.out_features (omega (arith, hr)),
                )))
              λ w hw. gives_ok AnyValue _ tt))
          (λ ys hy. hy.0)

  -- The product of a layer that has its shape reads nothing out of bounds, and gives a number for each row.
  pub dispatch-Gives :
      (out_f in_f : ℕ) (l : Layer) (input : List F)
      → HasShape out_f in_f l
      → in_f ≤ length input
      → Gives (ternary_linear_dispatch l input) (HasLength out_f)
  unfolding ternary_linear_dispatch
  dispatch-Gives out_f in_f l input h hi = rw (← h.rows) (elim h.fits [
    | inl raw ↦
        gives_then l.typed.has_raw_weights _ raw.has_raw
          (raw-Gives l.typed input (omega (arith, h.columns, hi)) raw)
    | inr (inl blocks) ↦ gives_else l.typed.has_raw_weights _ blocks.no_raw (
        gives_then l.typed.has_blocks _ blocks.has_blocks
          (blocks-Gives l input (omega (arith, h.columns, hi)) blocks))
    | inr (inr planes) ↦ gives_else l.typed.has_raw_weights _ planes.no_raw (
        gives_else l.typed.has_blocks _ planes.no_blocks
          (planes-Gives l input (omega (arith, h.columns, hi)) planes))
  ])
