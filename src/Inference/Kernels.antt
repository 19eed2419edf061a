-- ===== src/Inference/Kernels.antt =====
-- The products of a layer with a vector: ternary_linear_dispatch of src/core/inference.cpp, ternary_linear,
-- ternary_linear_blocks and extract_term_data of src/dispatcher.cpp, ternary_mul_scalar of
-- src/kernel_scalar.cpp and ternary_mul_scalar_blocks of src/kernel_avx2.cpp.
pub mod Fit
pub mod PlaneRows
pub mod BlockRows
pub mod Products
use terllama.Prelude.{
  ℕ, suc, ◌+◌, ◌-◌, ◌*◌, ◌/◌, ◌%◌, ◌^◌, not, ◌&&◌, ◌||◌, List, [], ◌∷◌, map, length, take, drop,
  get_or, replicate, if◌then◌else◌, leb, ◌==◌,
}
use Prim.Native.Nat.{min}
use terllama.Prelude.Int.{ℤ, negsuc, eq_ℤ}
use terllama.Prelude.Results.{Result, ok, err, ◌>>=◌}
use terllama.Ternary.{unpack_four}
use terllama.AlsFormat.{BlockTerm}
use terllama.AlsLayer.{LayerData, ContigTerm, fill_tables, n_blocks}
use terllama.Inference.{
  Error, out_of_bounds, bad_tables, FloatOps, BitplaneTerm, Layer, slice, at, for_each, for_sum,
}

-- The terms that count: an exponent of -128 marks an empty one.
unfoldable pub active : List BitplaneTerm → List BitplaneTerm
active [] = []
active (t ∷ terms) =
    let rest = active terms in if eq_ℤ t.alpha_exp (negsuc 127) then rest else t ∷ rest

-- At most `max_terms` = 32 terms are read.
unfoldable pub extract_term_data : Layer → Result Error (List BitplaneTerm)
extract_term_data layer = do terms ← slice 0 (min layer.num_terms 32) layer.terms; ok (active terms)

-- The lazy build of one term's tables in ternary_linear_blocks.
abbrev pub tables_of : {E : Type 0} → Result E ContigTerm → Result Error ContigTerm
tables_of (ok t) = ok t
tables_of (err e) = err out_of_bounds

unfoldable pub lazy_term : ℕ → ℕ → ℕ → List BlockTerm → Result Error ContigTerm
lazy_term qk out_f n blocks = do
  used ← slice 0 (out_f * n) blocks
  tables_of (fill_tables qk out_f n used)

unfoldable pub lazy_terms : ℕ → ℕ → ℕ → List (List BlockTerm) → Result Error (List ContigTerm)
lazy_terms qk out_f n [] = ok []
lazy_terms qk out_f n (blocks ∷ terms) = do
  t ← lazy_term qk out_f n blocks
  rest ← lazy_terms qk out_f n terms
  ok (t ∷ rest)

-- The tables that the kernel is given. The source keeps those that it builds here in the layer.
unfoldable pub term_tables : LayerData → Result Error (List ContigTerm)
term_tables ld =
    if ld.term_cache_built
    then ok ld.term_tables
    else lazy_terms ld.block_qk ld.out_features (n_blocks ld) ld.block_terms

abbrev pub col_block_size : ℕ
col_block_size = 128

module _ {F : Type 0} ⦃o : FloatOps F⦄ where
  open o use {add, mul, neg, of_int, of_bits, ldexp}

  abbrev pub zero_f : F
  zero_f = of_bits 0

  abbrev pub dot : F → List F → List F → F
  dot sum [] xs = sum
  dot sum (w ∷ ws) [] = sum
  dot sum (w ∷ ws) (x ∷ xs) = dot (add sum (mul w x)) ws xs

  -- One element of a bit plane: bit `b` is the sign and bit `b + 16` tells a weight that is not 0.
  abbrev pub bit_step : ℕ → ℕ → F → F → F
  bit_step c b x sum =
      if c / 2 ^ (b + 16) % 2 == 1 then add sum (if c / 2 ^ b % 2 == 1 then neg x else x) else sum

  abbrev pub plane_sum : List ℕ → ℕ → List F → F → F
  plane_sum words j [] sum = sum
  plane_sum words j (x ∷ xs) sum =
      plane_sum words (suc j) xs (bit_step (get_or words (j / 16) 0) (j % 16) x sum)

  -- One row of one term, added to what the terms before gave.
  unfoldable pub plane_row : ℕ → List F → BitplaneTerm → ℕ → F → Result Error F
  plane_row in_f xs t i before = do
    words ← slice (i * ((in_f + 15) / 16)) ((in_f + 15) / 16) t.combined
    ok (add before (ldexp (plane_sum words 0 xs zero_f) t.alpha_exp))

  unfoldable pub plane_rows : ℕ → List F → List BitplaneTerm → ℕ → F → Result Error F
  plane_rows in_f xs [] i before = ok before
  plane_rows in_f xs (t ∷ terms) i before = do
    sum ← plane_row in_f xs t i before
    plane_rows in_f xs terms i sum

  unfoldable pub ternary_mul_scalar : List BitplaneTerm → ℕ → ℕ → List F → Result Error (List F)
  ternary_mul_scalar terms out_f in_f input = do
    xs ← slice 0 in_f input
    for_each (λ i. plane_rows in_f xs terms i zero_f) 0 out_f

  unfoldable pub ternary_linear : Layer → List F → Result Error (List F)
  ternary_linear layer input = do
    terms ← extract_term_data layer
    if length terms == 0
        then ok (replicate layer.typed.out_features zero_f)
        else ternary_mul_scalar terms layer.typed.out_features layer.typed.in_features input

  -- The four codes of a byte against up to four inputs.
  abbrev pub weigh : List ℤ → List F → F → F
  weigh [] xs sum = sum
  weigh (t ∷ ts) [] sum = sum
  weigh (t ∷ ts) (x ∷ xs) sum = weigh ts xs (add sum (mul x (of_int t)))

  abbrev pub code_sum : List ℕ → List F → F → F
  code_sum [] xs sum = sum
  code_sum (byte ∷ bytes) xs sum =
      code_sum bytes (drop 4 xs) (weigh (unpack_four byte) (take 4 xs) sum)

  unfoldable pub block_turn : ContigTerm → ℕ → ℕ → ℕ → List F → ℕ → F → Result Error F
  block_turn table row_data row_scales in_f input b sum = do
    let block_size = min col_block_size (in_f - b * col_block_size)
    packed ← slice (row_data + b * (col_block_size / 4)) ((block_size + 3) / 4) table.contig_data
    w_scale ← at table.contig_scales (row_scales + b)
    xs ← slice (b * col_block_size) block_size input
    ok (add sum (mul (code_sum packed xs zero_f) (of_bits w_scale)))

  unfoldable pub term_row : ℕ → ℕ → List F → ℕ → ContigTerm → F → Result Error F
  term_row in_f n input row table sum = do
    row_data ← at table.block_data row
    row_scales ← at table.block_scales row
    for_sum (block_turn table row_data row_scales in_f input) 0 n sum

  unfoldable pub term_rows : ℕ → ℕ → List F → ℕ → List ContigTerm → F → Result Error F
  term_rows in_f n input row [] sum = ok sum
  term_rows in_f n input row (table ∷ tables) sum = do
    next ← term_row in_f n input row table sum
    term_rows in_f n input row tables next

  unfoldable pub ternary_mul_scalar_blocks :
      List ContigTerm → ℕ → ℕ → ℕ → List F → Result Error (List F)
  ternary_mul_scalar_blocks tables out_f in_f n input =
      for_each (λ row. term_rows in_f n input row tables zero_f) 0 out_f

  -- The kernel's arrays of pointers have 32 places, and a table for each term.
  unfoldable pub ternary_linear_blocks : Layer → List F → Result Error (List F)
  ternary_linear_blocks layer input =
      let ld = layer.typed in
      if not ld.has_blocks || (length ld.block_terms == 0) || (ld.in_features == 0)
      then ternary_linear layer input
      else (term_tables ld >>= λ tables.
          if leb (length tables) 32 && (length tables == length ld.block_terms)
          then ternary_mul_scalar_blocks tables ld.out_features ld.in_features (n_blocks ld) input
          else err bad_tables)

  unfoldable pub raw_row : List F → ℕ → List F → ℕ → Result Error F
  raw_row raw in_f xs row = do w ← slice (row * in_f) in_f raw; ok (dot zero_f w xs)

  unfoldable pub raw_product : LayerData → List F → Result Error (List F)
  raw_product ld input = do
    xs ← slice 0 ld.in_features input
    for_each (raw_row (map of_bits ld.raw_weights) ld.in_features xs) 0 ld.out_features

  unfoldable pub ternary_linear_dispatch : Layer → List F → Result Error (List F)
  ternary_linear_dispatch layer input =
      if layer.typed.has_raw_weights
      then raw_product layer.typed input
      else if layer.typed.has_blocks
      then ternary_linear_blocks layer input
      else ternary_linear layer input
