-- ===== src/Inference/Kernels/BlockRows.antt =====
-- The blocks of a layer (ternary_linear_blocks of src/dispatcher.cpp).
use terllama.Prelude.{
  ℕ, suc, ◌+◌, ◌-◌, ◌*◌, ◌/◌, ◌≤◌, ◌<◌, ◌≡◌, refl, ap, true, false, not, ◌||◌, ◌&&◌, some, List, [],
  ◌∷◌, length, arith, leb, ◌==◌, get_elem?, min,
}
use terllama.Prelude.Gives.{Gives, gives_ok, gives_bind, gives_weaken}
use terllama.AlsFormat.{BlockTerm}
use terllama.AlsLayer.{ContigTerm}
use terllama.AlsLayer.Load.{IsTable, HasTables}
use terllama.Inference.{FloatOps, Layer}
use terllama.Inference.Totals.{HasLength, slice-Gives, for_each-Gives, for_sum-Gives}
use terllama.Inference.Kernels.{
  zero_f, term_tables, block_turn, term_row, term_rows, ternary_mul_scalar_blocks,
  ternary_linear_blocks,
}
use terllama.Inference.Kernels.Fit.{FitsBlocks, get_bound, at_known, AnyValue}

same_length :
    (qk out_f n : ℕ) (terms : List (List BlockTerm)) (tables : List ContigTerm)
    → HasTables qk out_f n terms tables
    → length tables ≡ length terms
same_length qk out_f n [] [] h = refl
same_length qk out_f n (blocks ∷ terms) [] h = absurd h
same_length qk out_f n [] (table ∷ tables) h = absurd h
same_length qk out_f n (blocks ∷ terms) (table ∷ tables) (ht, h) =
    ap suc (same_length qk out_f n terms tables h)

module _ {F : Type 0} ⦃o : FloatOps F⦄ where
  module _ (in_f out_f n : ℕ) (blocks : List BlockTerm) (table : ContigTerm)
      (ht : IsTable 128 out_f n blocks table) where
    block_turn-Gives :
        (input : List F) (row row_data row_scales b : ℕ) (sum : F)
        → in_f ≤ length input
        → n ≡ (in_f + 128 - 1) / 128
        → row < out_f
        → b < n
        → get_elem? table.block_data row ≡ some row_data
        → get_elem? table.block_scales row ≡ some row_scales
        → Gives (block_turn table row_data row_scales in_f input b sum) AnyValue
    unfolding block_turn
    block_turn-Gives input row row_data row_scales b sum hi hn hr hb hd hs =
        let (start, block, byte, at_start, at_block, at_byte, at_code) =
          ht.code row b 31 hr hb (omega arith) in
        let (start_s, block_s, at_start_s, at_block_s, at_scale) = ht.scale row b hr hb in
        let same : start ≡ row_data = cc (at_start, hd) in
        let same_s : start_s ≡ row_scales = cc (at_start_s, hs) in
        let room : start + (b * 32 + 31) < length table.contig_data =
          get_bound table.contig_data (start + (b * 32 + 31)) byte at_code in
        let scale_at : get_elem? table.contig_scales (row_scales + b) ≡ some block_s.scale =
          rw (← same_s) at_scale in
        let width = min 128 (in_f - b * 128) in
        gives_bind
          (slice-Gives (row_data + b * 32) ((width + 3) / 4) table.contig_data
            (omega (arith, room, same)))
          λ packed hp.
            gives_bind (at_known table.contig_scales (row_scales + b) block_s.scale scale_at)
              λ w_scale hw.
                gives_bind (slice-Gives (b * 128) width input (omega (arith, hi, hn, hb)))
                  λ xs hx. gives_ok AnyValue _ tt

    term_row-Gives :
        (input : List F) (row : ℕ) (sum : F)
        → in_f ≤ length input
        → n ≡ (in_f + 128 - 1) / 128
        → 0 < in_f
        → row < out_f
        → Gives (term_row in_f n input row table sum) AnyValue
    unfolding term_row
    term_row-Gives input row sum hi hn wide hr =
        let (start, block, byte, at_start, at_block, at_byte, at_code) =
          ht.code row 0 31 hr (omega (arith, hn, wide)) (omega arith) in
        let (start_s, block_s, at_start_s, at_block_s, at_scale) =
          ht.scale row 0 hr (omega (arith, hn, wide)) in
        gives_bind (at_known table.block_data row start at_start) λ row_data hd.
          gives_bind (at_known table.block_scales row start_s at_start_s) λ row_scales hs.
            for_sum-Gives AnyValue (block_turn table row_data row_scales in_f input) 0 n sum
              (λ b s hb hs'.
                block_turn-Gives input row row_data row_scales b s hi hn hr (omega (arith, hb)) hd
                  hs)
              tt

  module _ (in_f out_f n : ℕ) (input : List F) (hi : in_f ≤ length input)
      (hn : n ≡ (in_f + 128 - 1) / 128) (wide : 0 < in_f) where
    term_rows-Gives :
        (row : ℕ) (terms : List (List BlockTerm)) (tables : List ContigTerm) (sum : F)
        → row < out_f
        → HasTables 128 out_f n terms tables
        → Gives (term_rows in_f n input row tables sum) AnyValue
    unfolding term_rows
    term_rows-Gives row [] [] sum hr h = gives_ok AnyValue sum tt
    term_rows-Gives row (blocks ∷ terms) [] sum hr h = absurd h
    term_rows-Gives row [] (table ∷ tables) sum hr h = absurd h
    term_rows-Gives row (blocks ∷ terms) (table ∷ tables) sum hr (ht, h) =
        gives_bind (term_row-Gives in_f out_f n blocks table ht input row sum hi hn wide hr)
          λ next hx. term_rows-Gives row terms tables next hr h

  pub blocks-Gives :
      (l : Layer) (input : List F)
      → l.typed.in_features ≤ length input
      → FitsBlocks l.typed
      → Gives (ternary_linear_blocks l input) (HasLength l.typed.out_features)
  unfolding ternary_linear_blocks term_tables ternary_mul_scalar_blocks
  blocks-Gives l input hi h =
      let ld = l.typed in
      let n = (ld.in_features + 128 - 1) / 128 in
      let (built, same_out, low, high, tables_ok) = h.loaded in
      let len = same_length 128 ld.out_features n ld.block_terms ld.term_tables tables_ok in
      let use_blocks : not ld.has_blocks || (length ld.block_terms == 0) || (ld.in_features == 0)
          ≡ false =
        ground (arith, h.has_blocks, low, h.wide) in
      let fits : leb (length ld.term_tables) 32 && (length ld.term_tables == length ld.block_terms)
          ≡ true =
        ground (arith, len, high) in
      rw (use_blocks, built)
        (rw (fits, h.size)
          (gives_weaken
            (for_each-Gives AnyValue
              (λ row. term_rows ld.in_features n input row ld.term_tables zero_f) 0 ld.out_features
              (λ row hr.
                term_rows-Gives ld.in_features ld.out_features n input hi refl h.wide row
                  ld.block_terms ld.term_tables zero_f (omega (arith, hr)) tables_ok))
            (λ ys hy. hy.0)))
