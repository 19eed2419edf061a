-- ===== src/AlsFormat/Writer.antt =====
-- The bytes that pack_als_block writes (src/convert/als_decompose.cpp).
use mathlib.Core.List.{map-append}
use mathlib.Core.Path.{ap₂}
use terllama.Prelude.{
  ℕ, zero, suc, ◌+◌, ◌*◌, ◌≤◌, ◌≡◌, refl, sym, ap, ◌∙◌, max, List, [], ◌∷◌, ◌++◌, map, length, take,
  drop, All, arith, length-drop, All-drop, All-append,
}
use native.Mathlib.Nat.{add-mul}
use terllama.Prelude.Bytes.{IsU32}
use terllama.Prelude.Int.{ℤ}
use terllama.Prelude.Results.{ok}
use terllama.Ternary.Tq1.{IsTrit}
use terllama.AlsFormat.{AlsTerm, window, pack_block, width, pack_row, pack_rows, pack_als_block}
use terllama.AlsFormat.Blocks.{
  block_trits, row_blocks, term_blocks, weights, term_weights, blocks_bytes, blocks_bytes-append,
  IsBlock, row-IsBlock, row-weights,
}

window-exact :
    (off n : ℕ) (tv : List ℤ)
    → off + n ≤ max off (length tv)
    → window off n tv ≡ ok (take n (drop off tv))
unfolding window
window-exact off zero tv h = refl
window-exact off (suc n) tv h = ground arith

row_step :
    (qk in_f b s : ℕ) (tv : List ℤ) (scales rest : List ℕ) (trits : List ℤ)
    → window (b * qk) (width qk in_f b) tv ≡ ok trits
    → pack_row qk in_f tv (suc b) scales ≡ ok rest
    → pack_row qk in_f tv b (s ∷ scales) ≡ ok (pack_block qk trits s ++ rest)
unfolding pack_row
row_step qk in_f b s tv scales rest trits h hr = rw (pack_row, h, hr) refl

pack_row-bytes :
    (qk in_f b : ℕ) (tv : List ℤ) (scales : List ℕ)
    → in_f ≤ length tv
    → pack_row qk in_f tv b scales ≡ ok (blocks_bytes (row_blocks qk in_f tv b scales))
unfolding pack_block width
pack_row-bytes qk in_f b tv [] h = unfold pack_row in refl
pack_row-bytes qk in_f b tv (s ∷ scales) h =
    row_step qk in_f b s tv scales (blocks_bytes (row_blocks qk in_f tv (suc b) scales))
      (block_trits qk in_f tv b) (window-exact (b * qk) (width qk in_f b) tv (omega arith))
      (pack_row-bytes qk in_f (suc b) tv scales h)

rows_step :
    (rows qk in_f : ℕ) (scales row rest : List ℕ) (tv : List ℤ)
    → pack_row qk in_f tv 0 scales ≡ ok row
    → pack_rows rows qk in_f scales (drop in_f tv) ≡ ok rest
    → pack_rows (suc rows) qk in_f scales tv ≡ ok (row ++ rest)
unfolding pack_rows
rows_step rows qk in_f scales row rest tv h hr = rw (h, hr) refl

pack_rows-bytes :
    (rows qk in_f : ℕ) (scales : List ℕ) (tv : List ℤ)
    → rows * in_f ≤ length tv
    → pack_rows rows qk in_f scales tv ≡ ok (blocks_bytes (term_blocks rows qk in_f scales tv))
pack_rows-bytes zero qk in_f scales tv h = unfold pack_rows in refl
pack_rows-bytes (suc rows) qk in_f scales tv h =
    let more : in_f + rows * in_f ≤ length tv = omega (arith, add-mul 1 rows in_f) in
    rows_step rows qk in_f scales _ _ tv (pack_row-bytes qk in_f 0 tv scales (omega (arith, more)))
      (pack_rows-bytes rows qk in_f scales (drop in_f tv)
        (omega (arith, more, length-drop in_f tv)))
    ∙ ap ok (sym (blocks_bytes-append (row_blocks qk in_f tv 0 scales) _))

-- The writer does not read past the weights of a term that has enough of them, and writes its blocks.
pub pack_als_block-bytes :
    (term : AlsTerm) (out_f in_f qk : ℕ)
    → out_f * in_f ≤ length term.ternary
    → pack_als_block term out_f in_f qk
      ≡ ok (blocks_bytes (term_blocks out_f qk in_f term.scales term.ternary))
unfolding pack_als_block
pack_als_block-bytes term out_f in_f qk h = pack_rows-bytes out_f qk in_f term.scales term.ternary h

module _ (groups qk in_f : ℕ) (e : qk ≡ 4 * groups) where
  pub term-IsBlock :
      (rows : ℕ) (scales : List ℕ) (tv : List ℤ)
      → All IsU32 scales
      → All (IsBlock qk) (term_blocks rows qk in_f scales tv)
  term-IsBlock zero scales tv h = tt
  term-IsBlock (suc rows) scales tv h =
      All-append (IsBlock qk) (row_blocks qk in_f tv 0 scales) _
        (row-IsBlock groups qk in_f e tv 0 scales h) (term-IsBlock rows scales (drop in_f tv) h)

  pub term-weights :
      (rows : ℕ) (scales : List ℕ) (tv : List ℤ)
      → All IsTrit tv
      → map (weights qk) (term_blocks rows qk in_f scales tv) ≡ term_weights rows qk in_f scales tv
  term-weights zero scales tv h = refl
  term-weights (suc rows) scales tv h =
      map-append (weights qk) (row_blocks qk in_f tv 0 scales)
        (term_blocks rows qk in_f scales (drop in_f tv))
      ∙ ap₂ ◌++◌ (row-weights groups qk in_f e tv 0 scales h)
          (term-weights rows scales (drop in_f tv) (All-drop IsTrit in_f tv h))
