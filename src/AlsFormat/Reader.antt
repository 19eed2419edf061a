-- ===== src/AlsFormat/Reader.antt =====
-- Reading back the blocks of a buffer (parse_block_terms of src/loader.h).
use mathlib.Core.List.{append_assoc}
use terllama.Prelude.{
  ℕ, zero, suc, ◌+◌, ◌-◌, ◌*◌, ◌/◌, ◌%◌, ◌^◌, ◌≤◌, ◌<◌, ◌≡◌, false, ◌||◌, ltb, leb, refl, sym, ap,
  ◌∙◌, List, [], ◌∷◌, ◌++◌, length, take, drop, All, arith, length-append, length-drop,
  take-append_left, drop-append_left, drop-add,
}
use native.Mathlib.Nat.{add-mul}
use terllama.Prelude.Bytes.{le_bytes, length-le_bytes, read_le, read_le-le_bytes, IsU32}
use terllama.Prelude.Int.{ℤ}
use terllama.Prelude.Results.{ok}
use terllama.AlsFormat.{BlockTerm, parse_block, parse_row, parse_rows, parse_block_terms}
use terllama.AlsFormat.Blocks.{
  row_blocks, row-IsBlock, term_blocks, blocks_bytes, blocks_bytes-append, IsBlock,
}

module _ (qk : ℕ) (buf : List ℕ) (below : length buf < 2 ^ 31) where
  length-block_bytes :
      (block : BlockTerm)
      → IsBlock qk block
      → length (block.packed ++ le_bytes 4 block.scale) ≡ qk / 4 + 4
  length-block_bytes block h = omega (
    arith,
    length-append block.packed (le_bytes 4 block.scale),
    length-le_bytes 4 block.scale,
    h.0,
  )

  parse_block-back :
      (offset : ℕ) (block : BlockTerm) (rest : List ℕ)
      → IsBlock qk block
      → drop offset buf ≡ (block.packed ++ le_bytes 4 block.scale) ++ rest
      → parse_block qk buf offset ≡ ok block
  unfolding parse_block
  parse_block-back offset block rest h at =
      let bytes = block.packed ++ le_bytes 4 block.scale in
      let enough : offset + qk / 4 + 4 ≤ length buf = omega (
        arith,
        ap length at,
        length-append bytes rest,
        length-block_bytes block h,
        length-drop offset buf,
      ) in
      let there = at ∙ append_assoc block.packed (le_bytes 4 block.scale) rest in
      let codes : take (qk / 4) (drop offset buf) ≡ block.packed =
        ap (take (qk / 4)) there ∙ take-append_left (qk / 4) block.packed _ h.0 in
      let scale : read_le 4 (offset + qk / 4) buf ≡ block.scale =
        read_le-le_bytes (offset + qk / 4) block.scale buf rest h.1 (
          drop-add offset (qk / 4) buf
          ∙ ap (drop (qk / 4)) there
          ∙ drop-append_left (qk / 4) block.packed _ h.0) in
      let in_int : leb (2 ^ 31) (offset + qk / 4 + 4) ≡ false = ground (arith, enough, below) in
      let fits : leb (2 ^ 31) (length buf % 2 ^ 32)
            || ltb (length buf % 2 ^ 32) (offset + qk / 4 + 4)
          ≡ false =
        ground (arith, enough, below) in
      rw (codes, scale, in_int, fits) refl

  row_step :
      (row_offset b todo : ℕ) (block : BlockTerm) (blocks : List BlockTerm)
      → parse_block qk buf (row_offset + b * (qk / 4 + 4)) ≡ ok block
      → parse_row qk buf row_offset (suc b) todo ≡ ok blocks
      → parse_row qk buf row_offset b (suc todo) ≡ ok (block ∷ blocks)
  unfolding parse_row
  row_step row_offset b todo block blocks h hr = rw (h, hr) refl

  parse_row-back :
      (row_offset b todo : ℕ) (blocks : List BlockTerm) (rest : List ℕ)
      → length blocks ≡ todo
      → All (IsBlock qk) blocks
      → drop (row_offset + b * (qk / 4 + 4)) buf ≡ blocks_bytes blocks ++ rest
      → parse_row qk buf row_offset b todo ≡ ok blocks
  parse_row-back row_offset b zero [] rest len h at = unfold parse_row in refl
  parse_row-back row_offset b (suc todo) (block ∷ blocks) rest len (hb, h) at =
      let bytes = block.packed ++ le_bytes 4 block.scale in
      let there = at ∙ append_assoc bytes (blocks_bytes blocks) rest in
      let next : row_offset + suc b * (qk / 4 + 4) ≡ row_offset + b * (qk / 4 + 4) + (qk / 4 + 4) =
        omega (arith, add-mul 1 b (qk / 4 + 4)) in
      row_step row_offset b todo block blocks
        (parse_block-back (row_offset + b * (qk / 4 + 4)) block (blocks_bytes blocks ++ rest) hb
          there)
        (parse_row-back row_offset (suc b) todo blocks rest (omega arith) h (
          ap (λ i. drop i buf) next
          ∙ drop-add (row_offset + b * (qk / 4 + 4)) (qk / 4 + 4) buf
          ∙ ap (drop (qk / 4 + 4)) there
          ∙ drop-append_left (qk / 4 + 4) bytes _ (length-block_bytes block hb)))
  parse_row-back row_offset b zero (block ∷ blocks) rest len h at = absurd (omega arith)
  parse_row-back row_offset b (suc todo) [] rest len h at = absurd (omega arith)

  pub length-blocks_bytes :
      (blocks : List BlockTerm)
      → All (IsBlock qk) blocks
      → length (blocks_bytes blocks) ≡ length blocks * (qk / 4 + 4)
  length-blocks_bytes [] h = omega arith
  length-blocks_bytes (block ∷ blocks) (hb, h) = omega (
    arith,
    length-append (block.packed ++ le_bytes 4 block.scale) (blocks_bytes blocks),
    length-block_bytes block hb,
    length-blocks_bytes blocks h,
    add-mul 1 (length blocks) (qk / 4 + 4),
  )

  pub rows_step :
      (n_blocks row todo : ℕ) (blocks rest : List BlockTerm)
      → parse_row qk buf (row * (n_blocks * (qk / 4 + 4))) 0 n_blocks ≡ ok blocks
      → parse_rows qk buf n_blocks (suc row) todo ≡ ok rest
      → parse_rows qk buf n_blocks row (suc todo) ≡ ok (blocks ++ rest)
  unfolding parse_rows
  rows_step n_blocks row todo blocks rest h hr = rw (h, hr) refl

  -- One row, and where the next one starts.
  pub row-back :
      (n_blocks row : ℕ) (blocks : List BlockTerm) (rest : List ℕ)
      → length blocks ≡ n_blocks
      → All (IsBlock qk) blocks
      → drop (row * (n_blocks * (qk / 4 + 4))) buf ≡ blocks_bytes blocks ++ rest
      → (parse_row qk buf (row * (n_blocks * (qk / 4 + 4))) 0 n_blocks ≡ ok blocks)
        × (drop (suc row * (n_blocks * (qk / 4 + 4))) buf ≡ rest)
  row-back n_blocks row blocks rest len h at =
      let stride = n_blocks * (qk / 4 + 4) in
      let start : row * stride + 0 * (qk / 4 + 4) ≡ row * stride = omega arith in
      let next : suc row * stride ≡ row * stride + stride = omega (arith, add-mul 1 row stride) in
      let size : length (blocks_bytes blocks) ≡ stride =
        length-blocks_bytes blocks h ∙ ap (λ n. n * (qk / 4 + 4)) len in
      (
        parse_row-back (row * stride) 0 n_blocks blocks rest len h
            (ap (λ i. drop i buf) start ∙ at),
        ap (λ i. drop i buf) next
            ∙ drop-add (row * stride) stride buf
            ∙ ap (drop stride) at
            ∙ drop-append_left stride (blocks_bytes blocks) rest size,
      )

length-row_blocks :
    (qk in_f b : ℕ) (tv : List ℤ) (scales : List ℕ)
    → length (row_blocks qk in_f tv b scales) ≡ length scales
length-row_blocks qk in_f b tv [] = refl
length-row_blocks qk in_f b tv (s ∷ scales) = ap suc (length-row_blocks qk in_f (suc b) tv scales)

module _ (groups qk in_f : ℕ) (e : qk ≡ 4 * groups) (scales : List ℕ) (hs : All IsU32 scales)
    (buf : List ℕ) (below : length buf < 2 ^ 31) where
  parse_rows-back :
      (row todo : ℕ) (tv : List ℤ) (rest : List ℕ)
      → drop (row * (length scales * (qk / 4 + 4))) buf
        ≡ blocks_bytes (term_blocks todo qk in_f scales tv) ++ rest
      → parse_rows qk buf (length scales) row todo ≡ ok (term_blocks todo qk in_f scales tv)
  parse_rows-back row zero tv rest at = unfold parse_rows in refl
  parse_rows-back row (suc todo) tv rest at =
      let blocks = row_blocks qk in_f tv 0 scales in
      let others = term_blocks todo qk in_f scales (drop in_f tv) in
      let (this, next) =
        row-back qk buf below (length scales) row blocks (blocks_bytes others ++ rest)
          (length-row_blocks qk in_f 0 tv scales) (row-IsBlock groups qk in_f e tv 0 scales hs)
          (at
            ∙ ap (λ t. t ++ rest) (blocks_bytes-append blocks others)
            ∙ append_assoc (blocks_bytes blocks) (blocks_bytes others) rest) in
      rows_step qk buf below (length scales) row todo blocks others this
        (parse_rows-back (suc row) todo (drop in_f tv) rest next)

  -- A buffer that starts with the blocks of a term is read back as those blocks.
  pub parse_block_terms-back :
      (out_f : ℕ) (tv : List ℤ) (rest : List ℕ)
      → in_f + qk - 1 < 2 ^ 31
      → length scales ≡ (in_f + qk - 1) / qk
      → buf ≡ blocks_bytes (term_blocks out_f qk in_f scales tv) ++ rest
      → parse_block_terms buf out_f in_f qk ≡ ok (term_blocks out_f qk in_f scales tv)
  unfolding parse_block_terms
  parse_block_terms-back out_f tv rest in_int len at =
      let fits : leb (2 ^ 31) (in_f + qk - 1) ≡ false = ground (arith, in_int) in
      let start : 0 * (length scales * (qk / 4 + 4)) ≡ 0 = omega arith in
      rw fits (
        ap (λ n. parse_rows qk buf n 0 out_f) (sym len)
        ∙ parse_rows-back 0 out_f tv rest (ap (λ i. drop i buf) start ∙ at))

pub length-term_blocks :
    (rows qk in_f : ℕ) (scales : List ℕ) (tv : List ℤ)
    → length (term_blocks rows qk in_f scales tv) ≡ rows * length scales
length-term_blocks zero qk in_f scales tv = omega arith
length-term_blocks (suc rows) qk in_f scales tv = omega (
  arith,
  length-append (row_blocks qk in_f tv 0 scales) (term_blocks rows qk in_f scales (drop in_f tv)),
  length-row_blocks qk in_f 0 tv scales,
  length-term_blocks rows qk in_f scales (drop in_f tv),
  add-mul 1 rows (length scales),
)
