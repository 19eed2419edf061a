-- ===== src/AlsFormat.antt =====
-- The file format of block-scaled ternary layers: the writer, pack_als_block and pack_als_block_terms
-- of src/convert/als_decompose.cpp, and the reader, parse_block_terms, parse_layer_type_data and the
-- tables of build_block_contig_cache in src/loader.h. A float is its 32-bit pattern.
-- The writer's sizes do not overflow the int that holds them; a term's length is cut to 32 bits as it is
-- written.
pub mod Blocks
pub mod Writer
pub mod Reader
pub mod Container
mod Runs
use terllama.Prelude.{
  ℕ, zero, suc, ◌+◌, ◌-◌, ◌*◌, ◌/◌, ◌%◌, ◌^◌, min, List, [], ◌∷◌, ◌++◌, length, take, drop,
  if◌then◌else◌, ltb, leb, ◌==◌, ◌||◌,
}
use terllama.Prelude.Bytes.{le_bytes, read_le}
use terllama.Prelude.Int.{ℤ}
use terllama.Prelude.Results.{Result, ok, err, ◌>>=◌}
use terllama.Ternary.{block_codes, pack_bytes}

-- `out_of_bounds` is an access the source leaves undefined; the others are its exceptions.
pub data Error : Type 0 where
  out_of_bounds : Error
  blocks_truncated : Error
  bad_header : Error
  invalid_num_terms : Error
  truncated_term_length : Error
  truncated_term_data : Error

pub record AlsTerm : Type 0 where
  pub scales : List ℕ
  pub ternary : List ℤ

pub record BlockTerm : Type 0 where
  pub packed : List ℕ
  pub scale : ℕ

-- `n` values from offset `off`.
unfoldable pub window : ℕ → ℕ → List ℤ → Result Error (List ℤ)
window off zero tv = ok []
window off (suc n) tv =
    if leb (off + suc n) (length tv) then ok (take (suc n) (drop off tv)) else err out_of_bounds

unfoldable pub pack_block : ℕ → List ℤ → ℕ → List ℕ
pack_block qk trits scale = pack_bytes (block_codes qk trits) ++ le_bytes 4 scale

-- Block `b` starts at b * qk and ends at the end of the row at the latest.
unfoldable pub width : ℕ → ℕ → ℕ → ℕ
width qk in_f b = min (b * qk + qk) in_f - b * qk

-- The blocks of one row, from block `b` on.
unfoldable pub pack_row : ℕ → ℕ → List ℤ → ℕ → List ℕ → Result Error (List ℕ)
pack_row qk in_f tv b [] = ok []
pack_row qk in_f tv b (scale ∷ scales) = do
  trits ← window (b * qk) (width qk in_f b) tv
  rest ← pack_row qk in_f tv (suc b) scales
  ok (pack_block qk trits scale ++ rest)

-- `rows` rows, the first of them at the head of `tv`.
unfoldable pub pack_rows : ℕ → ℕ → ℕ → List ℕ → List ℤ → Result Error (List ℕ)
pack_rows zero qk in_f scales tv = ok []
pack_rows (suc rows) qk in_f scales tv = do
  row ← pack_row qk in_f tv 0 scales
  rest ← pack_rows rows qk in_f scales (drop in_f tv)
  ok (row ++ rest)

unfoldable pub pack_als_block : AlsTerm → ℕ → ℕ → ℕ → Result Error (List ℕ)
pack_als_block term out_f in_f qk = pack_rows out_f qk in_f term.scales term.ternary

-- A term whose length does not fit 32 bits gets a buffer that is too small.
unfoldable pub pack_terms : List AlsTerm → ℕ → ℕ → ℕ → Result Error (List ℕ)
pack_terms [] out_f in_f qk = ok []
pack_terms (term ∷ terms) out_f in_f qk = do
  blob ← pack_als_block term out_f in_f qk
  rest ← pack_terms terms out_f in_f qk
  if ltb (length blob) (2 ^ 32)
      then ok (le_bytes 4 (length blob) ++ (blob ++ rest))
      else err out_of_bounds

unfoldable pub pack_als_block_terms : List AlsTerm → ℕ → ℕ → ℕ → Result Error (List ℕ)
pack_als_block_terms terms out_f in_f qk = do
  rest ← pack_terms terms out_f in_f qk
  ok (le_bytes 4 (length terms) ++ rest)

-- The offset and the length are ints: an offset that does not fit overflows, which is undefined, and a
-- length from 2^31 on counts as negative.
unfoldable pub parse_block : ℕ → List ℕ → ℕ → Result Error BlockTerm
parse_block qk buf offset =
    let block_end = offset + qk / 4 + 4 in
    let data_len = length buf % 2 ^ 32 in
    if leb (2 ^ 31) block_end
    then err out_of_bounds
    else if leb (2 ^ 31) data_len || ltb data_len block_end
    then err blocks_truncated
    else ok (record {
      packed = take (qk / 4) (drop offset buf);
      scale = read_le 4 (offset + qk / 4) buf;
    })

-- `todo` blocks of the row at offset `row_offset`, from block `b` on.
unfoldable pub parse_row : ℕ → List ℕ → ℕ → ℕ → ℕ → Result Error (List BlockTerm)
parse_row qk buf row_offset b zero = ok []
parse_row qk buf row_offset b (suc todo) = do
  block ← parse_block qk buf (row_offset + b * (qk / 4 + 4))
  blocks ← parse_row qk buf row_offset (suc b) todo
  ok (block ∷ blocks)

unfoldable pub parse_rows : ℕ → List ℕ → ℕ → ℕ → ℕ → Result Error (List BlockTerm)
parse_rows qk buf n_blocks row zero = ok []
parse_rows qk buf n_blocks row (suc todo) = do
  blocks ← parse_row qk buf (row * (n_blocks * (qk / 4 + 4))) 0 n_blocks
  rest ← parse_rows qk buf n_blocks (suc row) todo
  ok (blocks ++ rest)

-- The number of a row's blocks is an int, whose sum may overflow.
unfoldable pub parse_block_terms : List ℕ → ℕ → ℕ → ℕ → Result Error (List BlockTerm)
parse_block_terms buf out_f in_f qk =
    if leb (2 ^ 31) (in_f + qk - 1)
    then err out_of_bounds
    else parse_rows qk buf ((in_f + qk - 1) / qk) 0 out_f

-- The container's terms, read from offset `pos`.
unfoldable pub parse_terms : ℕ → List ℕ → ℕ → ℕ → ℕ → ℕ → Result Error (List (List BlockTerm))
parse_terms zero buf pos out_f in_f qk = ok []
parse_terms (suc todo) buf pos out_f in_f qk =
    if ltb (length buf) (pos + 4)
    then err truncated_term_length
    else if ltb (length buf) (pos + 4 + read_le 4 pos buf)
    then err truncated_term_data
    else do
      blocks ← parse_block_terms (take (read_le 4 pos buf) (drop (pos + 4) buf)) out_f in_f qk
      rest ← parse_terms todo buf (pos + 4 + read_le 4 pos buf) out_f in_f qk
      ok (blocks ∷ rest)

unfoldable pub parse_container : List ℕ → ℕ → ℕ → ℕ → Result Error (List (List BlockTerm))
parse_container buf out_f in_f qk =
    if ltb (length buf) 4
    then err bad_header
    else if (read_le 4 0 buf == 0) || ltb 32 (read_le 4 0 buf)
    then err invalid_num_terms
    else parse_terms (read_le 4 0 buf) buf 4 out_f in_f qk
