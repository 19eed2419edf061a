-- ===== src/AlsFormat/Container.antt =====
-- The container of a layer's terms, written and read back (pack_als_block_terms of
-- src/convert/als_decompose.cpp, parse_layer_type_data of src/loader.h).
use mathlib.Core.List.{append_assoc, append-nil}
use mathlib.Core.Path.{ap₂}
use terllama.Prelude.{
  ℕ, zero, suc, ◌+◌, ◌-◌, ◌*◌, ◌/◌, ◌^◌, ◌≤◌, ◌<◌, ◌≡◌, refl, sym, ap, ◌∙◌, List, [], ◌∷◌, ◌++◌,
  map, length, take, drop, All, arith, length-append, length-drop, take-append_left,
  drop-append_left, drop-add, ltb, ◌==◌, ◌||◌, false,
}
use terllama.Prelude.Bytes.{le_bytes, length-le_bytes, read_le, read_le-le_bytes, IsU32}
use terllama.Prelude.Results.{ok}
use terllama.Ternary.Tq1.{IsTrit}
use terllama.AlsFormat.{
  AlsTerm, BlockTerm, pack_als_block, pack_terms, pack_als_block_terms, parse_block_terms,
  parse_terms, parse_container,
}
use terllama.AlsFormat.Blocks.{term_blocks, term_weights, weights, blocks_bytes}
use terllama.AlsFormat.Writer.{pack_als_block-bytes, term-IsBlock, term-weights}
use terllama.AlsFormat.Reader.{parse_block_terms-back, length-blocks_bytes, length-term_blocks}

-- A term of an out_f by in_f matrix: a scale for each block of a row and a trit for each weight.
pub record IsTerm (out_f in_f qk : ℕ) (term : AlsTerm) : Type 0 where
  pub trits : All IsTrit term.ternary
  pub sizes : length term.ternary ≡ out_f * in_f
  pub blocks : length term.scales ≡ (in_f + qk - 1) / qk
  pub floats : All IsU32 term.scales

-- The blocks and the values of a whole term.
abbrev pub blocks_of : ℕ → ℕ → ℕ → AlsTerm → List BlockTerm
blocks_of out_f in_f qk term = term_blocks out_f qk in_f term.scales term.ternary

module _ (groups out_f in_f qk : ℕ) (e : qk ≡ 4 * groups) where
  back :
      (term : AlsTerm) (buf rest : List ℕ)
      → IsTerm out_f in_f qk term
      → length buf < 2 ^ 31
      → in_f + qk - 1 < 2 ^ 31
      → buf ≡ blocks_bytes (blocks_of out_f in_f qk term) ++ rest
      → parse_block_terms buf out_f in_f qk ≡ ok (blocks_of out_f in_f qk term)
  back term buf rest h below in_int at =
      parse_block_terms-back groups qk in_f e term.scales h.floats buf below out_f term.ternary rest
        in_int h.blocks at

  -- The bytes of the terms, each after its length.
  abbrev terms_bytes : List AlsTerm → List ℕ
  terms_bytes [] = []
  terms_bytes (term ∷ terms) =
      let blob = blocks_bytes (blocks_of out_f in_f qk term) in
      le_bytes 4 (length blob) ++ (blob ++ terms_bytes terms)

  module _ (in_int : in_f + qk - 1 < 2 ^ 31)
      (small : out_f * ((in_f + qk - 1) / qk) * (qk / 4 + 4) < 2 ^ 31) where
    blob_small :
        (term : AlsTerm)
        → IsTerm out_f in_f qk term
        → length (blocks_bytes (blocks_of out_f in_f qk term)) < 2 ^ 31
    blob_small term h =
        let blocks = blocks_of out_f in_f qk term in
        let count : length blocks ≡ out_f * ((in_f + qk - 1) / qk) =
          length-term_blocks out_f qk in_f term.scales term.ternary
          ∙ ap (λ n. out_f * n) h.blocks in
        omega (
          arith,
          small,
          length-blocks_bytes qk [] (omega arith) blocks
              (term-IsBlock groups qk in_f e out_f term.scales term.ternary h.floats),
          ap (λ n. n * (qk / 4 + 4)) count,
        )

    pack_step :
        (term : AlsTerm) (terms : List AlsTerm) (blob rest : List ℕ)
        → pack_als_block term out_f in_f qk ≡ ok blob
        → IsU32 (length blob)
        → pack_terms terms out_f in_f qk ≡ ok rest
        → pack_terms (term ∷ terms) out_f in_f qk ≡ ok (le_bytes 4 (length blob) ++ (blob ++ rest))
    unfolding pack_terms
    pack_step term terms blob rest h fits hr = rw (pack_terms, h, hr) (ground arith)

    pack_terms-bytes :
        (terms : List AlsTerm)
        → All (IsTerm out_f in_f qk) terms
        → pack_terms terms out_f in_f qk ≡ ok (terms_bytes terms)
    pack_terms-bytes [] h = unfold pack_terms in refl
    pack_terms-bytes (term ∷ terms) (ht, h) =
        pack_step term terms (blocks_bytes (blocks_of out_f in_f qk term)) (terms_bytes terms)
          (pack_als_block-bytes term out_f in_f qk (omega (arith, ht.sizes)))
          (omega (arith, blob_small term ht)) (pack_terms-bytes terms h)

    parse_step :
        (todo pos len : ℕ) (buf blob : List ℕ) (blocks : List BlockTerm)
        (rest : List (List BlockTerm))
        → pos + 4 + len ≤ length buf
        → read_le 4 pos buf ≡ len
        → take len (drop (pos + 4) buf) ≡ blob
        → parse_block_terms blob out_f in_f qk ≡ ok blocks
        → parse_terms todo buf (pos + 4 + len) out_f in_f qk ≡ ok rest
        → parse_terms (suc todo) buf pos out_f in_f qk ≡ ok (blocks ∷ rest)
    unfolding parse_terms
    parse_step todo pos len buf blob blocks rest room hlen hblob h hr =
        let first : ltb (length buf) (pos + 4) ≡ false = ground arith in
        let second : ltb (length buf) (pos + 4 + len) ≡ false = ground arith in
        rw (parse_terms, hlen, first, second, hblob, h, hr) refl

    parse_terms-back :
        (todo pos : ℕ) (terms : List AlsTerm) (buf rest : List ℕ)
        → length terms ≡ todo
        → All (IsTerm out_f in_f qk) terms
        → drop pos buf ≡ terms_bytes terms ++ rest
        → parse_terms todo buf pos out_f in_f qk ≡ ok (map (blocks_of out_f in_f qk) terms)
    parse_terms-back zero pos [] buf rest len h at = unfold parse_terms in refl
    parse_terms-back zero pos (term ∷ terms) buf rest len h at = absurd (omega arith)
    parse_terms-back (suc todo) pos [] buf rest len h at = absurd (omega arith)
    parse_terms-back (suc todo) pos (term ∷ terms) buf rest len (ht, h) at =
        let blob = blocks_bytes (blocks_of out_f in_f qk term) in
        let head = le_bytes 4 (length blob) in
        let there : drop pos buf ≡ head ++ (blob ++ (terms_bytes terms ++ rest)) =
          at
          ∙ append_assoc head (blob ++ terms_bytes terms) rest
          ∙ ap (λ t. head ++ t) (append_assoc blob (terms_bytes terms) rest) in
        let beyond : drop (pos + 4) buf ≡ blob ++ (terms_bytes terms ++ rest) =
          drop-add pos 4 buf
          ∙ ap (drop 4) there
          ∙ drop-append_left 4 head _ (length-le_bytes 4 (length blob)) in
        let room : pos + 4 + length blob ≤ length buf = omega (
          arith,
          ap length there,
          length-append head (blob ++ (terms_bytes terms ++ rest)),
          length-append blob (terms_bytes terms ++ rest),
          length-le_bytes 4 (length blob),
          length-drop pos buf,
        ) in
        parse_step todo pos (length blob) buf blob (blocks_of out_f in_f qk term)
          (map (blocks_of out_f in_f qk) terms) room
          (read_le-le_bytes pos (length blob) buf _ (omega (arith, blob_small term ht)) there)
          (ap (take (length blob)) beyond ∙ take-append_left (length blob) blob _ refl)
          (back term blob [] ht (blob_small term ht) in_int (sym (append-nil blob)))
          (parse_terms-back todo (pos + 4 + length blob) terms buf rest (omega arith) h (
            drop-add (pos + 4) (length blob) buf
            ∙ ap (drop (length blob)) beyond
            ∙ drop-append_left (length blob) blob _ refl))

    pack_container :
        (terms : List AlsTerm)
        → All (IsTerm out_f in_f qk) terms
        → pack_als_block_terms terms out_f in_f qk
          ≡ ok (le_bytes 4 (length terms) ++ terms_bytes terms)
    unfolding pack_als_block_terms
    pack_container terms h = rw (pack_terms-bytes terms h) refl

    open_container :
        (buf : List ℕ) (n : ℕ) (blocks : List (List BlockTerm))
        → 4 ≤ length buf
        → read_le 4 0 buf ≡ n
        → 1 ≤ n
        → n ≤ 32
        → parse_terms n buf 4 out_f in_f qk ≡ ok blocks
        → parse_container buf out_f in_f qk ≡ ok blocks
    unfolding parse_container
    open_container buf n blocks long hn low high h =
        let first : ltb (length buf) 4 ≡ false = ground arith in
        let second : (n == 0) || ltb 32 n ≡ false = ground arith in rw (hn, first, second, h) refl

    container_back :
        (terms : List AlsTerm)
        → All (IsTerm out_f in_f qk) terms
        → 1 ≤ length terms
        → length terms ≤ 32
        → parse_container (le_bytes 4 (length terms) ++ terms_bytes terms) out_f in_f qk
          ≡ ok (map (blocks_of out_f in_f qk) terms)
    container_back terms h low high =
        let head = le_bytes 4 (length terms) in
        let buf = head ++ terms_bytes terms in
        let long : 4 ≤ length buf =
          omega (arith, length-append head (terms_bytes terms), length-le_bytes 4 (length terms)) in
        open_container buf (length terms) _ long
          (read_le-le_bytes 0 (length terms) buf (terms_bytes terms) (omega arith) refl) low high
          (parse_terms-back (length terms) 4 terms buf [] refl h (
            drop-append_left 4 head (terms_bytes terms) (length-le_bytes 4 (length terms))
            ∙ sym (append-nil (terms_bytes terms))))

    values :
        (terms : List AlsTerm)
        → All (IsTerm out_f in_f qk) terms
        → map (map (weights qk)) (map (blocks_of out_f in_f qk) terms)
          ≡ map (λ term. term_weights out_f qk in_f term.scales term.ternary) terms
    values [] h = refl
    values (term ∷ terms) (ht, h) =
        ap₂ ◌∷◌ (term-weights groups qk in_f e out_f term.scales term.ternary ht.trits)
          (values terms h)

    -- For a block size that is a multiple of four, in_f + qk up to 2^31, 1 to 32 terms and terms of less than 2^31
    -- bytes, what pack_als_block_terms writes, the loader reads back as as many terms, whose decoded
    -- weights, zeros up to each block's end included, and scales are those of the terms written.
    pub parse-pack_als_block_terms :
        (terms : List AlsTerm)
        → All (IsTerm out_f in_f qk) terms
        → 1 ≤ length terms
        → length terms ≤ 32
        → (buf : List ℕ) × (blocks : List (List BlockTerm)) × (pack_als_block_terms terms out_f in_f
              qk
            ≡ ok buf)
          × (parse_container buf out_f in_f qk ≡ ok blocks)
          × (map (map (weights qk)) blocks
              ≡ map (λ term. term_weights out_f qk in_f term.scales term.ternary) terms)
    parse-pack_als_block_terms terms h low high = (
      le_bytes 4 (length terms) ++ terms_bytes terms,
      map (blocks_of out_f in_f qk) terms,
      pack_container terms h,
      container_back terms h low high,
      values terms h,
    )
