-- ===== src/AlsFormat/Blocks.antt =====
-- What the blocks of a term hold, as values, and their bytes (src/convert/als_decompose.cpp).
use mathlib.Core.List.{append_assoc}
use mathlib.Core.Path.{ap₂}
use terllama.Prelude.{
  ℕ, zero, suc, ◌-◌, ◌*◌, ◌/◌, ◌≤◌, ◌≡◌, refl, sym, ap, ◌∙◌, Option, some, List, [], ◌∷◌, ◌++◌, map,
  length, take, drop, replicate, All, arith, length-take, All-take, All-drop,
}
use terllama.Prelude.Bytes.{le_bytes, IsU32}
use terllama.Prelude.Int.{ℤ, pos}
use terllama.Ternary.{block_codes, pack_bytes, decode_block_ternary}
use terllama.Ternary.Tq1.{IsTrit}
use terllama.Ternary.Codes.{decode-block_codes, length-block}
use terllama.AlsFormat.{BlockTerm, width}

-- The weights of block `b` of a row.
abbrev pub block_trits : ℕ → ℕ → List ℤ → ℕ → List ℤ
block_trits qk in_f tv b = take (width qk in_f b) (drop (b * qk) tv)

-- The block that holds some weights.
abbrev pub block_of : ℕ → List ℤ → ℕ → BlockTerm
block_of qk trits s = record { packed = pack_bytes (block_codes qk trits); scale = s }

abbrev pub row_blocks : ℕ → ℕ → List ℤ → ℕ → List ℕ → List BlockTerm
row_blocks qk in_f tv b [] = []
row_blocks qk in_f tv b (s ∷ scales) =
    block_of qk (block_trits qk in_f tv b) s ∷ row_blocks qk in_f tv (suc b) scales

abbrev pub term_blocks : ℕ → ℕ → ℕ → List ℕ → List ℤ → List BlockTerm
term_blocks zero qk in_f scales tv = []
term_blocks (suc rows) qk in_f scales tv =
    row_blocks qk in_f tv 0 scales ++ term_blocks rows qk in_f scales (drop in_f tv)

-- The weights of a block, with zeros up to its end, and its scale.
abbrev pub Weights : Type 0
Weights = Option (List ℤ) × ℕ

abbrev pub weights : ℕ → BlockTerm → Weights
weights qk block = (decode_block_ternary (qk / 4) block.packed, block.scale)

abbrev pub row_weights : ℕ → ℕ → List ℤ → ℕ → List ℕ → List Weights
row_weights qk in_f tv b [] = []
row_weights qk in_f tv b (s ∷ scales) =
    let trits = block_trits qk in_f tv b in
    (some (trits ++ replicate (qk - length trits) (pos 0)), s)
    ∷ row_weights qk in_f tv (suc b) scales

abbrev pub term_weights : ℕ → ℕ → ℕ → List ℕ → List ℤ → List Weights
term_weights zero qk in_f scales tv = []
term_weights (suc rows) qk in_f scales tv =
    row_weights qk in_f tv 0 scales ++ term_weights rows qk in_f scales (drop in_f tv)

-- The bytes of blocks.
abbrev pub blocks_bytes : List BlockTerm → List ℕ
blocks_bytes [] = []
blocks_bytes (block ∷ blocks) = (block.packed ++ le_bytes 4 block.scale) ++ blocks_bytes blocks

-- A block whose codes and scale have their sizes.
abbrev pub IsBlock : ℕ → BlockTerm → Type 0
IsBlock qk block = (length block.packed ≡ qk / 4) × IsU32 block.scale

pub blocks_bytes-append :
    (xs ys : List BlockTerm) → blocks_bytes (xs ++ ys) ≡ blocks_bytes xs ++ blocks_bytes ys
blocks_bytes-append [] ys = refl
blocks_bytes-append (x ∷ xs) ys =
    ap (λ t. (x.packed ++ le_bytes 4 x.scale) ++ t) (blocks_bytes-append xs ys)
    ∙ sym (append_assoc (x.packed ++ le_bytes 4 x.scale) (blocks_bytes xs) (blocks_bytes ys))

length-block_trits : (qk in_f b : ℕ) (tv : List ℤ) → length (block_trits qk in_f tv b) ≤ qk
unfolding width
length-block_trits qk in_f b tv = omega (arith, length-take (width qk in_f b) (drop (b * qk) tv))

module _ (groups qk in_f : ℕ) (e : qk ≡ 4 * groups) where
  pub row-IsBlock :
      (tv : List ℤ) (b : ℕ) (scales : List ℕ)
      → All IsU32 scales
      → All (IsBlock qk) (row_blocks qk in_f tv b scales)
  row-IsBlock tv b [] h = tt
  row-IsBlock tv b (s ∷ scales) (hs, h) = (
    (length-block groups qk _ e (length-block_trits qk in_f b tv), hs),
    row-IsBlock tv (suc b) scales h,
  )

  pub row-weights :
      (tv : List ℤ) (b : ℕ) (scales : List ℕ)
      → All IsTrit tv
      → map (weights qk) (row_blocks qk in_f tv b scales) ≡ row_weights qk in_f tv b scales
  row-weights tv b [] h = refl
  row-weights tv b (s ∷ scales) h =
      let trits = block_trits qk in_f tv b in
      let good : All IsTrit trits =
        All-take IsTrit (width qk in_f b) _ (All-drop IsTrit (b * qk) tv h) in
      ap₂ ◌∷◌
        (ap (λ w. (w, s))
          (decode-block_codes groups qk trits e (length-block_trits qk in_f b tv) good))
        (row-weights tv (suc b) scales h)
