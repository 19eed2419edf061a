-- ===== src/AlsFormat/Runs.antt =====
-- A written and read term, and the theorems at it.
use terllama.Prelude.{ℕ, ◌≡◌, refl, inl, inr, arith, List, [], ◌∷◌, map}
use terllama.Prelude.Bytes.{le_bytes, le_word, read_le}
use terllama.Prelude.Int.{pos, negsuc}
use terllama.Prelude.Results.{ok, err}
use terllama.Ternary.{pack_bytes, block_codes, code_of, pack_four}
use terllama.AlsFormat.{
  AlsTerm, BlockTerm, blocks_truncated, pack_als_block, pack_rows, pack_row, pack_block, window,
  width, pack_als_block_terms, parse_block_terms, parse_rows, parse_row, parse_block,
  parse_container, parse_terms, truncated_term_data, invalid_num_terms,
}
use terllama.AlsFormat.Blocks.{weights, term_weights}
use terllama.AlsFormat.Container.{IsTerm, parse-pack_als_block_terms}

-- Two rows of five weights in blocks of four.
abbrev term : AlsTerm
term = record {
  scales = 0x3f800000 ∷ 0xbf000000 ∷ [];
  ternary =
      negsuc 0 ∷ pos 0 ∷ pos 1 ∷ pos 1 ∷ negsuc 0 ∷ pos 1 ∷ pos 1 ∷ pos 0 ∷ negsuc 0 ∷ pos 0 ∷ [];
}

abbrev blob : List ℕ
blob =
    0x1a ∷ 0 ∷ 0 ∷ 0x80 ∷ 0x3f ∷ 0x15 ∷ 0 ∷ 0 ∷ 0 ∷ 0xbf ∷ 0xa4 ∷ 0 ∷ 0 ∷ 0x80 ∷ 0x3f ∷ 0x55 ∷ 0 ∷ 0
    ∷ 0 ∷ 0xbf ∷ []

written : pack_als_block term 2 5 4 ≡ ok blob
unfolding pack_als_block pack_rows pack_row pack_block window width pack_bytes block_codes code_of
    pack_four le_bytes
written = refl

cut_short : parse_block_terms (0x1a ∷ 0 ∷ 0 ∷ []) 2 5 4 ≡ err blocks_truncated
unfolding parse_block_terms parse_rows parse_row parse_block
cut_short = refl

no_terms : parse_container (0 ∷ 0 ∷ 0 ∷ 0 ∷ []) 2 5 4 ≡ err invalid_num_terms
unfolding parse_container read_le le_word
no_terms = refl

too_long : parse_container (1 ∷ 0 ∷ 0 ∷ 0 ∷ 9 ∷ 0 ∷ 0 ∷ 0 ∷ 7 ∷ []) 2 5 4 ≡ err truncated_term_data
unfolding parse_container parse_terms read_le le_word
too_long = refl

term-IsTerm : IsTerm 2 5 4 term
term-IsTerm = record {
  trits = (
    inl refl,
    (
      inr (inl refl),
      (
        inr (inr refl),
        (
          inr (inr refl),
          (
            inl refl,
            (inr (inr refl), (inr (inr refl), (inr (inl refl), (inl refl, (inr (inl refl), tt))))),
          ),
        ),
      ),
    ),
  );
  sizes = refl;
  blocks = refl;
  floats = (omega arith, (omega arith, tt));
}

parse-pack_als_block_terms_example :
    (buf : List ℕ) × (blocks : List (List BlockTerm)) × (pack_als_block_terms
        (term ∷ term ∷ [])
        2
        5
        4
      ≡ ok buf)
    × (parse_container buf 2 5 4 ≡ ok blocks)
    × (map (map (weights 4)) blocks
        ≡ map (λ t. term_weights 2 4 5 t.scales t.ternary) (term ∷ term ∷ []))
parse-pack_als_block_terms_example =
    parse-pack_als_block_terms 1 2 5 4 refl (omega arith) (omega arith) (term ∷ term ∷ [])
      (term-IsTerm, (term-IsTerm, tt)) (omega arith) (omega arith)
