-- ===== src/Ternary/Runs.antt =====
-- Concrete packed trits, and the theorems at them.
use terllama.Prelude.{
  ℕ, ◌-◌, ◌/◌, ◌<◌, ◌≡◌, refl, inl, inr, some, none, arith, List, [], ◌∷◌, ◌++◌, replicate, All,
}
use terllama.Prelude.Int.{ℤ, pos, negsuc, ◌+ℤ◌, ◌*ℤ◌}
use terllama.Ternary.{
  tq1_encode_5_trits, tq1_decode_byte, tq1_decode_block, pack_bytes, block_codes,
  decode_block_ternary,
}
use terllama.Ternary.Tq1.{IsTrit, tq1_decode-encode}
use terllama.Ternary.Codes.{decode-block_codes}

abbrev five : List ℤ
five = negsuc 0 ∷ pos 0 ∷ pos 1 ∷ pos 1 ∷ negsuc 0 ∷ []

five-IsTrit : All IsTrit five
five-IsTrit = (inl refl, (inr (inl refl), (inr (inr refl), (inr (inr refl), (inl refl, tt)))))

-- 0 + 1 * 3 + 2 * 9 + 2 * 27 + 0 * 81.
byte : tq1_encode_5_trits five ≡ pos 75
unfolding tq1_encode_5_trits ◌+ℤ◌ ◌*ℤ◌
byte = refl

past_the_end : tq1_decode_block (75 ∷ []) 6 ≡ none
unfolding tq1_decode_block
past_the_end = refl

tq1_decode-encode_example :
    (byte : ℕ) × (tq1_encode_5_trits five ≡ pos byte) × (byte < 243) × (tq1_decode_byte byte ≡ five)
tq1_decode-encode_example = tq1_decode-encode five five-IsTrit refl

decode-block_codes_example :
    decode_block_ternary (8 / 4) (pack_bytes (block_codes 8 five))
    ≡ some (five ++ replicate (8 - 5) (pos 0))
decode-block_codes_example = decode-block_codes 2 8 five refl (omega arith) five-IsTrit
