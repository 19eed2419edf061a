-- ===== src/Ternary.antt =====
-- The packed forms of ternary weights: TQ1.0 bytes of five base-3 digits (src/model.h) and blocks of
-- two-bit codes with a scale (pack_als_block of src/convert/als_decompose.cpp, and
-- decode_block_ternary, parse_block_terms and the multi-term container of src/loader.h).
-- An int8_t weight is an integer, a scale is the 32-bit pattern of a float.
pub mod Tq1
pub mod Codes
mod Runs
use Prim.Native.Nat.{bit_and, bit_or}
use terllama.Prelude.{
  ℕ, zero, suc, ◌-◌, ◌*◌, ◌/◌, ◌%◌, ◌^◌, Option, none, some, List, [], ◌∷◌, ◌++◌, map, length, take,
  replicate, if◌then◌else◌,
}
use terllama.Prelude.Int.{ℤ, pos, negsuc, sub_ℕ, ◌+ℤ◌, ◌*ℤ◌, eq_ℤ}

-- The loop runs from the last trit to the first.
unfoldable pub tq1_encode_5_trits : List ℤ → ℤ
tq1_encode_5_trits [] = pos 0
tq1_encode_5_trits (t ∷ trits) = tq1_encode_5_trits trits *ℤ pos 3 +ℤ (t +ℤ pos 1)

unfoldable pub tq1_digits : ℕ → ℕ → List ℤ
tq1_digits zero val = []
tq1_digits (suc n) val = sub_ℕ (val % 3) 1 ∷ tq1_digits n (val / 3)

unfoldable pub tq1_decode_byte : ℕ → List ℤ
tq1_decode_byte byte = tq1_digits 5 byte

-- `n` weights are still to be written; `none` is a read past the end of the packed bytes.
unfoldable pub tq1_decode_block : List ℕ → ℕ → Option (List ℤ)
tq1_decode_block packed zero = some []
tq1_decode_block [] (suc n) = none
tq1_decode_block (byte ∷ packed) (suc n) = elim (tq1_decode_block packed (suc n - 5)) [
  | none ↦ none
  | some rest ↦ some (take (suc n) (tq1_decode_byte byte) ++ rest)
]

-- Two-bit codes, four to a byte, the first in the top bits.
unfoldable pub code_of : ℤ → ℕ
code_of v = if eq_ℤ v (negsuc 0) then 0 else if eq_ℤ v (pos 1) then 2 else 1

unfoldable pub pack_four : ℕ → ℕ → ℕ → ℕ → ℕ
pack_four a b c d = bit_or (bit_or (bit_or (a * 2 ^ 6) (b * 2 ^ 4)) (c * 2 ^ 2)) d % 256

unfoldable pub pack_bytes : List ℕ → List ℕ
pack_bytes (a ∷ b ∷ c ∷ d ∷ codes) = pack_four a b c d ∷ pack_bytes codes
pack_bytes _ = []

-- The codes of one block, its tail padded with the code of 0.
unfoldable pub block_codes : ℕ → List ℤ → List ℕ
block_codes qk trits = map code_of trits ++ replicate (qk - length trits) 1

unfoldable pub unpack_four : ℕ → List ℤ
unpack_four byte =
    sub_ℕ (bit_and (byte / 2 ^ 6) 0x03) 1
    ∷ sub_ℕ (bit_and (byte / 2 ^ 4) 0x03) 1
    ∷ sub_ℕ (bit_and (byte / 2 ^ 2) 0x03) 1
    ∷ sub_ℕ (bit_and byte 0x03) 1
    ∷ []

-- `groups` is qk / 4; `none` is a read past the end.
unfoldable pub decode_block_ternary : ℕ → List ℕ → Option (List ℤ)
decode_block_ternary zero packed = some []
decode_block_ternary (suc groups) [] = none
decode_block_ternary (suc groups) (byte ∷ packed) = elim (decode_block_ternary groups packed) [
  | none ↦ none
  | some rest ↦ some (unpack_four byte ++ rest)
]
