-- ===== src/Ternary/Codes.antt =====
-- Two-bit codes of ternary blocks (pack_als_block_into of src/convert/als_decompose.cpp and
-- decode_block_ternary of src/loader.h): four to a byte and back.
use Prim.Native.Nat.{bit_and, bit_or}
use mathlib.Core.List.{map-append}
use mathlib.Core.Path.{ap₂}
use terllama.Prelude.{
  ℕ, zero, suc, ◌+◌, ◌-◌, ◌*◌, ◌/◌, ◌^◌, ◌≤◌, ◌<◌, ◌≡◌, refl, ap, ◌∙◌, inl, inr, some, List, [],
  ◌∷◌, ◌++◌, map, length, replicate, All, arith, length-append, length-map, length-replicate,
  All-append,
}
use terllama.Prelude.Bits.{bit_or-fields, bit_and-low}
use terllama.Prelude.Int.{ℤ, pos, sub_ℕ}
use terllama.Ternary.{
  code_of, pack_four, pack_bytes, block_codes, unpack_four, decode_block_ternary,
}
use terllama.Ternary.Tq1.{IsTrit}

abbrev pub IsCode : ℕ → Type 0
IsCode c = c < 4

abbrev pub code_value : ℕ → ℤ
code_value c = sub_ℕ c 1

pack_four-sum :
    (a b c d : ℕ) → a < 4 → b < 4 → c < 4 → d < 4 → pack_four a b c d ≡ a * 64 + b * 16 + c * 4 + d
unfolding pack_four
pack_four-sum a b c d ha hb hc hd =
    let two : a * 64 + b * 16 ≡ (a * 4 + b) * 2 ^ 4 = omega arith in
    let three : (a * 4 + b) * 2 ^ 4 + c * 2 ^ 2 ≡ (a * 16 + b * 4 + c) * 2 ^ 2 = omega arith in
    let first : bit_or (a * 2 ^ 6) (b * 2 ^ 4) ≡ (a * 4 + b) * 2 ^ 4 =
      omega (arith, bit_or-fields 6 a (b * 2 ^ 4) (omega arith)) in
    let second : bit_or ((a * 4 + b) * 2 ^ 4) (c * 2 ^ 2) ≡ (a * 16 + b * 4 + c) * 2 ^ 2 =
      omega (arith, bit_or-fields 4 (a * 4 + b) (c * 2 ^ 2) (omega arith)) in
    let last = bit_or-fields 2 (a * 16 + b * 4 + c) d hd in rw (first, second, last) (omega arith)

unpack-pack_four :
    (a b c d : ℕ)
    → a < 4
    → b < 4
    → c < 4
    → d < 4
    → unpack_four (pack_four a b c d)
      ≡ code_value a ∷ code_value b ∷ code_value c ∷ code_value d ∷ []
unfolding unpack_four
unpack-pack_four a b c d ha hb hc hd =
    let byte = a * 64 + b * 16 + c * 4 + d in
    let first : bit_and (byte / 2 ^ 6) 3 ≡ a = omega (arith, bit_and-low 2 (byte / 2 ^ 6)) in
    let second : bit_and (byte / 2 ^ 4) 3 ≡ b = omega (arith, bit_and-low 2 (byte / 2 ^ 4)) in
    let third : bit_and (byte / 2 ^ 2) 3 ≡ c = omega (arith, bit_and-low 2 (byte / 2 ^ 2)) in
    let fourth : bit_and byte 3 ≡ d = omega (arith, bit_and-low 2 byte) in
    ap unpack_four (pack_four-sum a b c d ha hb hc hd) ∙ rw (first, second, third, fourth) refl

decode_step :
    (groups byte : ℕ) (packed : List ℕ) (four rest : List ℤ)
    → unpack_four byte ≡ four
    → decode_block_ternary groups packed ≡ some rest
    → decode_block_ternary (suc groups) (byte ∷ packed) ≡ some (four ++ rest)
unfolding decode_block_ternary
decode_step groups byte packed four rest h hr = rw (decode_block_ternary, hr, h) refl

-- Four codes to a byte, decoded, are the values of the codes, followed by nothing else.
pub decode-pack_bytes :
    (groups : ℕ) (codes : List ℕ)
    → All IsCode codes
    → length codes ≡ 4 * groups
    → decode_block_ternary groups (pack_bytes codes) ≡ some (map code_value codes)
unfolding pack_bytes
decode-pack_bytes zero [] h len = unfold decode_block_ternary in refl
decode-pack_bytes zero (a ∷ codes) h len = absurd (omega arith)
decode-pack_bytes (suc groups) (a ∷ b ∷ c ∷ d ∷ codes) (ha, (hb, (hc, (hd, h)))) len =
    decode_step groups (pack_four a b c d) (pack_bytes codes) _ (map code_value codes)
      (unpack-pack_four a b c d ha hb hc hd) (decode-pack_bytes groups codes h (omega arith))
decode-pack_bytes (suc groups) [] h len = absurd (omega arith)
decode-pack_bytes (suc groups) (a ∷ []) h len = absurd (omega arith)
decode-pack_bytes (suc groups) (a ∷ b ∷ []) h len = absurd (omega arith)
decode-pack_bytes (suc groups) (a ∷ b ∷ c ∷ []) h len = absurd (omega arith)

pub length-pack_bytes :
    (groups : ℕ) (codes : List ℕ) → length codes ≡ 4 * groups → length (pack_bytes codes) ≡ groups
unfolding pack_bytes
length-pack_bytes zero [] len = refl
length-pack_bytes zero (a ∷ codes) len = absurd (omega arith)
length-pack_bytes (suc groups) (a ∷ b ∷ c ∷ d ∷ codes) len =
    ap suc (length-pack_bytes groups codes (omega arith))
length-pack_bytes (suc groups) [] len = absurd (omega arith)
length-pack_bytes (suc groups) (a ∷ []) len = absurd (omega arith)
length-pack_bytes (suc groups) (a ∷ b ∷ []) len = absurd (omega arith)
length-pack_bytes (suc groups) (a ∷ b ∷ c ∷ []) len = absurd (omega arith)

trit_restored : (t : ℤ) → IsTrit t → IsCode (code_of t) × (code_value (code_of t) ≡ t)
unfolding code_of
trit_restored t (inl e) = rw e (omega arith, refl)
trit_restored t (inr (inl e)) = rw e (omega arith, refl)
trit_restored t (inr (inr e)) = rw e (omega arith, refl)

map-IsCode : (trits : List ℤ) → All IsTrit trits → All IsCode (map code_of trits)
map-IsCode [] h = tt
map-IsCode (t ∷ trits) (ht, h) = ((trit_restored t ht).0, map-IsCode trits h)

map-value : (trits : List ℤ) → All IsTrit trits → map code_value (map code_of trits) ≡ trits
map-value [] h = refl
map-value (t ∷ trits) (ht, h) = ap₂ ◌∷◌ (trit_restored t ht).1 (map-value trits h)

pad-IsCode : (n : ℕ) → All IsCode (replicate n 1)
pad-IsCode zero = tt
pad-IsCode (suc n) = (omega arith, pad-IsCode n)

pad-value : (n : ℕ) → map code_value (replicate n 1) ≡ replicate n (pos 0)
pad-value zero = refl
pad-value (suc n) = ap (◌∷◌ (pos 0)) (pad-value n)

-- A block of `qk` weights, a multiple of four, that holds no more than `qk` trits decodes to its trits
-- and zeros after them.
pub decode-block_codes :
    (groups qk : ℕ) (trits : List ℤ)
    → qk ≡ 4 * groups
    → length trits ≤ qk
    → All IsTrit trits
    → decode_block_ternary (qk / 4) (pack_bytes (block_codes qk trits))
      ≡ some (trits ++ replicate (qk - length trits) (pos 0))
unfolding block_codes
decode-block_codes groups qk trits e short h =
    let codes = map code_of trits ++ replicate (qk - length trits) 1 in
    let len : length codes ≡ 4 * (qk / 4) = omega (
      arith,
      length-append (map code_of trits) (replicate (qk - length trits) 1),
      length-map code_of trits,
      length-replicate {A = ℕ} (qk - length trits) 1,
    ) in
    decode-pack_bytes (qk / 4) codes
      (All-append IsCode (map code_of trits) _ (map-IsCode trits h)
        (pad-IsCode (qk - length trits)))
      len
    ∙ ap some (
        map-append code_value (map code_of trits) _
        ∙ ap₂ ◌++◌ (map-value trits h) (pad-value (qk - length trits)))

pub length-block :
    (groups qk : ℕ) (trits : List ℤ)
    → qk ≡ 4 * groups
    → length trits ≤ qk
    → length (pack_bytes (block_codes qk trits)) ≡ qk / 4
unfolding block_codes
length-block groups qk trits e short =
    length-pack_bytes (qk / 4) (map code_of trits ++ replicate (qk - length trits) 1) (
      omega (
        arith,
        length-append (map code_of trits) (replicate (qk - length trits) 1),
        length-map code_of trits,
        length-replicate {A = ℕ} (qk - length trits) 1,
      ))
