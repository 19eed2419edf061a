-- ===== src/HalfFloat/Runs.antt =====
-- Concrete conversions, and the theorems at them.
use terllama.Prelude.{ℕ, ◌*◌, ◌^◌, ◌≤◌, ◌<◌, ◌≡◌, refl, some, inl, arith, [], ◌∷◌}
use terllama.Prelude.Bytes.{read_le, le_word}
use terllama.HalfFloat.{
  decode_batch, fp16_to_fp32, f16_to_f32, bf16_to_f32, normalize, join_fields, decode_tail, lanes,
}
use terllama.HalfFloat.Fields.{units16, units32, sign32, exp32, mant32}
use terllama.HalfFloat.Normal.{normal_exact, zero_and_special}
use terllama.HalfFloat.Subnormal.{
  f16_subnormal_halved, fp16_subnormal_scaled, bf16_subnormal_wraps, bf16_exact,
}

-- 1.0 and -2.0.
one : fp16_to_fp32 0x3C00 ≡ some 0x3F800000
unfolding fp16_to_fp32 join_fields
one = refl

minus_two : f16_to_f32 0xC000 ≡ some 0xC0000000
unfolding f16_to_f32 join_fields
minus_two = refl

-- 2 ^ -15, read as 2 ^ -16 by one and as 2 ^ -23 by the other.
half_lost : f16_to_f32 0x0200 ≡ some 0x37800000
unfolding f16_to_f32 join_fields normalize
half_lost = refl

far_off : fp16_to_fp32 0x0200 ≡ some 0x34000000
unfolding fp16_to_fp32 join_fields normalize
far_off = refl

two_values :
    decode_batch f16_to_f32 2 (0x00 ∷ 0x3C ∷ 0x00 ∷ 0xC0 ∷ [])
    ≡ some 0x3F800000 ∷ some 0xC0000000 ∷ []
unfolding decode_batch decode_tail lanes read_le le_word f16_to_f32 join_fields
two_values = refl

normal_exact_example :
    (w : ℕ) × (fp16_to_fp32 0xC000 ≡ some w)
    × (f16_to_f32 0xC000 ≡ some w)
    × (sign32 w ≡ 1)
    × (units32 w ≡ units16 0xC000 * 2 ^ 125)
normal_exact_example = normal_exact 0xC000 (omega arith) (omega arith) (omega arith)

zero_and_special_example :
    (w : ℕ) × (fp16_to_fp32 0xFC00 ≡ some w)
    × (f16_to_f32 0xFC00 ≡ some w)
    × (sign32 w ≡ 1)
    × (exp32 w ≡ 255)
    × (mant32 w ≡ 0)
zero_and_special_example = zero_and_special 0xFC00 (omega arith) (inl refl)

f16_subnormal_halved_example :
    (w : ℕ) × (f16_to_f32 0x8003 ≡ some w)
    × (sign32 w ≡ 1)
    × (2 * units32 w ≡ units16 0x8003 * 2 ^ 125)
f16_subnormal_halved_example = f16_subnormal_halved 0x8003 (omega arith) refl (omega arith)

fp16_subnormal_scaled_example :
    (w : ℕ) × (p : ℕ) × (fp16_to_fp32 0x8003 ≡ some w)
    × (sign32 w ≡ 1)
    × (2 ^ p ≤ 3)
    × (3 < 2 * 2 ^ p)
    × (units32 w * 2 ^ p * 2 ^ p ≡ units16 0x8003 * 2 ^ 135)
fp16_subnormal_scaled_example = fp16_subnormal_scaled 0x8003 (omega arith) refl (omega arith)

bf16_subnormal_wraps_example : (w : ℕ) × (bf16_to_f32 3 ≡ some w) × (sign32 w ≡ 1) × (250 ≤ exp32 w)
bf16_subnormal_wraps_example = bf16_subnormal_wraps 3 (omega arith) (omega arith)

bf16_exact_example : bf16_to_f32 0xC000 ≡ some 0xC0000000
bf16_exact_example = bf16_exact 0xC000 (omega arith) (inl (omega arith))
