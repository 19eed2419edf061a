-- ===== src/HalfFloat/Normal.antt =====
-- Normal numbers, zeros, infinities and NaNs through both conversions of binary16.
use terllama.Prelude.{
  ℕ, ◌+◌, ◌-◌, ◌*◌, ◌^◌, ◌<◌, ◌≡◌, ◌⊎◌, inl, inr, some, arith, ◌==◌, if◌then◌else◌,
}
use terllama.HalfFloat.{join_fields, fp16_to_fp32, f16_to_f32}
use terllama.HalfFloat.Fields.{
  sign16, exp16, mant16, sign32, exp32, mant32, units16, units32, sign_field, exp_field, exp_field',
  mant_field, join_fields_parts, pow_add, units16-normal, units32-normal, units16-normal,
  units32-normal,
}

-- What a normal number becomes.
abbrev widened : ℕ → ℕ
widened h = join_fields (sign16 h * 2 ^ 31) (exp16 h + 112) (mant16 h * 2 ^ 13)

module _ (h : ℕ) (small : h < 2 ^ 16) (above : 0 < exp16 h) (below : exp16 h < 31) where
  fp16_normal : fp16_to_fp32 h ≡ some (widened h)
  unfolding fp16_to_fp32
  fp16_normal = ground (arith, sign_field h small, exp_field h, mant_field h)

  f16_normal : f16_to_f32 h ≡ some (widened h)
  unfolding f16_to_f32
  f16_normal = ground (arith, sign_field h small, exp_field' h, mant_field h)

widened-exact :
    (h : ℕ)
    → h < 2 ^ 16
    → 0 < exp16 h
    → exp16 h < 31
    → (sign32 (widened h) ≡ sign16 h) × (units32 (widened h) ≡ units16 h * 2 ^ 125)
widened-exact h small above below =
    let parts =
      join_fields_parts (sign16 h) (exp16 h + 112) (mant16 h * 2 ^ 13) (omega arith) (omega arith)
        (omega arith) in
    let up : exp16 h + 112 - 1 ≡ exp16 h - 1 + 112 = omega arith in
    (
      parts.0,
      rw
          (
            units32-normal (widened h) (omega (arith, parts.1)),
            units16-normal h above,
            parts.1,
            parts.2,
            up,
            pow_add (exp16 h - 1) 112,
          )
          (omega arith),
    )

-- A normal binary16 number keeps its sign and its exact value, by both conversions.
pub normal_exact :
    (h : ℕ)
    → h < 2 ^ 16
    → 0 < exp16 h
    → exp16 h < 31
    → (w : ℕ) × (fp16_to_fp32 h ≡ some w)
      × (f16_to_f32 h ≡ some w)
      × (sign32 w ≡ sign16 h)
      × (units32 w ≡ units16 h * 2 ^ 125)
normal_exact h small above below =
    let exact = widened-exact h small above below in
    (widened h, fp16_normal h small above below, f16_normal h small above below, exact.0, exact.1)

-- A zero keeps its sign, and an infinity or a NaN its sign and the bits of its mantissa, by both
-- conversions.
pub zero_and_special :
    (h : ℕ)
    → h < 2 ^ 16
    → (exp16 h ≡ 31) ⊎ ((exp16 h ≡ 0) × (mant16 h ≡ 0))
    → (w : ℕ) × (fp16_to_fp32 h ≡ some w)
      × (f16_to_f32 h ≡ some w)
      × (sign32 w ≡ sign16 h)
      × (exp32 w ≡ (if exp16 h == 0 then 0 else 255))
      × (mant32 w ≡ mant16 h * 2 ^ 13)
unfolding fp16_to_fp32 f16_to_f32 join_fields
zero_and_special h small (inl e) =
    let parts =
      join_fields_parts (sign16 h) 255 (mant16 h * 2 ^ 13) (omega arith) (omega arith)
        (omega arith) in
    (
      join_fields (sign16 h * 2 ^ 31) 255 (mant16 h * 2 ^ 13),
      ground (arith, sign_field h small, exp_field h, mant_field h),
      ground (arith, sign_field h small, exp_field' h, mant_field h),
      parts.0,
      rw e (parts.1),
      parts.2,
    )
zero_and_special h small (inr (e, m)) = (
  sign16 h * 2 ^ 31,
  ground (arith, sign_field h small, exp_field h, mant_field h),
  ground (arith, sign_field h small, exp_field' h, mant_field h),
  omega arith,
  rw e (omega arith),
  omega arith,
)
