-- ===== src/HalfFloat/Subnormal.antt =====
-- Subnormal binary16 and bfloat16 numbers. There are 1023 mantissas, so the shift loop is tabulated.
use Prim.Native.Nat.{bit_and}
use terllama.Prelude.{
  ℕ, zero, suc, ◌+◌, ◌-◌, ◌*◌, ◌/◌, ◌%◌, ◌^◌, ◌≤◌, ◌<◌, ◌≡◌, ◌⊎◌, refl, ap, ◌∙◌, sym, Option, none,
  some, arith, ◌==◌, ==_iff, Bool-cases, if◌then◌else◌, inl, inr, leb, ltb, Bool, true, false, ◌&&◌,
}
use native.Mathlib.Nat.{pow-succ', one-le-pow}
use terllama.Prelude.Bits.{bit_and-low}
use terllama.HalfFloat.{
  shl32, join_fields, normalize, normalize_fuel, fp16_to_fp32, f16_to_f32, bf16_to_f32,
}
use terllama.HalfFloat.Fields.{
  sign16, exp16, mant16, sign32, exp32, units16, units32, sign_field, exp_field, exp_field',
  mant_field, join_fields-sum, join_fields_parts, pow_add, units16-subnormal, units32-normal,
}

holds_from : ℕ → (ℕ → Bool) → ℕ → Bool
holds_from start test zero = true
holds_from start test (suc rounds) =
    if test start then holds_from (suc start) test rounds else false

if_true : (b c : Bool) → (if b then c else false) ≡ true → (b ≡ true) × (c ≡ true)
if_true true c h = (refl, h)
if_true false c h = absurd (cc h)

held :
    (rounds start x : ℕ) (test : ℕ → Bool)
    → start ≤ x
    → x < start + rounds
    → holds_from start test rounds ≡ true
    → test x ≡ true
unfolding holds_from
held zero start x test low high all = absurd (omega arith)
held (suc rounds) start x test low high all = elim (Bool-cases (x == start)) [
  | inl here ↦
      let same : x ≡ start = (==_iff x start).0 here in
      let (passes, others) = if_true (test start) (holds_from (suc start) test rounds) all in
      ap test same ∙ passes
  | inr later ↦
      let above : suc start ≤ x = ground (arith, later) in
      let (passes, others) = if_true (test start) (holds_from (suc start) test rounds) all in
      held rounds (suc start) x test above (omega arith) others
]

-- From a mantissa with a count `start`, the loop ends with bit 10 on top and the value unchanged.
abbrev ends_well : ℕ → ℕ → Option (ℕ × ℕ) → Bool
ends_well start m none = false
ends_well start m (some (a, c)) =
    leb 1024 a && ltb a 2048 && a * 2 ^ c == m * 2 ^ start && leb c start && leb start (c + 10)

normalize_table :
    (holds_from 1 (λ m. ends_well 10 m (normalize normalize_fuel 0x400 m 10)) 1023 ≡ true)
    × (holds_from 1 (λ m. ends_well 112 m (normalize normalize_fuel 0x400 m 112)) 1023 ≡ true)
unfolding holds_from normalize
normalize_table = (refl, refl)

record Normalized (start m a c : ℕ) : Type 0 where
  top : 1024 ≤ a
  no_more : a < 2048
  same_value : a * 2 ^ c ≡ m * 2 ^ start
  not_up : c ≤ start
  ten_at_most : start ≤ c + 10

ends_well-Normalized :
    (start m : ℕ) (r : Option (ℕ × ℕ))
    → ends_well start m r ≡ true
    → (a : ℕ) × (c : ℕ) × (r ≡ some (a, c)) × Normalized start m a c
ends_well-Normalized start m none e = cc
ends_well-Normalized start m (some (a, c)) e = (a, c, refl, ground arith)

shifts_from_ten :
    (m : ℕ)
    → 0 < m
    → m < 1024
    → (a : ℕ) × (c : ℕ) × (normalize normalize_fuel 0x400 m 10 ≡ some (a, c)) × Normalized 10 m a c
shifts_from_ten m pos h =
    ends_well-Normalized 10 m _ (held 1023 1 m _ pos (omega arith) normalize_table.0)

shifts_from_bias :
    (m : ℕ)
    → 0 < m
    → m < 1024
    → (a : ℕ) × (c : ℕ) × (normalize normalize_fuel 0x400 m 112 ≡ some (a, c))
      × Normalized 112 m a c
shifts_from_bias m pos h =
    ends_well-Normalized 112 m _ (held 1023 1 m _ pos (omega arith) normalize_table.1)

scaled_le : (a c m : ℕ) → 1024 ≤ a → a * 2 ^ c ≡ m * 2 ^ 10 → 2 ^ c ≤ m
scaled_le a c m h e = grind arith

scaled_lt : (a c m : ℕ) → a < 2048 → a * 2 ^ c ≡ m * 2 ^ 10 → m < 2 * 2 ^ c
scaled_lt a c m h e = grind (arith, one-le-pow c 2)

-- A normalised mantissa under the hidden bit.
dropped_top : (a : ℕ) → 1024 ≤ a → a < 2048 → shl32 (bit_and a 0x3FF) 13 ≡ (a - 1024) * 2 ^ 13
dropped_top a lo hi = omega (arith, mant_field a)

module _ (h : ℕ) (small : h < 2 ^ 16) (no_exp : exp16 h ≡ 0) (some_mant : 0 < mant16 h) where
  -- The value of a result with exponent `e` and the mantissa `a`, hidden bit taken off.
  joined :
      (e a : ℕ)
      → 0 < e
      → e < 256
      → 1024 ≤ a
      → a < 2048
      → (sign32 (join_fields (sign16 h * 2 ^ 31) e ((a - 1024) * 2 ^ 13)) ≡ sign16 h)
        × (units32 (join_fields (sign16 h * 2 ^ 31) e ((a - 1024) * 2 ^ 13))
            ≡ a * 2 ^ 13 * 2 ^ (e - 1))
  joined e a pos he lo hi =
      let w : ℕ = join_fields (sign16 h * 2 ^ 31) e ((a - 1024) * 2 ^ 13) in
      let parts =
        join_fields_parts (sign16 h) e ((a - 1024) * 2 ^ 13) (omega arith) he (omega arith) in
      let whole : 2 ^ 23 + (a - 1024) * 2 ^ 13 ≡ a * 2 ^ 13 = omega arith in
      (
        parts.0,
        rw (units32-normal w (omega (arith, parts.1)), parts.1, parts.2)
            (ap (λ t. t * 2 ^ (e - 1)) whole),
      )

  -- A subnormal binary16 number that is not zero keeps its sign, and `f16_to_f32` gives it half of its
  -- value.
  pub f16_subnormal_halved :
      (w : ℕ) × (f16_to_f32 h ≡ some w)
      × (sign32 w ≡ sign16 h)
      × (2 * units32 w ≡ units16 h * 2 ^ 125)
  unfolding f16_to_f32
  f16_subnormal_halved =
      let (a, c, e, n) = shifts_from_bias (mant16 h) some_mant (omega arith) in
      let j = joined c a (omega (arith, n.ten_at_most)) (omega (arith, n.not_up)) n.top n.no_more in
      let up : c ≡ suc (c - 1) = omega (arith, n.ten_at_most) in
      let double : 2 ^ c ≡ 2 * 2 ^ (c - 1) = ap (λ t. 2 ^ t) up ∙ pow-succ' 2 (c - 1) in
      (
        join_fields (sign16 h * 2 ^ 31) c ((a - 1024) * 2 ^ 13),
        ground (
          arith,
          sign_field h small,
          exp_field' h,
          mant_field h,
          e,
          dropped_top a n.top n.no_more,
        ),
        j.0,
        omega (arith, j.1, units16-subnormal h no_exp, n.same_value, ap (λ (t : ℕ). a * t) double),
      )

  -- A subnormal binary16 number whose mantissa has its top bit at `p` keeps its sign, and `fp16_to_fp32`
  -- gives it 2 ^ (10 - 2 * p) times its value.
  pub fp16_subnormal_scaled :
      (w : ℕ) × (p : ℕ) × (fp16_to_fp32 h ≡ some w)
      × (sign32 w ≡ sign16 h)
      × (2 ^ p ≤ mant16 h)
      × (mant16 h < 2 * 2 ^ p)
      × (units32 w * 2 ^ p * 2 ^ p ≡ units16 h * 2 ^ 135)
  unfolding fp16_to_fp32
  fp16_subnormal_scaled =
      let (a, c, e, n) = shifts_from_ten (mant16 h) some_mant (omega arith) in
      let j = joined (113 - c) a (omega (arith, n.not_up)) (omega arith) n.top n.no_more in
      let split : 113 - c - 1 + c ≡ 112 = omega (arith, n.not_up) in
      let pow : 2 ^ (113 - c - 1) * 2 ^ c ≡ 2 ^ 112 =
        sym (pow_add (113 - c - 1) c) ∙ ap (λ t. 2 ^ t) split in
      (
        join_fields (sign16 h * 2 ^ 31) (113 - c) ((a - 1024) * 2 ^ 13),
        c,
        ground (
          arith,
          sign_field h small,
          exp_field h,
          mant_field h,
          e,
          dropped_top a n.top n.no_more,
          n.not_up,
        ),
        j.0,
        scaled_le a c (mant16 h) n.top n.same_value,
        scaled_lt a c (mant16 h) n.no_more n.same_value,
        omega (
          arith,
          ap (λ (t : ℕ). t * 2 ^ c * 2 ^ c) j.1,
          units16-subnormal h no_exp,
          n.same_value,
          ap (λ (t : ℕ). a * 2 ^ c * t) pow,
        ),
      )

-- bfloat16: the loop takes the exponent below zero, where its `int` wraps round as a uint32_t.
wraps_up : ℕ → Option ℕ → Bool
wraps_up h none = false
wraps_up h (some w) = w / 2 ^ 31 == 1 && leb 250 (w / 2 ^ 23 % 256)

bf16_table : holds_from 1 (λ m. wraps_up m (bf16_to_f32 m)) 63 ≡ true
unfolding holds_from bf16_to_f32 normalize join_fields wraps_up
bf16_table = refl

wraps_up-some :
    (h : ℕ) (r : Option ℕ)
    → wraps_up h r ≡ true
    → (w : ℕ) × (r ≡ some w) × (sign32 w ≡ 1) × (250 ≤ exp32 w)
unfolding wraps_up
wraps_up-some h none e = cc
wraps_up-some h (some w) e = (w, refl, ground arith, ground arith)

-- `bf16_to_f32` makes each positive subnormal bfloat16 with a mantissa below 64 a number with the minus
-- sign and an exponent field of 250 or more.
pub bf16_subnormal_wraps :
    (m : ℕ) → 0 < m → m < 64 → (w : ℕ) × (bf16_to_f32 m ≡ some w) × (sign32 w ≡ 1) × (250 ≤ exp32 w)
bf16_subnormal_wraps m pos h =
    wraps_up-some m (bf16_to_f32 m)
      (held 63 1 m (λ m. wraps_up m (bf16_to_f32 m)) pos (omega arith) bf16_table)

-- A bfloat16 that is not subnormal becomes the 32-bit pattern of which it is the upper half.
pub bf16_exact :
    (h : ℕ)
    → h < 2 ^ 16
    → (0 < h / 2 ^ 7 % 256) ⊎ (h % 2 ^ 7 ≡ 0)
    → bf16_to_f32 h ≡ some (h * 2 ^ 16)
unfolding bf16_to_f32 join_fields
bf16_exact h small k = ground (
  arith,
  sign_field h small,
  bit_and-low 8 (h / 2 ^ 7),
  bit_and-low 7 h,
  join_fields-sum (sign16 h) (h / 2 ^ 7 % 256) (h % 2 ^ 7 * 2 ^ 16) (omega arith) (omega arith)
      (omega arith),
)
