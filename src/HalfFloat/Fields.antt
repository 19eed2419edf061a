-- ===== src/HalfFloat/Fields.antt =====
-- The fields of 16-bit and 32-bit floats, and the values that the patterns stand for.
use Prim.Native.Nat.{bit_and, bit_or}
use terllama.Prelude.{
  ℕ, zero, suc, ◌+◌, ◌-◌, ◌*◌, ◌/◌, ◌%◌, ◌^◌, ◌<◌, ◌≡◌, ap, ◌∙◌, arith, ◌==◌, if◌then◌else◌,
}
use terllama.Prelude.Bits.{bit_and-low, bit_and-field, bit_or-fields}
use native.Mathlib.Nat.{pow-succ'}
use terllama.HalfFloat.{shl32, join_fields}

-- A binary16 or bfloat16 pattern, and a binary32 pattern.
abbrev pub sign16 : ℕ → ℕ
sign16 h = h / 2 ^ 15

abbrev pub exp16 : ℕ → ℕ
exp16 h = h / 2 ^ 10 % 32

abbrev pub mant16 : ℕ → ℕ
mant16 h = h % 2 ^ 10

abbrev pub sign32 : ℕ → ℕ
sign32 w = w / 2 ^ 31

abbrev pub exp32 : ℕ → ℕ
exp32 w = w / 2 ^ 23 % 256

abbrev pub mant32 : ℕ → ℕ
mant32 w = w % 2 ^ 23

-- The magnitude of a finite binary16 in units of 2 ^ -24, and of a finite binary32 in units of
-- 2 ^ -149 (IEEE 754).
unfoldable pub units16 : ℕ → ℕ
units16 h = if exp16 h == 0 then mant16 h else (2 ^ 10 + mant16 h) * 2 ^ (exp16 h - 1)

unfoldable pub units32 : ℕ → ℕ
units32 w = if exp32 w == 0 then mant32 w else (2 ^ 23 + mant32 w) * 2 ^ (exp32 w - 1)

pub sign_field : (h : ℕ) → h < 2 ^ 16 → shl32 (bit_and h 0x8000) 16 ≡ sign16 h * 2 ^ 31
sign_field h small = omega (arith, bit_and-field 15 h 1, bit_and-low 1 (h / 2 ^ 15))

pub exp_field : (h : ℕ) → bit_and h 0x7C00 / 2 ^ 10 ≡ exp16 h
exp_field h = omega (arith, bit_and-field 10 h 31, bit_and-low 5 (h / 2 ^ 10))

pub exp_field' : (h : ℕ) → bit_and (h / 2 ^ 10) 0x1F ≡ exp16 h
exp_field' h = bit_and-low 5 (h / 2 ^ 10)

pub mant_field : (h : ℕ) → bit_and h 0x3FF ≡ mant16 h
mant_field h = bit_and-low 10 h

-- The three fields do not overlap.
pub join_fields-sum :
    (s e m : ℕ)
    → s < 2
    → e < 256
    → m < 2 ^ 23
    → join_fields (s * 2 ^ 31) e m ≡ s * 2 ^ 31 + e * 2 ^ 23 + m
unfolding join_fields
join_fields-sum s e m hs he hm =
    let upper : bit_or (s * 2 ^ 31) (shl32 e 23) ≡ (s * 256 + e) * 2 ^ 23 =
      omega (arith, bit_or-fields 31 s (shl32 e 23) (omega arith)) in
    ap (λ t. bit_or t m) upper ∙ omega (arith, bit_or-fields 23 (s * 256 + e) m hm)

pub join_fields_parts :
    (s e m : ℕ)
    → s < 2
    → e < 256
    → m < 2 ^ 23
    → (sign32 (join_fields (s * 2 ^ 31) e m) ≡ s)
      × (exp32 (join_fields (s * 2 ^ 31) e m) ≡ e)
      × (mant32 (join_fields (s * 2 ^ 31) e m) ≡ m)
join_fields_parts s e m hs he hm = omega (arith, join_fields-sum s e m hs he hm)

pub pow_add : (a b : ℕ) → 2 ^ (a + b) ≡ 2 ^ a * 2 ^ b
pow_add a zero = let e : a + 0 ≡ a = omega arith in rw e (omega arith)
pow_add a (suc b) =
    let e : a + suc b ≡ suc (a + b) = omega arith in
    rw e
      (omega (arith, pow-succ' 2 (a + b), ap (λ (t : ℕ). 2 ^ a * t) (pow-succ' 2 b), pow_add a b))

pub units16-subnormal : (h : ℕ) → exp16 h ≡ 0 → units16 h ≡ mant16 h
unfolding units16
units16-subnormal h e = ground arith

pub units16-normal : (h : ℕ) → 0 < exp16 h → units16 h ≡ (2 ^ 10 + mant16 h) * 2 ^ (exp16 h - 1)
unfolding units16
units16-normal h pos = ground arith

pub units32-normal : (w : ℕ) → 0 < exp32 w → units32 w ≡ (2 ^ 23 + mant32 w) * 2 ^ (exp32 w - 1)
unfolding units32
units32-normal w pos = ground arith
