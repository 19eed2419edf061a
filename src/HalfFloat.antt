-- ===== src/HalfFloat.antt =====
-- 16-bit floats to 32-bit floats, on bit patterns: `fp16_to_fp32` of src/gguf_loader.h with
-- `decode_f16_batch` of src/gguf_loader.cpp, and `f16_to_f32`, `bf16_to_f32` and their batch loops of
-- src/convert/safetensors.cpp.
pub mod Fields
pub mod Normal
pub mod Subnormal
pub mod Batch
mod Runs
use Prim.Native.Nat.{bit_and, bit_or}
use terllama.Prelude.{
  ℕ, zero, suc, ◌+◌, ◌-◌, ◌*◌, ◌/◌, ◌%◌, ◌^◌, Option, none, some, List, [], ◌∷◌, ◌++◌, ◌==◌,
  if◌then◌else◌, drop,
}
use terllama.Prelude.Bytes.{read_le}

-- uint32_t `<<`, and subtraction and decrement with their wrap-around.
abbrev pub shl32 : ℕ → ℕ → ℕ
shl32 x k = x * 2 ^ k % 2 ^ 32

abbrev pub sub32 : ℕ → ℕ → ℕ
sub32 x y = (x + 2 ^ 32 - y) % 2 ^ 32

-- `sign | (exp << 23) | mant`.
unfoldable pub join_fields : ℕ → ℕ → ℕ → ℕ
join_fields sign exp mant = bit_or (bit_or sign (shl32 exp 23)) mant

-- `while ((mant & top) == 0) { mant <<= 1; count--; }`, with what the two hold at its end; `none`
-- means that the fuel ran out.
unfoldable pub normalize : ℕ → ℕ → ℕ → ℕ → Option (ℕ × ℕ)
normalize zero top mant count = none
normalize (suc fuel) top mant count =
    let rest = normalize fuel top (shl32 mant 1) (sub32 count 1) in
    if bit_and mant top == 0 then rest else some (mant, count)

abbrev pub map_option {ℓ κ} : {A : Type ℓ} {B : Type κ} → (A → B) → Option A → Option B
map_option f none = none
map_option f (some a) = some (f a)

-- At most ten shifts bring a mantissa below 1024 to bit 10.
abbrev pub normalize_fuel : ℕ
normalize_fuel = 11

unfoldable pub fp16_to_fp32 : ℕ → Option ℕ
fp16_to_fp32 h =
    let sign = shl32 (bit_and h 0x8000) 16 in
    let exp = bit_and h 0x7C00 / 2 ^ 10 in
    let mant = bit_and h 0x03FF in
    if exp == 0
    then (if mant == 0
        then some sign
        else map_option
            (λ (r : ℕ × ℕ).
              join_fields sign (sub32 (1 + (127 - 15)) r.1) (shl32 (bit_and r.0 0x03FF) 13))
            (normalize normalize_fuel 0x0400 mant 10))
    else (if exp == 31
        then some (bit_or (bit_or sign 0x7F800000) (shl32 mant 13))
        else some (join_fields sign (exp + (127 - 15)) (shl32 mant 13)))

unfoldable pub f16_to_f32 : ℕ → Option ℕ
f16_to_f32 h =
    let sign = shl32 (bit_and h 0x8000) 16 in
    let exp = bit_and (h / 2 ^ 10) 0x1F in
    let man = bit_and h 0x3FF in
    if exp == 0x1F
    then some (bit_or (bit_or sign 0x7F800000) (shl32 man 13))
    else (if exp == 0
        then (if man == 0
            then some sign
            else map_option (λ (r : ℕ × ℕ). join_fields sign r.1 (shl32 (bit_and r.0 0x3FF) 13))
                (normalize normalize_fuel 0x400 man (127 - 15)))
        else some (join_fields sign ((sub32 exp 15 + 127) % 2 ^ 32) (shl32 man 13)))

unfoldable pub bf16_to_f32 : ℕ → Option ℕ
bf16_to_f32 h =
    let sign = shl32 (bit_and h 0x8000) 16 in
    let exp = bit_and (h / 2 ^ 7) 0xFF in
    let man = bit_and h 0x7F in
    if exp == 0xFF
    then some (bit_or (bit_or sign 0x7F800000) (shl32 man 16))
    else (if exp == 0
        then (if man == 0
            then some sign
            else map_option (λ (r : ℕ × ℕ). join_fields sign r.1 (shl32 (bit_and r.0 0x7F) 16))
                (normalize normalize_fuel 0x80 man (127 - 126)))
        else some (join_fields sign exp (shl32 man 16)))

-- The batch loops are one text over the conversion of a value. `n` values are left, and `src` is what
-- has not been read. Each round of the first loop reads four values from one 64-bit load.
unfoldable pub lanes : {A : Type 0} → (ℕ → A) → ℕ → List A
lanes convert w =
    convert (bit_and (w / 2 ^ 0) 0xFFFF)
    ∷ convert (bit_and (w / 2 ^ 16) 0xFFFF)
    ∷ convert (bit_and (w / 2 ^ 32) 0xFFFF)
    ∷ convert (bit_and (w / 2 ^ 48) 0xFFFF)
    ∷ []

-- The second loop, a value at a time.
unfoldable pub decode_tail : {A : Type 0} → (ℕ → A) → ℕ → List ℕ → List A
decode_tail convert zero src = []
decode_tail convert (suc n) src = convert (read_le 2 0 src) ∷ decode_tail convert n (drop 2 src)

unfoldable pub decode_batch : {A : Type 0} → (ℕ → A) → ℕ → List ℕ → List A
decode_batch convert (suc (suc (suc (suc n)))) src =
    lanes convert (read_le 8 0 src) ++ decode_batch convert n (drop 8 src)
decode_batch convert n src = decode_tail convert n src

unfoldable pub decode_f16_batch : List ℕ → ℕ → List (Option ℕ)
decode_f16_batch src n = decode_batch fp16_to_fp32 n src

unfoldable pub f16s_to_f32 : List ℕ → ℕ → List (Option ℕ)
f16s_to_f32 src n = decode_batch f16_to_f32 n src

unfoldable pub bf16s_to_f32 : List ℕ → ℕ → List (Option ℕ)
bf16s_to_f32 src n = decode_batch bf16_to_f32 n src
