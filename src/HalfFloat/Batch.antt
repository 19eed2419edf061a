-- ===== src/HalfFloat/Batch.antt =====
-- The batch loops against the conversion of one value at a time.
use Prim.Native.Nat.{bit_and}
use mathlib.Core.Path.{ap₂}
use terllama.Prelude.{
  ℕ, suc, ◌+◌, ◌*◌, ◌/◌, ◌^◌, ◌≤◌, ◌≡◌, refl, ap, ◌∙◌, sym, List, [], ◌∷◌, ◌++◌, length, drop, All,
  arith, All-drop, length-drop, drop-add,
}
use terllama.Prelude.Bytes.{read_le, le_word, IsByte}
use terllama.Prelude.Bits.{bit_and-low}
use terllama.HalfFloat.{
  fp16_to_fp32, f16_to_f32, bf16_to_f32, decode_f16_batch, f16s_to_f32, bf16s_to_f32, lanes,
  decode_tail, decode_batch,
}

module _ {A : Type 0} (convert : ℕ → A) where
  -- Four values from one 64-bit load are the four values one by one.
  lanes-decode_tail :
      (src : List ℕ)
      → All IsByte src
      → 8 ≤ length src
      → lanes convert (read_le 8 0 src) ≡ decode_tail convert 4 src
  unfolding lanes decode_tail read_le le_word
  lanes-decode_tail (a ∷ b ∷ c ∷ d ∷ e ∷ f ∷ g ∷ h ∷ src)
        (ha, (hb, (hc, (hd, (he, (hf, (hg, (hh, rest)))))))) len =
      let w : ℕ = read_le 8 0 (a ∷ b ∷ c ∷ d ∷ e ∷ f ∷ g ∷ h ∷ src) in
      let lane0 : bit_and (w / 2 ^ 0) 0xFFFF ≡ a + 256 * (b + 0) =
        omega (arith, bit_and-low 16 (w / 2 ^ 0)) in
      let lane1 : bit_and (w / 2 ^ 16) 0xFFFF ≡ c + 256 * (d + 0) =
        omega (arith, bit_and-low 16 (w / 2 ^ 16)) in
      let lane2 : bit_and (w / 2 ^ 32) 0xFFFF ≡ e + 256 * (f + 0) =
        omega (arith, bit_and-low 16 (w / 2 ^ 32)) in
      let lane3 : bit_and (w / 2 ^ 48) 0xFFFF ≡ g + 256 * (h + 0) =
        omega (arith, bit_and-low 16 (w / 2 ^ 48)) in
      λ i. convert (lane0 i) ∷ convert (lane1 i) ∷ convert (lane2 i) ∷ convert (lane3 i) ∷ []
  lanes-decode_tail _ bytes len = absurd (omega arith)

  decode_tail-split :
      (n : ℕ) (src : List ℕ)
      → decode_tail convert (suc (suc (suc (suc n)))) src
        ≡ decode_tail convert 4 src ++ decode_tail convert n (drop 2 (drop 2 (drop 2 (drop 2 src))))
  unfolding decode_tail
  decode_tail-split n src = refl

  drop_eight : (src : List ℕ) → drop 2 (drop 2 (drop 2 (drop 2 src))) ≡ drop 8 src
  drop_eight src =
      sym (drop-add 2 6 src ∙ drop-add 2 4 (drop 2 src) ∙ drop-add 2 2 (drop 2 (drop 2 src)))

  pub decode_batch-decode_tail :
      (n : ℕ) (src : List ℕ)
      → All IsByte src
      → 2 * n ≤ length src
      → decode_batch convert n src ≡ decode_tail convert n src
  unfolding decode_batch
  decode_batch-decode_tail (suc (suc (suc (suc n)))) src bytes len =
      ap₂ ◌++◌ (lanes-decode_tail src bytes (omega arith)) (
        decode_batch-decode_tail n (drop 8 src) (All-drop IsByte 8 src bytes)
          (omega (arith, length-drop 8 src)))
      ∙ sym (
          decode_tail-split n src
          ∙ ap (λ s. decode_tail convert 4 src ++ decode_tail convert n s) (drop_eight src))
  decode_batch-decode_tail n src bytes len = refl

-- On a buffer of bytes that holds `n` values, each of the three batch loops, which read four values from
-- one 64-bit load, gives what its conversion gives of the values read one by one.
pub batch_loops :
    (n : ℕ) (src : List ℕ)
    → All IsByte src
    → 2 * n ≤ length src
    → (decode_f16_batch src n ≡ decode_tail fp16_to_fp32 n src)
      × (f16s_to_f32 src n ≡ decode_tail f16_to_f32 n src)
      × (bf16s_to_f32 src n ≡ decode_tail bf16_to_f32 n src)
unfolding decode_f16_batch f16s_to_f32 bf16s_to_f32
batch_loops n src bytes len = (
  decode_batch-decode_tail fp16_to_fp32 n src bytes len,
  decode_batch-decode_tail f16_to_f32 n src bytes len,
  decode_batch-decode_tail bf16_to_f32 n src bytes len,
)
