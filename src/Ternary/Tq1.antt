-- ===== src/Ternary/Tq1.antt =====
-- TQ1.0 bytes (src/model.h): base-3 digits there and back.
use terllama.Prelude.{
  ℕ, zero, suc, ◌+◌, ◌-◌, ◌*◌, ◌/◌, ◌%◌, ◌^◌, ◌≤◌, ◌<◌, ◌≡◌, refl, sym, ap, ◌∙◌, ◌⊎◌, inl, inr,
  some, List, [], ◌∷◌, ◌++◌, length, take, All, arith, take_all,
}
use native.Mathlib.Nat.{pow-succ'}
use mathlib.Core.Path.{subst}
use terllama.Prelude.Int.{ℤ, pos, negsuc, pos_part, sub_ℕ, ◌+ℤ◌, ◌*ℤ◌}
use terllama.Ternary.{tq1_encode_5_trits, tq1_digits, tq1_decode_byte, tq1_decode_block}

-- A weight is -1, 0 or 1.
abbrev pub IsTrit : ℤ → Type 0
IsTrit t = (t ≡ negsuc 0) ⊎ (t ≡ pos 0) ⊎ (t ≡ pos 1)

-- The digit of a trit.
digit_of : (t : ℤ) → IsTrit t → (d : ℕ) × (d < 3) × (sub_ℕ d 1 ≡ t) × (t +ℤ pos 1 ≡ pos d)
unfolding ◌+ℤ◌
digit_of t (inl e) = (0, omega arith, sym e, rw e)
digit_of t (inr (inl e)) = (1, omega arith, sym e, rw e)
digit_of t (inr (inr e)) = (2, omega arith, sym e, rw e)

encode_step : (v d : ℕ) → pos v *ℤ pos 3 +ℤ pos d ≡ pos (v * 3 + d)
unfolding ◌+ℤ◌ ◌*ℤ◌
encode_step v d = ground arith

-- The encoding of trits is the number that its digits give back.
encode_digits :
    (trits : List ℤ)
    → All IsTrit trits
    → (v : ℕ) × (tq1_encode_5_trits trits ≡ pos v)
      × (v < 3 ^ length trits)
      × (tq1_digits (length trits) v ≡ trits)
unfolding tq1_encode_5_trits tq1_digits
encode_digits [] h = (0, refl, omega arith, refl)
encode_digits (t ∷ trits) (ht, h) =
    let (d, small, back, plus) = digit_of t ht in
    let (v, e, bound, digits) = encode_digits trits h in
    let low : (v * 3 + d) % 3 ≡ d = omega (arith, small) in
    let high : (v * 3 + d) / 3 ≡ v = omega (arith, small) in
    (
      v * 3 + d,
      rw (e, plus) (encode_step v d),
      omega (arith, bound, small, pow-succ' 3 (length trits)),
      rw (low, high, back, digits),
    )

-- Encoding five trits gives a byte below 243, and decoding it gives the trits back.
pub tq1_decode-encode :
    (trits : List ℤ)
    → All IsTrit trits
    → length trits ≡ 5
    → (byte : ℕ) × (tq1_encode_5_trits trits ≡ pos byte)
      × (byte < 243)
      × (tq1_decode_byte byte ≡ trits)
unfolding tq1_decode_byte
tq1_decode-encode trits h five =
    let (v, e, bound, digits) = encode_digits trits h in
    (
      v,
      e,
      omega (arith, ap (λ n. 3 ^ n) five, bound),
      subst (λ n. tq1_digits n v ≡ trits) five digits,
    )

-- The byte of five weights.
unfoldable pub tq1_byte : List ℤ → ℕ
tq1_byte five = pos_part (tq1_encode_5_trits five)

-- The bytes of a run of weights, five to a byte.
abbrev pub tq1_bytes : List ℤ → List ℕ
tq1_bytes (a ∷ b ∷ c ∷ d ∷ e ∷ trits) = tq1_byte (a ∷ b ∷ c ∷ d ∷ e ∷ []) ∷ tq1_bytes trits
tq1_bytes _ = []

tq1_decode-byte :
    (five : List ℤ) → All IsTrit five → length five ≡ 5 → tq1_decode_byte (tq1_byte five) ≡ five
unfolding tq1_byte
tq1_decode-byte five h e =
    let (byte, enc, small, dec) = tq1_decode-encode five h e in
    ap (λ v. tq1_decode_byte (pos_part v)) enc ∙ dec

take_chunk :
    (n : ℕ) (a b c d e : ℤ) (trits : List ℤ)
    → take (suc n) (a ∷ b ∷ c ∷ d ∷ e ∷ []) ++ take (suc n - 5) trits
      ≡ take (suc n) (a ∷ b ∷ c ∷ d ∷ e ∷ trits)
take_chunk zero a b c d e trits = refl
take_chunk (suc zero) a b c d e trits = refl
take_chunk (suc (suc zero)) a b c d e trits = refl
take_chunk (suc (suc (suc zero))) a b c d e trits = refl
take_chunk (suc (suc (suc (suc n)))) a b c d e trits =
    let tail : take {A = ℤ} n [] ≡ [] = take_all {A = ℤ} n [] (omega arith) in
    let four : suc (suc (suc (suc (suc n)))) - 5 ≡ n = omega arith in rw (tail, four) refl

decode_step :
    (byte n : ℕ) (packed : List ℕ) (rest : List ℤ)
    → tq1_decode_block packed (suc n - 5) ≡ some rest
    → tq1_decode_block (byte ∷ packed) (suc n) ≡ some (take (suc n) (tq1_decode_byte byte) ++ rest)
unfolding tq1_decode_block
decode_step byte n packed rest h = rw (tq1_decode_block, h) refl

-- Decoding `n` weights of a run packed five to a byte gives its first `n` weights, for a run of trits
-- whose length is a multiple of five and no less than `n`.
pub tq1_decode_block-prefix :
    (k n : ℕ) (trits : List ℤ)
    → All IsTrit trits
    → length trits ≡ 5 * k
    → n ≤ length trits
    → tq1_decode_block (tq1_bytes trits) n ≡ some (take n trits)
tq1_decode_block-prefix k zero trits h len short = unfold tq1_decode_block in refl
tq1_decode_block-prefix k (suc n) [] h len short = absurd (omega arith)
tq1_decode_block-prefix zero (suc n) (a ∷ trits) h len short = absurd (omega arith)
tq1_decode_block-prefix (suc k) (suc n) (a ∷ b ∷ c ∷ d ∷ e ∷ trits) (ha, (hb, (hc, (hd, (he, h)))))
      len short =
    decode_step _ n (tq1_bytes trits) (take (suc n - 5) trits)
      (tq1_decode_block-prefix k (suc n - 5) trits h (omega arith) (omega arith))
    ∙ ap (λ five. some (take (suc n) five ++ take (suc n - 5) trits))
        (tq1_decode-byte (a ∷ b ∷ c ∷ d ∷ e ∷ []) (ha, (hb, (hc, (hd, (he, tt))))) refl)
    ∙ ap some (take_chunk n a b c d e trits)
tq1_decode_block-prefix (suc k) (suc n) (a ∷ []) h len short = absurd (omega arith)
tq1_decode_block-prefix (suc k) (suc n) (a ∷ b ∷ []) h len short = absurd (omega arith)
tq1_decode_block-prefix (suc k) (suc n) (a ∷ b ∷ c ∷ []) h len short = absurd (omega arith)
tq1_decode_block-prefix (suc k) (suc n) (a ∷ b ∷ c ∷ d ∷ []) h len short = absurd (omega arith)
