-- ===== src/Tokenizer/Answers.antt =====
-- The text of an answer that is not streamed, by the native tokenizer: generated_text of
-- src/server/handlers.cpp over Tokenizer::decode of src/core/tokenizer.cpp.
use terllama.Prelude.{
  ℕ, ◌≡◌, refl, sym, Bool, true, false, not, ◌&&◌, List, [], ◌∷◌, ◌++◌, length, drop, if◌then◌else◌,
  ltb, ◌==◌, arith, length-append, drop-append_left, Bool-cases, inl, inr,
}
use mathlib.Core.Path.{subst}
use mathlib.Core.List.{append-nil}
use terllama.Prelude.Int.{ℤ}
use terllama.ModelFile.{same_name}
use terllama.Server.{Env, is_empty, decode_with_fallback}
use terllama.Server.Respond.{generated_text, trim_front}
use terllama.Tokenizer.{Tokenizer, raw_text, decode, is_usable, is_llama, without_space}
use terllama.Tokenizer.Append.{decode-append}

-- A text that decode_with_fallback takes from the native tokenizer.
abbrev pub is_shown : List ℕ → Bool
is_shown text = not (is_empty text) && not (same_name text (63 ∷ []))

shown-append : (x y : List ℕ) → is_shown x ≡ true → is_shown (x ++ y) ≡ true
shown-append [] y h = absurd (cc h)
shown-append (c ∷ []) [] h = h
shown-append (c ∷ []) (d ∷ y) h = elim (Bool-cases (c == 63)) [
  | inl e ↦ rw e refl
  | inr e ↦ rw e refl
]
shown-append (c ∷ d ∷ x) y h = elim (Bool-cases (c == 63)) [ inl e ↦ rw e refl | inr e ↦ rw e refl ]

some_before :
    (llama : Bool) (x : List ℕ)
    → is_shown (if llama then without_space x else x) ≡ true
    → is_empty x ≡ false
some_before true [] h = absurd (cc h)
some_before false [] h = absurd (cc h)
some_before llama (c ∷ x) h = refl

raw_some :
    (t : Tokenizer) (a : List ℤ)
    → is_usable t ≡ true
    → is_shown (decode t a) ≡ true
    → is_empty (raw_text t a) ≡ false
unfolding decode
raw_some t a usable h = some_before (is_llama t) (raw_text t a) (rw usable at h)

module _ {F : Type 0} (env : Env F) (t : Tokenizer) where
  -- The server with the tokenizer of its model.
  abbrev pub with_native : Env F
  with_native = record env { native_decode = decode t }

  fallback_shown :
      (tokens : List ℤ)
      → is_shown (decode t tokens) ≡ true
      → decode_with_fallback with_native tokens ≡ decode t tokens
  unfolding decode_with_fallback
  fallback_shown tokens h = rw h refl

  cut_text :
      (x y : List ℕ)
      → (if ltb (length x) (length (x ++ y))
          then trim_front (drop (length x) (x ++ y))
          else (x ++ y))
        ≡ (if is_empty y then x else trim_front y)
  cut_text x [] =
      let same : x ++ [] ≡ x = append-nil x in
      let even : ltb (length x) (length x) ≡ false = ground arith in rw (same, even) refl
  cut_text x (c ∷ y) =
      let longer : ltb (length x) (length (x ++ c ∷ y)) ≡ true =
        ground (arith, length-append x (c ∷ y)) in
      rw (longer, drop-append_left (length x) x (c ∷ y) refl) refl

  -- Where the native tokenizer can show the prompt, the answer is the text of the output tokens less the
  -- spaces in front of it. Output tokens that have no text, such as the end-of-text token alone, are
  -- answered by the text of the prompt.
  pub generated_text-Outcome :
      (prompt output : List ℤ)
      → is_usable t ≡ true
      → is_shown (decode t prompt) ≡ true
      → generated_text with_native prompt output
        ≡ (if is_empty (raw_text t output) then decode t prompt else trim_front (raw_text t output))
  unfolding generated_text
  generated_text-Outcome prompt output usable shown =
      let whole : decode t (prompt ++ output) ≡ decode t prompt ++ raw_text t output =
        decode-append t prompt output usable (raw_some t prompt usable shown) in
      let shown_whole : is_shown (decode t (prompt ++ output)) ≡ true =
        subst (λ (l : List ℕ). is_shown l ≡ true) (sym whole)
          (shown-append (decode t prompt) (raw_text t output) shown) in
      rw (fallback_shown prompt shown, fallback_shown (prompt ++ output) shown_whole, whole)
        (cut_text (decode t prompt) (raw_text t output))
