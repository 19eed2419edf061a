-- ===== src/Tokenizer/Append.antt =====
-- The text of a run of tokens and of a part of it (Tokenizer::decode of src/core/tokenizer.cpp).
use terllama.Prelude.{
  ◌≡◌, refl, ap, sym, ◌∙◌, Bool, true, false, List, [], ◌∷◌, ◌++◌, ℕ, ◌==◌, if◌then◌else◌,
  Bool-cases, inl, inr,
}
use mathlib.Core.List.{append_assoc}
use terllama.Prelude.Int.{ℤ}
use terllama.Server.{is_empty}
use terllama.Tokenizer.{Tokenizer, raw_text, token_text, decode, is_usable, is_llama, without_space}

pub raw_text-append :
    (t : Tokenizer) (a b : List ℤ) → raw_text t (a ++ b) ≡ raw_text t a ++ raw_text t b
unfolding raw_text
raw_text-append t [] b = refl
raw_text-append t (id ∷ a) b =
    ap (λ (l : List ℕ). token_text t id ++ l) (raw_text-append t a b)
    ∙ sym (append_assoc (token_text t id) (raw_text t a) (raw_text t b))

without_space-append :
    (x y : List ℕ) → is_empty x ≡ false → without_space (x ++ y) ≡ without_space x ++ y
without_space-append [] y h = absurd (cc h)
without_space-append (c ∷ x) y h = elim (Bool-cases (c == 32)) [
  | inl e ↦ rw e refl
  | inr e ↦ rw e refl
]

llama_append :
    (llama : Bool) (x y : List ℕ)
    → is_empty x ≡ false
    → (if llama then without_space (x ++ y) else x ++ y)
      ≡ (if llama then without_space x else x) ++ y
llama_append true x y h = without_space-append x y h
llama_append false x y h = refl

-- The text of more tokens goes on after the text of the first ones, once these have any.
pub decode-append :
    (t : Tokenizer) (a b : List ℤ)
    → is_usable t ≡ true
    → is_empty (raw_text t a) ≡ false
    → decode t (a ++ b) ≡ decode t a ++ raw_text t b
unfolding decode
decode-append t a b usable some_text =
    rw (usable, raw_text-append t a b)
      (llama_append (is_llama t) (raw_text t a) (raw_text t b) some_text)

-- Where a SentencePiece vocabulary gives some text to the first tokens and a text that starts with a space
-- to the next ones, decoding the two apart loses that space.
pub decode-lost_space :
    (t : Tokenizer) (a b : List ℤ) (rest : List ℕ)
    → is_usable t ≡ true
    → is_llama t ≡ true
    → is_empty (raw_text t a) ≡ false
    → raw_text t b ≡ 32 ∷ rest
    → decode t (a ++ b) ≡ decode t a ++ 32 ∷ decode t b
unfolding decode
decode-lost_space t a b rest usable llama some_text starts =
    let apart : decode t b ≡ rest = rw (usable, llama, starts) refl in
    decode-append t a b usable some_text
    ∙ ap (λ (l : List ℕ). decode t a ++ l) (starts ∙ ap (λ (l : List ℕ). 32 ∷ l) (sym apart))
