-- ===== src/Tokenizer/Runs.antt =====
-- The theorems on the native tokenizer at a small vocabulary.
use terllama.Prelude.{◌≡◌, refl, true, false, [], ◌∷◌, ◌++◌, if◌then◌else◌}
use terllama.Prelude.Int.{pos, negsuc}
use terllama.Server.{is_empty}
use terllama.Server.Respond.{generated_text, trim_front}
use terllama.Server.Runs.{some_env}
use terllama.Inference.Index.{codes}
use terllama.Tokenizer.{
  Tokenizer, is_usable, is_llama, load_from_gguf, decode, raw_text, token_text, with_spaces,
  is_byte_fallback, hex_val,
}
use terllama.Tokenizer.Append.{decode-lost_space}
use terllama.Tokenizer.Answers.{generated_text-Outcome, with_native, is_shown}

-- `▁the`, `▁cat`, a byte token and the end of the text.
abbrev small : Tokenizer
small =
    load_from_gguf
      ((0xE2 ∷ 0x96 ∷ 0x81 ∷ codes "the")
        ∷ (0xE2 ∷ 0x96 ∷ 0x81 ∷ codes "cat")
        ∷ codes "<0x0A>"
        ∷ codes "</s>"
        ∷ [])
      [] (pos 0 ∷ pos 0 ∷ pos 0 ∷ pos 3 ∷ []) (codes "llama") (negsuc 0) (pos 3)

usable : is_usable small ≡ true
unfolding load_from_gguf
usable = refl

llama : is_llama small ≡ true
unfolding load_from_gguf
llama = refl

first_has_text : is_empty (raw_text small (pos 0 ∷ [])) ≡ false
unfolding raw_text token_text with_spaces is_byte_fallback load_from_gguf
first_has_text = refl

second_starts : raw_text small (pos 1 ∷ []) ≡ 32 ∷ codes "cat"
unfolding raw_text token_text with_spaces is_byte_fallback load_from_gguf
second_starts = refl

-- A byte token, and a control token without text.
bytes_and_controls : raw_text small (pos 2 ∷ pos 3 ∷ pos 7 ∷ []) ≡ 10 ∷ []
unfolding raw_text token_text with_spaces is_byte_fallback hex_val load_from_gguf
bytes_and_controls = refl

decode-lost_space_example :
    decode small (pos 0 ∷ pos 1 ∷ []) ≡ decode small (pos 0 ∷ []) ++ 32 ∷ decode small (pos 1 ∷ [])
decode-lost_space_example =
    decode-lost_space small (pos 0 ∷ []) (pos 1 ∷ []) (codes "cat") usable llama first_has_text
      second_starts

shown : is_shown (decode small (pos 0 ∷ [])) ≡ true
unfolding decode raw_text token_text with_spaces is_byte_fallback load_from_gguf
shown = refl

generated_text-Outcome_example :
    generated_text (with_native some_env small) (pos 0 ∷ []) (pos 3 ∷ []) ≡ (
      if is_empty (raw_text small (pos 3 ∷ []))
      then decode small (pos 0 ∷ [])
      else trim_front (raw_text small (pos 3 ∷ [])))
generated_text-Outcome_example =
    generated_text-Outcome some_env small (pos 0 ∷ []) (pos 3 ∷ []) usable shown
