-- ===== src/Tokenizer.antt =====
-- The native tokenizer: load_from_gguf and decode of src/core/tokenizer.cpp, on texts as lists of bytes. A
-- char is compared as a byte, which gives the same answers for the ASCII characters that are tested.
pub mod Append
pub mod Answers
mod Runs
use terllama.Prelude.{
  ℕ, ◌+◌, ◌-◌, ◌*◌, Bool, true, false, not, ◌&&◌, ◌||◌, Option, none, some, List, [], ◌∷◌, ◌++◌,
  length, if◌then◌else◌, leb, ◌==◌, get_elem?,
}
use terllama.Prelude.Int.{ℤ, pos, negsuc, eq_ℤ}
use terllama.ModelFile.{same_name}
use terllama.Inference.Index.{codes}
use terllama.Server.{is_empty}

pub record Tokenizer : Type 0 where
  pub vocab : List (List ℕ)
  pub scores : List ℕ
  pub types : List ℤ
  pub model_type : List ℕ
  pub bos_id : ℤ
  pub eos_id : ℤ
  pub valid : Bool

unfoldable pub load_from_gguf : List (List ℕ) → List ℕ → List ℤ → List ℕ → ℤ → ℤ → Tokenizer
load_from_gguf tokens scores_in types_in model bos eos = record {
  vocab = tokens;
  scores = scores_in;
  types = types_in;
  model_type = model;
  bos_id = bos;
  eos_id = eos;
  valid = true;
}

abbrev pub between : ℕ → ℕ → ℕ → Bool
between low high c = leb low c && leb c high

-- A hexadecimal digit of either case.
unfoldable pub hex_val : ℕ → Option ℕ
hex_val c =
    if between b'0' b'9' c
    then some (c - b'0')
    else if between b'A' b'F' c
    then some (c - b'A' + 10)
    else if between b'a' b'f' c
    then some (c - b'a' + 10)
    else none

abbrev pub byte_of : Option ℕ → Option ℕ → Option ℕ
byte_of none lo = none
byte_of (some hi) none = none
byte_of (some hi) (some lo) = some (hi * 16 + lo)

-- The byte of a token such as `<0x0A>`.
unfoldable pub is_byte_fallback : List ℕ → Option ℕ
is_byte_fallback (a ∷ b ∷ c ∷ hi ∷ lo ∷ z ∷ []) =
    if a == b'<' && (b == b'0' && (c == b'x' && z == b'>'))
    then byte_of (hex_val hi) (hex_val lo)
    else none
is_byte_fallback s = none

-- Each UTF-8 `▁` becomes a space.
unfoldable pub with_spaces : List ℕ → List ℕ
with_spaces [] = []
with_spaces (a ∷ []) = a ∷ []
with_spaces (a ∷ b ∷ []) = a ∷ b ∷ []
with_spaces (a ∷ b ∷ c ∷ rest) = elim (a == 0xE2 && (b == 0x96 && c == 0x81)) [
  | true ↦ 32 ∷ with_spaces rest
  | false ↦ a ∷ with_spaces (b ∷ c ∷ rest)
]

abbrev pub is_llama : Tokenizer → Bool
is_llama t = same_name t.model_type (codes "llama")

abbrev pub byte_or : Option ℕ → List ℕ → List ℕ
byte_or none token = with_spaces token
byte_or (some byte) token = byte ∷ []

abbrev pub is_control : Option ℤ → Bool
is_control none = false
is_control (some type) = eq_ℤ type (pos 3)

abbrev pub text_of : Tokenizer → Option (List ℕ) → List ℕ
text_of t none = []
text_of t (some token) = if is_llama t then byte_or (is_byte_fallback token) token else token

-- What a token adds to the text. Tokens out of range, control tokens and the two ends add nothing.
unfoldable pub token_text : Tokenizer → ℤ → List ℕ
token_text t (negsuc n) = []
token_text t (pos id) =
    if is_control (get_elem? t.types id) || (eq_ℤ (pos id) t.bos_id || eq_ℤ (pos id) t.eos_id)
    then []
    else text_of t (get_elem? t.vocab id)

-- The loop over the tokens.
unfoldable pub raw_text : Tokenizer → List ℤ → List ℕ
raw_text t [] = []
raw_text t (id ∷ ids) = token_text t id ++ raw_text t ids

abbrev pub without_space : List ℕ → List ℕ
without_space [] = []
without_space (c ∷ text) = if c == 32 then text else c ∷ text

abbrev pub is_usable : Tokenizer → Bool
is_usable t = t.valid && (not (is_empty t.vocab) && not (same_name t.model_type (codes "gpt2")))

unfoldable pub decode : Tokenizer → List ℤ → List ℕ
decode t token_ids =
    if is_usable t
    then (let text = raw_text t token_ids in if is_llama t then without_space text else text)
    else codes "?"
