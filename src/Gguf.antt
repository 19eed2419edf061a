-- ===== src/Gguf.antt =====
-- The parser of GGUF files: parse_gguf_internal of src/gguf_loader.cpp with its read helpers. The file is a
-- list of bytes and an offset into it is what is left of it; an access past the end, which the source does not
-- check, is an error. An offset past the end leaves nothing. A float is its bit pattern; the narrowing of a
-- double is an argument.
pub mod Parser
pub mod Format
pub mod Reads
pub mod Values
pub mod RoundTrip
mod Runs
use terllama.Prelude.{
  ℕ, zero, suc, ◌+◌, ◌-◌, ◌*◌, ◌^◌, Bool, true, false, ◌&&◌, ◌||◌, Option, none, some, List, [],
  ◌∷◌, ◌++◌, length, take, drop, if◌then◌else◌, ltb, leb, ◌==◌,
}
use terllama.Prelude.Int.{ℤ, pos, negsuc}
use terllama.Prelude.Bytes.{le_word}
use terllama.Prelude.Results.{Result, ok, err, ◌>>=◌}
use terllama.ModelFile.{same_name}
use terllama.Inference.Index.{codes}

pub data Error : Type 0 where
  out_of_bounds : Error

pub record GgufTensorInfo : Type 0 where
  pub name : List ℕ
  pub type : ℕ
  pub dims : List ℕ
  pub offset : ℕ

abbrev pub Map : Type 0 → Type 0
Map A = List ℕ → Option A

abbrev pub set_key : {A : Type 0} → List ℕ → A → Map A → Map A
set_key key a m = λ k. if same_name k key then some a else m k

pub record GgufFile : Type 0 where
  pub metadata_str : Map (List ℕ)
  pub metadata_int : Map ℤ
  pub metadata_float : Map ℕ
  pub tensors : List GgufTensorInfo
  pub valid : Bool
  pub tokenizer_tokens : List (List ℕ)
  pub tokenizer_scores : List ℕ
  pub tokenizer_types : List ℤ
  pub tokenizer_model : List ℕ
  pub bos_token_id : ℤ
  pub eos_token_id : ℤ

abbrev pub empty_file : GgufFile
empty_file = record {
  metadata_str = λ k. none;
  metadata_int = λ k. none;
  metadata_float = λ k. none;
  tensors = [];
  valid = false;
  tokenizer_tokens = [];
  tokenizer_scores = [];
  tokenizer_types = [];
  tokenizer_model = [];
  bos_token_id = negsuc 0;
  eos_token_id = negsuc 0;
}

abbrev pub gguf_magic : ℕ
gguf_magic = 0x46554747

abbrev pub gguf_version : ℕ
gguf_version = 3

-- r8, r16, r32 and r64 are `read_word` of 1, 2, 4 and 8 bytes.
unfoldable pub read_bytes : ℕ → List ℕ → Result Error (List ℕ × List ℕ)
read_bytes n p = if ltb (length p) n then err out_of_bounds else ok (take n p, drop n p)

unfoldable pub read_word : ℕ → List ℕ → Result Error (ℕ × List ℕ)
read_word n p = read_bytes n p >>= λ got. ok (le_word got.0, got.1)

unfoldable pub rstr : List ℕ → Result Error (List ℕ × List ℕ)
rstr p = read_word 8 p >>= λ len. read_bytes len.0 len.1

-- The two's complement of `n` bytes.
unfoldable pub signed : ℕ → ℕ → ℤ
signed n v = if ltb v (2 ^ (8 * n - 1)) then pos v else negsuc (2 ^ (8 * n) - 1 - v)

-- The bytes of a value that is neither a string nor an array; of an unknown type, none.
unfoldable pub scalar_width : ℕ → Option ℕ
scalar_width type =
    if leb type 1 || type == 7
    then some 1
    else if leb type 3
    then some 2
    else if leb type 6
    then some 4
    else if leb 10 type && leb type 12
    then some 8
    else none

-- A 64-bit unsigned value is stored as signed.
unfoldable pub int_of : ℕ → ℕ → ℕ → ℤ
int_of type width v =
    if type == 7
    then (if v == 0 then pos 0 else pos 1)
    else if type == 0 || (type == 2 || type == 4)
    then pos v
    else signed width v

module _ (narrow : ℕ → ℕ) where
  unfoldable pub store : ℕ → ℕ → List ℕ → ℕ → GgufFile → GgufFile
  store type width key v g =
      if type == 6
      then record g { metadata_float = set_key key v g.metadata_float }
      else if type == 12
      then record g { metadata_float = set_key key (narrow v) g.metadata_float }
      else (let i = int_of type width v in
          record g {
            metadata_int = set_key key i g.metadata_int;
            bos_token_id =
                if type == 5 && same_name key (codes "tokenizer.ggml.bos_token_id")
                then i
                else g.bos_token_id;
            eos_token_id =
                if type == 5 && same_name key (codes "tokenizer.ggml.eos_token_id")
                then i
                else g.eos_token_id;
          })

unfoldable pub store_string : List ℕ → List ℕ → GgufFile → GgufFile
store_string key v g =
    if same_name key (codes "tokenizer.ggml.model")
    then record g { tokenizer_model = v }
    else record g { metadata_str = set_key key v g.metadata_str }

unfoldable pub read_strings : ℕ → List ℕ → Result Error (List (List ℕ) × List ℕ)
read_strings zero p = ok ([], p)
read_strings (suc n) p = do s ← rstr p; more ← read_strings n s.1; ok (s.0 ∷ more.0, more.1)

unfoldable pub read_words32 : ℕ → List ℕ → Result Error (List ℕ × List ℕ)
read_words32 zero p = ok ([], p)
read_words32 (suc n) p = do w ← read_word 4 p; more ← read_words32 n w.1; ok (w.0 ∷ more.0, more.1)

-- What is skipped of an element of an unused array. A Boolean and an array count as 4 bytes.
unfoldable pub elem_size : ℕ → ℕ
elem_size type =
    if leb type 1 then 1 else if leb type 3 then 2 else if leb 10 type && leb type 12 then 8 else 4

unfoldable pub skip_elems : ℕ → ℕ → List ℕ → Result Error (List ℕ)
skip_elems type zero p = ok p
skip_elems type (suc n) p =
    (if type == 8 then (rstr p >>= λ s. ok s.1) else ok (drop (elem_size type) p)) >>= λ rest.
    skip_elems type n rest

abbrev pub map_signed : List ℕ → List ℤ
map_signed [] = []
map_signed (w ∷ ws) = signed 4 w ∷ map_signed ws

unfoldable pub read_elems : ℕ → ℕ → List ℕ → GgufFile → List ℕ → Result Error (GgufFile × List ℕ)
read_elems type count key g p =
    if same_name key (codes "tokenizer.ggml.tokens") && type == 8
    then (read_strings count p >>= λ r.
        ok (record g { tokenizer_tokens = g.tokenizer_tokens ++ r.0 }, r.1))
    else if same_name key (codes "tokenizer.ggml.scores") && type == 6
    then (read_words32 count p >>= λ r.
        ok (record g { tokenizer_scores = g.tokenizer_scores ++ r.0 }, r.1))
    else if same_name key (codes "tokenizer.ggml.types") && type == 5
    then (read_words32 count p >>= λ r.
        ok (record g { tokenizer_types = g.tokenizer_types ++ map_signed r.0 }, r.1))
    else (skip_elems type count p >>= λ rest. ok (g, rest))
