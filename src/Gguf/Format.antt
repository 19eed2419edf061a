-- ===== src/Gguf/Format.antt =====
-- The layout of a GGUF file of version 3 as the parser of src/gguf_loader.cpp takes it: what a file with given
-- metadata and tensors looks like. Each function puts the bytes of something in front of others.
use terllama.Prelude.{
  ℕ, ◌-◌, ◌*◌, ◌^◌, ◌<◌, some, ltb, ◌≢◌, ◌&&◌, List, [], ◌∷◌, ◌++◌, length, All, if◌then◌else◌,
  ◌==◌,
}
use terllama.Prelude.Bytes.{le_bytes}
use terllama.Prelude.Int.{ℤ, pos, negsuc}
use terllama.ModelFile.{same_name}
use terllama.Inference.Index.{codes}
use terllama.Gguf.{Map, GgufFile, GgufTensorInfo, gguf_magic, gguf_version}

-- The types of numbers, with their codes and sizes in a file.
pub data NumberType : Type 0 where
  u8 i8 u16 i16 u32 i32 f32 bool u64 i64 f64 : NumberType

unfoldable pub code : NumberType → ℕ
code u8 = 0
code i8 = 1
code u16 = 2
code i16 = 3
code u32 = 4
code i32 = 5
code f32 = 6
code bool = 7
code u64 = 10
code i64 = 11
code f64 = 12

unfoldable pub size : NumberType → ℕ
size u8 = 1
size i8 = 1
size u16 = 2
size i16 = 2
size u32 = 4
size i32 = 4
size f32 = 4
size bool = 1
size u64 = 8
size i64 = 8
size f64 = 8

-- A number of a type, a string, an array of strings or an array of numbers of a type.
pub data Value : Type 0 where
  scalar : NumberType → ℕ → Value
  text : List ℕ → Value
  strings : List (List ℕ) → Value
  numbers : NumberType → List ℕ → Value

pub record Entry : Type 0 where
  pub key : List ℕ
  pub value : Value

unfoldable pub string_onto : List ℕ → List ℕ → List ℕ
string_onto s rest = le_bytes 8 (length s) ++ (s ++ rest)

unfoldable pub strings_onto : List (List ℕ) → List ℕ → List ℕ
strings_onto [] rest = rest
strings_onto (s ∷ ss) rest = string_onto s (strings_onto ss rest)

unfoldable pub numbers_onto : ℕ → List ℕ → List ℕ → List ℕ
numbers_onto n [] rest = rest
numbers_onto n (w ∷ ws) rest = le_bytes n w ++ numbers_onto n ws rest

abbrev pub value_type : Value → ℕ
value_type (scalar t v) = code t
value_type (text s) = 8
value_type (strings ss) = 9
value_type (numbers type ws) = 9

unfoldable pub value_onto : Value → List ℕ → List ℕ
value_onto (scalar t v) rest = le_bytes (size t) v ++ rest
value_onto (text s) rest = string_onto s rest
value_onto (strings ss) rest = le_bytes 4 8 ++ (le_bytes 8 (length ss) ++ strings_onto ss rest)
value_onto (numbers t ws) rest =
    le_bytes 4 (code t) ++ (le_bytes 8 (length ws) ++ numbers_onto (size t) ws rest)

unfoldable pub entries_onto : List Entry → List ℕ → List ℕ
entries_onto [] rest = rest
entries_onto (e ∷ entries) rest =
    string_onto e.key
      (le_bytes 4 (value_type e.value) ++ value_onto e.value (entries_onto entries rest))

unfoldable pub tensors_onto : List GgufTensorInfo → List ℕ → List ℕ
tensors_onto [] rest = rest
tensors_onto (t ∷ tensors) rest = string_onto t.name (
    le_bytes 4 (length t.dims)
    ++ numbers_onto 8 t.dims
        (le_bytes 4 t.type ++ (le_bytes 8 t.offset ++ tensors_onto tensors rest)))

-- A whole file, with the weights after the tensors' entries.
unfoldable pub gguf_bytes : List Entry → List GgufTensorInfo → List ℕ → List ℕ
gguf_bytes entries tensors weights =
    le_bytes 4 gguf_magic
    ++ (le_bytes 4 gguf_version
        ++ (le_bytes 8 (length tensors)
            ++ (le_bytes 8 (length entries)
                ++ entries_onto entries (tensors_onto tensors weights))))

abbrev pub Fits : ℕ → ℕ → Type 0
Fits n v = v < 256 ^ n

-- Lengths and numbers fit their words. There are no arrays of Booleans.
unfoldable pub IsValue : Value → Type 0
IsValue (scalar t v) = Fits (size t) v
IsValue (text s) = Fits 8 (length s)
IsValue (strings ss) = Fits 8 (length ss) × All (λ s. Fits 8 (length s)) ss
IsValue (numbers t ws) = (t ≢ bool) × Fits 8 (length ws) × All (Fits (size t)) ws

abbrev pub IsEntry : Entry → Type 0
IsEntry e = Fits 8 (length e.key) × IsValue e.value

pub record IsTensor (t : GgufTensorInfo) : Type 0 where
  pub name_fits : Fits 8 (length t.name)
  pub rank_fits : Fits 4 (length t.dims)
  pub dims_fit : All (Fits 8) t.dims
  pub type_fits : Fits 4 t.type
  pub offset_fits : Fits 8 t.offset

-- A map with a value under a key.
abbrev under : {A : Type 0} → List ℕ → A → Map A → Map A
under key a m = λ k. if same_name k key then some a else m k

-- The number that the two's complement word `v` of `n` bytes stands for.
unfoldable pub to_signed : ℕ → ℕ → ℤ
to_signed n v = if ltb (2 * v) (256 ^ n) then pos v else negsuc (256 ^ n - 1 - v)

abbrev pub all_signed : List ℕ → List ℤ
all_signed [] = []
all_signed (w ∷ ws) = to_signed 4 w ∷ all_signed ws

module _ (narrow : ℕ → ℕ) where
  -- The number that a word stands for is kept under the key, a 32-bit one perhaps as an end of the text too.
  abbrev keep_int : List ℕ → ℤ → GgufFile → GgufFile
  keep_int key i g = record g { metadata_int = under key i g.metadata_int }

  unfoldable pub apply_number : NumberType → List ℕ → ℕ → GgufFile → GgufFile
  apply_number u8 key v g = keep_int key (pos v) g
  apply_number i8 key v g = keep_int key (to_signed 1 v) g
  apply_number u16 key v g = keep_int key (pos v) g
  apply_number i16 key v g = keep_int key (to_signed 2 v) g
  apply_number u32 key v g = keep_int key (pos v) g
  apply_number i32 key v g =
      let i = to_signed 4 v in
      record g {
        metadata_int = under key i g.metadata_int;
        bos_token_id =
            if same_name key (codes "tokenizer.ggml.bos_token_id") then i else g.bos_token_id;
        eos_token_id =
            if same_name key (codes "tokenizer.ggml.eos_token_id") then i else g.eos_token_id;
      }
  apply_number f32 key v g = record g { metadata_float = under key v g.metadata_float }
  apply_number bool key v g = keep_int key (if v == 0 then pos 0 else pos 1) g
  apply_number u64 key v g = keep_int key (to_signed 8 v) g
  apply_number i64 key v g = keep_int key (to_signed 8 v) g
  apply_number f64 key v g = record g { metadata_float = under key (narrow v) g.metadata_float }

  -- What an entry means: a number or a string under its key, or a part of the vocabulary. Other arrays
  -- are left out.
  unfoldable pub apply : List ℕ → Value → GgufFile → GgufFile
  apply key (scalar t v) g = apply_number t key v g
  apply key (text s) g =
      let names_model = same_name key (codes "tokenizer.ggml.model") in
      record g {
        tokenizer_model = if names_model then s else g.tokenizer_model;
        metadata_str = if names_model then g.metadata_str else under key s g.metadata_str;
      }
  apply key (strings ss) g =
      if same_name key (codes "tokenizer.ggml.tokens")
      then record g { tokenizer_tokens = g.tokenizer_tokens ++ ss }
      else g
  apply key (numbers t ws) g =
      if same_name key (codes "tokenizer.ggml.scores") && code t == 6
      then record g { tokenizer_scores = g.tokenizer_scores ++ ws }
      else if same_name key (codes "tokenizer.ggml.types") && code t == 5
      then record g { tokenizer_types = g.tokenizer_types ++ all_signed ws }
      else g

  unfoldable pub apply_all : List Entry → GgufFile → GgufFile
  apply_all [] g = g
  apply_all (e ∷ entries) g = apply_all entries (apply e.key e.value g)
