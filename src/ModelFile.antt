-- ===== src/ModelFile.antt =====
-- The records of model_decomposed.bin: load_decomposed_layers_als of src/loader.h, the range reader
-- load_decomposed_layers_als_range and parse_layer_index of distributed/shard_loader.h, and the framing of a
-- record that src/convert/export.cpp writes. A typed record is what parse_layer_type_data of AlsLayer makes of
-- it; those of the old layout keep the bytes of their payload. A file is its bytes; `unread` stands for a
-- read past the end, after which the source goes on with variables that were not filled. A name is its
-- characters' codes.
pub mod Names
pub mod Range
pub mod Kept
pub mod RoundTrip
mod Runs
use terllama.Prelude.{
  ℕ, zero, suc, ◌+◌, ◌-◌, ◌*◌, ◌/◌, ◌%◌, ◌^◌, Bool, true, false, ◌&&◌, ◌||◌, Option, none, some,
  List, [], ◌∷◌, ◌++◌, length, take, drop, if◌then◌else◌, leb, ltb, ◌==◌,
}
use terllama.Prelude.Bytes.{le_bytes, le_word}
use terllama.AlsFormat
use terllama.AlsLayer.{LayerData, parse_layer_type_data}
use terllama.Prelude.Results.{Result, ok, err, ◌>>=◌}

pub data Error : Type 0 where
  unread : Error
  bad_magic : Error
  bad_layer_type : ℕ → Error
  index_out_of_range : Error
  bad_range : Error
  oversized : Error
  bad_data : AlsFormat.Error → Error

-- Raw floats, the terms of the old layout (the exponent and the codes of each), or a typed layer.
pub data Payload : Type 0 where
  raw : List ℕ → Payload
  old_terms : List (List ℕ) → Payload
  typed : LayerData → Payload

pub record LayerRecord : Type 0 where
  pub name : List ℕ
  pub out_features : ℕ
  pub in_features : ℕ
  pub payload : Payload

-- `f.read` of `n` bytes: what was read and what is left.
unfoldable pub read : ℕ → List ℕ → Result Error (List ℕ × List ℕ)
read n file = if leb n (length file) then ok (take n file, drop n file) else err unread

unfoldable pub read_u32 : List ℕ → Result Error (ℕ × List ℕ)
read_u32 file = do got ← read 4 file; ok (le_word got.0, got.1)

-- The fields before the payload: name, out_features, in_features, and the u32 that tells the layouts apart.
pub record Head : Type 0 where
  pub name : List ℕ
  pub out_f : ℕ
  pub in_f : ℕ
  pub x : ℕ

unfoldable pub read_head : List ℕ → Result Error (Head × List ℕ)
read_head file = do
  name_len ← read_u32 file
  name ← read name_len.0 name_len.1
  out_f ← read_u32 name.1
  in_f ← read_u32 out_f.1
  x ← read_u32 in_f.1
  ok (record { name = name.0; out_f = out_f.0; in_f = in_f.0; x = x.0 }, x.1)

-- 1 = the old layout with a number of terms, 0 = the layout with a type.
unfoldable pub sniff_als_layout : ℕ → ℕ
sniff_als_layout x = if leb x 32 then 1 else 0

-- The bytes of a term's codes.
unfoldable pub n_bytes : Head → ℕ
n_bytes h = (h.out_f * h.in_f * 2 + 7) / 8

unfoldable pub read_terms : ℕ → ℕ → List ℕ → Result Error (List (List ℕ) × List ℕ)
read_terms zero size file = ok ([], file)
read_terms (suc todo) size file = do
  term ← read (4 + size) file
  rest ← read_terms todo size term.1
  ok (term.0 ∷ rest.0, rest.1)

-- `data_len` of the typed layout: three bytes of x and one of the stream.
unfoldable pub read_length : ℕ → List ℕ → Result Error (ℕ × List ℕ)
read_length x file = do
  len_hi ← read 1 file
  ok (x / 256 % 2 ^ 24 + le_word len_hi.0 * 2 ^ 24, len_hi.1)

-- The layer before its data is parsed.
abbrev pub new_layer : ℕ → ℕ → LayerData
new_layer out_f in_f = record {
  out_features = out_f;
  in_features = in_f;
  has_blocks = false;
  block_qk = 128;
  block_terms = [];
  term_cache_built = false;
  term_tables = [];
  has_raw_weights = false;
  raw_weights = [];
}

abbrev pub lift : {A : Type 0} → Result AlsFormat.Error A → Result Error A
lift (ok a) = ok a
lift (err e) = err (bad_data e)

-- The sizes are int32_t, and the number of blocks of a row is computed in int. A layer of blocks with sizes
-- that are negative or overflow there is an error here.
unfoldable pub parse_typed : Head → ℕ → List ℕ → Result Error LayerData
parse_typed h layer_type buf =
    if layer_type == 1 || (ltb h.out_f (2 ^ 31) && ltb (h.in_f + 127) (2 ^ 31))
    then lift (parse_layer_type_data (new_layer h.out_f h.in_f) layer_type buf)
    else err oversized

unfoldable pub read_typed : Head → List ℕ → Result Error (Payload × List ℕ)
read_typed h file = if ltb 2 (h.x % 256) then err (bad_layer_type (h.x % 256)) else do
  data_len ← read_length h.x file
  bytes ← read data_len.0 data_len.1
  ld ← parse_typed h (h.x % 256) bytes.0
  ok (typed ld, bytes.1)

unfoldable pub read_raw : List ℕ → Result Error (Payload × List ℕ)
read_raw file = do
  data_len ← read_u32 file
  bytes ← read data_len.0 data_len.1
  ok (raw bytes.0, bytes.1)

unfoldable pub read_old : Head → List ℕ → Result Error (Payload × List ℕ)
read_old h file = do terms ← read_terms h.x (n_bytes h) file; ok (old_terms terms.0, terms.1)

unfoldable pub read_payload : Head → List ℕ → Result Error (Payload × List ℕ)
read_payload h file =
    if sniff_als_layout h.x == 1
    then (if h.x == 0 then read_raw file else read_old h file)
    else read_typed h file

abbrev pub record_of : Head → Payload → LayerRecord
record_of h payload = record {
  name = h.name;
  out_features = h.out_f;
  in_features = h.in_f;
  payload = payload;
}

unfoldable pub read_records : ℕ → List ℕ → Result Error (List LayerRecord)
read_records zero file = ok []
read_records (suc todo) file = do
  head ← read_head file
  payload ← read_payload head.0 head.1
  rest ← read_records todo payload.1
  ok (record_of head.0 payload.0 ∷ rest)

abbrev pub model_magic : ℕ
model_magic = 0xDEADBEEF

unfoldable pub load_decomposed_layers_als : List ℕ → Result Error (List LayerRecord)
load_decomposed_layers_als file = do
  magic ← read_u32 file
  num_layers ← (if magic.0 == model_magic then read_u32 magic.1 else err bad_magic)
  read_records num_layers.0 num_layers.1

-- "model.layers."
abbrev pub layers_prefix : List ℕ
layers_prefix = 109 ∷ 111 ∷ 100 ∷ 101 ∷ 108 ∷ 46 ∷ 108 ∷ 97 ∷ 121 ∷ 101 ∷ 114 ∷ 115 ∷ 46 ∷ []

-- "lm_head"
abbrev pub lm_head : List ℕ
lm_head = 108 ∷ 109 ∷ 95 ∷ 104 ∷ 101 ∷ 97 ∷ 100 ∷ []

abbrev pub same_name : List ℕ → List ℕ → Bool
same_name [] [] = true
same_name [] (d ∷ other) = false
same_name (c ∷ name) [] = false
same_name (c ∷ name) (d ∷ other) = (c == d) && same_name name other

abbrev pub isdigit : ℕ → Bool
isdigit c = leb 48 c && leb c 57

-- The digits before a dot, as a number; `none` for another character first, or no dot. `seen` tells
-- whether there was a digit.
unfoldable pub dotted_number : Bool → ℕ → List ℕ → Option ℕ
dotted_number seen n [] = none
dotted_number seen n (c ∷ rest) =
    let more = dotted_number true (n * 10 + (c - 48)) rest in
    if c == 46 then (if seen then some n else none) else if isdigit c then more else none

abbrev pub in_int : Option ℕ → Result Error (Option ℕ)
in_int none = ok none
in_int (some n) = if ltb n (2 ^ 31) then ok (some n) else err index_out_of_range

-- `none` is the -1 of the source. std::stoi throws from 2^31 on.
unfoldable pub parse_layer_index : List ℕ → Result Error (Option ℕ)
parse_layer_index name =
    if same_name (take 13 name) layers_prefix
    then in_int (dotted_number false 0 (drop 13 name))
    else ok none

abbrev pub in_range : ℕ → ℕ → Option ℕ → Bool
in_range start_layer end_layer none = false
in_range start_layer end_layer (some li) = leb start_layer li && ltb li end_layer

unfoldable pub keep : ℕ → ℕ → Bool → List ℕ → Result Error Bool
keep start_layer end_layer include_lm_head name = do
  li ← parse_layer_index name
  ok (in_range start_layer end_layer li || (include_lm_head && same_name name lm_head))

-- What a skipped record leaves of the file: the range reader seeks, which does not fail at the end.
unfoldable pub skip_raw : List ℕ → Result Error (List ℕ)
skip_raw file = do data_len ← read_u32 file; ok (drop data_len.0 data_len.1)

unfoldable pub skip_typed : ℕ → List ℕ → Result Error (List ℕ)
skip_typed x file = do data_len ← read_length x file; ok (drop data_len.0 data_len.1)

unfoldable pub skip_payload : Head → List ℕ → Result Error (List ℕ)
skip_payload h file =
    if sniff_als_layout h.x == 1
    then (if h.x == 0 then skip_raw file else ok (drop (h.x * (4 + n_bytes h)) file))
    else skip_typed h.x file

module _ (start_layer end_layer : ℕ) (include_lm_head : Bool) where
  unfoldable pub read_range : ℕ → List ℕ → Result Error (List LayerRecord)
  read_range zero file = ok []
  read_range (suc todo) file = read_head file >>= λ head.
      keep start_layer end_layer include_lm_head head.0.name >>= λ wanted.
      if wanted
      then (read_payload head.0 head.1 >>= λ payload.
          read_range todo payload.1 >>= λ rest. ok (record_of head.0 payload.0 ∷ rest))
      else (skip_payload head.0 head.1 >>= λ left. read_range todo left)

  unfoldable pub load_decomposed_layers_als_range : List ℕ → Result Error (List LayerRecord)
  load_decomposed_layers_als_range file = if ltb end_layer start_layer then err bad_range else do
    magic ← read_u32 file
    num_layers ← (if magic.0 == model_magic then read_u32 magic.1 else err bad_magic)
    read_range num_layers.0 num_layers.1

-- The writer: a type and its data.
pub record OutLayer : Type 0 where
  pub name : List ℕ
  pub out_f : ℕ
  pub in_f : ℕ
  pub layer_type : ℕ
  pub contents : List ℕ

unfoldable pub write_layer : OutLayer → List ℕ
write_layer l =
    le_bytes 4 (length l.name)
    ++ (l.name
        ++ (le_bytes 4 l.out_f
            ++ (le_bytes 4 l.in_f
                ++ ((l.layer_type % 256 ∷ le_bytes 4 (length l.contents)) ++ l.contents))))

unfoldable pub write_layers : List OutLayer → List ℕ
write_layers [] = []
write_layers (l ∷ layers) = write_layer l ++ write_layers layers

unfoldable pub write_decomposed : List OutLayer → List ℕ
write_decomposed layers =
    le_bytes 4 model_magic ++ (le_bytes 4 (length layers) ++ write_layers layers)
