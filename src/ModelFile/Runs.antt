-- ===== src/ModelFile/Runs.antt =====
-- A file of two layers, written and read, and the theorems at it.
use terllama.Prelude.{ℕ, ◌≡◌, refl, true, false, none, some, List, [], ◌∷◌, ◌++◌, replicate, arith}
use terllama.Prelude.Results.{ok, err}
use terllama.ModelFile.{
  bad_data, LayerRecord, new_layer, Head, parse_layer_index, dotted_number, read_head,
  sniff_als_layout, load_decomposed_layers_als, OutLayer, write_layer, write_decomposed, lm_head,
  layers_prefix, keep,
}
use terllama.AlsFormat.{blocks_truncated, parse_block_terms, parse_rows, parse_row, parse_block}
use terllama.AlsLayer.{LayerData, single_term_layer, parse_layer_type_data}
use terllama.ModelFile.Range.{kept_records}
use terllama.ModelFile.RoundTrip.{
  IsWritable, IsReadable, records_for, record_for, load-write_decomposed, read_head-misread,
}

-- "model.layers.12.q" and its like.
abbrev layer_name : List ℕ → List ℕ
layer_name digits = layers_prefix ++ (digits ++ (46 ∷ 113 ∷ []))

twelve : parse_layer_index (layer_name (49 ∷ 50 ∷ [])) ≡ ok (some 12)
unfolding parse_layer_index dotted_number
twelve = refl

no_number : parse_layer_index (layer_name (49 ∷ 120 ∷ [])) ≡ ok none
unfolding parse_layer_index dotted_number
no_number = refl

no_digits : parse_layer_index (layer_name []) ≡ ok none
unfolding parse_layer_index dotted_number
no_digits = refl

-- Two weights of a layer of one term, in a block of its own.
abbrev query : OutLayer
query = record {
  name = layer_name (49 ∷ []);
  out_f = 1;
  in_f = 2;
  layer_type = 0;
  contents = replicate 36 0x55;
}

abbrev head : OutLayer
head = record {
  name = lm_head;
  out_f = 1;
  in_f = 1;
  layer_type = 1;
  contents = 0 ∷ 0 ∷ 128 ∷ 63 ∷ [];
}

abbrev no_data : OutLayer
no_data = record { name = lm_head; out_f = 0; in_f = 0; layer_type = 1; contents = [] }

query-IsReadable : IsReadable query
query-IsReadable = (
  record {
    name_fits = omega arith;
    out_fits = omega arith;
    in_fits = omega arith;
    known_type = omega arith;
    length_fits = omega arith;
  },
  (omega arith, omega arith),
  omega arith,
)

head-IsReadable : IsReadable head
head-IsReadable = (
  record {
    name_fits = omega arith;
    out_fits = omega arith;
    in_fits = omega arith;
    known_type = omega arith;
    length_fits = omega arith;
  },
  (omega arith, omega arith),
  omega arith,
)

no_data-IsWritable : IsWritable no_data
no_data-IsWritable = record {
  name_fits = omega arith;
  out_fits = omega arith;
  in_fits = omega arith;
  known_type = omega arith;
  length_fits = omega arith;
}

abbrev file : List ℕ
file = write_decomposed (query ∷ head ∷ [])

abbrev query_data : LayerData
query_data = record (new_layer 1 2) {
  has_blocks = true;
  block_terms = (record { packed = replicate 32 0x55; scale = 0x55555555 } ∷ []) ∷ [];
  term_cache_built = true;
  term_tables =
      record {
        contig_data = replicate 32 0x55;
        contig_scales = 0x55555555 ∷ [];
        block_data = 0 ∷ [];
        block_scales = 0 ∷ [];
      }
      ∷ [];
}

abbrev head_data : LayerData
head_data = record (new_layer 1 1) { has_raw_weights = true; raw_weights = 0x3F800000 ∷ [] }

abbrev two_records : List LayerRecord
two_records = record_for query query_data ∷ record_for head head_data ∷ []

-- A middle shard keeps the layer and not the head.
middle : kept_records 1 2 false two_records ≡ ok (record_for query query_data ∷ [])
unfolding kept_records keep parse_layer_index dotted_number
middle = refl

-- The loader throws on a block that the parser refuses.
abbrev cut_off : OutLayer
cut_off = record query { contents = replicate 35 0x55 }

refused : records_for (cut_off ∷ head ∷ []) ≡ err (bad_data blocks_truncated)
unfolding records_for parse_layer_type_data single_term_layer parse_block_terms parse_rows parse_row
    parse_block
refused = refl

load-write_decomposed_example :
    load_decomposed_layers_als (write_decomposed (head ∷ query ∷ []))
    ≡ records_for (head ∷ query ∷ [])
load-write_decomposed_example =
    load-write_decomposed (head ∷ query ∷ []) (head-IsReadable, (query-IsReadable, tt))
      (omega arith)

read_head-misread_example :
    (h : Head) × (left : List ℕ) × (read_head (write_layer no_data ++ []) ≡ ok (h, left))
    × (sniff_als_layout h.x ≡ 1)
    × (h.x ≡ 1)
read_head-misread_example = read_head-misread no_data [] no_data-IsWritable (omega arith)
