-- ===== src/AlsLayer/Runs.antt =====
-- A layer of one row and two weights, loaded.
use terllama.Prelude.{◌≡◌, refl, false, true, arith, [], ◌∷◌, replicate}
use terllama.Prelude.Bytes.{read_le, le_word}
use terllama.Prelude.Results.{ok, err}
use terllama.AlsFormat.{out_of_bounds, parse_block_terms, parse_rows, parse_row, parse_block}
use terllama.AlsLayer.{
  LayerData, copy_codes, row_starts, fill_tables, contig_term, contig_terms,
  build_block_contig_cache, single_term_layer, raw_layer, parse_layer_type_data,
}
use terllama.AlsLayer.Load.{IsLoaded, parse_layer_type_data-IsLoaded}

abbrev fresh : LayerData
fresh = record {
  out_features = 1;
  in_features = 2;
  has_blocks = false;
  block_qk = 128;
  block_terms = [];
  term_cache_built = false;
  term_tables = [];
  has_raw_weights = false;
  raw_weights = [];
}

abbrev loaded : LayerData
loaded = record {
  out_features = 1;
  in_features = 2;
  has_blocks = true;
  block_qk = 128;
  block_terms = (record { packed = replicate 32 0x55; scale = 0x55555555 } ∷ []) ∷ [];
  term_cache_built = true;
  term_tables =
      record {
        contig_data = replicate 32 0x55;
        contig_scales = 0x55555555 ∷ [];
        block_data = 0 ∷ [];
        block_scales = 0 ∷ [];
      }
      ∷ [];
  has_raw_weights = false;
  raw_weights = [];
}

accepted : parse_layer_type_data fresh 0 (replicate 36 0x55) ≡ ok loaded
unfolding parse_layer_type_data single_term_layer parse_block_terms parse_rows parse_row parse_block
    read_le le_word build_block_contig_cache contig_terms contig_term fill_tables copy_codes
    row_starts
accepted = refl

-- A raw layer of five bytes overruns its one float.
overrun : parse_layer_type_data fresh 1 (replicate 5 0x55) ≡ err out_of_bounds
unfolding parse_layer_type_data raw_layer
overrun = refl

parse_layer_type_data-IsLoaded_example : IsLoaded 1 1 loaded
parse_layer_type_data-IsLoaded_example =
    parse_layer_type_data-IsLoaded fresh loaded 0 (replicate 36 0x55) refl (omega arith) accepted
