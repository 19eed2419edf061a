-- ===== src/AlsLayer.antt =====
-- One layer of the model file and the tables its kernels read: parse_layer_type_data and
-- build_block_contig_cache of src/loader.h, with build_combined false as every caller has it.
-- The fields are those of LayerData in src/model.h that these functions set. A pointer into a table is
-- the index it points at. in_features and out_features are not negative.
pub mod Shape
pub mod Lookup
pub mod Load
mod Runs
use terllama.Prelude.{
  ℕ, zero, suc, ◌+◌, ◌-◌, ◌*◌, ◌/◌, ◌%◌, Bool, true, false, not, ◌||◌, List, [], ◌∷◌, ◌++◌, map,
  length, take, if◌then◌else◌, leb, ◌==◌,
}
use terllama.Prelude.Bytes.{read_words}
use terllama.Prelude.Results.{Result, ok, err, ◌>>=◌}
use terllama.AlsFormat.{Error, out_of_bounds, BlockTerm, parse_block_terms, parse_container}

-- The tables of one term: the codes and scales of all blocks, and where each row starts in them.
pub record ContigTerm : Type 0 where
  pub contig_data : List ℕ
  pub contig_scales : List ℕ
  pub block_data : List ℕ
  pub block_scales : List ℕ

pub record LayerData : Type 0 where
  pub out_features : ℕ
  pub in_features : ℕ
  pub has_blocks : Bool
  pub block_qk : ℕ
  pub block_terms : List (List BlockTerm)
  pub term_cache_built : Bool
  pub term_tables : List ContigTerm
  pub has_raw_weights : Bool
  pub raw_weights : List ℕ

-- The memcpy of each block's codes.
unfoldable pub copy_codes : ℕ → List BlockTerm → Result Error (List ℕ)
copy_codes codes_per_block [] = ok []
copy_codes codes_per_block (block ∷ blocks) = do
  rest ← copy_codes codes_per_block blocks
  if leb codes_per_block (length block.packed)
      then ok (take codes_per_block block.packed ++ rest)
      else err out_of_bounds

abbrev pub copy_scales : List BlockTerm → List ℕ
copy_scales blocks = map (λ block. block.scale) blocks

-- The starts of `todo` rows from `row` on.
unfoldable pub row_starts : ℕ → ℕ → ℕ → List ℕ
row_starts zero row stride = []
row_starts (suc todo) row stride = row * stride ∷ row_starts todo (suc row) stride

abbrev pub no_tables : ContigTerm
no_tables = record { contig_data = []; contig_scales = []; block_data = []; block_scales = [] }

unfoldable pub fill_tables : ℕ → ℕ → ℕ → List BlockTerm → Result Error ContigTerm
fill_tables qk out_f n_blocks blocks = do
  codes ← copy_codes (qk / 4) blocks
  ok (record {
    contig_data = codes;
    contig_scales = copy_scales blocks;
    block_data = row_starts out_f 0 (n_blocks * (qk / 4));
    block_scales = row_starts out_f 0 n_blocks;
  })

-- A term with the wrong number of blocks is skipped.
unfoldable pub contig_term : ℕ → ℕ → ℕ → List BlockTerm → Result Error ContigTerm
contig_term qk out_f n_blocks blocks =
    if length blocks == out_f * n_blocks then fill_tables qk out_f n_blocks blocks else ok no_tables

unfoldable pub contig_terms : ℕ → ℕ → ℕ → List (List BlockTerm) → Result Error (List ContigTerm)
contig_terms qk out_f n_blocks [] = ok []
contig_terms qk out_f n_blocks (blocks ∷ terms) = do
  table ← contig_term qk out_f n_blocks blocks
  tables ← contig_terms qk out_f n_blocks terms
  ok (table ∷ tables)

abbrev pub with_tables : LayerData → Bool → List ContigTerm → LayerData
with_tables ld built tables = record {
  out_features = ld.out_features;
  in_features = ld.in_features;
  has_blocks = ld.has_blocks;
  block_qk = ld.block_qk;
  block_terms = ld.block_terms;
  term_cache_built = built;
  term_tables = tables;
  has_raw_weights = ld.has_raw_weights;
  raw_weights = ld.raw_weights;
}

abbrev pub n_blocks : LayerData → ℕ
n_blocks ld = (ld.in_features + ld.block_qk - 1) / ld.block_qk

unfoldable pub build_block_contig_cache : LayerData → Result Error LayerData
build_block_contig_cache ld =
    if not ld.has_blocks || (length ld.block_terms == 0) || (ld.in_features == 0)
    then ok (with_tables ld false ld.term_tables)
    else do
      tables ← contig_terms ld.block_qk ld.out_features (n_blocks ld) ld.block_terms
      ok (with_tables ld true tables)

abbrev pub with_terms : LayerData → List (List BlockTerm) → LayerData
with_terms ld terms = record {
  out_features = ld.out_features;
  in_features = ld.in_features;
  has_blocks = true;
  block_qk = 128;
  block_terms = terms;
  term_cache_built = ld.term_cache_built;
  term_tables = ld.term_tables;
  has_raw_weights = ld.has_raw_weights;
  raw_weights = ld.raw_weights;
}

abbrev pub with_raw : LayerData → List ℕ → LayerData
with_raw ld words = record {
  out_features = ld.out_features;
  in_features = ld.in_features;
  has_blocks = false;
  block_qk = 128;
  block_terms = ld.block_terms;
  term_cache_built = ld.term_cache_built;
  term_tables = ld.term_tables;
  has_raw_weights = true;
  raw_weights = words;
}

-- The raw weights: the vector has length / 4 floats and the memcpy writes every byte of the buffer.
unfoldable pub raw_layer : LayerData → List ℕ → Result Error LayerData
raw_layer ld buf =
    if length buf % 4 == 0
    then ok (with_raw ld (read_words (length buf / 4) buf))
    else err out_of_bounds

unfoldable pub multi_term_layer : LayerData → List ℕ → Result Error LayerData
multi_term_layer ld buf = do
  terms ← parse_container buf ld.out_features ld.in_features 128
  build_block_contig_cache (with_terms ld terms)

unfoldable pub single_term_layer : LayerData → List ℕ → Result Error LayerData
single_term_layer ld buf = do
  blocks ← parse_block_terms buf ld.out_features ld.in_features 128
  build_block_contig_cache (with_terms ld (blocks ∷ []))

unfoldable pub parse_layer_type_data : LayerData → ℕ → List ℕ → Result Error LayerData
parse_layer_type_data ld layer_type buf =
    if layer_type == 1
    then raw_layer ld buf
    else if layer_type == 2
    then multi_term_layer ld buf
    else single_term_layer ld buf
