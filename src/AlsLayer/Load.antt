-- ===== src/AlsLayer/Load.antt =====
-- A layer that parse_layer_type_data accepts has the tables that the block kernels index
-- (src/loader.h).
use terllama.Prelude.{
  ℕ, suc, ◌+◌, ◌-◌, ◌*◌, ◌/◌, ◌≤◌, ◌<◌, ◌≡◌, refl, sym, ap, ◌∙◌, true, false, not, ◌||◌, some, List,
  [], ◌∷◌, length, All, arith, ◌==◌, ==_iff, Bool-cases, inl, inr, get_elem?, get_elem?-some,
  All-get,
}
use mathlib.Core.Path.{subst}
use native.Mathlib.Nat.{add-mul, mul_assoc, mul-le-mul_right}
use terllama.Prelude.Results.{ok, bind_ok, ok_injective}
use terllama.AlsFormat.{BlockTerm, parse_block_terms, parse_container}
use terllama.AlsLayer.{
  ContigTerm, LayerData, copy_scales, row_starts, fill_tables, contig_term, contig_terms,
  build_block_contig_cache, with_terms, with_tables, single_term_layer, multi_term_layer,
  parse_layer_type_data,
}
use terllama.AlsLayer.Shape.{IsWhole, parse_block_terms-IsWhole, parse_container-shape}
use terllama.AlsLayer.Lookup.{
  all_codes, copy_codes-whole, all_codes-get, copy_scales-get, row_starts-get,
}

-- Code `i` of block `b` of a row is found from the row's start, and so is the block's scale.
pub record IsTable (qk out_f n_blocks : ℕ) (blocks : List BlockTerm) (table : ContigTerm)
    : Type 0 where
  pub code :
      (row b i : ℕ)
      → row < out_f
      → b < n_blocks
      → i < qk / 4
      → (start : ℕ) × (block : BlockTerm) × (byte : ℕ) × (get_elem? table.block_data row
          ≡ some start)
        × (get_elem? blocks (row * n_blocks + b) ≡ some block)
        × (get_elem? block.packed i ≡ some byte)
        × (get_elem? table.contig_data (start + (b * (qk / 4) + i)) ≡ some byte)
  pub scale :
      (row b : ℕ)
      → row < out_f
      → b < n_blocks
      → (start : ℕ) × (block : BlockTerm) × (get_elem? table.block_scales row ≡ some start)
        × (get_elem? blocks (row * n_blocks + b) ≡ some block)
        × (get_elem? table.contig_scales (start + b) ≡ some block.scale)

block_index : (row out_f n b : ℕ) → row < out_f → b < n → row * n + b < out_f * n
block_index row out_f n b hr hb = omega (
  arith,
  hr,
  hb,
  mul-le-mul_right {m = suc row} {n = out_f} n (omega (arith, hr)),
  add-mul 1 row n,
)

abbrev table_of : ℕ → ℕ → ℕ → List BlockTerm → ContigTerm
table_of qk out_f n blocks = record {
  contig_data = all_codes blocks;
  contig_scales = copy_scales blocks;
  block_data = row_starts out_f 0 (n * (qk / 4));
  block_scales = row_starts out_f 0 n;
}

module _ (qk out_f n : ℕ) where
  contig_term-table :
      (blocks : List BlockTerm)
      → IsWhole qk out_f n blocks
      → contig_term qk out_f n blocks ≡ ok (table_of qk out_f n blocks)
  unfolding contig_term fill_tables
  contig_term-table blocks (len, sizes) =
      let same : (length blocks == out_f * n) ≡ true = (==_iff (length blocks) (out_f * n)).1 len in
      rw (same, copy_codes-whole (qk / 4) blocks sizes) refl

  tables_found :
      (blocks : List BlockTerm)
      → IsWhole qk out_f n blocks
      → IsTable qk out_f n blocks (table_of qk out_f n blocks)
  tables_found blocks (len, sizes) = record {
    code = λ row b i hr hb hi.
        let k = row * n + b in
        let (block, at) =
          get_elem?-some k blocks (omega (arith, len, block_index row out_f n b hr hb)) in
        let (byte, code) =
          get_elem?-some i block.packed
            (omega (arith, All-get (λ x. length x.packed ≡ qk / 4) blocks k block sizes at, hi)) in
        let place : (0 + row) * (n * (qk / 4)) + (b * (qk / 4) + i) ≡ k * (qk / 4) + i =
          omega (arith, mul_assoc row n (qk / 4), add-mul (row * n) b (qk / 4)) in
        (
          (0 + row) * (n * (qk / 4)),
          block,
          byte,
          row_starts-get out_f 0 (n * (qk / 4)) row hr,
          at,
          code,
          ap (get_elem? (all_codes blocks)) place
              ∙ all_codes-get (qk / 4) blocks k i byte block sizes at code,
        );
    scale = λ row b hr hb.
        let k = row * n + b in
        let (block, at) =
          get_elem?-some k blocks (omega (arith, len, block_index row out_f n b hr hb)) in
        let place : (0 + row) * n + b ≡ k = omega arith in
        (
          (0 + row) * n,
          block,
          row_starts-get out_f 0 n row hr,
          at,
          ap (get_elem? (copy_scales blocks)) place ∙ copy_scales-get blocks k block at,
        );
  }

  -- The terms of a layer and their tables, one by one.
  abbrev pub HasTables : List (List BlockTerm) → List ContigTerm → Type 0
  HasTables [] [] = Unit
  HasTables (blocks ∷ terms) (table ∷ tables) =
      IsTable qk out_f n blocks table × HasTables terms tables
  HasTables _ _ = ⊥

  contig_terms-tables :
      (terms : List (List BlockTerm))
      → All (IsWhole qk out_f n) terms
      → (tables : List ContigTerm) × (contig_terms qk out_f n terms ≡ ok tables)
        × HasTables terms tables
  unfolding contig_terms
  contig_terms-tables [] h = ([], refl, tt)
  contig_terms-tables (blocks ∷ terms) (hb, h) =
      let (tables, e, have) = contig_terms-tables terms h in
      (
        table_of qk out_f n blocks ∷ tables,
        rw (contig_term-table blocks hb, e) refl,
        (tables_found blocks hb, have),
      )

-- A layer with the terms' tables.
abbrev pub IsLoaded : ℕ → ℕ → LayerData → Type 0
IsLoaded out_f n ld =
    (ld.term_cache_built ≡ true)
    × (ld.out_features ≡ out_f)
    × (1 ≤ length ld.block_terms)
    × (length ld.block_terms ≤ 32)
    × HasTables 128 out_f n ld.block_terms ld.term_tables

guard_open : (k in_f : ℕ) → 1 ≤ k → 0 < in_f → not true || (k == 0) || (in_f == 0) ≡ false
guard_open k in_f hk hi = ground arith

build-IsLoaded :
    (ld ld' : LayerData) (terms : List (List BlockTerm))
    → 0 < ld.in_features
    → 1 ≤ length terms
    → length terms ≤ 32
    → All (IsWhole 128 ld.out_features ((ld.in_features + 128 - 1) / 128)) terms
    → build_block_contig_cache (with_terms ld terms) ≡ ok ld'
    → IsLoaded ld.out_features ((ld.in_features + 128 - 1) / 128) ld'
unfolding build_block_contig_cache
build-IsLoaded ld ld' terms hi low high whole h =
    let n = (ld.in_features + 128 - 1) / 128 in
    let (tables, e, have) = contig_terms-tables 128 ld.out_features n terms whole in
    let result : build_block_contig_cache (with_terms ld terms)
        ≡ ok (with_tables (with_terms ld terms) true tables) =
      rw (guard_open (length terms) ld.in_features low hi, e) refl in
    subst (IsLoaded ld.out_features n)
      (ok_injective (with_tables (with_terms ld terms) true tables) ld' (sym result ∙ h))
      (refl, refl, low, high, have)

single :
    (ld ld' : LayerData) (buf : List ℕ)
    → 0 < ld.in_features
    → single_term_layer ld buf ≡ ok ld'
    → IsLoaded ld.out_features ((ld.in_features + 128 - 1) / 128) ld'
unfolding single_term_layer
single ld ld' buf hi h =
    let (blocks, hb, built) =
      bind_ok (parse_block_terms buf ld.out_features ld.in_features 128) _ ld' h in
    build-IsLoaded ld ld' (blocks ∷ []) hi (omega arith) (omega arith)
      (parse_block_terms-IsWhole 128 buf ld.out_features ld.in_features blocks hb, tt) built

multi :
    (ld ld' : LayerData) (buf : List ℕ)
    → 0 < ld.in_features
    → multi_term_layer ld buf ≡ ok ld'
    → IsLoaded ld.out_features ((ld.in_features + 128 - 1) / 128) ld'
unfolding multi_term_layer
multi ld ld' buf hi h =
    let (terms, ht, built) =
      bind_ok (parse_container buf ld.out_features ld.in_features 128) _ ld' h in
    let (low, high, whole) =
      parse_container-shape 128 ld.out_features ld.in_features buf terms ht in
    build-IsLoaded ld ld' terms hi low high whole built

-- When parse_layer_type_data accepts a layer of blocks (a type other than 1) with in_features above 0,
-- the tables are built for 1 to 32 terms, and every code and scale the
-- kernels look up from a row's start is there and is the one of that row's block.
pub parse_layer_type_data-IsLoaded :
    (ld ld' : LayerData) (layer_type : ℕ) (buf : List ℕ)
    → (layer_type == 1) ≡ false
    → 0 < ld.in_features
    → parse_layer_type_data ld layer_type buf ≡ ok ld'
    → IsLoaded ld.out_features ((ld.in_features + 128 - 1) / 128) ld'
unfolding parse_layer_type_data
parse_layer_type_data-IsLoaded ld ld' layer_type buf blocks hi h =
    elim (Bool-cases (layer_type == 2)) [
      | inl two ↦ multi ld ld' buf hi (sym (rw (blocks, two) refl) ∙ h)
      | inr other ↦ single ld ld' buf hi (sym (rw (blocks, other) refl) ∙ h)
    ]
