-- ===== src/Gguf/Parser.antt =====
-- The parser of GGUF files: the loops over the metadata and the tensors of parse_gguf_internal
-- (src/gguf_loader.cpp).
use terllama.Prelude.{
  ℕ, zero, suc, true, Option, none, some, List, [], ◌∷◌, ◌++◌, length, drop, if◌then◌else◌, ltb,
  ◌==◌,
}
use terllama.Prelude.Results.{Result, ok, ◌>>=◌}
use terllama.Gguf.{
  Error, GgufFile, GgufTensorInfo, empty_file, gguf_magic, gguf_version, read_word, rstr,
  scalar_width, store, store_string, read_elems,
}

unfoldable pub read_array : List ℕ → GgufFile → List ℕ → Result Error (GgufFile × List ℕ)
read_array key g p =
    if ltb (length p) 4
    then ok (g, p)
    else (read_word 4 p >>= λ type.
        read_word 8 type.1 >>= λ count. read_elems type.0 count.0 key g count.1)

module _ (narrow : ℕ → ℕ) where
  -- An unknown type skips four bytes.
  abbrev pub read_scalar :
      Option ℕ → ℕ → List ℕ → GgufFile → List ℕ → Result Error (GgufFile × List ℕ)
  read_scalar none type key g p = ok (g, drop 4 p)
  read_scalar (some width) type key g p =
      read_word width p >>= λ v. ok (store narrow type width key v.0 g, v.1)

  -- The switch on the type of a value.
  unfoldable pub read_value : ℕ → List ℕ → GgufFile → List ℕ → Result Error (GgufFile × List ℕ)
  read_value type key g p =
      if type == 8
      then (rstr p >>= λ v. ok (store_string key v.0 g, v.1))
      else if type == 9
      then read_array key g p
      else read_scalar (scalar_width type) type key g p

  unfoldable pub read_metadata : ℕ → GgufFile → List ℕ → Result Error (GgufFile × List ℕ)
  read_metadata zero g p = ok (g, p)
  read_metadata (suc n) g p = rstr p >>= λ key.
      if ltb (length key.1) 4
      then ok (g, key.1)
      else (read_word 4 key.1 >>= λ type.
          read_value type.0 key.0 g type.1 >>= λ next. read_metadata n next.0 next.1)

unfoldable pub read_dims : ℕ → List ℕ → Result Error (List ℕ × List ℕ)
read_dims zero p = ok ([], p)
read_dims (suc n) p = do d ← read_word 8 p; more ← read_dims n d.1; ok (d.0 ∷ more.0, more.1)

unfoldable pub read_tensors : ℕ → GgufFile → List ℕ → Result Error GgufFile
read_tensors zero g p = ok g
read_tensors (suc n) g p = rstr p >>= λ name.
    if ltb (length name.1) 4
    then ok g
    else (read_word 4 name.1 >>= λ n_dims. read_dims n_dims.0 n_dims.1 >>= λ dims.
        read_word 4 dims.1 >>= λ type. read_word 8 type.1 >>= λ offset.
        let ti : GgufTensorInfo = record {
          name = name.0;
          type = type.0;
          dims = dims.0;
          offset = offset.0;
        } in
        read_tensors n (record g { tensors = g.tensors ++ ti ∷ [] }) offset.1)

module _ (narrow : ℕ → ℕ) where
  unfoldable pub parse_gguf_internal : List ℕ → Result Error GgufFile
  parse_gguf_internal file = read_word 4 file >>= λ magic.
      if magic.0 == gguf_magic
      then (read_word 4 magic.1 >>= λ version.
          if ltb gguf_version version.0
          then ok empty_file
          else (read_word 8 version.1 >>= λ tensor_count.
              read_word 8 tensor_count.1 >>= λ metadata_kv_count.
              read_metadata narrow metadata_kv_count.0 empty_file metadata_kv_count.1 >>= λ m.
              read_tensors tensor_count.0 m.0 m.1 >>= λ g. ok (record g { valid = true })))
      else ok empty_file
