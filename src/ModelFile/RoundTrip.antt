-- ===== src/ModelFile/RoundTrip.antt =====
-- What write_decomposed of src/convert/export.cpp writes and load_decomposed_layers_als of src/loader.h reads.
use mathlib.Core.List.{append_assoc, append-nil}
use terllama.Prelude.{
  ℕ, suc, ◌+◌, ◌*◌, ◌/◌, ◌%◌, ◌^◌, ◌≤◌, ◌<◌, ◌≡◌, refl, sym, ap, ◌∙◌, true, false, List, [], ◌∷◌,
  ◌++◌, length, ◌||◌, ◌&&◌, inl, inr, All, length-append, take-append_left, drop-append_left, leb,
  ltb, ◌==◌, arith,
}
use terllama.Prelude.Bytes.{IsU32, le_bytes, le_word, length-le_bytes, le_word-le_bytes}
use terllama.Prelude.Results.{Result, ok, ◌>>=◌, Result-cases}
use terllama.AlsLayer.{LayerData, parse_layer_type_data}
use terllama.ModelFile.{
  Error, lift, parse_typed, LayerRecord, typed, Head, read, read_u32, read_head, sniff_als_layout,
  read_length, read_typed, read_payload, read_records, model_magic, load_decomposed_layers_als,
  OutLayer, write_layer, write_layers, write_decomposed,
}

read-append :
    (n : ℕ) (front rest : List ℕ) → length front ≡ n → read n (front ++ rest) ≡ ok (front, rest)
unfolding read
read-append n front rest e =
    let fits : leb n (length (front ++ rest)) ≡ true =
      ground (arith, length-append front rest, e) in
    rw (fits, take-append_left n front rest e, drop-append_left n front rest e) refl

read_u32-append : (v : ℕ) (rest : List ℕ) → IsU32 v → read_u32 (le_bytes 4 v ++ rest) ≡ ok (v, rest)
unfolding read_u32
read_u32-append v rest small =
    rw (read-append 4 (le_bytes 4 v) rest (length-le_bytes 4 v), le_word-le_bytes 4 v small) refl

-- The u32 that the reader meets after in_features: the type and the low three bytes of the length.
abbrev pub met : ℕ → ℕ → ℕ
met layer_type len = layer_type + 256 * (len % 2 ^ 24)

type_and_length :
    (layer_type len : ℕ)
    → layer_type ≤ 2
    → len < 2 ^ 32
    → (layer_type % 256 ∷ le_bytes 4 len) ≡ le_bytes 4 (met layer_type len) ++ (len / 2 ^ 24 ∷ [])
unfolding le_bytes
type_and_length layer_type len ht hl =
    let x = met layer_type len in
    let b0 : x % 256 ≡ layer_type % 256 = omega arith in
    let b1 : x / 256 % 256 ≡ len % 256 = omega (arith, ht) in
    let b2 : x / 256 / 256 % 256 ≡ len / 256 % 256 = omega (arith, ht) in
    let b3 : x / 256 / 256 / 256 % 256 ≡ len / 256 / 256 % 256 = omega (arith, ht) in
    let b4 : len / 2 ^ 24 ≡ len / 256 / 256 / 256 % 256 = omega (arith, hl) in
    λ i. sym b0 i ∷ sym b1 i ∷ sym b2 i ∷ sym b3 i ∷ sym b4 i ∷ []

-- A layer as the writer holds it, with sizes in 32 bits.
pub record IsWritable (l : OutLayer) : Type 0 where
  pub name_fits : IsU32 (length l.name)
  pub out_fits : IsU32 l.out_f
  pub in_fits : IsU32 l.in_f
  pub known_type : l.layer_type ≤ 2
  pub length_fits : length l.contents < 2 ^ 32

abbrev head_of : OutLayer → Head
head_of l = record {
  name = l.name;
  out_f = l.out_f;
  in_f = l.in_f;
  x = met l.layer_type (length l.contents);
}

spread :
    (l : OutLayer) (rest : List ℕ)
    → IsWritable l
    → write_layer l ++ rest
      ≡ le_bytes 4 (length l.name)
        ++ (l.name
            ++ (le_bytes 4 l.out_f
                ++ (le_bytes 4 l.in_f
                    ++ (le_bytes 4 (met l.layer_type (length l.contents))
                        ++ ((length l.contents / 2 ^ 24 ∷ []) ++ (l.contents ++ rest))))))
unfolding write_layer
spread l rest w =
    let x = met l.layer_type (length l.contents) in
    let hi = length l.contents / 2 ^ 24 ∷ [] in
    append_assoc (le_bytes 4 (length l.name)) _ rest
    ∙ ap (λ t. le_bytes 4 (length l.name) ++ t)
        (append_assoc l.name _ rest
          ∙ ap (λ t. l.name ++ t)
              (append_assoc (le_bytes 4 l.out_f) _ rest
                ∙ ap (λ t. le_bytes 4 l.out_f ++ t)
                    (append_assoc (le_bytes 4 l.in_f) _ rest
                      ∙ ap (λ t. le_bytes 4 l.in_f ++ t)
                          (ap (λ t. (t ++ l.contents) ++ rest)
                              (type_and_length l.layer_type (length l.contents) w.known_type
                                w.length_fits)
                            ∙ append_assoc (le_bytes 4 x ++ hi) l.contents rest
                            ∙ append_assoc (le_bytes 4 x) hi (l.contents ++ rest)))))

read_head-layer :
    (l : OutLayer) (rest : List ℕ)
    → IsWritable l
    → read_head (write_layer l ++ rest)
      ≡ ok (head_of l, (length l.contents / 2 ^ 24 ∷ []) ++ (l.contents ++ rest))
unfolding read_head
read_head-layer l rest w =
    ap read_head (spread l rest w)
    ∙ rw
        (
          read_u32-append (length l.name) _ w.name_fits,
          read-append (length l.name) l.name _ refl,
          read_u32-append l.out_f _ w.out_fits,
          read_u32-append l.in_f _ w.in_fits,
          read_u32-append (met l.layer_type (length l.contents)) _ (omega (arith, w.known_type)),
        )
        refl

read_length-layer :
    (layer_type len : ℕ) (rest : List ℕ)
    → layer_type ≤ 2
    → len < 2 ^ 32
    → read_length (met layer_type len) ((len / 2 ^ 24 ∷ []) ++ rest) ≡ ok (len, rest)
unfolding read_length le_word
read_length-layer layer_type len rest ht hl =
    let whole : met layer_type len / 256 % 2 ^ 24 + (len / 2 ^ 24 + 256 * 0) * 2 ^ 24 ≡ len =
      omega (arith, ht) in
    rw (read-append 1 (len / 2 ^ 24 ∷ []) rest refl) (ap (λ n. ok (n, rest)) whole)

-- A layer of these sizes with nothing in it.
abbrev pub empty_layer : ℕ → ℕ → LayerData
empty_layer rows columns = record {
  out_features = rows;
  in_features = columns;
  has_blocks = false;
  block_qk = 128;
  block_terms = [];
  term_cache_built = false;
  term_tables = [];
  has_raw_weights = false;
  raw_weights = [];
}

-- What the loader's parser of typed data makes of a layer, or its exception.
abbrev pub parsed : OutLayer → Result Error LayerData
parsed l = lift (parse_layer_type_data (empty_layer l.out_f l.in_f) l.layer_type l.contents)

-- The sizes of a layer of blocks, in int.
abbrev pub FitsInt : OutLayer → Type 0
FitsInt l = (l.out_f < 2 ^ 31) × (l.in_f + 127 < 2 ^ 31)

read_payload-layer :
    (l : OutLayer) (rest : List ℕ)
    → IsWritable l
    → FitsInt l
    → 0 < length l.contents % 2 ^ 24
    → read_payload (head_of l) ((length l.contents / 2 ^ 24 ∷ []) ++ (l.contents ++ rest))
      ≡ (parsed l >>= λ ld. ok (typed ld, rest))
unfolding read_payload read_typed sniff_als_layout parse_typed
read_payload-layer l rest w (out_int, in_int) low =
    let x = met l.layer_type (length l.contents) in
    let new : leb x 32 ≡ false = ground (arith, low) in
    let type_back : x % 256 ≡ l.layer_type = omega (arith, w.known_type) in
    let known : ltb 2 l.layer_type ≡ false = ground (arith, w.known_type) in
    let fits : l.layer_type == 1 || (ltb l.out_f (2 ^ 31) && ltb (l.in_f + 127) (2 ^ 31)) ≡ true =
      ground (arith, out_int, in_int) in
    rw
      (
        new,
        type_back,
        known,
        read_length-layer l.layer_type (length l.contents) (l.contents ++ rest) w.known_type
            w.length_fits,
        read-append (length l.contents) l.contents rest refl,
        fits,
      )
      refl

-- The record that a layer is read as.
abbrev pub record_for : OutLayer → LayerData → LayerRecord
record_for l ld = record {
  name = l.name;
  out_features = l.out_f;
  in_features = l.in_f;
  payload = typed ld;
}

-- The records of all layers, or the exception of the first that cannot be parsed.
unfoldable pub records_for : List OutLayer → Result Error (List LayerRecord)
records_for [] = ok []
records_for (l ∷ layers) =
    parsed l >>= λ ld. records_for layers >>= λ rest. ok (record_for l ld ∷ rest)

-- What is asked of each layer: its sizes fit, and its length is no multiple of 2^24.
abbrev pub IsReadable : OutLayer → Type 0
IsReadable l = IsWritable l × FitsInt l × (0 < length l.contents % 2 ^ 24)

read_records-layers :
    (layers : List OutLayer) (rest : List ℕ)
    → All IsReadable layers
    → read_records (length layers) (write_layers layers ++ rest) ≡ records_for layers
unfolding read_records write_layers records_for
read_records-layers [] rest h = refl
read_records-layers (l ∷ layers) rest ((w, fits, low), h) =
    ap (read_records (suc (length layers)))
      (append_assoc (write_layer l) (write_layers layers) rest)
    ∙ rw
        (
          read_head-layer l (write_layers layers ++ rest) w,
          read_payload-layer l (write_layers layers ++ rest) w fits low,
        )
        (elim (Result-cases (parsed l)) [
          | inl (e, failed) ↦ rw failed refl
          | inr (ld, given) ↦ rw (given, read_records-layers layers rest h) refl
        ])

-- Of the layers that the converter writes, the loader reads back each one's name and sizes, in order, with
-- what parse_layer_type_data makes of its type and data, and it throws what that throws on the first layer
-- that it refuses. This is so for types up to 2, out_features and in_features + 127 below 2^31, names and
-- data below 2^32 bytes, fewer than 2^32 layers, and data whose length is no multiple of 2^24 bytes.
pub load-write_decomposed :
    (layers : List OutLayer)
    → All IsReadable layers
    → length layers < 2 ^ 32
    → load_decomposed_layers_als (write_decomposed layers) ≡ records_for layers
unfolding load_decomposed_layers_als write_decomposed
load-write_decomposed layers h few =
    let magic_same : (model_magic == model_magic) ≡ true = refl in
    rw
      (
        read_u32-append model_magic (le_bytes 4 (length layers) ++ write_layers layers)
            (omega arith),
        read_u32-append (length layers) (write_layers layers) few,
      )
      (ap (read_records (length layers)) (sym (append-nil (write_layers layers)))
        ∙ read_records-layers layers [] h)

-- A layer whose data has a length that is a multiple of 2^24 is taken for one of the old layout, with its type as
-- its number of terms.
pub read_head-misread :
    (l : OutLayer) (rest : List ℕ)
    → IsWritable l
    → length l.contents % 2 ^ 24 ≡ 0
    → (h : Head) × (left : List ℕ) × (read_head (write_layer l ++ rest) ≡ ok (h, left))
      × (sniff_als_layout h.x ≡ 1)
      × (h.x ≡ l.layer_type)
unfolding sniff_als_layout
read_head-misread l rest w multiple =
    let x_is : met l.layer_type (length l.contents) ≡ l.layer_type = omega (arith, multiple) in
    let few : leb (met l.layer_type (length l.contents)) 32 ≡ true =
      ground (arith, multiple, w.known_type) in
    (
      head_of l,
      ((length l.contents / 2 ^ 24 ∷ []) ++ (l.contents ++ rest)),
      read_head-layer l rest w,
      rw few refl,
      x_is,
    )
