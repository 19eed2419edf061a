-- ===== src/Gguf/Values.antt =====
-- The values of the metadata: the switch of parse_gguf_internal (src/gguf_loader.cpp) on what the layout
-- writes.
use terllama.Prelude.{
  ℕ, ◌*◌, ◌^◌, ◌∷◌, [], List, ltb, ◌≡◌, ◌≢◌, ◌∙◌, refl, ap, sym, Bool, true, false, ◌&&◌, some,
  ◌++◌, length, All, arith, if◌then◌else◌, ◌==◌, Bool-cases, inl, inr,
}
use mathlib.Core.Path.{subst}
use terllama.Prelude.Bytes.{le_bytes}
use terllama.Prelude.Results.{ok}
use terllama.ModelFile.{same_name}
use terllama.Inference.Index.{codes}
use terllama.Gguf.{
  signed, store_string, int_of, scalar_width, store, GgufFile, scalar_width, elem_size, read_elems,
  map_signed, read_words32,
}
use terllama.Gguf.Parser.{read_array, read_value}
use terllama.Gguf.Format.{
  NumberType, u8, i8, u16, i16, u32, i32, f32, bool, u64, i64, f64, code, size, Value, scalar, text,
  strings, numbers, value_type, value_onto, strings_onto, numbers_onto, Fits, IsValue, apply_number,
  apply, to_signed, all_signed,
}
use terllama.Gguf.Reads.{
  read_word-le, rstr-string, read_strings-back, read_words32-back, skip_strings, skip_numbers,
  four_left,
}

and_false : (b : Bool) → (b && false) ≡ false
and_false true = refl
and_false false = refl

-- What holds of each type holds of all.
pub each :
    (P : NumberType → Type 0)
    → P u8
    → P i8
    → P u16
    → P i16
    → P u32
    → P i32
    → P f32
    → P bool
    → P u64
    → P i64
    → P f64
    → (t : NumberType) → P t
each P a b c d e f g h i j k u8 = a
each P a b c d e f g h i j k i8 = b
each P a b c d e f g h i j k u16 = c
each P a b c d e f g h i j k i16 = d
each P a b c d e f g h i j k u32 = e
each P a b c d e f g h i j k i32 = f
each P a b c d e f g h i j k f32 = g
each P a b c d e f g h i j k bool = h
each P a b c d e f g h i j k u64 = i
each P a b c d e f g h i j k i64 = j
each P a b c d e f g h i j k f64 = k

width_right : (t : NumberType) → scalar_width (code t) ≡ some (size t)
unfolding scalar_width code size
width_right =
    each (λ (t : NumberType). scalar_width (code t) ≡ some (size t)) refl refl refl refl refl refl
      refl refl refl refl refl

elem_right : (t : NumberType) → t ≢ bool → elem_size (code t) ≡ size t
unfolding elem_size code size
elem_right u8 h = refl
elem_right i8 h = refl
elem_right u16 h = refl
elem_right i16 h = refl
elem_right u32 h = refl
elem_right i32 h = refl
elem_right f32 h = refl
elem_right bool h = absurd (h refl)
elem_right u64 h = refl
elem_right i64 h = refl
elem_right f64 h = refl

-- A type of numbers is neither that of strings nor that of arrays.
no_string : (t : NumberType) → (code t == 8) ≡ false
unfolding code
no_string =
    each (λ (t : NumberType). (code t == 8) ≡ false) refl refl refl refl refl refl refl refl refl
      refl refl

no_array : (t : NumberType) → (code t == 9) ≡ false
unfolding code
no_array =
    each (λ (t : NumberType). (code t == 9) ≡ false) refl refl refl refl refl refl refl refl refl
      refl refl

code-Fits : (t : NumberType) → Fits 4 (code t)
unfolding code
code-Fits =
    each (λ (t : NumberType). Fits 4 (code t)) (omega arith) (omega arith) (omega arith)
      (omega arith) (omega arith) (omega arith) (omega arith) (omega arith) (omega arith)
      (omega arith) (omega arith)

signed-to_signed :
    (v : ℕ)
    → (signed 1 v ≡ to_signed 1 v)
      × (signed 2 v ≡ to_signed 2 v)
      × (signed 4 v ≡ to_signed 4 v)
      × (signed 8 v ≡ to_signed 8 v)
unfolding signed to_signed
signed-to_signed v =
    let one : ltb v (2 ^ 7) ≡ ltb (2 * v) (256 ^ 1) = ground arith in
    let two : ltb v (2 ^ 15) ≡ ltb (2 * v) (256 ^ 2) = ground arith in
    let four : ltb v (2 ^ 31) ≡ ltb (2 * v) (256 ^ 4) = ground arith in
    let eight : ltb v (2 ^ 63) ≡ ltb (2 * v) (256 ^ 8) = ground arith in
    (rw one refl, rw two refl, rw four refl, rw eight refl)

map_signed-all_signed : (ws : List ℕ) → map_signed ws ≡ all_signed ws
map_signed-all_signed [] = refl
map_signed-all_signed (w ∷ ws) =
    let (one, two, four, eight) = signed-to_signed w in λ i. four i ∷ map_signed-all_signed ws i

store_string_right :
    (narrow : ℕ → ℕ) (key s : List ℕ) (g : GgufFile)
    → store_string key s g ≡ apply narrow key (text s) g
unfolding store_string apply
store_string_right narrow key s g =
    elim (Bool-cases (same_name key (codes "tokenizer.ggml.model"))) [
      | inl e ↦ rw e refl
      | inr e ↦ rw e refl
    ]

store_right :
    (narrow : ℕ → ℕ) (t : NumberType) (key : List ℕ) (v : ℕ) (g : GgufFile)
    → store narrow (code t) (size t) key v g ≡ apply_number narrow t key v g
unfolding store int_of code size apply_number
store_right narrow t key v g =
    let (one, two, four, eight) = signed-to_signed v in
    each
      (λ (t : NumberType). store narrow (code t) (size t) key v g ≡ apply_number narrow t key v g)
      refl (rw one refl) refl (rw two refl) refl (rw four refl) refl refl (rw eight refl)
      (rw eight refl) refl t

strings_back :
    (key : List ℕ) (ss : List (List ℕ)) (g : GgufFile) (rest : List ℕ)
    → All (λ s. Fits 8 (length s)) ss
    → read_elems 8 (length ss) key g (strings_onto ss rest)
      ≡ ok (
        if same_name key (codes "tokenizer.ggml.tokens")
            then record g { tokenizer_tokens = g.tokenizer_tokens ++ ss }
            else g,
        rest,
      )
unfolding read_elems
strings_back key ss g rest h = elim (Bool-cases (same_name key (codes "tokenizer.ggml.tokens"))) [
  | inl e ↦ rw (e, read_strings-back ss rest h) refl
  | inr e ↦
      rw
        (
          e,
          and_false (same_name key (codes "tokenizer.ggml.scores")),
          and_false (same_name key (codes "tokenizer.ggml.types")),
          skip_strings ss rest h,
        )
        refl
]

right : (a b : Bool) → (a && b) ≡ true → b ≡ true
right true b h = h
right false b h = absurd (cc h)

words_back :
    (width : ℕ) (ws rest : List ℕ)
    → width ≡ 4
    → All (Fits width) ws
    → read_words32 (length ws) (numbers_onto width ws rest) ≡ ok (ws, rest)
words_back width ws rest four h =
    rw four (read_words32-back ws rest (subst (λ (n : ℕ). All (Fits n) ws) four h))

numbers_back :
    (key : List ℕ) (type width : ℕ) (ws : List ℕ) (g : GgufFile) (rest : List ℕ)
    → (type == 8) ≡ false
    → elem_size type ≡ width
    → All (Fits width) ws
    → read_elems type (length ws) key g (numbers_onto width ws rest)
      ≡ ok (
        if same_name key (codes "tokenizer.ggml.scores") && type == 6
            then record g { tokenizer_scores = g.tokenizer_scores ++ ws }
            else if same_name key (codes "tokenizer.ggml.types") && type == 5
            then record g { tokenizer_types = g.tokenizer_types ++ all_signed ws }
            else g,
        rest,
      )
unfolding read_elems elem_size
numbers_back key type width ws g rest other elem h =
    let tokens = same_name key (codes "tokenizer.ggml.tokens") in
    let scores = same_name key (codes "tokenizer.ggml.scores") in
    let types = same_name key (codes "tokenizer.ggml.types") in
    elim (Bool-cases (scores && type == 6)) [
      | inl e ↦
          let six : type ≡ 6 = ground (arith, right scores (type == 6) e) in
          rw (other, and_false tokens, e, words_back width ws rest (sym elem ∙ ap elem_size six) h)
            refl
      | inr e ↦ elim (Bool-cases (types && type == 5)) [
        | inl e' ↦
            let five : type ≡ 5 = ground (arith, right types (type == 5) e') in
            rw
              (
                other,
                and_false tokens,
                e,
                e',
                words_back width ws rest (sym elem ∙ ap elem_size five) h,
                map_signed-all_signed ws,
              )
              refl
        | inr e' ↦
            rw (other, and_false tokens, e, e', skip_numbers type width ws rest other elem) refl
      ]
    ]

pub value_back :
    (narrow : ℕ → ℕ) (key : List ℕ) (v : Value) (g : GgufFile) (rest : List ℕ)
    → IsValue v
    → read_value narrow (value_type v) key g (value_onto v rest) ≡ ok (apply narrow key v g, rest)
unfolding read_value value_onto apply IsValue read_array
value_back narrow key (scalar t v) g rest h =
    rw
      (
        no_string t,
        no_array t,
        width_right t,
        read_word-le (size t) v rest h,
        store_right narrow t key v g,
      )
      refl
value_back narrow key (text s) g rest h =
    rw (rstr-string s rest h) (ap (λ g. ok (g, rest)) (store_string_right narrow key s g))
value_back narrow key (strings ss) g rest h =
    rw
      (
        four_left 8 (le_bytes 8 (length ss) ++ strings_onto ss rest),
        read_word-le 4 8 (le_bytes 8 (length ss) ++ strings_onto ss rest) (omega arith),
        read_word-le 8 (length ss) (strings_onto ss rest) h.0,
      )
      (strings_back key ss g rest h.1)
value_back narrow key (numbers t ws) g rest h =
    let onto = numbers_onto (size t) ws rest in
    rw
      (
        four_left (code t) (le_bytes 8 (length ws) ++ onto),
        read_word-le 4 (code t) (le_bytes 8 (length ws) ++ onto) (code-Fits t),
        read_word-le 8 (length ws) onto h.1,
      )
      (numbers_back key (code t) (size t) ws g rest (no_string t) (elem_right t h.0) h.2)

pub value_type-Fits : (v : Value) → IsValue v → Fits 4 (value_type v)
unfolding IsValue
value_type-Fits (scalar t v) h = code-Fits t
value_type-Fits (text s) h = omega arith
value_type-Fits (strings ss) h = omega arith
value_type-Fits (numbers t ws) h = omega arith
