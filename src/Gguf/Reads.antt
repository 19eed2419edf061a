-- ===== src/Gguf/Reads.antt =====
-- The read helpers of src/gguf_loader.cpp on what the layout writes.
use terllama.Prelude.{
  ℕ, ◌≡◌, refl, false, List, [], ◌∷◌, ◌++◌, length, All, arith, ltb, ◌==◌, length-append,
  take-append_left, drop-append_left,
}
use terllama.Prelude.Bytes.{le_bytes, length-le_bytes, le_word-le_bytes}
use terllama.Prelude.Results.{ok}
use terllama.Gguf.{read_bytes, read_word, rstr, read_strings, read_words32, skip_elems, elem_size}
use terllama.Gguf.Parser.{read_dims}
use terllama.Gguf.Format.{string_onto, strings_onto, numbers_onto, Fits}

pub read_bytes-append :
    (n : ℕ) (xs rest : List ℕ) → length xs ≡ n → read_bytes n (xs ++ rest) ≡ ok (xs, rest)
unfolding read_bytes
read_bytes-append n xs rest len =
    let enough : ltb (length (xs ++ rest)) n ≡ false = ground (arith, length-append xs rest, len) in
    rw (enough, take-append_left n xs rest len, drop-append_left n xs rest len) refl

pub read_word-le :
    (n v : ℕ) (rest : List ℕ) → Fits n v → read_word n (le_bytes n v ++ rest) ≡ ok (v, rest)
unfolding read_word
read_word-le n v rest h =
    rw (read_bytes-append n (le_bytes n v) rest (length-le_bytes n v), le_word-le_bytes n v h) refl

pub rstr-string : (s rest : List ℕ) → Fits 8 (length s) → rstr (string_onto s rest) ≡ ok (s, rest)
unfolding rstr string_onto
rstr-string s rest h =
    rw (read_word-le 8 (length s) (s ++ rest) h, read_bytes-append (length s) s rest refl) refl

pub read_strings-back :
    (ss : List (List ℕ)) (rest : List ℕ)
    → All (λ s. Fits 8 (length s)) ss
    → read_strings (length ss) (strings_onto ss rest) ≡ ok (ss, rest)
unfolding read_strings strings_onto
read_strings-back [] rest h = refl
read_strings-back (s ∷ ss) rest h =
    rw (rstr-string s (strings_onto ss rest) h.0, read_strings-back ss rest h.1) refl

pub read_words32-back :
    (ws rest : List ℕ)
    → All (Fits 4) ws
    → read_words32 (length ws) (numbers_onto 4 ws rest) ≡ ok (ws, rest)
unfolding read_words32 numbers_onto
read_words32-back [] rest h = refl
read_words32-back (w ∷ ws) rest h =
    rw (read_word-le 4 w (numbers_onto 4 ws rest) h.0, read_words32-back ws rest h.1) refl

pub read_dims-back :
    (ds rest : List ℕ)
    → All (Fits 8) ds
    → read_dims (length ds) (numbers_onto 8 ds rest) ≡ ok (ds, rest)
unfolding read_dims numbers_onto
read_dims-back [] rest h = refl
read_dims-back (d ∷ ds) rest h =
    rw (read_word-le 8 d (numbers_onto 8 ds rest) h.0, read_dims-back ds rest h.1) refl

pub skip_strings :
    (ss : List (List ℕ)) (rest : List ℕ)
    → All (λ s. Fits 8 (length s)) ss
    → skip_elems 8 (length ss) (strings_onto ss rest) ≡ ok rest
unfolding skip_elems strings_onto
skip_strings [] rest h = refl
skip_strings (s ∷ ss) rest h =
    rw (rstr-string s (strings_onto ss rest) h.0) (skip_strings ss rest h.1)

pub skip_numbers :
    (type width : ℕ) (ws rest : List ℕ)
    → (type == 8) ≡ false
    → elem_size type ≡ width
    → skip_elems type (length ws) (numbers_onto width ws rest) ≡ ok rest
unfolding skip_elems numbers_onto
skip_numbers type width [] rest h elem = refl
skip_numbers type width (w ∷ ws) rest h elem =
    let onto = numbers_onto width ws rest in
    rw (h, elem, drop-append_left width (le_bytes width w) onto (length-le_bytes width w))
      (skip_numbers type width ws rest h elem)

-- The check that four bytes are left.
pub four_left : (v : ℕ) (rest : List ℕ) → ltb (length (le_bytes 4 v ++ rest)) 4 ≡ false
four_left v rest = ground (arith, length-append (le_bytes 4 v) rest, length-le_bytes 4 v)
