-- ===== src/Prelude/Bytes.antt =====
-- Little-endian words in byte lists: what `memcpy` between an integer and a buffer does on x86.
use Prim.Native.Nat.{ℕ, zero, suc, ◌+◌, ◌*◌, ◌/◌, ◌%◌, ◌^◌, ◌≤◌, ◌<◌}
use mathlib.Core.Path.{◌≡◌, refl, ap, ap₂, ◌∙◌}
use mathlib.Core.List.{List, [], ◌∷◌, ◌++◌}
use native.Mathlib.Omega.{arith}
use native.Mathlib.Nat.{pow-suc}
use terllama.Prelude.Lists.{length, take, drop, All, window-take, take-append_left}

abbrev pub IsByte : ℕ → Type 0
IsByte b = b < 256

abbrev pub IsU32 : ℕ → Type 0
IsU32 w = w < 2 ^ 32

-- The low `n` bytes of `v`, lowest first.
unfoldable pub le_bytes : ℕ → ℕ → List ℕ
le_bytes zero v = []
le_bytes (suc n) v = (v % 256) ∷ le_bytes n (v / 256)

unfoldable pub le_word : List ℕ → ℕ
le_word [] = 0
le_word (b ∷ bs) = b + 256 * le_word bs

-- `n` bytes at offset `off`, as an unsigned integer.
unfoldable pub read_le : ℕ → ℕ → List ℕ → ℕ
read_le n off buf = le_word (take n (drop off buf))

pub length-le_bytes : (n v : ℕ) → length (le_bytes n v) ≡ n
unfolding le_bytes
length-le_bytes zero v = refl
length-le_bytes (suc n) v = ap suc (length-le_bytes n (v / 256))

pub le_bytes-IsByte : (n v : ℕ) → All IsByte (le_bytes n v)
unfolding le_bytes
le_bytes-IsByte zero v = tt
le_bytes-IsByte (suc n) v = (omega arith, le_bytes-IsByte n (v / 256))

pow_suc_256 : (n : ℕ) → 256 ^ suc n ≡ 256 * 256 ^ n
pow_suc_256 n = omega (arith, pow-suc 256 n)

pub le_word-le_bytes : (n v : ℕ) → v < 256 ^ n → le_word (le_bytes n v) ≡ v
unfolding le_bytes le_word
le_word-le_bytes zero v h = omega arith
le_word-le_bytes (suc n) v h =
    let small : v / 256 < 256 ^ n = omega (arith, pow_suc_256 n) in
    omega (arith, le_word-le_bytes n (v / 256) small)

-- Reading a word gives back its bytes.
pub le_bytes-le_word : (bs : List ℕ) → All IsByte bs → le_bytes (length bs) (le_word bs) ≡ bs
unfolding le_bytes le_word
le_bytes-le_word [] h = refl
le_bytes-le_word (b ∷ bs) h =
    let low : (b + 256 * le_word bs) % 256 ≡ b = omega (arith, h.0) in
    let high : (b + 256 * le_word bs) / 256 ≡ le_word bs = omega (arith, h.0) in
    rw (low, high, le_bytes-le_word bs h.1)

pub le_word-lt : (bs : List ℕ) → All IsByte bs → le_word bs < 256 ^ length bs
unfolding le_word
le_word-lt [] h = omega arith
le_word-lt (b ∷ bs) h = omega (arith, pow_suc_256 (length bs), le_word-lt bs h.1)

-- A vector of 32-bit values as raw memory, and the first `n` values of raw memory.
unfoldable pub words_bytes : List ℕ → List ℕ
words_bytes [] = []
words_bytes (w ∷ ws) = le_bytes 4 w ++ words_bytes ws

unfoldable pub read_words : ℕ → List ℕ → List ℕ
read_words zero bs = []
read_words (suc n) bs = le_word (take 4 bs) ∷ read_words n (drop 4 bs)

pub length-words_bytes : (ws : List ℕ) → length (words_bytes ws) ≡ 4 * length ws
unfolding words_bytes le_bytes
length-words_bytes [] = refl
length-words_bytes (w ∷ ws) = omega (arith, length-words_bytes ws)

pub length-read_words : (n : ℕ) (bs : List ℕ) → length (read_words n bs) ≡ n
unfolding read_words
length-read_words zero bs = refl
length-read_words (suc n) bs = ap suc (length-read_words n (drop 4 bs))

pub read_words-words_bytes :
    (ws rest : List ℕ) → All IsU32 ws → read_words (length ws) (words_bytes ws ++ rest) ≡ ws
unfolding words_bytes read_words le_bytes
read_words-words_bytes [] rest h = refl
read_words-words_bytes (w ∷ ws) rest h =
    ap₂ ◌∷◌ (unfold le_bytes in le_word-le_bytes 4 w h.0) (read_words-words_bytes ws rest h.1)

pub read_le-take :
    (k off n : ℕ) (bs : List ℕ) → off + k ≤ n → read_le k off (take n bs) ≡ read_le k off bs
unfolding read_le
read_le-take k off n bs h = ap le_word (window-take k off n bs h)

pub le_bytes-word4 :
    (a b c d : ℕ)
    → IsByte a
    → IsByte b
    → IsByte c
    → IsByte d
    → le_bytes 4 (le_word (a ∷ b ∷ c ∷ d ∷ [])) ≡ a ∷ b ∷ c ∷ d ∷ []
le_bytes-word4 a b c d ha hb hc hd =
    le_bytes-le_word (a ∷ b ∷ c ∷ d ∷ []) (ha, (hb, (hc, (hd, tt))))

pub le_word4-lt :
    (a b c d : ℕ)
    → IsByte a
    → IsByte b
    → IsByte c
    → IsByte d
    → le_word (a ∷ b ∷ c ∷ d ∷ []) < 2 ^ 32
le_word4-lt a b c d ha hb hc hd = le_word-lt (a ∷ b ∷ c ∷ d ∷ []) (ha, (hb, (hc, (hd, tt))))

pub words_bytes-read_words :
    (n : ℕ) (bs : List ℕ)
    → All IsByte bs
    → 4 * n ≤ length bs
    → words_bytes (read_words n bs) ++ drop (4 * n) bs ≡ bs
unfolding words_bytes read_words
words_bytes-read_words zero bs h len = refl
words_bytes-read_words (suc n) (a ∷ b ∷ c ∷ d ∷ bs) h len =
    let count : 4 * suc n ≡ suc (suc (suc (suc (4 * n)))) = omega arith in
    rw (le_bytes-word4 a b c d h.0 h.1.0 h.1.1.0 h.1.1.1.0, count)
      (ap (λ t. a ∷ b ∷ c ∷ d ∷ t) (words_bytes-read_words n bs h.1.1.1.1 (omega arith)))
words_bytes-read_words (suc n) _ h len = absurd (omega arith)

pub read_le-le_bytes :
    (off v : ℕ) (buf rest : List ℕ)
    → IsU32 v
    → drop off buf ≡ le_bytes 4 v ++ rest
    → read_le 4 off buf ≡ v
unfolding read_le
read_le-le_bytes off v buf rest small h =
    ap (λ bs. le_word (take 4 bs)) h
    ∙ ap le_word (take-append_left 4 (le_bytes 4 v) rest (length-le_bytes 4 v))
    ∙ le_word-le_bytes 4 v small
