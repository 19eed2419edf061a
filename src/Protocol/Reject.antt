-- ===== src/Protocol/Reject.antt =====
-- What the unframing of distributed/protocol.h refuses, and what an accepted buffer is.
use terllama.Prelude.{
  ◌∙◌, drop-add, sym, ℕ, ◌+◌, ◌*◌, ◌%◌, ◌^◌, ◌≤◌, ◌<◌, ◌≡◌, ap, none, some, List, [], ◌∷◌, ◌++◌,
  length, length-take, All, drop, take, arith,
}
use terllama.Prelude.Bytes.{
  words_bytes, read_words, le_word4-lt, le_bytes-word4, le_bytes, le_word, read_le, IsByte,
  read_le-take, words_bytes-read_words, length-read_words,
}
use terllama.Protocol.{ForwardRequest, pack_forward_request, unpack_forward_request, forward_magic}
use terllama.Protocol.RoundTrip.{IsSendable, length-pack_request}

-- The count field of a packed request is the number of values in it.
count_field :
    (r : ForwardRequest) → IsSendable r → read_le 4 12 (pack_forward_request r) ≡ length r.payload
unfolding pack_forward_request read_le le_bytes le_word
count_field r s = omega arith

-- Every proper prefix of a packed request is refused, for fields of 32 bits and fewer than 2 ^ 32
-- values.
pub unpack_truncated_request :
    (r : ForwardRequest) (n : ℕ)
    → IsSendable r
    → n < length (pack_forward_request r)
    → unpack_forward_request (take n (pack_forward_request r)) ≡ none
unfolding unpack_forward_request
unpack_truncated_request r n s h = ground (
  arith,
  length-take n (pack_forward_request r),
  length-pack_request r,
  count_field r s,
  read_le-take 4 12 n (pack_forward_request r),
)

-- What a successful unframing read.
record Accepts (body : List ℕ) (r : ForwardRequest) : Type 0 where
  magic : read_le 4 0 body ≡ forward_magic
  seq_pos : r.seq_pos ≡ read_le 4 4 body
  input_kind : r.input_kind ≡ read_le 4 8 body
  payload : r.payload ≡ read_words (read_le 4 12 body) (drop 16 body)
  header : 16 ≤ length body
  fits : 16 + read_le 4 12 body * 4 ≤ length body

unpack-Accepts :
    (body : List ℕ) (r : ForwardRequest) → unpack_forward_request body ≡ some r → Accepts body r
unfolding unpack_forward_request
unpack-Accepts body r e = ground arith

accepted_request :
    (body : List ℕ) (r : ForwardRequest)
    → All IsByte body
    → Accepts body r
    → pack_forward_request r ++ drop (16 + 4 * length r.payload) body ≡ body
unfolding pack_forward_request read_le
accepted_request
      (a0 ∷ a1 ∷ a2 ∷ a3 ∷ b0 ∷ b1 ∷ b2 ∷ b3 ∷ c0 ∷ c1 ∷ c2 ∷ c3 ∷ d0 ∷ d1 ∷ d2 ∷ d3 ∷ rest) r
      (
        h0,
        (
          h1,
          (
            h2,
            (h3, (h4, (h5, (h6, (h7, (h8, (h9, (h10, (h11, (h12, (h13, (h14, (h15, hr))))))))))))),
          ),
        ),
      )
      acc =
    let count : length r.payload ≡ le_word (d0 ∷ d1 ∷ d2 ∷ d3 ∷ []) =
      ap length acc.payload ∙ length-read_words _ rest in
    let small : length r.payload % 2 ^ 32 ≡ le_word (d0 ∷ d1 ∷ d2 ∷ d3 ∷ []) =
      omega (arith, count, le_word4-lt d0 d1 d2 d3 h12 h13 h14 h15) in
    let tail : words_bytes r.payload ++ drop (4 * length r.payload) rest ≡ rest =
      rw (count, acc.payload)
        (words_bytes-read_words (le_word (d0 ∷ d1 ∷ d2 ∷ d3 ∷ [])) rest hr
          (omega (arith, acc.fits))) in
    rw (
      drop-add 16 (4 * length r.payload),
      ← acc.magic,
      acc.seq_pos,
      acc.input_kind,
      small,
      le_bytes-word4 a0 a1 a2 a3 h0 h1 h2 h3,
      le_bytes-word4 b0 b1 b2 b3 h4 h5 h6 h7,
      le_bytes-word4 c0 c1 c2 c3 h8 h9 h10 h11,
      le_bytes-word4 d0 d1 d2 d3 h12 h13 h14 h15,
      tail,
    )
accepted_request _ r h acc = absurd (omega (arith, acc.header))

-- A byte buffer that the unframing accepts is the packing of the request that it returns, followed by
-- whatever lies beyond the counted values.
pub pack-unpack_request :
    (body : List ℕ) (r : ForwardRequest)
    → All IsByte body
    → unpack_forward_request body ≡ some r
    → body ≡ pack_forward_request r ++ drop (16 + 4 * length r.payload) body
pack-unpack_request body r h e = sym (accepted_request body r h (unpack-Accepts body r e))
