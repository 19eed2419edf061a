-- ===== src/Protocol/RoundTrip.antt =====
-- Framing round trips of distributed/protocol.h.
use terllama.Prelude.{
  ℕ, ◌+◌, ◌*◌, ◌^◌, ◌<◌, ◌≡◌, some, List, ◌++◌, length, length-append, All, arith,
}
use terllama.Prelude.Bytes.{
  le_bytes, le_word, read_le, words_bytes, IsU32, le_word-le_bytes, length-words_bytes,
  read_words-words_bytes,
}
use terllama.Protocol.{
  ForwardRequest, pack_forward_request, unpack_forward_request, pack_forward_response,
  unpack_forward_response,
}

pub record IsSendable (r : ForwardRequest) : Type 0 where
  pub seq_pos_fits : IsU32 r.seq_pos
  pub kind_fits : IsU32 r.input_kind
  pub payload_fits : All IsU32 r.payload
  pub count_fits : length r.payload < 2 ^ 32

word4 : (w : ℕ) → IsU32 w → le_word (le_bytes 4 w) ≡ w
word4 w h = le_word-le_bytes 4 w h

-- Unframing a packed request, whatever bytes follow it, gives back its position, kind and values, for
-- fields of 32 bits and fewer than 2 ^ 32 values.
pub unpack-pack_request :
    (r : ForwardRequest) (rest : List ℕ)
    → IsSendable r
    → unpack_forward_request (pack_forward_request r ++ rest) ≡ some r
unfolding pack_forward_request unpack_forward_request read_le le_bytes le_word
unpack-pack_request r rest s = ground (
  arith,
  length-append (words_bytes r.payload) rest,
  length-words_bytes r.payload,
  read_words-words_bytes r.payload rest s.payload_fits,
)

-- Unframing a packed response, whatever bytes follow it, gives back its values, for values of 32 bits
-- and fewer than 2 ^ 32 of them.
pub unpack-pack_response :
    (payload rest : List ℕ)
    → All IsU32 payload
    → length payload < 2 ^ 32
    → unpack_forward_response (pack_forward_response payload ++ rest) ≡ some payload
unfolding pack_forward_response unpack_forward_response read_le le_bytes le_word
unpack-pack_response payload rest fits short = ground (
  arith,
  length-append (words_bytes payload) rest,
  length-words_bytes payload,
  read_words-words_bytes payload rest fits,
)

-- The length of a packed request.
pub length-pack_request :
    (r : ForwardRequest) → length (pack_forward_request r) ≡ 16 + 4 * length r.payload
unfolding pack_forward_request le_bytes
length-pack_request r = omega (arith, length-words_bytes r.payload)
