-- ===== src/Protocol/Runs.antt =====
-- Concrete frames of distributed/protocol.h, and the theorems at them.
use terllama.Prelude.{◌≡◌, refl, ◌+◌, ◌*◌, none, some, List, [], ◌∷◌, ◌++◌, drop, take, arith, ℕ}
use terllama.Prelude.Bytes.{le_bytes, le_word, read_le, words_bytes, read_words}
use terllama.Protocol.{
  ForwardRequest, pack_forward_request, unpack_forward_request, pack_forward_response,
  unpack_forward_response,
}
use terllama.Protocol.RoundTrip.{unpack-pack_request, unpack-pack_response, IsSendable}
use terllama.Protocol.Reject.{unpack_truncated_request, pack-unpack_request}

-- Position 5, a hidden state of the floats 1.0 and -1.0.
abbrev hidden_state : ForwardRequest
hidden_state = record { seq_pos = 5; input_kind = 1; payload = 0x3f800000 ∷ 0xbf800000 ∷ [] }

abbrev frame : List ℕ
frame =
    0x52 ∷ 0x46 ∷ 0x4c ∷ 0x54 ∷ 5 ∷ 0 ∷ 0 ∷ 0 ∷ 1 ∷ 0 ∷ 0 ∷ 0 ∷ 2 ∷ 0 ∷ 0 ∷ 0 ∷ 0 ∷ 0 ∷ 0x80 ∷ 0x3f
    ∷ 0 ∷ 0 ∷ 0x80 ∷ 0xbf ∷ []

frame_packed : pack_forward_request hidden_state ≡ frame
unfolding pack_forward_request le_bytes words_bytes
frame_packed = refl

frame_unpacked : unpack_forward_request (frame ++ (9 ∷ [])) ≡ some hidden_state
unfolding unpack_forward_request read_le le_word read_words
frame_unpacked = refl

bad_magic : unpack_forward_request (0x53 ∷ drop 1 frame) ≡ none
unfolding unpack_forward_request read_le le_word read_words
bad_magic = refl

hidden_state-IsSendable : IsSendable hidden_state
hidden_state-IsSendable = omega arith

unpack-pack_request_example :
    unpack_forward_request (pack_forward_request hidden_state ++ (9 ∷ [])) ≡ some hidden_state
unpack-pack_request_example = unpack-pack_request hidden_state (9 ∷ []) hidden_state-IsSendable

unpack-pack_response_example :
    unpack_forward_response (pack_forward_response (0x3f800000 ∷ []) ++ []) ≡ some (0x3f800000 ∷ [])
unpack-pack_response_example = unpack-pack_response (0x3f800000 ∷ []) [] (omega arith) (omega arith)

unpack_truncated_request_example :
    unpack_forward_request (take 23 (pack_forward_request hidden_state)) ≡ none
unfolding pack_forward_request le_bytes words_bytes
unpack_truncated_request_example =
    unpack_truncated_request hidden_state 23 hidden_state-IsSendable (omega arith)

pack-unpack_request_example :
    frame ++ (9 ∷ []) ≡ pack_forward_request hidden_state ++ drop (16 + 4 * 2) (frame ++ (9 ∷ []))
pack-unpack_request_example =
    pack-unpack_request (frame ++ (9 ∷ [])) hidden_state (omega arith) frame_unpacked
