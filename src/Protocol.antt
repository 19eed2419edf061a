-- ===== src/Protocol.antt =====
-- The binary framing of forward requests and responses (distributed/protocol.h). An `int` or a
-- `float` on the wire is its 32-bit pattern, and a buffer is a list of bytes.
pub mod RoundTrip
pub mod Reject
mod Runs
use terllama.Prelude.{
  Bool, ℕ, ◌+◌, ◌*◌, ◌%◌, ◌^◌, Option, none, some, List, ◌++◌, length, drop, ltb, ◌==◌, not,
  if◌then◌else◌,
}
use terllama.Prelude.Bytes.{le_bytes, read_le, words_bytes, read_words}

-- kForwardMagic, "TLFR".
abbrev pub forward_magic : ℕ
forward_magic = 0x544C4652

-- kInputToken and kInputHidden.
abbrev pub input_token : ℕ
input_token = 0

abbrev pub input_hidden : ℕ
input_hidden = 1

-- A worker's half-open layer range [start_layer, end_layer). No layer or rank is negative.
pub record ShardSpec : Type 0 where
  pub device_rank : ℕ
  pub world_size : ℕ
  pub start_layer : ℕ
  pub end_layer : ℕ
  pub n_layers : ℕ
  pub is_first : Bool
  pub is_last : Bool

pub record ForwardRequest : Type 0 where
  pub seq_pos : ℕ
  pub input_kind : ℕ
  pub payload : List ℕ

-- `(uint32_t)data.size()` keeps the low 32 bits.
unfoldable pub pack_forward_request : ForwardRequest → List ℕ
pack_forward_request r =
    le_bytes 4 forward_magic
    ++ (le_bytes 4 r.seq_pos
        ++ (le_bytes 4 r.input_kind
            ++ (le_bytes 4 (length r.payload % 2 ^ 32) ++ words_bytes r.payload)))

-- `none` is the `false` of the code.
unfoldable pub unpack_forward_request : List ℕ → Option ForwardRequest
unpack_forward_request body =
    let count = read_le 4 12 body in
    if ltb (length body) 16
    then none
    else if not (read_le 4 0 body == forward_magic)
    then none
    else if ltb (length body) (16 + count * 4)
    then none
    else some (record {
      seq_pos = read_le 4 4 body;
      input_kind = read_le 4 8 body;
      payload = read_words count (drop 16 body);
    })

unfoldable pub pack_forward_response : List ℕ → List ℕ
pack_forward_response payload =
    le_bytes 4 forward_magic ++ (le_bytes 4 (length payload % 2 ^ 32) ++ words_bytes payload)

unfoldable pub unpack_forward_response : List ℕ → Option (List ℕ)
unpack_forward_response body =
    let count = read_le 4 4 body in
    if ltb (length body) 8
    then none
    else if not (read_le 4 0 body == forward_magic)
    then none
    else if ltb (length body) (8 + count * 4)
    then none
    else some (read_words count (drop 8 body))
