-- ===== src/Gguf/RoundTrip.antt =====
-- The parser of GGUF files against their layout (parse_gguf_internal of src/gguf_loader.cpp).
use terllama.Prelude.{List}
