-- ===== src/Lib.antt =====
-- Terllama: the parts of the C++ program that decide what it computes, and what is proved of them.
--
-- Terllama converts a language model to ternary weights, stores it, loads it and runs it, on one machine
-- or split by layers over several. The converter (src/convert) writes each weight matrix as a sum of
-- terms, a term as blocks of two-bit codes with a float scale. The loader (src/loader.h) reads the blocks
-- back and lays them out for the kernels; GGUF and safetensors files bring 16-bit floats of their own
-- (src/gguf_loader.h, src/convert/safetensors.cpp). In a distributed run the coordinator gives each worker
-- a range of layers (distributed/partitioner.h) and sends hidden states through the workers in binary
-- messages (distributed/protocol.h); generate runs a prompt and samples tokens that way. The HTTP server
-- limits the requests of an address (src/server/handlers.cpp). On one machine src/core/inference.cpp runs the
-- blocks of the model on each token, with a cache of keys and values, and samples the next one.
--
-- Files, with the code each is about:
--   Prelude     what the modules share: Boolean tests, lists, bytes, bits, integers, results.
--   Protocol    distributed/protocol.h: ForwardRequest, pack_forward_request, unpack_forward_request,
--               pack_forward_response, unpack_forward_response, ShardSpec.
--   Partition   distributed/partitioner.h: allocate_layers_proportionally in its parts (distribute is the
--               remainder loop, raise_node the body of the loop that gives every node a layer) and
--               compute_shards. IEEE doubles are the record Doubles, an argument of the definitions.
--   Ternary     src/model.h, tq1_encode_5_trits, tq1_decode_byte and tq1_decode_block; the two-bit codes
--               of src/convert/als_decompose.cpp and decode_block_ternary of src/loader.h.
--   AlsFormat   src/convert/als_decompose.cpp, pack_als_block and pack_als_block_terms; src/loader.h,
--               parse_block_terms and the container of parse_layer_type_data (parse_container).
--   AlsLayer    src/loader.h, parse_layer_type_data and build_block_contig_cache on the fields of LayerData
--               that they set.
--   ModelFile   the records of model_decomposed.bin: write_decomposed of src/convert/export.cpp,
--               load_decomposed_layers_als of src/loader.h, load_decomposed_layers_als_range and
--               parse_layer_index of distributed/shard_loader.h. The typed data of a record is parsed by
--               AlsLayer's parse_layer_type_data. Kept says by their names which records a shard gets.
--   Config      src/loader.h, load_config, on the nine fields of model_extra.bin.
--   HalfFloat   src/gguf_loader.h, fp16_to_fp32; src/convert/safetensors.cpp, f16_to_f32 and bf16_to_f32;
--               the batch loops around them.
--   Cluster     distributed/worker.cpp, handle_forward and handle_reset. The arithmetic of a model is the
--               record Model, an argument: a block maps a hidden state and its layer's cache to new ones.
--   Coordinator distributed/coordinator.cpp, post_reset (reset_all), pipeline and generate. Solo is a
--               generation by one process, written without the coordinator's helpers, which the refinement
--               compares with; it is not the generate of src/core/inference.cpp.
--   Inference   src/core/inference.cpp, one file of it for each group of functions: Cache (KVCache), Attention
--               (rms_norm, apply_rope, attention, mlp_forward), Index (TblkIndexCache, find_layer_index), Block
--               (transformer_block, model_forward), Sampling and Generate (generate, generate_stream); Kernels
--               the scalar products of src/dispatcher.cpp, src/kernel_scalar.cpp and src/kernel_avx2.cpp; Mote
--               src/kernel_mote.cpp. Floats are the record FloatOps, an instance argument.
--   RateLimit   src/server/handlers.cpp, rate_limit_allow: shard_allow is its body on one shard.
--   Server      src/server/handlers.cpp, handle_chat_completions and handle_completions: handle is a request
--               from the key to the release of its slot (admit), respond the parsed body, complete the answer
--               to a tokenized prompt, on_token and flush the stream. Admission has the requests of all threads
--               as steps, for as long as the model stays loaded. What the JSON library makes of a body and the tokenizers are the record Env.
--   Tokenizer   src/core/tokenizer.cpp, load_from_gguf and decode: token_text is what one token adds, raw_text
--               the loop, decode the guards and the first space. Answers joins it with the server.
--   Gguf        src/gguf_loader.cpp, parse_gguf_internal: the read helpers and the values in Gguf, the loops in
--               Gguf.Parser. Gguf.Format says independently of the parser what a file looks like.
--
-- Conventions. A byte is a number below 256, a float its 32-bit pattern, an int8_t weight an integer of
-- Prelude.Int. Machine words keep their wrap-around, written out as a remainder; the int offsets and
-- lengths of parse_block_terms are modelled with their overflow, other sizes and offsets that the source
-- holds in int or size_t are exact. An exception of the source is an error of the Result types;
-- an access outside a vector, which the source leaves undefined, is an error too (out_of_bounds) or none.
-- A pointer into a table is an index. A mutable vector is passed on as a list.
--
-- Fuel. normalize in HalfFloat has normalize_fuel = 11 rounds: a nonzero mantissa below 1024 needs ten shifts at
-- most, and the theorems on subnormal numbers state that a result is given. digits in Inference.Index, which
-- writes a layer's number, has ten: a nonnegative int has ten decimal digits at most. No other definition has
-- fuel.
--
-- Not modelled: the fits of the converter, the SIMD kernels and the rounding of floating-point arithmetic,
-- JSON messages and HTTP (the libraries in third_party), files and processes, the command line, the desktop
-- application, tokenizer.json and third_party/gigatoken, logging, and the programs in legacy.
pub mod AlsFormat
pub mod AlsLayer
pub mod Cluster
pub mod Config
pub mod Coordinator
pub mod Gguf
pub mod HalfFloat
pub mod Inference
pub mod ModelFile
pub mod Partition
pub mod Prelude
pub mod Protocol
pub mod RateLimit
pub mod Server
pub mod Ternary
pub mod Tokenizer
