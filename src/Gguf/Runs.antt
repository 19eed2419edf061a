-- ===== src/Gguf/Runs.antt =====
-- The theorem on the parser of GGUF files at a small file.
use terllama.Prelude.{List, [], ◌∷◌}
use terllama.Inference.Index.{codes}
use terllama.Gguf.{GgufTensorInfo}
use terllama.Gguf.Format.{i32, u64, Entry, scalar, text, strings, numbers}

abbrev some_entries : List Entry
some_entries =
    record { key = codes "n"; value = scalar i32 7 }
    ∷ record { key = codes "s"; value = text (codes "llama") }
    ∷ record { key = codes "tokenizer.ggml.tokens"; value = strings (codes "a" ∷ codes "bc" ∷ []) }
    ∷ record { key = codes "unused"; value = numbers u64 (5 ∷ 6 ∷ []) }
    ∷ []

abbrev some_tensors : List GgufTensorInfo
some_tensors = record { name = codes "w"; type = 10; dims = 128 ∷ 2 ∷ []; offset = 64 } ∷ []
