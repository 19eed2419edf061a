-- ===== src/AlsLayer/Shape.antt =====
-- The sizes of everything the reader accepts (parse_block_terms and parse_layer_type_data of
-- src/loader.h).
use terllama.Prelude.{
  ℕ, zero, suc, ◌+◌, ◌-◌, ◌*◌, ◌/◌, ◌%◌, ◌^◌, ◌≤◌, ◌≡◌, refl, sym, ap, ◌∙◌, false, ◌||◌, List, [],
  ◌∷◌, ◌++◌, length, take, drop, All, arith, ltb, leb, ◌==◌, length-append, length-take,
  length-drop, All-append,
}
use mathlib.Core.Path.{subst}
use native.Mathlib.Nat.{add-mul}
use terllama.Prelude.Bytes.{read_le}
use terllama.Prelude.Results.{ok, bind_ok, guard_ok, ok_injective}
use terllama.AlsFormat.{
  out_of_bounds, blocks_truncated, bad_header, invalid_num_terms, truncated_term_length,
  truncated_term_data, BlockTerm, parse_block, parse_row, parse_rows, parse_block_terms,
  parse_terms, parse_container,
}

-- A whole term: a block for each stretch of each row, each with its codes.
abbrev pub IsWhole : ℕ → ℕ → ℕ → List BlockTerm → Type 0
IsWhole qk out_f n_blocks blocks =
    (length blocks ≡ out_f * n_blocks) × All (λ block. length block.packed ≡ qk / 4) blocks

in_range : (n : ℕ) → (n == 0) || ltb 32 n ≡ false → (1 ≤ n) × (n ≤ 32)
in_range n h = ground arith

module _ (qk : ℕ) where
  parse_block-codes :
      (buf : List ℕ) (offset : ℕ) (block : BlockTerm)
      → parse_block qk buf offset ≡ ok block
      → length block.packed ≡ qk / 4
  unfolding parse_block
  parse_block-codes buf offset block h =
      let block_end = offset + qk / 4 + 4 in
      let data_len = length buf % 2 ^ 32 in
      let (in_int, h₁) = guard_ok (leb (2 ^ 31) block_end) out_of_bounds _ block h in
      let (fits, same) =
        guard_ok (leb (2 ^ 31) data_len || ltb data_len block_end) blocks_truncated _ block h₁ in
      let room : block_end ≤ length buf = ground (arith, fits) in
      let size : length (take (qk / 4) (drop offset buf)) ≡ qk / 4 =
        omega (arith, room, length-take (qk / 4) (drop offset buf), length-drop offset buf) in
      ap (λ b. length b.packed) (sym (ok_injective _ block same)) ∙ size

  parse_row-shape :
      (buf : List ℕ) (row_offset b todo : ℕ) (blocks : List BlockTerm)
      → parse_row qk buf row_offset b todo ≡ ok blocks
      → (length blocks ≡ todo) × All (λ block. length block.packed ≡ qk / 4) blocks
  unfolding parse_row
  parse_row-shape buf row_offset b zero blocks h =
      subst (λ bs. (length bs ≡ 0) × All (λ block. length block.packed ≡ qk / 4) bs)
        (ok_injective [] blocks h) (refl, tt)
  parse_row-shape buf row_offset b (suc todo) blocks h =
      let (block, hb, h') =
        bind_ok (parse_block qk buf (row_offset + b * (qk / 4 + 4))) _ blocks h in
      let (rest, hr, same) = bind_ok (parse_row qk buf row_offset (suc b) todo) _ blocks h' in
      let (len, sizes) = parse_row-shape buf row_offset (suc b) todo rest hr in
      subst (λ bs. (length bs ≡ suc todo) × All (λ block. length block.packed ≡ qk / 4) bs)
        (ok_injective (block ∷ rest) blocks same)
        (ap suc len, (parse_block-codes buf _ block hb, sizes))

  parse_rows-shape :
      (buf : List ℕ) (n_blocks row todo : ℕ) (blocks : List BlockTerm)
      → parse_rows qk buf n_blocks row todo ≡ ok blocks
      → IsWhole qk todo n_blocks blocks
  unfolding parse_rows
  parse_rows-shape buf n_blocks row zero blocks h =
      subst (IsWhole qk 0 n_blocks) (ok_injective [] blocks h) (omega arith, tt)
  parse_rows-shape buf n_blocks row (suc todo) blocks h =
      let (this, ht, h') =
        bind_ok (parse_row qk buf (row * (n_blocks * (qk / 4 + 4))) 0 n_blocks) _ blocks h in
      let (rest, hr, same) = bind_ok (parse_rows qk buf n_blocks (suc row) todo) _ blocks h' in
      let (len, sizes) = parse_row-shape buf (row * (n_blocks * (qk / 4 + 4))) 0 n_blocks this ht in
      let (more, others) = parse_rows-shape buf n_blocks (suc row) todo rest hr in
      subst (IsWhole qk (suc todo) n_blocks) (ok_injective (this ++ rest) blocks same) (
        omega (arith, length-append this rest, len, more, add-mul 1 todo n_blocks),
        All-append (λ block. length block.packed ≡ qk / 4) this rest sizes others,
      )

  pub parse_block_terms-IsWhole :
      (buf : List ℕ) (out_f in_f : ℕ) (blocks : List BlockTerm)
      → parse_block_terms buf out_f in_f qk ≡ ok blocks
      → IsWhole qk out_f ((in_f + qk - 1) / qk) blocks
  unfolding parse_block_terms
  parse_block_terms-IsWhole buf out_f in_f blocks h =
      let (in_int, h₁) = guard_ok (leb (2 ^ 31) (in_f + qk - 1)) out_of_bounds _ blocks h in
      parse_rows-shape buf ((in_f + qk - 1) / qk) 0 out_f blocks h₁

  module _ (out_f in_f : ℕ) where
    parse_terms-shape :
        (todo pos : ℕ) (buf : List ℕ) (terms : List (List BlockTerm))
        → parse_terms todo buf pos out_f in_f qk ≡ ok terms
        → (length terms ≡ todo) × All (IsWhole qk out_f ((in_f + qk - 1) / qk)) terms
    unfolding parse_terms
    parse_terms-shape zero pos buf terms h =
        subst (λ ts. (length ts ≡ 0) × All (IsWhole qk out_f ((in_f + qk - 1) / qk)) ts)
          (ok_injective [] terms h) (refl, tt)
    parse_terms-shape (suc todo) pos buf terms h =
        let (a, h₁) = guard_ok (ltb (length buf) (pos + 4)) truncated_term_length _ terms h in
        let (b, h₂) =
          guard_ok (ltb (length buf) (pos + 4 + read_le 4 pos buf)) truncated_term_data _ terms
            h₁ in
        let (blocks, hb, h₃) =
          bind_ok (parse_block_terms (take (read_le 4 pos buf) (drop (pos + 4) buf)) out_f in_f qk)
            _ terms h₂ in
        let (rest, hr, same) =
          bind_ok (parse_terms todo buf (pos + 4 + read_le 4 pos buf) out_f in_f qk) _ terms h₃ in
        let (len, whole) = parse_terms-shape todo (pos + 4 + read_le 4 pos buf) buf rest hr in
        subst (λ ts. (length ts ≡ suc todo) × All (IsWhole qk out_f ((in_f + qk - 1) / qk)) ts)
          (ok_injective (blocks ∷ rest) terms same)
          (ap suc len, (parse_block_terms-IsWhole _ out_f in_f blocks hb, whole))

    pub parse_container-shape :
        (buf : List ℕ) (terms : List (List BlockTerm))
        → parse_container buf out_f in_f qk ≡ ok terms
        → (1 ≤ length terms)
          × (length terms ≤ 32)
          × All (IsWhole qk out_f ((in_f + qk - 1) / qk)) terms
    unfolding parse_container
    parse_container-shape buf terms h =
        let n = read_le 4 0 buf in
        let (a, h₁) = guard_ok (ltb (length buf) 4) bad_header _ terms h in
        let (b, h₂) = guard_ok ((n == 0) || ltb 32 n) invalid_num_terms _ terms h₁ in
        let (low, high) = in_range n b in
        let (len, whole) = parse_terms-shape n 4 buf terms h₂ in
        (omega (arith, len, low), omega (arith, len, high), whole)
