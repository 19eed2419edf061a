-- ===== src/AlsLayer/Lookup.antt =====
-- What the kernels find in the tables of a loaded layer (build_block_contig_cache of src/loader.h).
use terllama.Prelude.{
  ℕ, zero, suc, ◌+◌, ◌*◌, ◌<◌, ◌≡◌, refl, ap, ◌∙◌, true, some, List, [], ◌∷◌, ◌++◌, length, take,
  All, arith, leb, get_elem?, get_elem?-append_left, get_elem?-append_right, take_all,
}
use native.Mathlib.Nat.{add-mul}
use terllama.Prelude.Results.{ok}
use terllama.AlsFormat.{BlockTerm}
use terllama.AlsLayer.{copy_codes, copy_scales, row_starts}

abbrev pub all_codes : List BlockTerm → List ℕ
all_codes [] = []
all_codes (block ∷ blocks) = block.packed ++ all_codes blocks

module _ (size : ℕ) where
  pub copy_codes-whole :
      (blocks : List BlockTerm)
      → All (λ block. length block.packed ≡ size) blocks
      → copy_codes size blocks ≡ ok (all_codes blocks)
  unfolding copy_codes
  copy_codes-whole [] h = refl
  copy_codes-whole (block ∷ blocks) (hb, h) =
      let whole : take size block.packed ≡ block.packed =
        take_all size block.packed (omega (arith, hb)) in
      let fits : leb size (length block.packed) ≡ true = ground (arith, hb) in
      rw (copy_codes, copy_codes-whole blocks h, fits, whole) refl

  -- Code `i` of block `k`.
  pub all_codes-get :
      (blocks : List BlockTerm) (k i byte : ℕ) (block : BlockTerm)
      → All (λ block. length block.packed ≡ size) blocks
      → get_elem? blocks k ≡ some block
      → get_elem? block.packed i ≡ some byte
      → get_elem? (all_codes blocks) (k * size + i) ≡ some byte
  all_codes-get [] k i byte block h at code = absurd (cc at)
  all_codes-get (b ∷ blocks) zero i byte block (hb, h) at code =
      let here : b ≡ block = cc at in
      let start : 0 * size + i ≡ i = omega arith in
      ap (get_elem? (b.packed ++ all_codes blocks)) start
      ∙ get_elem?-append_left i b.packed (all_codes blocks) byte
          (ap (λ x. get_elem? x.packed i) here ∙ code)
  all_codes-get (b ∷ blocks) (suc k) i byte block (hb, h) at code =
      let start : suc k * size + i ≡ size + (k * size + i) = omega (arith, add-mul 1 k size) in
      ap (get_elem? (b.packed ++ all_codes blocks)) start
      ∙ get_elem?-append_right size (k * size + i) b.packed (all_codes blocks) hb
      ∙ all_codes-get blocks k i byte block h at code

pub copy_scales-get :
    (blocks : List BlockTerm) (k : ℕ) (block : BlockTerm)
    → get_elem? blocks k ≡ some block
    → get_elem? (copy_scales blocks) k ≡ some block.scale
copy_scales-get [] k block at = absurd (cc at)
copy_scales-get (b ∷ blocks) zero block at =
    let here : b ≡ block = cc at in ap (λ x. some x.scale) here
copy_scales-get (b ∷ blocks) (suc k) block at = copy_scales-get blocks k block at

pub row_starts-get :
    (todo row stride r : ℕ)
    → r < todo
    → get_elem? (row_starts todo row stride) r ≡ some ((row + r) * stride)
unfolding row_starts
row_starts-get zero row stride r h = absurd (omega arith)
row_starts-get (suc todo) row stride zero h =
    let same : row ≡ row + 0 = omega arith in ap (λ n. some (n * stride)) same
row_starts-get (suc todo) row stride (suc r) h =
    let same : suc row + r ≡ row + suc r = omega arith in
    row_starts-get todo (suc row) stride r (omega arith) ∙ ap (λ n. some (n * stride)) same
