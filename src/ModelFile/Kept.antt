-- ===== src/ModelFile/Kept.antt =====
-- Which records the range reader of distributed/shard_loader.h gives: a specification by the records' names, written
-- without parse_layer_index and its comparisons.
use terllama.Prelude.{ℕ, ◌^◌, ◌≤◌, ◌<◌, ◌≡◌, ◌⊎◌, Bool, true, false, List, [], ◌∷◌}
use terllama.Prelude.Results.{Result, ok, err}
use terllama.ModelFile.{Error, index_out_of_range, LayerRecord, lm_head, keep}
use terllama.ModelFile.Names.{HasIndex}

-- The layer's index does not fit an int.
abbrev pub IsTooLarge : List ℕ → Type 0
IsTooLarge name = (i : ℕ) × HasIndex name i × (2 ^ 31 ≤ i)

unfoldable pub SomeTooLarge : List LayerRecord → Type 0
SomeTooLarge [] = ⊥
SomeTooLarge (r ∷ records) = IsTooLarge r.name ⊎ SomeTooLarge records

module _ (start_layer end_layer : ℕ) (include_lm_head : Bool) where
  -- A name of a layer in the range, or lm_head where it is asked for.
  abbrev pub IsWanted : List ℕ → Type 0
  IsWanted name =
      ((i : ℕ) × HasIndex name i × (start_layer ≤ i) × (i < end_layer))
      ⊎ ((include_lm_head ≡ true) × (name ≡ lm_head))

  -- The wanted ones of some records, in their order.
  pub data Kept : List LayerRecord → List LayerRecord → Type 0 where
    none_left : Kept [] []
    take_it :
        {r : LayerRecord} {records kept : List LayerRecord}
        → IsWanted r.name
        → Kept records kept
        → Kept (r ∷ records) (r ∷ kept)
    leave_it :
        {r : LayerRecord} {records kept : List LayerRecord}
        → (IsWanted r.name → ⊥)
        → Kept records kept
        → Kept (r ∷ records) kept

  -- What keep says of a name, and that it is right.
  abbrev Keeps : List ℕ → Type 0
  Keeps name =
      ((keep start_layer end_layer include_lm_head name ≡ ok true)
        × IsWanted name
        × (IsTooLarge name → ⊥))
      ⊎ ((keep start_layer end_layer include_lm_head name ≡ ok false)
          × (IsWanted name → ⊥)
          × (IsTooLarge name → ⊥))
      ⊎ ((keep start_layer end_layer include_lm_head name ≡ err index_out_of_range)
          × IsTooLarge name)

  -- What the range reader gives for the records of a whole file.
  abbrev pub Outcome : Result Error (List LayerRecord) → List LayerRecord → Type 0
  Outcome result records =
      ((kept : List LayerRecord) × (result ≡ ok kept)
        × Kept records kept
        × (SomeTooLarge records → ⊥))
      ⊎ ((result ≡ err index_out_of_range) × SomeTooLarge records)
