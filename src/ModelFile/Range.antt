-- ===== src/ModelFile/Range.antt =====
-- The range reader of distributed/shard_loader.h against the reader of src/loader.h.
use terllama.Prelude.{
  ℕ, zero, suc, ◌+◌, ◌*◌, ◌%◌, ◌≡◌, refl, sym, ap, ◌∙◌, Bool, true, false, List, [], ◌∷◌, length,
  take, drop, drop-add, if◌then◌else◌, leb, ltb, ◌==◌, Bool-cases, inl, inr, arith,
}
use native.Mathlib.Nat.{add-mul}
use terllama.Prelude.Results.{Result, ok, err, ◌>>=◌, bind_ok, guard_ok, test_ok, ok_injective}
use terllama.ModelFile.{
  Error, unread, bad_magic, bad_layer_type, LayerRecord, Payload, raw, old_terms, typed, Head, read,
  read_u32, read_head, sniff_als_layout, n_bytes, read_terms, read_length, read_raw, read_old,
  read_typed, parse_typed, read_payload, record_of, read_records, keep, skip_raw, skip_typed,
  skip_payload, read_range, model_magic, load_decomposed_layers_als,
  load_decomposed_layers_als_range,
}

read-rest :
    (n : ℕ) (file : List ℕ) (got : List ℕ × List ℕ) → read n file ≡ ok got → got.1 ≡ drop n file
unfolding read
read-rest n file got h =
    let (fits, same) = test_ok (leb n (length file)) unread (ok (take n file, drop n file)) got h in
    sym (ap (λ g. g.1) (ok_injective (take n file, drop n file) got same))

read_terms-rest :
    (todo size : ℕ) (file : List ℕ) (got : List (List ℕ) × List ℕ)
    → read_terms todo size file ≡ ok got
    → got.1 ≡ drop (todo * (4 + size)) file
unfolding read_terms
read_terms-rest zero size file got h =
    let nothing : 0 * (4 + size) ≡ 0 = omega arith in
    sym (ap (λ g. g.1) (ok_injective ([], file) got h)) ∙ sym (ap (λ n. drop n file) nothing)
read_terms-rest (suc todo) size file got h =
    let (term, ht, h₁) = bind_ok (read (4 + size) file) _ got h in
    let (rest, hr, h₂) = bind_ok (read_terms todo size term.1) _ got h₁ in
    let more : suc todo * (4 + size) ≡ (4 + size) + todo * (4 + size) =
      omega (arith, add-mul 1 todo (4 + size)) in
    sym (ap (λ g. g.1) (ok_injective (term.0 ∷ rest.0, rest.1) got h₂))
    ∙ read_terms-rest todo size term.1 rest hr
    ∙ ap (drop (todo * (4 + size))) (read-rest (4 + size) file term ht)
    ∙ sym (ap (λ n. drop n file) more ∙ drop-add (4 + size) (todo * (4 + size)) file)

skip_raw-rest :
    (file : List ℕ) (got : Payload × List ℕ) → read_raw file ≡ ok got → skip_raw file ≡ ok got.1
unfolding read_raw skip_raw
skip_raw-rest file got h =
    let (data_len, hd, h₁) = bind_ok (read_u32 file) _ got h in
    let (bytes, hb, h₂) = bind_ok (read data_len.0 data_len.1) _ got h₁ in
    rw hd (
      ap ok (
        sym (read-rest data_len.0 data_len.1 bytes hb)
        ∙ ap (λ g. g.1) (ok_injective (raw bytes.0, bytes.1) got h₂)))

skip_typed-rest :
    (head : Head) (file : List ℕ) (got : Payload × List ℕ)
    → read_typed head file ≡ ok got
    → skip_typed head.x file ≡ ok got.1
unfolding read_typed skip_typed
skip_typed-rest head file got h =
    let type = head.x % 256 in
    let (good, h₀) = guard_ok (ltb 2 type) (bad_layer_type type) _ got h in
    let (data_len, hd, h₁) = bind_ok (read_length head.x file) _ got h₀ in
    let (bytes, hb, h₂) = bind_ok (read data_len.0 data_len.1) _ got h₁ in
    let (ld, hl, h₃) = bind_ok (parse_typed head type bytes.0) _ got h₂ in
    rw hd (
      ap ok (
        sym (read-rest data_len.0 data_len.1 bytes hb)
        ∙ ap (λ g. g.1) (ok_injective (typed ld, bytes.1) got h₃)))

-- A skipped payload leaves what a payload that is read leaves.
skip_payload-rest :
    (h : Head) (file : List ℕ) (got : Payload × List ℕ)
    → read_payload h file ≡ ok got
    → skip_payload h file ≡ ok got.1
unfolding read_payload skip_payload read_old
skip_payload-rest h file got e = elim (Bool-cases (sniff_als_layout h.x == 1)) [
  | inr new ↦ rw new (skip_typed-rest h file got (sym (rw new refl) ∙ e))
  | inl old ↦ elim (Bool-cases (h.x == 0)) [
    | inl floats ↦ rw (old, floats) (skip_raw-rest file got (sym (rw (old, floats) refl) ∙ e))
    | inr terms ↦
        let e' : read_old h file ≡ ok got = sym (rw (old, terms) refl) ∙ e in
        let (ts, ht, same) = bind_ok (read_terms h.x (n_bytes h) file) _ got e' in
        rw (old, terms)
          (ap ok (
            sym (read_terms-rest h.x (n_bytes h) file ts ht)
            ∙ ap (λ g. g.1) (ok_injective (old_terms ts.0, ts.1) got same)))
  ]
]

module _ (start_layer end_layer : ℕ) (include_lm_head : Bool) where
  abbrev pub add_if : Bool → LayerRecord → List LayerRecord → List LayerRecord
  add_if wanted r records = if wanted then r ∷ records else records

  -- The records of a shard among all records.
  unfoldable pub kept_records : List LayerRecord → Result Error (List LayerRecord)
  kept_records [] = ok []
  kept_records (r ∷ records) = keep start_layer end_layer include_lm_head r.name >>= λ wanted.
      kept_records records >>= λ others. ok (add_if wanted r others)

  next_record :
      (wanted : Bool) (todo : ℕ) (h : Head) (file : List ℕ) (payload : Payload × List ℕ)
      → read_payload h file ≡ ok payload
      → (if wanted
          then (read_payload h file >>= λ payload.
              read_range start_layer end_layer include_lm_head todo payload.1 >>= λ rest.
              ok (record_of h payload.0 ∷ rest))
          else (skip_payload h file >>= λ left.
              read_range start_layer end_layer include_lm_head todo left))
        ≡ (read_range start_layer end_layer include_lm_head todo payload.1 >>= λ others.
            ok (add_if wanted (record_of h payload.0) others))
  next_record true todo h file payload e = rw e refl
  next_record false todo h file payload e = rw (skip_payload-rest h file payload e) (bind_id _)
    where
      bind_id : (r : Result Error (List LayerRecord)) → r ≡ (r >>= λ others. ok others)
      bind_id (ok a) = refl
      bind_id (err e) = refl

  range-kept :
      (todo : ℕ) (file : List ℕ) (records : List LayerRecord)
      → read_records todo file ≡ ok records
      → read_range start_layer end_layer include_lm_head todo file ≡ kept_records records
  unfolding read_records read_range kept_records
  range-kept zero file records h = ap kept_records (ok_injective [] records h)
  range-kept (suc todo) file records h =
      let (head, hh, h₁) = bind_ok (read_head file) _ records h in
      let (payload, hp, h₂) = bind_ok (read_payload head.0 head.1) _ records h₁ in
      let (rest, hr, same) = bind_ok (read_records todo payload.1) _ records h₂ in
      let tail = range-kept todo payload.1 rest hr in
      rw hh (
        ap (λ k. keep start_layer end_layer include_lm_head head.0.name >>= k)
          (λ i wanted. next_record wanted todo head.0 head.1 payload hp i)
        ∙ ap
            (λ t. keep start_layer end_layer include_lm_head head.0.name >>= λ wanted.
              t >>= λ others. ok (add_if wanted (record_of head.0 payload.0) others))
            tail
        ∙ ap kept_records (ok_injective (record_of head.0 payload.0 ∷ rest) records same))

  -- On a file that the full loader reads, the range loader of a shard, for a range that is not reversed,
  -- gives what is left of the full loader's records when those outside the range are dropped, in their
  -- order, with lm_head where it is asked for; it throws only where a layer's index is too large for an int.
  pub load_range-kept :
      (file : List ℕ) (records : List LayerRecord)
      → ltb end_layer start_layer ≡ false
      → load_decomposed_layers_als file ≡ ok records
      → load_decomposed_layers_als_range start_layer end_layer include_lm_head file
        ≡ kept_records records
  unfolding load_decomposed_layers_als load_decomposed_layers_als_range
  load_range-kept file records in_order h =
      let (magic, hm, h₁) = bind_ok (read_u32 file) _ records h in
      let (num_layers, hn, h₂) =
        bind_ok (if magic.0 == model_magic then read_u32 magic.1 else err bad_magic) _ records h₁ in
      rw (in_order, hm, hn) (range-kept num_layers.0 num_layers.1 records h₂)
