-- ===== src/Cluster/Layers.antt =====
-- Runs of layers on a part of the KV cache (the layer loop of handle_forward in distributed/worker.cpp).
use terllama.Prelude.{
  ℕ, zero, suc, ◌+◌, ◌≤◌, ◌<◌, ◌≡◌, refl, sym, ap, ◌∙◌, ◌⊎◌, inl, inr, List, length, All, arith,
  ◌==◌, Bool-cases, ==_iff,
}
use terllama.Prelude.Bytes.{IsU32}
use terllama.Cluster.{Model, Kv, update, run_layers}

module _ (M : Model) where
  -- A hidden state: as many 32-bit values as hidden_size says.
  abbrev pub IsHidden : List ℕ → Type 0
  IsHidden h = (length h ≡ M.hidden_size) × All IsU32 h

  abbrev pub BlockKeeps : Type 0
  BlockKeeps = (i p : ℕ) (h : List ℕ) (c : M.Cache) → IsHidden h → IsHidden (M.block i p h c).0

  update-same : (kv : Kv M) (i : ℕ) (c : M.Cache) → update M kv i c i ≡ c
  update-same kv i c = ground arith

  update-other : (kv : Kv M) (i j : ℕ) (c : M.Cache) → (j ≡ i → ⊥) → update M kv i c j ≡ kv j
  update-other kv i j c apart = elim (Bool-cases (j == i)) [
    | inl here ↦ absurd (apart ((==_iff j i).0 here))
    | inr there ↦ rw there refl
  ]

  pub run_layers-IsHidden :
      BlockKeeps
      → (todo i p : ℕ) (h : List ℕ) (kv : Kv M) → IsHidden h
      → IsHidden (run_layers M todo i p h kv).0
  unfolding run_layers
  run_layers-IsHidden keeps zero i p h kv good = good
  run_layers-IsHidden keeps (suc todo) i p h kv good =
      run_layers-IsHidden keeps todo (suc i) p (M.block i p h (kv i)).0 _ (keeps i p h (kv i) good)

  -- Layers before `i` and from `i + todo` on keep their cache.
  pub run_layers-outside :
      (todo i p j : ℕ) (h : List ℕ) (kv : Kv M)
      → (j < i) ⊎ (i + todo ≤ j)
      → (run_layers M todo i p h kv).1 j ≡ kv j
  unfolding run_layers
  run_layers-outside zero i p j h kv out = refl
  run_layers-outside (suc todo) i p j h kv out =
      run_layers-outside todo (suc i) p j (M.block i p h (kv i)).0 _ (ground arith)
      ∙ update-other kv i j (M.block i p h (kv i)).1 (λ e. ground arith)

  -- Two caches that agree on the layers of a run give the same hidden state and agree after it.
  abbrev pub Agree : ℕ → ℕ → Kv M → Kv M → Type 0
  Agree i todo kv g = (j : ℕ) → i ≤ j → j < i + todo → kv j ≡ g j

  pub run_layers-Agree :
      (todo i p : ℕ) (h : List ℕ) (kv g : Kv M)
      → Agree i todo kv g
      → ((run_layers M todo i p h kv).0 ≡ (run_layers M todo i p h g).0)
        × Agree i todo (run_layers M todo i p h kv).1 (run_layers M todo i p h g).1
  unfolding run_layers
  run_layers-Agree zero i p h kv g same = (refl, same)
  run_layers-Agree (suc todo) i p h kv g same =
      let here : kv i ≡ g i = same i (omega arith) (omega arith) in
      let block = M.block i p h in
      let kv' = update M kv i (block (kv i)).1 in
      let g' = update M g i (block (g i)).1 in
      let h' = (block (kv i)).0 in
      let later : Agree (suc i) todo kv' g' = λ j low high.
        update-other kv i j (block (kv i)).1 (λ e. omega (arith, e))
        ∙ same j (omega arith) (omega arith)
        ∙ sym (update-other g i j (block (g i)).1 (λ e. omega (arith, e))) in
      let (hidden, caches) = run_layers-Agree todo (suc i) p h' kv' g' later in
      let moved : h' ≡ (block (g i)).0 = ap (λ c. (block c).0) here in
      (
        hidden ∙ ap (λ x. (run_layers M todo (suc i) p x g').0) moved,
        λ j low high. elim (Bool-cases (j == i)) [
          | inl at ↦
              let e = (==_iff j i).0 at in
              run_layers-outside todo (suc i) p j h' kv' (inl (omega (arith, e)))
              ∙ ap kv' e
              ∙ update-same kv i (block (kv i)).1
              ∙ ap (λ c. (block c).1) here
              ∙ sym (update-same g i (block (g i)).1)
              ∙ sym (ap g' e)
              ∙ sym
                  (run_layers-outside todo (suc i) p j (block (g i)).0 g' (inl (omega (arith, e))))
          | inr beyond ↦
              caches j (ground (arith, beyond, low)) (omega arith)
              ∙ ap (λ x. (run_layers M todo (suc i) p x g').1 j) moved
        ],
      )

  -- A run in two parts.
  pub run_layers-split :
      (a b i p : ℕ) (h : List ℕ) (kv : Kv M)
      → run_layers M (a + b) i p h kv
        ≡ run_layers M b (i + a) p (run_layers M a i p h kv).0 (run_layers M a i p h kv).1
  unfolding run_layers
  run_layers-split zero b i p h kv =
      let none_first : 0 + b ≡ b = omega arith in
      let start : i ≡ i + 0 = omega arith in
      ap (λ n. run_layers M n i p h kv) none_first ∙ ap (λ n. run_layers M b n p h kv) start
  run_layers-split (suc a) b i p h kv =
      let count : suc a + b ≡ suc (a + b) = omega arith in
      let start : suc i + a ≡ i + suc a = omega arith in
      let kv' = update M kv i (M.block i p h (kv i)).1 in
      let h' = (M.block i p h (kv i)).0 in
      ap (λ n. run_layers M n i p h kv) count
      ∙ run_layers-split a b (suc i) p h' kv'
      ∙ ap
          (λ n.
            run_layers M b n p (run_layers M a (suc i) p h' kv').0
              (run_layers M a (suc i) p h' kv').1)
          start
