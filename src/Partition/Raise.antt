-- ===== src/Partition/Raise.antt =====
-- The loop that raises every node to one layer by taking from the largest allocation.
use mathlib.Core.Path.{subst}
use native.Mathlib.Decide.{ℕ_discrete}
use terllama.Prelude.{
  ℕ, zero, suc, ◌+◌, ◌-◌, ◌≤◌, ◌<◌, ◌≡◌, refl, ap, ◌∙◌, ◌⊎◌, inl, inr, List, [], ◌∷◌, length,
  get_or, set, ltb, leb, ◌==◌, ◌||◌, if◌then◌else◌, Bool-cases, none, some, Option-cases, arith,
}
use terllama.Partition.{
  sum, increment, decrement, ok, Best, beats, largest, take_from, raise_node, raise_all,
}
use terllama.Partition.Sums.{
  sum-increment, sum-decrement, length-increment, length-decrement, get_or-set_self, get_or-set_ne,
  get_or_pos-inside,
}

-- A donor is another node that can spare a layer.
abbrev Donor : List ℕ → ℕ → Best → Type 0
Donor xs i none = Unit {0}
Donor xs i (some (k, d)) = (get_or xs k 0 ≡ d) × (1 < d) × (k ≡ i → ⊥)

abbrev next_best : ℕ → ℕ → Best → ℕ → Best
next_best i j best c =
    if j == i || leb c 1 then best else if beats c best then some (j, c) else best

next_best-Donor :
    (xs : List ℕ) (i j : ℕ) (best : Best) (c : ℕ)
    → get_or xs j 0 ≡ c
    → Donor xs i best
    → Donor xs i (next_best i j best c)
unfolding beats
next_best-Donor xs i j none c e h = ground arith
next_best-Donor xs i j (some (k, d)) c e h = ground arith

largest-Donor :
    (xs : List ℕ) (i j : ℕ) (best : Best) (cs : List ℕ)
    → ((m : ℕ) → get_or xs (j + m) 0 ≡ get_or cs m 0)
    → Donor xs i best
    → Donor xs i (largest i j best cs)
unfolding largest
largest-Donor xs i j best [] agree h = h
largest-Donor xs i j best (c ∷ cs) agree h =
    largest-Donor xs i (suc j) (next_best i j best c) cs
      (λ m. ap (λ k. get_or xs k 0) (omega arith) ∙ agree (suc m))
      (next_best-Donor xs i j best c (ap (λ k. get_or xs k 0) (omega arith) ∙ agree 0) h)

-- Every node but `i` has at most one layer.
abbrev NoDonor : ℕ → ℕ → List ℕ → Type 0
NoDonor i j [] = Unit {0}
NoDonor i j (c ∷ cs) = ((j ≡ i) ⊎ (c ≤ 1)) × NoDonor i (suc j) cs

largest-ne-none : (i j k d : ℕ) (cs : List ℕ) → largest i j (some (k, d)) cs ≡ none → ⊥
unfolding largest beats
largest-ne-none i j k d [] e = cc
largest-ne-none i j k d (c ∷ cs) e = elim (Bool-cases (j == i || leb c 1)) [
  | inl skip ↦ largest-ne-none i (suc j) k d cs (rw skip at e)
  | inr seen ↦ elim (Bool-cases (ltb d c)) [
    | inl more ↦ largest-ne-none i (suc j) j c cs (rw (seen, more) at e)
    | inr less ↦ largest-ne-none i (suc j) k d cs (rw (seen, less) at e)
  ]
]

largest-NoDonor : (i j : ℕ) (cs : List ℕ) → largest i j none cs ≡ none → NoDonor i j cs
unfolding largest beats
largest-NoDonor i j [] e = tt
largest-NoDonor i j (c ∷ cs) e = elim (Bool-cases (j == i || leb c 1)) [
  | inl skip ↦ (ground arith, largest-NoDonor i (suc j) cs (rw skip at e))
  | inr seen ↦ absurd (largest-ne-none i (suc j) j c cs (rw seen at e))
]

sum-NoDonor_past : (i j : ℕ) (cs : List ℕ) → i < j → NoDonor i j cs → sum cs ≤ length cs
sum-NoDonor_past i j [] h nd = omega arith
sum-NoDonor_past i j (c ∷ cs) h (hc, nd) =
    omega (arith, sum-NoDonor_past i (suc j) cs (omega arith) nd)

sum-NoDonor :
    (i j m : ℕ) (cs : List ℕ)
    → i ≡ j + m
    → m < length cs
    → get_or cs m 0 ≡ 0
    → NoDonor i j cs
    → sum cs < length cs
sum-NoDonor i j m [] e h z nd = absurd (omega arith)
sum-NoDonor i j zero (c ∷ cs) e h z (hc, nd) =
    omega (arith, sum-NoDonor_past i (suc j) cs (omega arith) nd)
sum-NoDonor i j (suc m) (c ∷ cs) e h z (hc, nd) =
    omega (arith, sum-NoDonor i (suc j) m cs (omega arith) (omega arith) z nd)

-- What a round keeps and brings about.
pub record Raised (before after : List ℕ) : Type 0 where
  pub same_length : length after ≡ length before
  pub same_total : sum after ≡ sum before
  pub kept : (k : ℕ) → 0 < get_or before k 0 → 0 < get_or after k 0

Raised-refl : (xs : List ℕ) → Raised xs xs
Raised-refl xs = record { same_length = refl; same_total = refl; kept = λ k h. h }

Raised-trans : {xs ys zs : List ℕ} → Raised xs ys → Raised ys zs → Raised xs zs
Raised-trans r s = record {
  same_length = s.same_length ∙ r.same_length;
  same_total = s.same_total ∙ r.same_total;
  kept = λ k h. s.kept k (r.kept k h);
}

increment_pos : (i : ℕ) (xs : List ℕ) → i < length xs → 0 < get_or (increment i xs) i 0
unfolding increment
increment_pos i xs h = omega (arith, get_or-set_self xs i (get_or xs i 0 + 1) h)

-- Moving a layer to node `i` from a node with two or more.
module _ (i j : ℕ) (xs : List ℕ) (inside : i < length xs) (spare : 1 < get_or xs j 0) where
  decrement_kept : (k : ℕ) → 0 < get_or xs k 0 → 0 < get_or (decrement j xs) k 0
  unfolding decrement
  decrement_kept k h = elim (ℕ_discrete j k) [
    | yes p ↦
        subst (λ t. 0 < get_or (set xs j (get_or xs j 0 - 1)) t 0) p
          (omega (
            arith,
            get_or-set_self xs j (get_or xs j 0 - 1) (get_or_pos-inside xs j (omega arith)),
          ))
    | no p ↦ omega (arith, get_or-set_ne xs j k (get_or xs j 0 - 1) p)
  ]

  increment_kept :
      (k : ℕ) (ys : List ℕ) → i < length ys → 0 < get_or ys k 0 → 0 < get_or (increment i ys) k 0
  unfolding increment
  increment_kept k ys here h = elim (ℕ_discrete i k) [
    | yes p ↦ subst (λ t. 0 < get_or (increment i ys) t 0) p (increment_pos i ys here)
    | no p ↦ omega (arith, get_or-set_ne ys i k (get_or ys i 0 + 1) p)
  ]

  still_inside : i < length (decrement j xs)
  still_inside = omega (arith, length-decrement j xs)

  move-Raised : Raised xs (increment i (decrement j xs))
  move-Raised = record {
    same_length = length-increment i (decrement j xs) ∙ length-decrement j xs;
    same_total = omega (
      arith,
      sum-increment i (decrement j xs) still_inside,
      sum-decrement j xs (get_or_pos-inside xs j (omega arith)) (omega arith),
    );
    kept = λ k h. increment_kept k (decrement j xs) still_inside (decrement_kept k h);
  }

-- A round ends with node `i` at one layer or more, where there are as many layers as nodes.
raise_node-Raised :
    (i : ℕ) (xs : List ℕ)
    → i < length xs
    → length xs ≤ sum xs
    → (after : List ℕ) × (raise_node i xs ≡ ok after) × Raised xs after × (0 < get_or after i 0)
unfolding raise_node take_from
raise_node-Raised i xs h enough = elim (Bool-cases (ltb 0 (get_or xs i 0))) [
  | inl pos ↦ (xs, rw pos, Raised-refl xs, ground arith)
  | inr empty ↦ elim (Option-cases (largest i 0 none xs)) [
    | inl e ↦ absurd (
        omega
          (arith, sum-NoDonor i 0 i xs (omega arith) h (ground arith) (largest-NoDonor i 0 xs e)))
    | inr ((j, d), e) ↦
        let (at, many, other) =
          subst (Donor xs i) e
            (largest-Donor xs i 0 none xs (λ m. ap (λ k. get_or xs k 0) (omega arith)) tt) in
        let spare : 1 < get_or xs j 0 = omega (arith, at, many) in
        (
          increment i (decrement j xs),
          rw (empty, e),
          move-Raised i j xs h spare,
          increment_pos i (decrement j xs) (omega (arith, length-decrement j xs)),
        )
  ]
]

pub raise_all-Raised :
    (todo i : ℕ) (xs : List ℕ)
    → i + todo ≡ length xs
    → length xs ≤ sum xs
    → ((k : ℕ) → k < i → 0 < get_or xs k 0)
    → (after : List ℕ) × (raise_all todo i xs ≡ ok after)
      × Raised xs after
      × ((k : ℕ) → k < length xs → 0 < get_or after k 0)
unfolding raise_all
raise_all-Raised zero i xs e enough done = (xs, refl, Raised-refl xs, λ k h. done k (omega arith))
raise_all-Raised (suc todo) i xs e enough done =
    let (mid, em, r, pos) = raise_node-Raised i xs (omega arith) enough in
    let (after, ea, s, all) =
      raise_all-Raised todo (suc i) mid (omega (arith, r.same_length))
        (omega (arith, r.same_length, r.same_total))
        (λ k h. elim (ℕ_discrete i k) [
          | yes p ↦ subst (λ t. 0 < get_or mid t 0) p pos
          | no p ↦ r.kept k (done k (omega arith))
        ]) in
    (after, rw em ea, Raised-trans r s, λ k h. all k (omega (arith, r.same_length)))
