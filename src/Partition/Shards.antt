-- ===== src/Partition/Shards.antt =====
-- The pipeline's layer ranges (compute_shards of distributed/partitioner.h).
use mathlib.Core.Path.{subst}
use mathlib.Core.List.{foldl}
use terllama.Prelude.{
  ℕ, suc, ◌+◌, ◌≤◌, ◌<◌, ◌≡◌, refl, sym, ◌∙◌, ◌⊎◌, inl, inr, List, [], ◌∷◌, length, get_or,
  length-map, arith, Bool, true, false, Bool-cases, ◌==◌, not,
}
use terllama.Protocol.{ShardSpec}
use terllama.Partition.{
  Doubles, sum, Result, ok, err, insufficient_ram, fractions, build_shards, compute_shards,
  allocate_layers_proportionally,
}
use terllama.Partition.Allocate.{IsAllocation, IsBalanced, allocate-IsAllocation, leb_enough}

-- A shard takes up where the one before it ends and holds a layer or more.
pub record Follows (n_layers world_size rank start : ℕ) (s : ShardSpec) : Type 0 where
  pub rank_eq : s.device_rank ≡ rank
  pub world_eq : s.world_size ≡ world_size
  pub layers_eq : s.n_layers ≡ n_layers
  pub start_eq : s.start_layer ≡ start
  pub some_layer : start < s.end_layer
  pub first_eq : s.is_first ≡ (rank == 0)
  pub last_eq : s.is_last ≡ (suc rank == world_size)

-- The shards of the ranks from `rank` on, end to end up to `n_layers`.
abbrev pub IsPipeline : ℕ → ℕ → ℕ → ℕ → List ShardSpec → Type 0
IsPipeline n_layers world_size rank start [] = (start ≡ n_layers) × (rank ≡ world_size)
IsPipeline n_layers world_size rank start (s ∷ shards) =
    Follows n_layers world_size rank start s
    × IsPipeline n_layers world_size (suc rank) s.end_layer shards

abbrev NoIdle : List ℕ → Type 0
NoIdle [] = Unit {0}
NoIdle (c ∷ cs) = (0 < c) × NoIdle cs

NoIdle-of :
    (counts : List ℕ) → ((k : ℕ) → k < length counts → 0 < get_or counts k 0) → NoIdle counts
NoIdle-of [] h = tt
NoIdle-of (c ∷ cs) h = (h 0 (omega arith), NoIdle-of cs (λ k lt. h (suc k) (omega arith)))

sum_pos-NoIdle : (counts : List ℕ) → NoIdle counts → length counts ≤ sum counts
sum_pos-NoIdle [] h = omega arith
sum_pos-NoIdle (c ∷ cs) h = omega (arith, sum_pos-NoIdle cs h.1, h.0)

positive : (n : ℕ) → 0 < n → (n == 0) ≡ false
positive n h = ground arith

==_of : (m n : ℕ) → m ≡ n → (m == n) ≡ true
==_of m n h = ground arith

module _ (n_layers world_size : ℕ) where
  abbrev spec : ℕ → ℕ → ℕ → ShardSpec
  spec rank start c = record {
    device_rank = rank;
    world_size = world_size;
    start_layer = start;
    end_layer = start + c;
    n_layers = n_layers;
    is_first = start == 0;
    is_last = start + c == n_layers;
  }

  spec-Follows :
      (rank start c : ℕ) (counts : List ℕ)
      → start + (c + sum counts) ≡ n_layers
      → rank + suc (length counts) ≡ world_size
      → rank ≤ start
      → (rank ≡ 0 → start ≡ 0)
      → 0 < c
      → NoIdle counts
      → Follows n_layers world_size rank start (spec rank start c)
  spec-Follows rank start c counts total ranks ahead zero_start hc pos = record {
    rank_eq = refl;
    world_eq = refl;
    layers_eq = refl;
    start_eq = refl;
    some_layer = omega arith;
    first_eq = ground arith;
    last_eq = last counts total ranks pos;
  }
    where
      last :
          (counts : List ℕ)
          → start + (c + sum counts) ≡ n_layers
          → rank + suc (length counts) ≡ world_size
          → NoIdle counts
          → (start + c == n_layers) ≡ (suc rank == world_size)
      last [] total ranks pos = ground arith
      last (d ∷ counts) total ranks (hd, pos) = ground arith

module _ (F : Doubles) where
  open F use {of_nat, add, mul, div, lt}

  -- The memory of a node covers the share of the model that its `c` layers take.
  abbrev pub fits : ℕ → ℕ → ℕ → ℕ → Bool
  fits n_layers model_size c r =
      not (lt (of_nat r) (div (mul (of_nat model_size) (of_nat c)) (of_nat n_layers)))

  abbrev pub AllFit : ℕ → ℕ → List ℕ → List ℕ → Type 0
  AllFit n_layers model_size [] ram = Unit {0}
  AllFit n_layers model_size (c ∷ counts) [] = ⊥
  AllFit n_layers model_size (c ∷ counts) (r ∷ ram) =
      (fits n_layers model_size c r ≡ true) × AllFit n_layers model_size counts ram

  length-fractions :
      (world_size : ℕ) (ram : List ℕ) → length (fractions F world_size ram) ≡ length ram
  unfolding fractions
  length-fractions world_size ram =
      elim (Bool-cases (lt (of_nat 0) (foldl (λ t b. add t (of_nat b)) (of_nat 0) ram))) [
        | inl e ↦ rw e (length-map _ ram)
        | inr e ↦ rw e (length-map _ ram)
      ]

  module _ (n_layers world_size model_size : ℕ) where
    -- Either all ranges, and every node's share fits its memory; or the exception that names a node,
    -- and some node's share does not fit.
    abbrev pub Outcome : List ℕ → List ℕ → Result (List ShardSpec) → ℕ → ℕ → Type 0
    Outcome counts ram r rank start =
        ((shards : List ShardSpec) × (r ≡ ok shards)
          × IsPipeline n_layers world_size rank start shards
          × AllFit n_layers model_size counts ram)
        ⊎ ((i : ℕ) × (r ≡ err (insufficient_ram i)) × (AllFit n_layers model_size counts ram → ⊥))

    build-Outcome :
        (rank start : ℕ) (counts ram : List ℕ)
        → start + sum counts ≡ n_layers
        → rank + length counts ≡ world_size
        → rank ≤ start
        → (rank ≡ 0 → start ≡ 0)
        → length counts ≡ length ram
        → NoIdle counts
        → Outcome counts ram
            (build_shards F n_layers world_size model_size rank start counts ram)
            rank
            start
    unfolding build_shards
    build-Outcome rank start [] ram total ranks ahead zero_start same pos =
        inl ([], refl, (omega arith, omega arith), tt)
    build-Outcome rank start (c ∷ counts) [] total ranks ahead zero_start same pos =
        absurd (omega arith)
    build-Outcome rank start (c ∷ counts) (r ∷ ram) total ranks ahead zero_start same (hc, pos) =
        elim (Bool-cases
          (lt (of_nat r) (div (mul (of_nat model_size) (of_nat c)) (of_nat n_layers)))) [
            | inl short ↦ inr (rank, rw short, λ all. short_misfit short all.0)
            | inr enough ↦
                elim (build-Outcome (suc rank) (start + c) counts ram (omega arith) (omega arith)
                  (omega arith) (λ z. absurd (omega arith)) (omega arith) pos) [
                    | inl (shards, e, pipe, all) ↦ inl (
                      spec n_layers world_size rank start c ∷ shards,
                      rw (enough, e),
                      (
                        spec-Follows n_layers world_size rank start c counts total ranks ahead
                            zero_start hc pos,
                        pipe,
                      ),
                      (rw enough refl, all),
                    )
                    | inr (i, e, missing) ↦ inr (i, rw (enough, e), λ all. missing all.1)
                  ]
          ]
      where
        short_misfit :
            lt (of_nat r) (div (mul (of_nat model_size) (of_nat c)) (of_nat n_layers)) ≡ true
            → fits n_layers model_size c r ≡ true
            → ⊥
        short_misfit short fit = ground arith

  -- For one node or more, no more nodes than layers, one memory value for each node, and balanced
  -- fractions: the layer counts are a full allocation, and either the shards lie end to end from 0 to
  -- the number of layers in rank order, none empty, only the first marked first and only the last marked
  -- last, and every node's memory covers its share; or the exception is that of insufficient memory, and
  -- some node's memory does not cover its share.
  pub compute_shards-Outcome :
      (n_layers world_size model_size : ℕ) (ram : List ℕ)
      → 0 < world_size
      → world_size ≤ n_layers
      → length ram ≡ world_size
      → IsBalanced F n_layers (fractions F world_size ram)
      → (counts : List ℕ) × (allocate_layers_proportionally F n_layers (fractions F world_size ram)
          ≡ ok counts)
        × IsAllocation world_size n_layers counts
        × Outcome n_layers world_size model_size counts ram
            (compute_shards F n_layers world_size ram model_size)
            0
            0
  unfolding compute_shards
  compute_shards-Outcome n_layers world_size model_size ram some_node enough same b =
      let len = length-fractions world_size ram in
      let (counts, e, a) =
        allocate-IsAllocation F n_layers (fractions F world_size ram) (omega (arith, len))
          (omega (arith, len)) b in
      let a' : IsAllocation world_size n_layers counts =
        subst (λ n. IsAllocation n n_layers counts) (len ∙ same) a in
      (
        counts,
        e,
        a',
        rw
            (
              positive world_size some_node,
              leb_enough world_size n_layers enough,
              ==_of world_size (length ram) (sym same),
              e,
            )
            (build-Outcome n_layers world_size model_size 0 0 counts ram
              (omega (arith, a'.all_given)) (omega (arith, a'.one_each)) (omega arith) (λ z. z)
              (a'.one_each ∙ sym same)
              (NoIdle-of counts (λ k h. a'.no_idle k (omega (arith, a'.one_each))))),
      )
