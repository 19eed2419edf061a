-- ===== src/Partition/Runs.antt =====
-- Concrete allocations of distributed/partitioner.h, and the theorems at them. The stand-in for
-- `double` is the exact fractions.
use terllama.Prelude.{ℕ, ◌+◌, ◌-◌, ◌*◌, ◌/◌, ◌≡◌, refl, List, [], ◌∷◌, ltb, ◌==◌, arith}
use terllama.Partition.{
  Doubles, increment, decrement, distribute, beats, largest, take_from, raise_node, raise_all,
  raw_share, ranked, before, insert_ranked, sort_ranked, allocate_layers_proportionally, fractions,
  build_shards, compute_shards, ok, err, insufficient_ram, out_of_bounds,
}
use terllama.Partition.Allocate.{IsAllocation, IsBalanced, allocate-IsAllocation, allocate_overrun}
use terllama.Partition.Shards.{compute_shards-Outcome, Outcome}

abbrev exact : Doubles
exact = record {
  Double = ℕ × ℕ;
  of_nat = λ n. (n, 1);
  add = λ x y. (x.0 * y.1 + y.0 * x.1, x.1 * y.1);
  sub = λ x y. (x.0 * y.1 - y.0 * x.1, x.1 * y.1);
  mul = λ x y. (x.0 * y.0, x.1 * y.1);
  div = λ x y. (x.0 * y.1, x.1 * y.0);
  lt = λ x y. ltb (x.0 * y.1) (y.0 * x.1);
  eq = λ x y. x.0 * y.1 == y.0 * x.1;
  floor = λ x. x.0 / x.1;
}

-- Three quarters, a quarter and next to nothing of the memory.
abbrev uneven : List (ℕ × ℕ)
uneven = (73, 100) ∷ (26, 100) ∷ (1, 100) ∷ []

uneven_counts : allocate_layers_proportionally exact 10 uneven ≡ ok (6 ∷ 3 ∷ 1 ∷ [])
unfolding allocate_layers_proportionally distribute increment decrement beats largest take_from
    raise_node raise_all raw_share ranked before insert_ranked sort_ranked
uneven_counts = refl

uneven-IsBalanced : IsBalanced exact 10 uneven
unfolding raw_share
uneven-IsBalanced = omega arith

allocate-IsAllocation_example :
    (counts : List ℕ) × (allocate_layers_proportionally exact 10 uneven ≡ ok counts)
    × IsAllocation 3 10 counts
allocate-IsAllocation_example =
    allocate-IsAllocation exact 10 uneven (omega arith) (omega arith) uneven-IsBalanced

allocate_overrun_example :
    allocate_layers_proportionally exact 10 ((1, 100) ∷ (1, 100) ∷ []) ≡ err out_of_bounds
unfolding raw_share
allocate_overrun_example =
    allocate_overrun exact 10 ((1, 100) ∷ (1, 100) ∷ []) (omega arith) (omega arith)

abbrev ram : List ℕ
ram = 600 ∷ 300 ∷ 10 ∷ []

ram-IsBalanced : IsBalanced exact 30 (fractions exact 3 ram)
unfolding raw_share fractions
ram-IsBalanced = omega arith

compute_shards-Outcome_example :
    (counts : List ℕ) × (allocate_layers_proportionally exact 30 (fractions exact 3 ram)
      ≡ ok counts)
    × IsAllocation 3 30 counts
    × Outcome exact 30 3 90 counts ram (compute_shards exact 30 3 ram 90) 0 0
compute_shards-Outcome_example =
    compute_shards-Outcome exact 30 3 90 ram (omega arith) (omega arith) refl ram-IsBalanced

too_small : compute_shards exact 30 3 ram 9000 ≡ err (insufficient_ram 0)
unfolding compute_shards fractions build_shards allocate_layers_proportionally distribute increment
    decrement beats largest take_from raise_node raise_all raw_share ranked before insert_ranked
    sort_ranked
too_small = refl
