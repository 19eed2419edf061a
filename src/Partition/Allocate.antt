-- ===== src/Partition/Allocate.antt =====
-- The layer allocation as a whole (distributed/partitioner.h).
use mathlib.Core.Path.{subst}
use terllama.Prelude.{
  sym, All, false, ℕ, ◌+◌, ◌-◌, ◌≤◌, ◌<◌, ◌≡◌, List, length, get_or, map, length-map, arith, ◌∙◌,
  ltb, ◌==◌,
}
use terllama.Partition.{
  Doubles, sum, ok, err, out_of_bounds, raw_share, ranked, sort_ranked, Ranked,
  allocate_layers_proportionally,
}
use terllama.Partition.Spread.{distribute-Spread, distribute_overrun, length-order, order-inside}
use terllama.Partition.Raise.{raise_all-Raised}

-- Every node has a layer, and all layers are given out.
pub record IsAllocation (n total : ℕ) (counts : List ℕ) : Type 0 where
  pub one_each : length counts ≡ n
  pub all_given : sum counts ≡ total
  pub no_idle : (k : ℕ) → k < n → 0 < get_or counts k 0

pub leb_enough : (n total : ℕ) → n ≤ total → ltb total n ≡ false
leb_enough n total h = ground arith

module _ (F : Doubles) where
  open F use {Double, floor}

  -- The floors of the shares.
  abbrev pub floors : ℕ → List Double → List ℕ
  floors total fracs = map floor (map (raw_share F total) fracs)

  -- The floors miss at most one layer for each node, and give out no layer too many.
  pub record IsBalanced (total : ℕ) (fracs : List Double) : Type 0 where
    pub not_over : sum (floors total fracs) ≤ total
    pub not_under : total ≤ sum (floors total fracs) + length fracs

  length-floors : (total : ℕ) (fracs : List Double) → length (floors total fracs) ≡ length fracs
  length-floors total fracs =
      length-map floor (map (raw_share F total) fracs) ∙ length-map (raw_share F total) fracs

  abbrev order : List Double → List ℕ
  order raw = map (λ (x : Ranked F). x.0) (sort_ranked F (ranked F 0 raw))

  some_nodes : (fracs : List Double) → 0 < length fracs → (length fracs == 0) ≡ false
  some_nodes fracs h = ground arith

  -- For one node or more, no more nodes than layers, and balanced shares, the allocation ends without an
  -- exception, with one count for each node, all layers given out and no node without a layer.
  pub allocate-IsAllocation :
      (total : ℕ) (fracs : List Double)
      → 0 < length fracs
      → length fracs ≤ total
      → IsBalanced total fracs
      → (counts : List ℕ) × (allocate_layers_proportionally F total fracs ≡ ok counts)
        × IsAllocation (length fracs) total counts
  unfolding allocate_layers_proportionally
  allocate-IsAllocation total fracs some_node enough b =
      let raw = map (raw_share F total) fracs in
      let result = floors total fracs in
      let len = length-map (raw_share F total) fracs in
      let len_result = length-floors total fracs in
      let (spread, e, s) =
        distribute-Spread (total - sum result) (order raw) result
          (omega (arith, length-order F raw, len, b.not_under))
          (subst (λ n. All (λ i. i < n) (order raw)) (sym (length-map floor raw))
            (order-inside F raw)) in
      let whole : sum spread ≡ total = omega (arith, s.total, b.not_over) in
      let (after, ea, r, pos) =
        raise_all-Raised (length fracs) 0 spread (omega (arith, s.same_length, len_result))
          (omega (arith, s.same_length, len_result)) (λ k h. absurd (omega arith)) in
      (
        after,
        rw (some_nodes fracs some_node, leb_enough (length fracs) total enough, e) ea,
        record {
          one_each = omega (arith, r.same_length, s.same_length, len_result);
          all_given = r.same_total ∙ whole;
          no_idle = λ k h. pos k (omega (arith, s.same_length, len_result));
        },
      )

  -- Where the floors of the shares leave more layers than there are nodes, the remainder loop reads past
  -- the end of `order`, for one node or more.
  pub allocate_overrun :
      (total : ℕ) (fracs : List Double)
      → 0 < length fracs
      → sum (floors total fracs) + length fracs < total
      → allocate_layers_proportionally F total fracs ≡ err out_of_bounds
  unfolding allocate_layers_proportionally
  allocate_overrun total fracs some_node few =
      let raw = map (raw_share F total) fracs in
      let len = length-map (raw_share F total) fracs in
      rw (
        some_nodes fracs some_node,
        leb_enough (length fracs) total (omega arith),
        distribute_overrun (total - sum (floors total fracs)) (order raw) (floors total fracs)
            (omega (arith, length-order F raw, len)),
      )
