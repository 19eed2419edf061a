-- ===== src/Partition/Spread.antt =====
-- The remainder loop: one layer each for the nodes that come first in the order.
use mathlib.Core.Path.{subst}
use terllama.Prelude.{
  sym, ◌∙◌, ℕ, zero, suc, ◌+◌, ◌≤◌, ◌<◌, ◌≡◌, refl, ap, List, [], ◌∷◌, length, All, map, arith,
  Bool-cases, inl, inr, length-map,
}
use terllama.Partition.{
  Doubles, sum, increment, ok, err, out_of_bounds, distribute, Ranked, ranked, before,
  insert_ranked, sort_ranked,
}
use terllama.Partition.Sums.{sum-increment, length-increment}

pub record Spread (before after : List ℕ) (given : ℕ) : Type 0 where
  pub same_length : length after ≡ length before
  pub total : sum after ≡ sum before + given

-- With enough indices, all inside, the loop ends and gives out what remains.
pub distribute-Spread :
    (remaining : ℕ) (order result : List ℕ)
    → remaining ≤ length order
    → All (λ i. i < length result) order
    → (after : List ℕ) × (distribute remaining order result ≡ ok after)
      × Spread result after remaining
unfolding distribute
distribute-Spread zero order result h inside = (result, refl, omega arith)
distribute-Spread (suc remaining) [] result h inside = absurd (omega arith)
distribute-Spread (suc remaining) (i ∷ order) result h (hi, inside) =
    let len = length-increment i result in
    let (after, e, s) =
      distribute-Spread remaining order (increment i result) (omega arith)
        (subst (λ n. All (λ k. k < n) order) (sym len) inside) in
    (after, e, omega (arith, len, sum-increment i result hi, s.same_length, s.total))

-- With more to give than there are nodes, the loop reads past the end of `order`.
pub distribute_overrun :
    (remaining : ℕ) (order result : List ℕ)
    → length order < remaining
    → distribute remaining order result ≡ err out_of_bounds
unfolding distribute
distribute_overrun zero order result h = absurd (omega arith)
distribute_overrun (suc remaining) [] result h = refl
distribute_overrun (suc remaining) (i ∷ order) result h =
    distribute_overrun remaining order (increment i result) (omega arith)

module _ (F : Doubles) where
  open F use {Double}

  abbrev indices : List (Ranked F) → List ℕ
  indices = map (λ (x : Ranked F). x.0)

  length-insert_ranked :
      (x : Ranked F) (ys : List (Ranked F)) → length (insert_ranked F x ys) ≡ suc (length ys)
  unfolding insert_ranked
  length-insert_ranked x [] = refl
  length-insert_ranked x (y ∷ ys) = ground (arith, length-insert_ranked x ys)

  length-sort_ranked : (xs : List (Ranked F)) → length (sort_ranked F xs) ≡ length xs
  unfolding sort_ranked
  length-sort_ranked [] = refl
  length-sort_ranked (x ∷ xs) =
      omega (arith, length-insert_ranked x (sort_ranked F xs), length-sort_ranked xs)

  insert_ranked-All :
      (n : ℕ) (x : Ranked F) (ys : List (Ranked F))
      → x.0 < n
      → All (λ (y : Ranked F). y.0 < n) ys
      → All (λ (y : Ranked F). y.0 < n) (insert_ranked F x ys)
  unfolding insert_ranked
  insert_ranked-All n x [] hx h = (hx, tt)
  insert_ranked-All n x (y ∷ ys) hx (hy, h) = elim (Bool-cases (before F y x)) [
    | inl e ↦ rw e (hy, insert_ranked-All n x ys hx h)
    | inr e ↦ rw e (hx, (hy, h))
  ]

  sort_ranked-All :
      (n : ℕ) (xs : List (Ranked F))
      → All (λ (y : Ranked F). y.0 < n) xs
      → All (λ (y : Ranked F). y.0 < n) (sort_ranked F xs)
  unfolding sort_ranked
  sort_ranked-All n [] h = tt
  sort_ranked-All n (x ∷ xs) (hx, h) =
      insert_ranked-All n x (sort_ranked F xs) hx (sort_ranked-All n xs h)

  indices-All :
      (n : ℕ) (xs : List (Ranked F))
      → All (λ (y : Ranked F). y.0 < n) xs
      → All (λ i. i < n) (indices xs)
  indices-All n [] h = tt
  indices-All n (x ∷ xs) (hx, h) = (hx, indices-All n xs h)

  ranked-All :
      (i n : ℕ) (raws : List Double)
      → i + length raws ≤ n
      → All (λ (y : Ranked F). y.0 < n) (ranked F i raws)
  unfolding ranked
  ranked-All i n [] h = tt
  ranked-All i n (r ∷ raws) h = (omega arith, ranked-All (suc i) n raws (omega arith))

  length-ranked : (i : ℕ) (raws : List Double) → length (ranked F i raws) ≡ length raws
  unfolding ranked
  length-ranked i [] = refl
  length-ranked i (r ∷ raws) = ap suc (length-ranked (suc i) raws)

  -- The order of the nodes: as many indices as nodes, each of a node.
  pub length-order :
      (raws : List Double) → length (indices (sort_ranked F (ranked F 0 raws))) ≡ length raws
  length-order raws =
      length-map _ (sort_ranked F (ranked F 0 raws))
      ∙ length-sort_ranked (ranked F 0 raws)
      ∙ length-ranked 0 raws

  pub order-inside :
      (raws : List Double) → All (λ i. i < length raws) (indices (sort_ranked F (ranked F 0 raws)))
  order-inside raws =
      indices-All (length raws) _
        (sort_ranked-All (length raws) _ (ranked-All 0 _ raws (omega arith)))
