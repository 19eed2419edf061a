-- ===== src/Partition/Sums.antt =====
-- Sums of layer counts under single-node updates.
use terllama.Prelude.{
  ℕ, zero, suc, ◌+◌, ◌-◌, ◌≤◌, ◌<◌, ◌≡◌, refl, ap, List, [], ◌∷◌, length, get_or, set, length-set,
  arith,
}
use terllama.Partition.{sum, increment, decrement}

pub sum-set :
    (xs : List ℕ) (i v : ℕ) → i < length xs → sum (set xs i v) + get_or xs i 0 ≡ sum xs + v
sum-set [] i v h = absurd (omega arith)
sum-set (x ∷ xs) zero v h = omega arith
sum-set (x ∷ xs) (suc i) v h = omega (arith, sum-set xs i v (omega arith))

pub get_or-set_self : (xs : List ℕ) (i v : ℕ) → i < length xs → get_or (set xs i v) i 0 ≡ v
get_or-set_self [] i v h = absurd (omega arith)
get_or-set_self (x ∷ xs) zero v h = refl
get_or-set_self (x ∷ xs) (suc i) v h = get_or-set_self xs i v (omega arith)

pub get_or-set_ne :
    (xs : List ℕ) (i j v : ℕ) → (i ≡ j → ⊥) → get_or (set xs i v) j 0 ≡ get_or xs j 0
get_or-set_ne [] i j v h = refl
get_or-set_ne (x ∷ xs) zero zero v h = absurd (h refl)
get_or-set_ne (x ∷ xs) zero (suc j) v h = refl
get_or-set_ne (x ∷ xs) (suc i) zero v h = refl
get_or-set_ne (x ∷ xs) (suc i) (suc j) v h = get_or-set_ne xs i j v (λ e. h (ap suc e))

pub get_or-le-sum : (xs : List ℕ) (i : ℕ) → get_or xs i 0 ≤ sum xs
get_or-le-sum [] i = omega arith
get_or-le-sum (x ∷ xs) zero = omega arith
get_or-le-sum (x ∷ xs) (suc i) = omega (arith, get_or-le-sum xs i)

module _ (i : ℕ) (xs : List ℕ) (inside : i < length xs) where
  pub sum-increment : sum (increment i xs) ≡ sum xs + 1
  unfolding increment
  sum-increment = omega (arith, sum-set xs i (get_or xs i 0 + 1) inside)

  pub sum-decrement : 0 < get_or xs i 0 → sum (decrement i xs) + 1 ≡ sum xs
  unfolding decrement
  sum-decrement h = omega (arith, sum-set xs i (get_or xs i 0 - 1) inside)

module _ (i : ℕ) (xs : List ℕ) where
  pub length-increment : length (increment i xs) ≡ length xs
  unfolding increment
  length-increment = length-set xs i _

  pub length-decrement : length (decrement i xs) ≡ length xs
  unfolding decrement
  length-decrement = length-set xs i _

-- An index is inside, or reads the default.
pub get_or_pos-inside : (xs : List ℕ) (i : ℕ) → 0 < get_or xs i 0 → i < length xs
get_or_pos-inside [] i h = absurd (omega arith)
get_or_pos-inside (x ∷ xs) zero h = omega arith
get_or_pos-inside (x ∷ xs) (suc i) h = omega (arith, get_or_pos-inside xs i h)
