-- ===== src/Partition.antt =====
-- Memory-proportional layer allocation (distributed/partitioner.h, with the ShardSpec of
-- distributed/protocol.h). `double` is a type with its operations, a parameter. Layer counts and
-- byte counts are numbers: no caller passes a negative one.
pub mod Sums
pub mod Spread
pub mod Raise
pub mod Allocate
pub mod Shards
mod Runs
use terllama.Protocol.{ShardSpec}
use mathlib.Core.List.{foldl}
use terllama.Prelude.{
  ℕ, zero, suc, ◌+◌, ◌-◌, Bool, true, not, ◌||◌, Option, none, some, List, [], ◌∷◌, map, length,
  get_or, set, ltb, leb, ◌==◌, if◌then◌else◌,
}

-- What the code uses of `double`. `floor` is the cast of `std::floor` to `int`, and is applied to
-- values that are not negative.
pub record Doubles : Type 1 where
  pub Double : Type 0
  pub of_nat : ℕ → Double
  pub add : Double → Double → Double
  pub sub : Double → Double → Double
  pub mul : Double → Double → Double
  pub div : Double → Double → Double
  pub lt : Double → Double → Bool
  pub eq : Double → Double → Bool
  pub floor : Double → ℕ

-- The exceptions of the two functions; `out_of_bounds` is the undefined behaviour of reading
-- `order` past its end.
pub data Error : Type 0 where
  zero_nodes too_few_layers no_donor out_of_bounds bad_world_size size_mismatch : Error
  insufficient_ram : ℕ → Error

pub data Result {ℓ} (A : Type ℓ) : Type ℓ where
  ok : A → Result A
  err : Error → Result A

infixl 5 ◌>>=◌
abbrev pub ◌>>=◌ {ℓ κ} : {A : Type ℓ} {B : Type κ} → Result A → (A → Result B) → Result B
ok a >>= f = f a
err e >>= f = err e

abbrev pub sum : List ℕ → ℕ
sum [] = 0
sum (x ∷ xs) = x + sum xs

-- `result[i]++` and `result[i]--`.
unfoldable pub increment : ℕ → List ℕ → List ℕ
increment i xs = set xs i (get_or xs i 0 + 1)

unfoldable pub decrement : ℕ → List ℕ → List ℕ
decrement i xs = set xs i (get_or xs i 0 - 1)

-- One layer more for each of the first `remaining` nodes of `order`.
unfoldable pub distribute : ℕ → List ℕ → List ℕ → Result (List ℕ)
distribute zero order result = ok result
distribute (suc remaining) [] result = err out_of_bounds
distribute (suc remaining) (i ∷ order) result = distribute remaining order (increment i result)

-- A candidate donor: its index and its count.
abbrev pub Best : Type 0
Best = Option (ℕ × ℕ)

unfoldable pub beats : ℕ → Best → Bool
beats c none = true
beats c (some (j, d)) = ltb d c

-- The scan for `max_j`; `j` is the index of the head of the list.
unfoldable pub largest : ℕ → ℕ → Best → List ℕ → Best
largest i j best [] = best
largest i j best (c ∷ cs) =
    largest i (suc j)
      (if j == i || leb c 1 then best else if beats c best then some (j, c) else best) cs

unfoldable pub take_from : ℕ → List ℕ → Best → Result (List ℕ)
take_from i result none = err no_donor
take_from i result (some (j, d)) = ok (increment i (decrement j result))

-- The body of the loop that raises every node to one layer.
unfoldable pub raise_node : ℕ → List ℕ → Result (List ℕ)
raise_node i result =
    if ltb 0 (get_or result i 0) then ok result else take_from i result (largest i 0 none result)

-- `todo` rounds from index `i` on.
unfoldable pub raise_all : ℕ → ℕ → List ℕ → Result (List ℕ)
raise_all zero i result = ok result
raise_all (suc todo) i result = do result' ← raise_node i result; raise_all todo (suc i) result'

module _ (F : Doubles) where
  open F use {Double, of_nat, add, sub, mul, div, lt, eq, floor}

  unfoldable pub raw_share : ℕ → Double → Double
  raw_share total_layers frac =
      mul (if lt frac (of_nat 0) then of_nat 0 else frac) (of_nat total_layers)

  -- A node's index with the fractional part of its share.
  abbrev pub Ranked : Type 0
  Ranked = ℕ × Double

  unfoldable pub ranked : ℕ → List Double → List Ranked
  ranked i [] = []
  ranked i (raw ∷ raws) = (i, sub raw (of_nat (floor raw))) ∷ ranked (suc i) raws

  -- The comparison of the sort.
  unfoldable pub before : Ranked → Ranked → Bool
  before (a, ra) (b, rb) = if not (eq ra rb) then lt rb ra else ltb a b

  -- `std::stable_sort`, by insertion.
  unfoldable pub insert_ranked : Ranked → List Ranked → List Ranked
  insert_ranked x [] = x ∷ []
  insert_ranked x (y ∷ ys) = if before y x then y ∷ insert_ranked x ys else x ∷ y ∷ ys

  unfoldable pub sort_ranked : List Ranked → List Ranked
  sort_ranked [] = []
  sort_ranked (x ∷ xs) = insert_ranked x (sort_ranked xs)

  unfoldable pub allocate_layers_proportionally : ℕ → List Double → Result (List ℕ)
  allocate_layers_proportionally total_layers memory_fractions =
      let n = length memory_fractions in
      let raw = map (raw_share total_layers) memory_fractions in
      let result = map floor raw in
      let order = map (λ (x : Ranked). x.0) (sort_ranked (ranked 0 raw)) in
      if n == 0
      then err zero_nodes
      else if ltb total_layers n
      then err too_few_layers
      else (distribute (total_layers - sum result) order result >>= raise_all n 0)

  -- Normalised available memory, or equal parts where no node reports any.
  unfoldable pub fractions : ℕ → List ℕ → List Double
  fractions world_size ram =
      let total_ram = foldl (λ t b. add t (of_nat b)) (of_nat 0) ram in
      if lt (of_nat 0) total_ram
      then map (λ b. div (of_nat b) total_ram) ram
      else map (λ b. div (of_nat 1) (of_nat world_size)) ram

  -- The loop that lays the ranges end to end and checks each node's memory.
  unfoldable pub build_shards : ℕ → ℕ → ℕ → ℕ → ℕ → List ℕ → List ℕ → Result (List ShardSpec)
  build_shards n_layers world_size model_size i start [] ram = ok []
  build_shards n_layers world_size model_size i start (c ∷ counts) [] = err size_mismatch
  build_shards n_layers world_size model_size i start (c ∷ counts) (r ∷ ram) =
      let end_layer = start + c in
      let need = div (mul (of_nat model_size) (of_nat c)) (of_nat n_layers) in
      let rest = build_shards n_layers world_size model_size (suc i) end_layer counts ram in
      if lt (of_nat r) need
      then err (insufficient_ram i)
      else (rest >>= λ shards. ok (
          record {
            device_rank = i;
            world_size = world_size;
            start_layer = start;
            end_layer = end_layer;
            n_layers = n_layers;
            is_first = start == 0;
            is_last = end_layer == n_layers;
          }
          ∷ shards))

  unfoldable pub compute_shards : ℕ → ℕ → List ℕ → ℕ → Result (List ShardSpec)
  compute_shards n_layers world_size ram model_size =
      if world_size == 0
      then err bad_world_size
      else if ltb n_layers world_size
      then err too_few_layers
      else if not (world_size == length ram)
      then err size_mismatch
      else (allocate_layers_proportionally n_layers (fractions world_size ram) >>= λ counts.
          build_shards n_layers world_size model_size 0 0 counts ram)
