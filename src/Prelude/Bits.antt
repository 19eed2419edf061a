-- ===== src/Prelude/Bits.antt =====
-- `&` with a mask and `|` of disjoint fields, as arithmetic.
use Prim.Native.Nat.{
  ℕ, zero, suc, ◌+◌, ◌-◌, ◌*◌, ◌/◌, ◌%◌, ◌^◌, ◌≤◌, ◌<◌, min, max, bit_and, bit_or, digits,
  bit_and-bitwise, bit_or-bitwise,
}
use mathlib.Core.Path.{◌≡◌, refl, sym, ap, ap₂, ◌∙◌}
use native.Mathlib.Omega.{arith}
use native.Mathlib.Nat.{pow-succ', one-le-pow, div-add-mod, mod-lt, div-div-eq-div-mul}

-- The recursion on digits does not depend on its count, once that is no less than the number.
module _ (z : ℕ → ℕ) (f : ℕ → ℕ → ℕ) where
  count_irrelevant : (m n a b : ℕ) → a ≤ m → a ≤ n → digits z f m a b ≡ digits z f n a b
  count_irrelevant m n zero b hm hn = at_zero m b ∙ sym (at_zero n b)
    where
      at_zero : (k b : ℕ) → digits z f k zero b ≡ z b
      at_zero zero b = refl
      at_zero (suc k) b = refl
  count_irrelevant zero n (suc a) b hm hn = absurd (omega arith)
  count_irrelevant (suc m) zero (suc a) b hm hn = absurd (omega arith)
  count_irrelevant (suc m) (suc n) (suc a) b hm hn =
      ap (λ t. t * 2 + f (suc a % 2) (b % 2))
        (count_irrelevant m n (suc a / 2) (b / 2) (omega arith) (omega arith))

  peel :
      (a b : ℕ)
      → digits z f (suc a) (suc a) b
        ≡ digits z f (suc a / 2) (suc a / 2) (b / 2) * 2 + f (suc a % 2) (b % 2)
  peel a b =
      ap (λ t. t * 2 + f (suc a % 2) (b % 2))
        (count_irrelevant a (suc a / 2) (suc a / 2) (b / 2) (omega arith) (omega arith))

-- One binary digit of each operation.
pub bit_or_digit : (a b : ℕ) → bit_or a b ≡ bit_or (a / 2) (b / 2) * 2 + max (a % 2) (b % 2)
bit_or_digit zero b = omega (arith, bit_or-bitwise 0 b, bit_or-bitwise 0 (b / 2))
bit_or_digit (suc a) b =
    omega
      (arith, bit_or-bitwise (suc a) b, bit_or-bitwise (suc a / 2) (b / 2), peel (λ y. y) max a b)

pub bit_and_digit : (a b : ℕ) → bit_and a b ≡ bit_and (a / 2) (b / 2) * 2 + min (a % 2) (b % 2)
bit_and_digit zero b = omega (arith, bit_and-bitwise 0 b, bit_and-bitwise 0 (b / 2))
bit_and_digit (suc a) b =
    omega
      (arith, bit_and-bitwise (suc a) b, bit_and-bitwise (suc a / 2) (b / 2), peel (λ y. 0) min a b)

double_pow : (q k : ℕ) → q * 2 ^ suc k ≡ 2 * (q * 2 ^ k)
double_pow q k = omega (arith, ap (λ (t : ℕ). q * t) (pow-succ' 2 k))

bit_or-zero_below : (n a : ℕ) → a ≤ n → bit_or a 0 ≡ a
bit_or-zero_below n zero h = refl
bit_or-zero_below zero (suc a) h = absurd (omega arith)
bit_or-zero_below (suc n) (suc a) h =
    omega (arith, bit_or_digit (suc a) 0, bit_or-zero_below n (suc a / 2) (omega arith))

bit_and-zero_below : (n a : ℕ) → a ≤ n → bit_and a 0 ≡ 0
bit_and-zero_below n zero h = refl
bit_and-zero_below zero (suc a) h = absurd (omega arith)
bit_and-zero_below (suc n) (suc a) h =
    omega (arith, bit_and_digit (suc a) 0, bit_and-zero_below n (suc a / 2) (omega arith))

-- A field above bit `k` joined with one below it.
pub bit_or-fields : (k q r : ℕ) → r < 2 ^ k → bit_or (q * 2 ^ k) r ≡ q * 2 ^ k + r
bit_or-fields zero q r h = ground (arith, bit_or-zero_below q q (omega arith))
bit_or-fields (suc k) q r h =
    let shifted : q * 2 ^ suc k / 2 ≡ q * 2 ^ k = omega (arith, double_pow q k) in
    let even : q * 2 ^ suc k % 2 ≡ 0 = omega (arith, double_pow q k) in
    omega (
      arith,
      bit_or_digit (q * 2 ^ suc k) r
          ∙ ap (λ t. bit_or t (r / 2) * 2 + max (q * 2 ^ suc k % 2) (r % 2)) shifted,
      even,
      double_pow q k,
      bit_or-fields k q (r / 2) (omega (arith, pow-succ' 2 k)),
    )

-- The low `k` bits.
bit_and-low_fields : (k q r : ℕ) → r < 2 ^ k → bit_and (q * 2 ^ k + r) (2 ^ k - 1) ≡ r
bit_and-low_fields zero q r h =
    ground (arith, bit_and-zero_below (q * 1 + r) (q * 1 + r) (omega arith))
bit_and-low_fields (suc k) q r h =
    let half : (q * 2 ^ suc k + r) / 2 ≡ q * 2 ^ k + r / 2 = omega (arith, double_pow q k) in
    let digit : (q * 2 ^ suc k + r) % 2 ≡ r % 2 = omega (arith, double_pow q k) in
    let mask : (2 ^ suc k - 1) / 2 ≡ 2 ^ k - 1 = omega (arith, pow-succ' 2 k, one-le-pow k 2) in
    let one : (2 ^ suc k - 1) % 2 ≡ 1 = omega (arith, pow-succ' 2 k, one-le-pow k 2) in
    omega (
      arith,
      bit_and_digit (q * 2 ^ suc k + r) (2 ^ suc k - 1)
          ∙ ap₂ (λ s t. bit_and s t * 2 + min ((q * 2 ^ suc k + r) % 2) ((2 ^ suc k - 1) % 2)) half
              mask,
      digit,
      one,
      bit_and-low_fields k q (r / 2) (omega (arith, pow-succ' 2 k)),
    )

pub bit_and-low : (k a : ℕ) → bit_and a (2 ^ k - 1) ≡ a % 2 ^ k
bit_and-low k a =
    let split : a / 2 ^ k * 2 ^ k + a % 2 ^ k ≡ a = omega (arith, div-add-mod a (2 ^ k)) in
    ap (λ t. bit_and t (2 ^ k - 1)) (sym split)
    ∙ bit_and-low_fields k (a / 2 ^ k) (a % 2 ^ k) (mod-lt a (one-le-pow k 2 (omega arith)))

-- A mask from bit `k` up reads the number from bit `k` up.
pub bit_and-field : (k a m : ℕ) → bit_and a (m * 2 ^ k) ≡ bit_and (a / 2 ^ k) m * 2 ^ k
bit_and-field zero a m =
    let same : a ≡ a / 1 = omega arith in
    let one : m * 1 ≡ m = omega arith in omega (arith, ap₂ bit_and same one)
bit_and-field (suc k) a m =
    let down : m * 2 ^ suc k / 2 ≡ m * 2 ^ k = omega (arith, double_pow m k) in
    let even : m * 2 ^ suc k % 2 ≡ 0 = omega (arith, double_pow m k) in
    let deep : a / 2 / 2 ^ k ≡ a / 2 ^ suc k =
      div-div-eq-div-mul a 2 (2 ^ k) ∙ ap (λ t. a / t) (sym (pow-succ' 2 k)) in
    omega (
      arith,
      bit_and_digit a (m * 2 ^ suc k)
          ∙ ap (λ t. bit_and (a / 2) t * 2 + min (a % 2) (m * 2 ^ suc k % 2)) down,
      even,
      bit_and-field k (a / 2) m ∙ ap (λ t. bit_and t m * 2 ^ k) deep,
      double_pow (bit_and (a / 2 ^ suc k) m) k,
    )
