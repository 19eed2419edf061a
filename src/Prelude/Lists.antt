-- ===== src/Prelude/Lists.antt =====
-- Lists measured, cut and indexed by native numbers, under the library's names.
use Prim.Native.Nat.{ℕ, zero, suc, ◌+◌, ◌-◌, ◌≤◌, ◌<◌, min}
use Prim.Native.Nat.add
use mathlib.Core.Path.{◌≡◌, refl, sym, ap, ◌∙◌, subst}
use mathlib.Core.Logic.{◌≢◌}
use mathlib.Core.List.{List, [], ◌∷◌, ◌++◌, map}
use mathlib.Core.Option.{Option, none, some}
use native.Mathlib.Omega.{arith}

module _ {ℓ} {A : Type ℓ} where
  abbrev pub length : List A → ℕ
  length [] = 0
  length (x ∷ xs) = suc (length xs)

  abbrev pub get_elem? : List A → ℕ → Option A
  get_elem? [] i = none
  get_elem? (x ∷ xs) zero = some x
  get_elem? (x ∷ xs) (suc i) = get_elem? xs i

  abbrev pub get_or : List A → ℕ → A → A
  get_or [] i d = d
  get_or (x ∷ xs) zero d = x
  get_or (x ∷ xs) (suc i) d = get_or xs i d

  -- A write out of bounds changes nothing.
  abbrev pub set : List A → ℕ → A → List A
  set [] i v = []
  set (x ∷ xs) zero v = v ∷ xs
  set (x ∷ xs) (suc i) v = x ∷ set xs i v

  abbrev pub take : ℕ → List A → List A
  take zero xs = []
  take (suc n) [] = []
  take (suc n) (x ∷ xs) = x ∷ take n xs

  abbrev pub drop : ℕ → List A → List A
  drop zero xs = xs
  drop (suc n) [] = []
  drop (suc n) (x ∷ xs) = drop n xs

  abbrev pub replicate : ℕ → A → List A
  replicate zero a = []
  replicate (suc n) a = a ∷ replicate n a

  abbrev pub All {κ} : (A → Type κ) → List A → Type κ
  All P [] = Unit {κ}
  All P (x ∷ xs) = P x × All P xs

  pub length-append : (xs ys : List A) → length (xs ++ ys) ≡ length xs + length ys
  length-append [] ys = omega arith
  length-append (x ∷ xs) ys = omega (arith, length-append xs ys)

  pub length-take : (n : ℕ) (xs : List A) → length (take n xs) ≡ min n (length xs)
  length-take zero xs = omega arith
  length-take (suc n) [] = omega arith
  length-take (suc n) (x ∷ xs) = omega (arith, length-take n xs)

  pub length-drop : (n : ℕ) (xs : List A) → length (drop n xs) ≡ length xs - n
  length-drop zero xs = omega arith
  length-drop (suc n) [] = omega arith
  length-drop (suc n) (x ∷ xs) = omega (arith, length-drop n xs)

  pub length-replicate : (n : ℕ) (a : A) → length (replicate n a) ≡ n
  length-replicate zero a = refl
  length-replicate (suc n) a = ap suc (length-replicate n a)

  pub length-set : (xs : List A) (i : ℕ) (v : A) → length (set xs i v) ≡ length xs
  length-set [] i v = refl
  length-set (x ∷ xs) zero v = refl
  length-set (x ∷ xs) (suc i) v = ap suc (length-set xs i v)

  -- Cutting at the seam of two lists.
  pub take-append_left : (n : ℕ) (xs ys : List A) → length xs ≡ n → take n (xs ++ ys) ≡ xs
  take-append_left zero [] ys h = refl
  take-append_left zero (x ∷ xs) ys h = absurd (omega arith)
  take-append_left (suc n) [] ys h = absurd (omega arith)
  take-append_left (suc n) (x ∷ xs) ys h = ap (◌∷◌ x) (take-append_left n xs ys (omega arith))

  pub drop-append_left : (n : ℕ) (xs ys : List A) → length xs ≡ n → drop n (xs ++ ys) ≡ ys
  drop-append_left zero [] ys h = refl
  drop-append_left zero (x ∷ xs) ys h = absurd (omega arith)
  drop-append_left (suc n) [] ys h = absurd (omega arith)
  drop-append_left (suc n) (x ∷ xs) ys h = drop-append_left n xs ys (omega arith)

  pub take-append-drop : (n : ℕ) (xs : List A) → take n xs ++ drop n xs ≡ xs
  take-append-drop zero xs = refl
  take-append-drop (suc n) [] = refl
  take-append-drop (suc n) (x ∷ xs) = ap (◌∷◌ x) (take-append-drop n xs)

  pub take_all : (n : ℕ) (xs : List A) → length xs ≤ n → take n xs ≡ xs
  take_all zero [] h = refl
  take_all zero (x ∷ xs) h = absurd (omega arith)
  take_all (suc n) [] h = refl
  take_all (suc n) (x ∷ xs) h = ap (◌∷◌ x) (take_all n xs (omega arith))

  pub All-append {κ} : (P : A → Type κ) (xs ys : List A) → All P xs → All P ys → All P (xs ++ ys)
  All-append P [] ys nothing both = both
  All-append P (x ∷ xs) ys (first, others) both = (first, All-append P xs ys others both)

pub length-map {ℓ κ} :
    {A : Type ℓ} {B : Type κ} (f : A → B) (xs : List A) → length (map f xs) ≡ length xs
length-map f [] = refl
length-map f (x ∷ xs) = ap suc (length-map f xs)

module _ {ℓ} {A : Type ℓ} where
  -- A window that ends inside a prefix reads the same in the prefix.
  pub window-take :
      (k j n : ℕ) (xs : List A) → j + k ≤ n → take k (drop j (take n xs)) ≡ take k (drop j xs)
  window-take zero j n xs h = refl
  window-take (suc k) zero zero xs h = absurd (omega arith)
  window-take (suc k) zero (suc n) [] h = refl
  window-take (suc k) zero (suc n) (x ∷ xs) h = ap (◌∷◌ x) (window-take k zero n xs (omega arith))
  window-take (suc k) (suc j) zero xs h = absurd (omega arith)
  window-take (suc k) (suc j) (suc n) [] h = refl
  window-take (suc k) (suc j) (suc n) (x ∷ xs) h = window-take (suc k) j n xs (omega arith)

  pub All-take {κ} : (P : A → Type κ) (n : ℕ) (xs : List A) → All P xs → All P (take n xs)
  All-take P zero xs h = tt
  All-take P (suc n) [] h = tt
  All-take P (suc n) (x ∷ xs) h = (h.0, All-take P n xs h.1)

  pub All-drop {κ} : (P : A → Type κ) (n : ℕ) (xs : List A) → All P xs → All P (drop n xs)
  All-drop P zero xs h = h
  All-drop P (suc n) [] h = tt
  All-drop P (suc n) (x ∷ xs) h = All-drop P n xs h.1

  pub drop-nil : (n : ℕ) → drop {A = A} n [] ≡ []
  drop-nil zero = refl
  drop-nil (suc n) = refl

  pub drop-add : (m n : ℕ) (xs : List A) → drop (m + n) xs ≡ drop n (drop m xs)
  drop-add zero n xs = ap (λ k. drop k xs) (add.zero n)
  drop-add (suc m) n [] = drop-nil (suc m + n) ∙ sym (drop-nil n)
  drop-add (suc m) n (x ∷ xs) = ap (λ k. drop k (x ∷ xs)) (add.suc m n) ∙ drop-add m n xs

  -- Reading at an index.
  pub get_elem?-append_left :
      (i : ℕ) (xs ys : List A) (a : A) → get_elem? xs i ≡ some a → get_elem? (xs ++ ys) i ≡ some a
  get_elem?-append_left i [] ys a h = absurd (cc h)
  get_elem?-append_left zero (x ∷ xs) ys a h = h
  get_elem?-append_left (suc i) (x ∷ xs) ys a h = get_elem?-append_left i xs ys a h

  pub get_elem?-append_right :
      (n i : ℕ) (xs ys : List A) → length xs ≡ n → get_elem? (xs ++ ys) (n + i) ≡ get_elem? ys i
  get_elem?-append_right zero i [] ys h = ap (get_elem? ys) (add.zero i)
  get_elem?-append_right zero i (x ∷ xs) ys h = absurd (omega arith)
  get_elem?-append_right (suc n) i [] ys h = absurd (omega arith)
  get_elem?-append_right (suc n) i (x ∷ xs) ys h =
      ap (get_elem? (x ∷ (xs ++ ys))) (add.suc n i) ∙ get_elem?-append_right n i xs ys (omega arith)

  pub get_elem?-some : (i : ℕ) (xs : List A) → i < length xs → (a : A) × (get_elem? xs i ≡ some a)
  get_elem?-some i [] h = absurd (omega arith)
  get_elem?-some zero (x ∷ xs) h = (x, refl)
  get_elem?-some (suc i) (x ∷ xs) h = get_elem?-some i xs (omega arith)

  -- Writing at an index.
  pub get_elem?-set_self :
      (xs : List A) (i : ℕ) (a : A) → i < length xs → get_elem? (set xs i a) i ≡ some a
  get_elem?-set_self [] i a h = absurd (omega arith)
  get_elem?-set_self (x ∷ xs) zero a h = refl
  get_elem?-set_self (x ∷ xs) (suc i) a h = get_elem?-set_self xs i a (omega arith)

  pub get_elem?-set_other :
      (xs : List A) (i j : ℕ) (a : A) → i ≢ j → get_elem? (set xs i a) j ≡ get_elem? xs j
  get_elem?-set_other [] i j a h = refl
  get_elem?-set_other (x ∷ xs) zero zero a h = absurd (omega arith)
  get_elem?-set_other (x ∷ xs) zero (suc j) a h = refl
  get_elem?-set_other (x ∷ xs) (suc i) zero a h = refl
  get_elem?-set_other (x ∷ xs) (suc i) (suc j) a h = get_elem?-set_other xs i j a (omega arith)

  pub All-set {κ} :
      (P : A → Type κ) (xs : List A) (i : ℕ) (a : A) → All P xs → P a → All P (set xs i a)
  All-set P [] i a h pa = tt
  All-set P (x ∷ xs) zero a h pa = (pa, h.1)
  All-set P (x ∷ xs) (suc i) a h pa = (h.0, All-set P xs i a h.1 pa)

  pub All-get {κ} :
      (P : A → Type κ) (xs : List A) (i : ℕ) (a : A) → All P xs → get_elem? xs i ≡ some a → P a
  All-get P [] i a h at = absurd (cc at)
  All-get P (x ∷ xs) zero a h at = let same : x ≡ a = cc at in subst P same h.0
  All-get P (x ∷ xs) (suc i) a h at = All-get P xs i a h.1 at

  pub All-replicate {κ} : (P : A → Type κ) (n : ℕ) (a : A) → P a → All P (replicate n a)
  All-replicate P zero a h = tt
  All-replicate P (suc n) a h = (h, All-replicate P n a h)

  pub get_elem?-replicate : (n i : ℕ) (a : A) → i < n → get_elem? (replicate n a) i ≡ some a
  get_elem?-replicate zero i a h = absurd (omega arith)
  get_elem?-replicate (suc n) zero a h = refl
  get_elem?-replicate (suc n) (suc i) a h = get_elem?-replicate n i a (omega arith)
