-- ===== src/ModelFile/Names.antt =====
-- The layer numbers in names: parse_layer_index of distributed/shard_loader.h against what such a name is.
use terllama.Prelude.{
  ℕ, ◌+◌, ◌-◌, ◌*◌, ◌^◌, ◌≤◌, ◌<◌, ◌≡◌, refl, sym, ap, ◌∙◌, Bool, true, false, Option, none, some,
  ◌⊎◌, inl, inr, List, [], ◌∷◌, ◌++◌, length, take, drop, All, arith, ltb, ◌==◌, Bool-cases,
  take-append-drop,
}
use mathlib.Core.Path.{subst}
use terllama.Prelude.Results.{ok}
use terllama.ModelFile.{layers_prefix, same_name, dotted_number, in_int, parse_layer_index, isdigit}

-- "model.layers."
abbrev pub front : List ℕ
front =
    b'm' ∷ b'o' ∷ b'd' ∷ b'e' ∷ b'l' ∷ b'.' ∷ b'l' ∷ b'a' ∷ b'y' ∷ b'e' ∷ b'r' ∷ b's' ∷ b'.' ∷ []

abbrev pub IsDigit : ℕ → Type 0
IsDigit c = (b'0' ≤ c) × (c ≤ b'9')

-- The decimal number, after `n`.
unfoldable pub decimal : ℕ → List ℕ → ℕ
decimal n [] = n
decimal n (c ∷ digits) = decimal (n * 10 + (c - b'0')) digits

-- The name of something in layer `i`: "model.layers.", digits, a dot and any text.
pub record HasIndex (name : List ℕ) (i : ℕ) : Type 0 where
  pub digits : List ℕ
  pub rest : List ℕ
  pub is : name ≡ front ++ (digits ++ b'.' ∷ rest)
  pub are_digits : All IsDigit digits
  pub some_digits : 0 < length digits
  pub number : decimal 0 digits ≡ i

pub same_name-eq : (a b : List ℕ) → same_name a b ≡ true → a ≡ b
same_name-eq [] [] h = refl
same_name-eq [] (d ∷ b) h = absurd (cc h)
same_name-eq (c ∷ a) [] h = absurd (cc h)
same_name-eq (c ∷ a) (d ∷ b) h = elim (Bool-cases (c == d)) [
  | inl e ↦
      let same : c ≡ d = ground (arith, e) in
      let others : same_name a b ≡ true = rw e at h in (λ i. same i ∷ same_name-eq a b others i)
  | inr e ↦ absurd (let wrong = rw e at h in cc wrong)
]

pub same_name_refl : (a : List ℕ) → same_name a a ≡ true
same_name_refl [] = refl
same_name_refl (c ∷ a) = let e : (c == c) ≡ true = ground arith in rw e (same_name_refl a)

-- What dotted_number finds.
record Found (seen : Bool) (n : ℕ) (s : List ℕ) (i : ℕ) : Type 0 where
  digits : List ℕ
  rest : List ℕ
  is : s ≡ digits ++ b'.' ∷ rest
  are_digits : All IsDigit digits
  some_digits : (seen ≡ true) ⊎ (0 < length digits)
  number : decimal n digits ≡ i

found :
    (seen : Bool) (n : ℕ) (s : List ℕ) (i : ℕ) → dotted_number seen n s ≡ some i → Found seen n s i
unfolding dotted_number decimal
found seen n [] i h = absurd (cc h)
found seen n (c ∷ s) i h = elim (Bool-cases (c == 46)) [
  | inl e ↦
      let dot : c ≡ 46 = ground (arith, e) in
      elim (Bool-cases seen) [
        | inl yes_seen ↦
            let h' = rw (e, yes_seen) at h in
            record {
              digits = [];
              rest = s;
              is = ap (λ (d : ℕ). d ∷ s) dot;
              are_digits = tt;
              some_digits = inl yes_seen;
              number = cc h';
            }
        | inr not_seen ↦ absurd (let h' = rw (e, not_seen) at h in cc h')
      ]
  | inr e ↦ elim (Bool-cases (isdigit c)) [
    | inl d ↦
        let f = found true (n * 10 + (c - 48)) s i (rw (e, d) at h) in
        record {
          digits = c ∷ f.digits;
          rest = f.rest;
          is = ap (λ (l : List ℕ). c ∷ l) f.is;
          are_digits = (ground (arith, d), f.are_digits);
          some_digits = inr (omega arith);
          number = f.number;
        }
    | inr d ↦ absurd (let h' = rw (e, d) at h in cc h')
  ]
]

read_digits :
    (seen : Bool) (n : ℕ) (digits rest : List ℕ)
    → All IsDigit digits
    → (seen ≡ true) ⊎ (0 < length digits)
    → dotted_number seen n (digits ++ b'.' ∷ rest) ≡ some (decimal n digits)
unfolding dotted_number decimal
read_digits seen n [] rest h (inl yes_seen) = rw yes_seen refl
read_digits seen n [] rest h (inr some_digits) = absurd (omega (arith, some_digits))
read_digits seen n (c ∷ digits) rest (hc, h) some_digits =
    let not_dot : (c == 46) ≡ false = ground (arith, hc.0) in
    let digit : isdigit c ≡ true = ground (arith, hc.0, hc.1) in
    rw (not_dot, digit) (read_digits true (n * 10 + (c - 48)) digits rest h (inl refl))

-- A name with an index is read as it.
pub indexed : (name : List ℕ) (i : ℕ) → HasIndex name i → parse_layer_index name ≡ in_int (some i)
unfolding parse_layer_index
indexed name i h =
    let tail = h.digits ++ b'.' ∷ h.rest in
    let number = read_digits false 0 h.digits h.rest h.are_digits (inr h.some_digits) in
    subst (λ (l : List ℕ). parse_layer_index l ≡ in_int (some i)) (sym h.is)
      (unfold parse_layer_index in (rw number (ap (λ (m : ℕ). in_int (some m)) h.number)))

-- A number that is found is the index.
number-HasIndex :
    (name : List ℕ) (i : ℕ)
    → same_name (take 13 name) layers_prefix ≡ true
    → dotted_number false 0 (drop 13 name) ≡ some i
    → HasIndex name i
number-HasIndex name i begins e =
    let f = found false 0 (drop 13 name) i e in
    let front_same : take 13 name ≡ front = same_name-eq (take 13 name) front begins in
    record {
      digits = f.digits;
      rest = f.rest;
      is =
          sym (take-append-drop 13 name)
          ∙ ap (λ (l : List ℕ). l ++ drop 13 name) front_same
          ∙ ap (λ (l : List ℕ). front ++ l) f.is;
      are_digits = f.are_digits;
      some_digits = elim f.some_digits [ inl wrong ↦ absurd (cc wrong) | inr digits ↦ digits ];
      number = f.number;
    }

-- A name has an index, which is read as an int where it fits, or is read as none.
pub index_cases :
    (name : List ℕ)
    → ((i : ℕ) × HasIndex name i × (parse_layer_index name ≡ in_int (some i)))
      ⊎ (parse_layer_index name ≡ ok none)
unfolding parse_layer_index
index_cases name = elim (Bool-cases (same_name (take 13 name) layers_prefix)) [
  | inr other ↦ inr (rw other refl)
  | inl begins ↦ go (dotted_number false 0 (drop 13 name)) begins refl
]
  where
    go :
        (m : Option ℕ)
        → same_name (take 13 name) layers_prefix ≡ true
        → dotted_number false 0 (drop 13 name) ≡ m
        → ((i : ℕ) × HasIndex name i × (parse_layer_index name ≡ in_int (some i)))
          ⊎ (parse_layer_index name ≡ ok none)
    go none begins e = inr (rw (begins, e) refl)
    go (some i) begins e = inl (i, number-HasIndex name i begins e, rw (begins, e) refl)

-- A name whose index is read has no other index.
pub one_index :
    (name : List ℕ) (i j : ℕ) → parse_layer_index name ≡ ok (some i) → HasIndex name j → i ≡ j
one_index name i j e h =
    let both : ok (some i) ≡ in_int (some j) = sym e ∙ indexed name j h in
    elim (Bool-cases (ltb j (2 ^ 31))) [
      | inl fits ↦ let same = rw fits at both in cc same
      | inr large ↦ absurd (let wrong = rw large at both in cc wrong)
    ]

pub no_index_read : (name : List ℕ) (j : ℕ) → parse_layer_index name ≡ ok none → HasIndex name j → ⊥
no_index_read name j e h =
    let both : ok none ≡ in_int (some j) = sym e ∙ indexed name j h in
    elim (Bool-cases (ltb j (2 ^ 31))) [
      | inl fits ↦ let wrong = rw fits at both in absurd (cc wrong)
      | inr large ↦ let wrong = rw large at both in absurd (cc wrong)
    ]
