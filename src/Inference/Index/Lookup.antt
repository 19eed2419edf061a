-- ===== src/Inference/Index/Lookup.antt =====
-- The index cache gives what a search by name gives (cached_attn_idx and cached_mlp_idx of
-- src/core/inference.cpp).
use terllama.Prelude.{
  ℕ, zero, suc, ◌-◌, ◌≤◌, ◌<◌, ◌≡◌, refl, ap, sym, ◌∙◌, ◌⊎◌, inl, inr, true, Option, none, some,
  List, [], ◌∷◌, ◌++◌, length, take, set, replicate, arith, get_elem?, get_elem?-some, leb, ==_iff,
  Bool-cases, length-append, length-replicate, length-set, take_all,
}
use terllama.Prelude.Results.{Result, ok, err}
use terllama.Inference.{Error, Layer}
use terllama.Inference.Index.{
  AttnIndex, MlpIndex, IndexCache, resize, attn_names, mlp_names, owned_by, adopt, both_resized,
  grow_attn, grow_mlp, keep_attn, resolve_attn, cached_attn_idx, keep_mlp, resolve_mlp, own_mlp_idx,
  cached_mlp_idx,
}

-- The entries that are resolved are those that `names` finds.
abbrev pub AllRight : {A : Type 0} → (ℕ → Result Error A) → List (Option A) → Type 0
AllRight {A} names xs = (j : ℕ) (a : A) → get_elem? xs j ≡ some (some a) → names j ≡ ok a

module _ {A : Type 0} where
  get-padded :
      (n j : ℕ) (xs : List (Option A)) (a : A)
      → get_elem? (xs ++ replicate n none) j ≡ some (some a)
      → get_elem? xs j ≡ some (some a)
  get-padded zero j [] a h = absurd (cc h)
  get-padded (suc n) zero [] a h = absurd (cc h)
  get-padded (suc n) (suc j) [] a h = get-padded n j [] a h
  get-padded n zero (x ∷ xs) a h = h
  get-padded n (suc j) (x ∷ xs) a h = get-padded n j xs a h

  length-resize : (n : ℕ) (xs : List (Option A)) → length xs ≤ n → length (resize n none xs) ≡ n
  length-resize n xs h = rw (take_all n xs h) (
      omega (
        arith,
        h,
        length-append xs (replicate {A = Option A} (n - length xs) none),
        length-replicate {A = Option A} (n - length xs) none,
      ))

  get-set :
      (xs : List (Option A)) (i j : ℕ) (a b : A)
      → get_elem? (set xs i (some a)) j ≡ some (some b)
      → ((i ≡ j) × (a ≡ b)) ⊎ (get_elem? xs j ≡ some (some b))
  get-set [] i j a b h = absurd (cc h)
  get-set (x ∷ xs) zero zero a b h = inl (refl, cc h)
  get-set (x ∷ xs) zero (suc j) a b h = inr h
  get-set (x ∷ xs) (suc i) zero a b h = inr h
  get-set (x ∷ xs) (suc i) (suc j) a b h = elim (get-set xs i j a b h) [
    | inl (e, same) ↦ inl (ap suc e, same)
    | inr old ↦ inr old
  ]

  module _ (names : ℕ → Result Error A) where
    resize-AllRight :
        (n : ℕ) (xs : List (Option A))
        → length xs ≤ n
        → AllRight names xs
        → AllRight names (resize n none xs)
    resize-AllRight n xs h right j a at =
        let whole : take n xs ++ replicate (n - length xs) none
            ≡ xs ++ replicate (n - length xs) none =
          ap (λ ys. ys ++ replicate (n - length xs) none) (take_all n xs h) in
        right j a (get-padded (n - length xs) j xs a (ap (λ ys. get_elem? ys j) (sym whole) ∙ at))

    set-AllRight :
        (xs : List (Option A)) (i : ℕ) (a : A)
        → names i ≡ ok a
        → AllRight names xs
        → AllRight names (set xs i (some a))
    set-AllRight xs i a found right j b at = elim (get-set xs i j a b at) [
      | inl (e, same) ↦ rw (← e, ← same) found
      | inr old ↦ right j b old
    ]

-- A cache whose resolved entries are right, if it is about these layers.
pub record IsIndexOf (snapshot : ℕ) (layers : List Layer) (c : IndexCache) : Type 0 where
  pub same : length c.attn ≡ length c.mlp
  pub attn_right : owned_by snapshot c.owner ≡ true → AllRight (attn_names layers) c.attn
  pub mlp_right : owned_by snapshot c.owner ≡ true → AllRight (mlp_names layers) c.mlp

module _ (snapshot : ℕ) (layers : List Layer) where
  -- A cache that is about these layers.
  pub record IsOwned (c : IndexCache) : Type 0 where
    pub owned : owned_by snapshot c.owner ≡ true
    pub right : IsIndexOf snapshot layers c

  adopt-IsOwned : (c : IndexCache) → IsIndexOf snapshot layers c → IsOwned (adopt snapshot c)
  unfolding adopt
  adopt-IsOwned c h = elim (Bool-cases (owned_by snapshot c.owner)) [
    | inl e ↦ rw e (record { owned = e; right = h })
    | inr e ↦ rw e (record {
      owned = (==_iff snapshot snapshot).1 refl;
      right = record {
        same = refl;
        attn_right = λ o j a at. absurd (cc at);
        mlp_right = λ o j a at. absurd (cc at);
      };
    })
  ]

  resized-IsOwned :
      (n : ℕ) (c : IndexCache) → length c.attn ≤ n → IsOwned c → IsOwned (both_resized n c)
  resized-IsOwned n c short h = record {
    owned = h.owned;
    right = record {
      same =
          length-resize n c.attn short
          ∙ sym (length-resize n c.mlp (omega (arith, short, h.right.same)));
      attn_right = λ o. resize-AllRight (attn_names layers) n c.attn short (h.right.attn_right o);
      mlp_right = λ o.
          resize-AllRight (mlp_names layers) n c.mlp (omega (arith, short, h.right.same))
            (h.right.mlp_right o);
    };
  }

  -- After growing there is an entry for the layer.
  grow_attn-IsOwned :
      (i : ℕ) (c : IndexCache)
      → IsOwned c
      → IsOwned (grow_attn i c) × (i < length (grow_attn i c).attn)
  unfolding grow_attn
  grow_attn-IsOwned i c h = elim (Bool-cases (leb (length c.attn) i)) [
    | inl e ↦
        let short : length c.attn ≤ suc i = ground (arith, e) in
        let len = length-resize (suc i) c.attn short in
        rw e (resized-IsOwned (suc i) c short h, omega (arith, len))
    | inr e ↦ rw e (h, ground (arith, e))
  ]

  grow_mlp-IsOwned :
      (i : ℕ) (c : IndexCache)
      → IsOwned c
      → IsOwned (grow_mlp i c) × (i < length (grow_mlp i c).mlp)
  unfolding grow_mlp
  grow_mlp-IsOwned i c h = elim (Bool-cases (leb (length c.mlp) i)) [
    | inl e ↦
        let short : length c.mlp ≤ suc i = ground (arith, e) in
        let len = length-resize (suc i) c.mlp short in
        rw e (resized-IsOwned (suc i) c (omega (arith, short, h.right.same)) h, omega (arith, len))
    | inr e ↦ rw e (h, ground (arith, e))
  ]

  keep_attn-IsOwned :
      (c : IndexCache) (i : ℕ) (r : Result Error AttnIndex)
      → attn_names layers i ≡ r
      → IsOwned c
      → IsOwned (keep_attn c i r).0 × ((keep_attn c i r).1 ≡ r)
  keep_attn-IsOwned c i (err e) h hc = (hc, refl)
  keep_attn-IsOwned c i (ok a) h hc = (
    record {
      owned = hc.owned;
      right = record {
        same = length-set c.attn i (some a) ∙ hc.right.same;
        attn_right = λ o. set-AllRight (attn_names layers) c.attn i a h (hc.right.attn_right o);
        mlp_right = hc.right.mlp_right;
      };
    },
    refl,
  )

  keep_mlp-IsOwned :
      (c : IndexCache) (i : ℕ) (r : Result Error MlpIndex)
      → mlp_names layers i ≡ r
      → IsOwned c
      → IsOwned (keep_mlp c i r).0 × ((keep_mlp c i r).1 ≡ r)
  keep_mlp-IsOwned c i (err e) h hc = (hc, refl)
  keep_mlp-IsOwned c i (ok a) h hc = (
    record {
      owned = hc.owned;
      right = record {
        same = hc.right.same ∙ sym (length-set c.mlp i (some a));
        attn_right = hc.right.attn_right;
        mlp_right = λ o. set-AllRight (mlp_names layers) c.mlp i a h (hc.right.mlp_right o);
      };
    },
    refl,
  )

  resolve_attn-IsOwned :
      (i : ℕ) (c : IndexCache) (entry : Option AttnIndex)
      → IsOwned c
      → get_elem? c.attn i ≡ some entry
      → IsOwned (resolve_attn layers i c (some entry)).0
        × ((resolve_attn layers i c (some entry)).1 ≡ attn_names layers i)
  resolve_attn-IsOwned i c none h at = keep_attn-IsOwned c i (attn_names layers i) refl h
  resolve_attn-IsOwned i c (some a) h at = (h, sym (h.right.attn_right h.owned i a at))

  resolve_mlp-IsOwned :
      (i : ℕ) (c : IndexCache) (entry : Option MlpIndex)
      → IsOwned c
      → get_elem? c.mlp i ≡ some entry
      → IsOwned (resolve_mlp layers i c (some entry)).0
        × ((resolve_mlp layers i c (some entry)).1 ≡ mlp_names layers i)
  resolve_mlp-IsOwned i c none h at = keep_mlp-IsOwned c i (mlp_names layers i) refl h
  resolve_mlp-IsOwned i c (some a) h at = (h, sym (h.right.mlp_right h.owned i a at))

  -- cached_attn_idx gives what the search for the four names gives, an exception included, whatever the
  -- cache held before, as long as its entries for these layers were right; it leaves a cache of these
  -- layers whose entries are right.
  pub cached_attn_idx-eq :
      (i : ℕ) (c : IndexCache)
      → IsIndexOf snapshot layers c
      → IsOwned (cached_attn_idx snapshot layers i c).0
        × ((cached_attn_idx snapshot layers i c).1 ≡ attn_names layers i)
  unfolding cached_attn_idx
  cached_attn_idx-eq i c h =
      let ready = grow_attn i (adopt snapshot c) in
      let (own, inside) = grow_attn-IsOwned i (adopt snapshot c) (adopt-IsOwned c h) in
      let (entry, at) = get_elem?-some i ready.attn inside in
      rw at (resolve_attn-IsOwned i ready entry own at)

  pub cached_mlp_idx-eq :
      (i : ℕ) (c : IndexCache)
      → IsOwned c
      → IsOwned (cached_mlp_idx snapshot layers i c).0
        × ((cached_mlp_idx snapshot layers i c).1 ≡ mlp_names layers i)
  unfolding cached_mlp_idx own_mlp_idx
  cached_mlp_idx-eq i c h =
      let ready = grow_mlp i c in
      let (own, inside) = grow_mlp-IsOwned i c h in
      let (entry, at) = get_elem?-some i ready.mlp inside in
      rw (h.owned, at) (resolve_mlp-IsOwned i ready entry own at)
