-- ===== src/Server/Outcomes/Handled.antt =====
-- A request from its arrival to the release of its slot: handle_chat_completions and handle_completions of
-- src/server/handlers.cpp.
use terllama.Prelude.{
  ℕ, zero, suc, ◌+◌, ◌-◌, ◌*◌, ◌≤◌, ◌<◌, ◌≡◌, ◌⊎◌, inl, inr, refl, sym, ◌∙◌, ap, Bool, true, false,
  Option, none, some, List, [], ◌∷◌, ◌++◌, take, drop, take-append-drop, ◌&&◌, arith, if◌then◌else◌,
}
use mathlib.Core.Path.{subst}
use terllama.RateLimit.{rate_limit_allow}
use terllama.Inference.{FloatOps}
use terllama.Server.{
  Env, State, Params, Parsed, Request, Response, refused, Refusal, unauthorized, rate_limited,
  service_unavailable, check_api_key, try_reserve_request, release, ensure_loaded,
  get_model_size_bytes, get_kv_cache_size_bytes,
}
use terllama.Server.Respond.{respond, admit, admit_loaded, handle}
use terllama.ModelFile.Names.{same_name-eq}
use terllama.Inference.Index.{codes}
use terllama.Server.Admission.{
  counted_bytes, at_sizes, cache_bytes, Reserved, reserved_lem, with_active,
}
use terllama.Server.Outcomes.Loading.{LoadedFrom, ensure_loaded-LoadedFrom}
use terllama.Server.Outcomes.{Counts, not_refused, IsAsked, respond-IsAsked}

at_limit :
    (model kv slots slots' limit limit' : ℕ)
    → slots' ≡ slots
    → limit' ≡ limit
    → (0 < limit' → model + (slots' + 1) * kv ≤ limit')
    → (limit ≡ 0) ⊎ (model + (slots + 1) * kv ≤ limit)
at_limit model kv slots slots' zero limit' es el fits = inl refl
at_limit model kv slots slots' (suc limit) limit' es el fits = inr (
    subst (λ (l : ℕ). model + (slots + 1) * kv ≤ l) el
      (subst (λ (n : ℕ). model + (n + 1) * kv ≤ limit') es (fits (omega (arith, el)))))

-- The header names the key after "Bearer ", or the server has none.
unfoldable pub HasKey : List ℕ → List ℕ → Type 0
HasKey api_key auth = (api_key ≡ []) ⊎ (auth ≡ codes "Bearer " ++ api_key)

check_api_key-HasKey :
    (api_key auth : List ℕ) → check_api_key api_key auth ≡ true → HasKey api_key auth
unfolding check_api_key HasKey
check_api_key-HasKey [] auth h = inl refl
check_api_key-HasKey (c ∷ key) auth h =
    let (long, parts) = both _ _ h in
    let (front, back) = both _ _ parts in
    inr (
      sym (take-append-drop 7 auth)
      ∙ ap (λ (l : List ℕ). l ++ drop 7 auth) (same_name-eq (take 7 auth) (codes "Bearer ") front)
      ∙ ap (λ (l : List ℕ). codes "Bearer " ++ l) (same_name-eq (drop 7 auth) (c ∷ key) back))
  where
    both : (a b : Bool) → (a && b) ≡ true → (a ≡ true) × (b ≡ true)
    both a b h = ground arith

module _ {F : Type 0} where
  -- What a completion says of the slot that was reserved for it.
  record IsAdmitted (s t : State F) (parsed : Parsed (Params F)) (n k : ℕ) : Type 0 where
    same_loaded : t.loaded ≡ s.loaded
    answered : IsAsked t.model.cfg.max_position_embeddings parsed n k
    fits :
        0 < s.memory_limit
        → get_model_size_bytes t + (t.active_requests + 1) * get_kv_cache_size_bytes t
          ≤ s.memory_limit

module _ {F : Type 0} ⦃o : FloatOps F⦄ (env : Env F) where
  abbrev outcome : State F → State F → Bool → Parsed (Params F) → State F × Response
  outcome s t b parsed =
      if b then (release t, respond env t parsed) else (s, refused service_unavailable)

  given_back :
      (s t : State F) (b : Bool) (parsed : Parsed (Params F))
      → Reserved s b t
      → (outcome s t b parsed).0.active_requests ≡ s.active_requests
  unfolding release Reserved
  given_back s t true parsed h = ap (λ (u : State F). u.active_requests - 1) h.0 ∙ omega arith
  given_back s t false parsed h = refl

  admit-active :
      (s : State F) (parsed : Parsed (Params F))
      → (admit env s parsed).0.active_requests ≡ s.active_requests
  unfolding admit
  admit-active s parsed =
      given_back s (try_reserve_request s).1 (try_reserve_request s).0 parsed (reserved_lem s)

  slot_lem :
      (s t : State F) (b : Bool) (parsed : Parsed (Params F)) (n k : ℕ)
      → Reserved s b t
      → Counts (outcome s t b parsed).1 n k
      → IsAdmitted s (outcome s t b parsed).0 parsed n k
  unfolding release Reserved get_model_size_bytes get_kv_cache_size_bytes
  slot_lem s t true parsed n k h c =
      subst
        (λ (u : State F). Counts (respond env u parsed) n k → IsAdmitted s (release u) parsed n k)
        (sym h.0)
        (λ (c' : Counts (respond env (with_active s (s.active_requests + 1)) parsed) n k). record {
          same_loaded = refl;
          answered = respond-IsAsked env (with_active s (s.active_requests + 1)) parsed n k c';
          fits = λ limited.
              subst
                (λ (m : ℕ). get_model_size_bytes s + m * get_kv_cache_size_bytes s ≤ s.memory_limit)
                (omega arith) (h.1 limited);
        })
        c
  slot_lem s t false parsed n k h c = not_refused service_unavailable n k c

  admit-IsAdmitted :
      (s : State F) (parsed : Parsed (Params F)) (n k : ℕ)
      → Counts (admit env s parsed).1 n k
      → IsAdmitted s (admit env s parsed).0 parsed n k
  unfolding admit
  admit-IsAdmitted s parsed n k =
      slot_lem s (try_reserve_request s).1 (try_reserve_request s).0 parsed n k (reserved_lem s)

  admit_loaded-active :
      (s : State F) (r : State F × Option Refusal) (parsed : Parsed (Params F))
      → LoadedFrom s r
      → (admit_loaded env parsed r).0.active_requests ≡ s.active_requests
  admit_loaded-active s (t, none) parsed h = admit-active t parsed ∙ h.same_slots
  admit_loaded-active s (t, some refusal) parsed h = h.same_slots

  admit_loaded-IsAdmitted :
      (s : State F) (r : State F × Option Refusal) (parsed : Parsed (Params F)) (n k : ℕ)
      → LoadedFrom s r
      → Counts (admit_loaded env parsed r).1 n k
      → (IsAdmitted r.0 (admit_loaded env parsed r).0 parsed n k) × (r.1 ≡ none)
  admit_loaded-IsAdmitted s (t, none) parsed n k h c = (admit-IsAdmitted t parsed n k c, refl)
  admit_loaded-IsAdmitted s (t, some refusal) parsed n k h c = not_refused refusal n k c

  abbrev is_allowed : Request → State F → Bool
  is_allowed req s = (rate_limit_allow env.same_addr env.hash req.now req.remote_addr s.shards).0

  abbrev counted : Request → State F → State F
  counted req s = record s {
    shards = (rate_limit_allow env.same_addr env.hash req.now req.remote_addr s.shards).1;
  }

  branches_active :
      (s t : State F) (key allowed : Bool) (x : State F × Response) (a b : Refusal)
      → t.active_requests ≡ s.active_requests
      → x.0.active_requests ≡ s.active_requests
      → (if key then (if allowed then x else (t, refused a)) else (s, refused b)).0.active_requests
        ≡ s.active_requests
  branches_active s t false allowed x a b h k = refl
  branches_active s t true false x a b h k = h
  branches_active s t true true x a b h k = k

  -- However a request ends, refused, failed or answered, its handler gives back the slot that it took and no
  -- other: the number of requests in flight is what it was.
  pub handle-active :
      (req : Request) (parsed : Parsed (Params F)) (s : State F)
      → (handle env req parsed s).0.active_requests ≡ s.active_requests
  unfolding handle
  handle-active req parsed s =
      branches_active s (counted req s) (check_api_key s.api_key req.authorization)
        (is_allowed req s) (admit_loaded env parsed (ensure_loaded env (counted req s)))
        rate_limited unauthorized refl
        (admit_loaded-active (counted req s) (ensure_loaded env (counted req s)) parsed
          (ensure_loaded-LoadedFrom env (counted req s)))

  branches_Counts :
      (s t : State F) (key allowed : Bool) (x : State F × Response) (a b : Refusal) (n k : ℕ)
      → Counts (if key then (if allowed then x else (t, refused a)) else (s, refused b)).1 n k
      → Counts x.1 n k
        × (key ≡ true)
        × (allowed ≡ true)
        × ((if key then (if allowed then x else (t, refused a)) else (s, refused b)) ≡ x)
  branches_Counts s t false allowed x a b n k c = not_refused b n k c
  branches_Counts s t true false x a b n k c = not_refused a n k c
  branches_Counts s t true true x a b n k c = (c, refl, refl, refl)

  -- What a completion says of the request and of the server after it.
  pub record IsServed (req : Request) (parsed : Parsed (Params F)) (s t : State F) (n k : ℕ)
      : Type 0 where
    pub key_right : HasKey s.api_key req.authorization
    pub allowed :
        (rate_limit_allow env.same_addr env.hash req.now req.remote_addr s.shards).0 ≡ true
    pub is_loaded : t.loaded ≡ true
    pub answered : IsAsked t.model.cfg.max_position_embeddings parsed n k
    pub fits :
        (s.memory_limit ≡ 0)
        ⊎ (counted_bytes t.model + (s.active_requests + 1) * cache_bytes t ≤ s.memory_limit)

  -- A completion of k tokens to a prompt of n is only given to a request whose Authorization is "Bearer " and the
  -- server's key, where it has one, that the rate limiter allows, by a loaded model whose embedding,
  -- norms around the attention, rotary tables, raw weights, bit planes and block codes fit the memory limit,
  -- where there is one, with the keys and values of a whole cache for each request in flight and for this one,
  -- to a body with the right fields that asks for something, is
  -- not to be streamed and has a positive max_tokens; n is positive and within the context, and k is at most
  -- max_tokens, 4096, and what the context leaves beside the prompt, or 1 where it leaves nothing.
  pub handle-IsServed :
      (req : Request) (parsed : Parsed (Params F)) (s : State F) (n k : ℕ)
      → Counts (handle env req parsed s).1 n k
      → IsServed req parsed s (handle env req parsed s).0 n k
  unfolding handle
  handle-IsServed req parsed s n k c =
      let loaded = ensure_loaded env (counted req s) in
      let from = ensure_loaded-LoadedFrom env (counted req s) in
      let (c1, key, allowed, same) =
        branches_Counts s (counted req s) (check_api_key s.api_key req.authorization)
          (is_allowed req s) (admit_loaded env parsed loaded) rate_limited unauthorized n k c in
      let (admitted, got) = admit_loaded-IsAdmitted (counted req s) loaded parsed n k from c1 in
      let after = (admit_loaded env parsed loaded).0 in
      let up = admitted.same_loaded ∙ from.is_loaded got in
      subst (λ (t : State F). IsServed req parsed s t n k) (ap (λ r. r.0) (sym same))
        (record {
          key_right = check_api_key-HasKey s.api_key req.authorization key;
          allowed = allowed;
          is_loaded = up;
          answered = admitted.answered;
          fits =
              elim (at_limit (get_model_size_bytes after) (get_kv_cache_size_bytes after)
                s.active_requests after.active_requests s.memory_limit loaded.0.memory_limit
                (admit_loaded-active (counted req s) loaded parsed from) from.same_limit
                admitted.fits) [
                  | inl no_limit ↦ inl no_limit
                  | inr room ↦ inr (at_sizes after (s.active_requests + 1) s.memory_limit up room)
                ];
        })
