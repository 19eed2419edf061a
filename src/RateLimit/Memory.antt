-- ===== src/RateLimit/Memory.antt =====
-- No entry of the rate limiter is ever without requests, so eviction erases nothing
-- (src/server/handlers.cpp).
use terllama.Prelude.{
  ℕ, ◌≤◌, ◌<◌, ◌≡◌, refl, sym, ap, ◌∙◌, Bool, true, false, List, [], ◌∷◌, ◌++◌, length, All, arith,
  if◌then◌else◌, leb, ltb, Bool-cases, inl, inr, length-append,
}
use mathlib.Core.Path.{subst}
use terllama.RateLimit.{
  rate_limit_max, rate_limit_shard_cap, expire, History, find, put, evict, bound_memory,
  shard_allow,
}

module _ {Ip : Type 0} (same : Ip → Ip → Bool) (hash : Ip → ℕ) where
  -- Every entry of a shard has a request.
  abbrev pub IsBusy : History same hash → Type 0
  IsBusy history = All (λ entry. 0 < length entry.1) history

  evict-IsBusy : (history : History same hash) → IsBusy history → evict same hash history ≡ history
  unfolding evict
  evict-IsBusy [] h = refl
  evict-IsBusy ((key, []) ∷ history) (hd, h) = absurd (omega (arith, hd))
  evict-IsBusy ((key, t ∷ deq) ∷ history) (hd, h) = ap (◌∷◌ (key, t ∷ deq)) (evict-IsBusy history h)

  pub bound_memory-IsBusy :
      (history : History same hash) → IsBusy history → bound_memory same hash history ≡ history
  unfolding bound_memory
  bound_memory-IsBusy history h = elim (Bool-cases (ltb rate_limit_shard_cap (length history))) [
    | inl over ↦ rw over (evict-IsBusy history h)
    | inr under ↦ rw under refl
  ]

  put-IsBusy :
      (ip : Ip) (deq : List ℕ) (history : History same hash)
      → 0 < length deq
      → IsBusy history
      → IsBusy (put same hash ip deq history)
  unfolding put
  put-IsBusy ip deq [] some_request h = (some_request, tt)
  put-IsBusy ip deq ((key, old) ∷ history) some_request (ho, h) = elim (Bool-cases (same key ip)) [
    | inl yes_here ↦ rw yes_here (some_request, h)
    | inr elsewhere ↦ rw elsewhere (ho, put-IsBusy ip deq history some_request h)
  ]

  pub put-put :
      (ip : Ip) (new old : List ℕ) (history : History same hash)
      → (same ip ip ≡ true)
      → put same hash ip new (put same hash ip old history) ≡ put same hash ip new history
  unfolding put
  put-put ip new old [] reflexive = rw reflexive refl
  put-put ip new old ((key, older) ∷ history) reflexive = elim (Bool-cases (same key ip)) [
    | inl here ↦ rw (here, here) refl
    | inr elsewhere ↦
        rw (elsewhere, elsewhere) (ap (◌∷◌ (key, older)) (put-put ip new old history reflexive))
  ]

  put-length :
      (ip : Ip) (deq : List ℕ) (history : History same hash)
      → length history ≤ length (put same hash ip deq history)
  unfolding put
  put-length ip deq [] = omega arith
  put-length ip deq ((key, old) ∷ history) = elim (Bool-cases (same key ip)) [
    | inl here ↦ rw here (omega arith)
    | inr elsewhere ↦ rw elsewhere (omega (arith, put-length ip deq history))
  ]

  -- What a request does to its shard, without the eviction.
  pub shard_allow_unbounded :
      (now : ℕ) (ip : Ip) (history : History same hash)
      → same ip ip ≡ true
      → IsBusy history
      → let deq = expire now (find same hash ip history) in
        let allowed = ltb (length deq) rate_limit_max in
        let history' = put same hash ip (if allowed then deq ++ (now ∷ []) else deq) history in
        (shard_allow same hash now ip history ≡ (allowed, history')) × IsBusy history'
  unfolding shard_allow
  shard_allow_unbounded now ip history reflexive h =
      let deq = expire now (find same hash ip history) in
      elim (Bool-cases (leb rate_limit_max (length deq))) [
        | inl full ↦
            let no : ltb (length deq) rate_limit_max ≡ false = ground (arith, full) in
            let busy : 0 < length deq = ground (arith, full) in
            (rw (full, no) refl, rw no (put-IsBusy ip deq history busy h))
        | inr room ↦
            let yes_room : ltb (length deq) rate_limit_max ≡ true = ground (arith, room) in
            let busy : 0 < length (deq ++ (now ∷ [])) =
              omega (arith, length-append deq (now ∷ [])) in
            let kept = put-IsBusy ip (deq ++ (now ∷ [])) history busy h in
            let one_write = put-put ip (deq ++ (now ∷ [])) deq history reflexive in
            (
              rw (room, yes_room)
                  (ap (λ x. (true, bound_memory same hash x)) one_write
                    ∙ ap (λ x. (true, x)) (bound_memory-IsBusy _ kept)),
              rw yes_room kept,
            )
      ]

  -- When every entry of a shard has a request in its deque, as in a shard that starts empty, this is so
  -- after any request too, and the request leaves no fewer addresses in the shard than there were, also
  -- when there are more than kRateLimitShardCap: the eviction erases nothing.
  pub shard_allow-keeps :
      (now : ℕ) (ip : Ip) (history : History same hash)
      → same ip ip ≡ true
      → IsBusy history
      → IsBusy (shard_allow same hash now ip history).1
        × (length history ≤ length (shard_allow same hash now ip history).1)
  shard_allow-keeps now ip history reflexive h =
      let (e, busy) = shard_allow_unbounded now ip history reflexive h in
      let after = ap (λ r. r.1) (sym e) in
      (
        subst IsBusy after busy,
        subst (λ x. length history ≤ length x) after (put-length ip _ history),
      )
