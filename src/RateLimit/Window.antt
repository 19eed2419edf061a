-- ===== src/RateLimit/Window.antt =====
-- The rate limiter is a sliding window over each address's allowed requests (src/server/handlers.cpp).
use terllama.Prelude.{
  ℕ, suc, ◌+◌, ◌≤◌, ◌≡◌, ◌↔◌, refl, sym, ap, ◌∙◌, Bool, true, false, List, [], ◌∷◌, ◌++◌, length,
  All, All-append, arith, if◌then◌else◌, ltb, Bool-cases, inl, inr,
}
use mathlib.Core.List.{append-nil}
use terllama.RateLimit.{
  rate_limit_max, rate_limit_window, expire, History, Shards, find, put, shard_of,
}
use terllama.RateLimit.Memory.{IsBusy}

-- The reference: how many of an address's allowed requests are at most a window old.
unfoldable pub recent : ℕ → List ℕ → ℕ
recent now [] = 0
recent now (t ∷ log) =
    let rest = recent now log in if ltb (t + rate_limit_window) now then rest else suc rest

abbrev pub IsSorted : List ℕ → Type 0
IsSorted [] = Unit
IsSorted (t ∷ log) = All (λ u. t ≤ u) log × IsSorted log

recent_of_later :
    (now t : ℕ) (log : List ℕ)
    → ltb (t + rate_limit_window) now ≡ false
    → All (λ u. t ≤ u) log
    → recent now log ≡ length log
unfolding recent
recent_of_later now t [] fresh later = refl
recent_of_later now t (u ∷ log) fresh (hu, later) =
    let young : ltb (u + rate_limit_window) now ≡ false = ground (arith, fresh, hu) in
    rw young (ap suc (recent_of_later now t log fresh later))

pub expire-recent :
    (now : ℕ) (log : List ℕ) → IsSorted log → length (expire now log) ≡ recent now log
unfolding expire recent
expire-recent now [] sorted = refl
expire-recent now (t ∷ log) (later, sorted) = elim (Bool-cases (ltb (t + rate_limit_window) now)) [
  | inl old ↦ rw old (expire-recent now log sorted)
  | inr young ↦ rw young (ap suc (sym (recent_of_later now t log young later)))
]

-- What is old at `t` is old later.
expire-append :
    (t now : ℕ) (deq more : List ℕ)
    → t ≤ now
    → expire now (expire t deq ++ more) ≡ expire now (deq ++ more)
unfolding expire
expire-append t now [] more h = refl
expire-append t now (u ∷ deq) more h = elim (Bool-cases (ltb (u + rate_limit_window) t)) [
  | inl old ↦
      let older : ltb (u + rate_limit_window) now ≡ true = ground (arith, old, h) in
      rw (old, older) (expire-append t now deq more h)
  | inr young ↦ rw young refl
]

IsSorted-append :
    (log : List ℕ) (now : ℕ) → IsSorted log → All (λ t. t ≤ now) log → IsSorted (log ++ (now ∷ []))
IsSorted-append [] now sorted past = (tt, tt)
IsSorted-append (t ∷ log) now (later, sorted) (ht, past) =
    (All-append (λ u. t ≤ u) log (now ∷ []) later (ht, tt), IsSorted-append log now sorted past)

pub All-later :
    (last now : ℕ) (log : List ℕ) → last ≤ now → All (λ t. t ≤ last) log → All (λ t. t ≤ now) log
All-later last now [] h past = tt
All-later last now (t ∷ log) h (ht, past) = (omega (arith, ht, h), All-later last now log h past)

module _ {Ip : Type 0} (same : Ip → Ip → Bool) (hash : Ip → ℕ)
    (same_iff : (a b : Ip) → (same a b ≡ true) ↔ (a ≡ b)) where
  pub find-put_same :
      (ip : Ip) (deq : List ℕ) (history : History same hash)
      → find same hash ip (put same hash ip deq history) ≡ deq
  unfolding find put
  find-put_same ip deq [] = rw ((same_iff ip ip).1 refl) refl
  find-put_same ip deq ((key, old) ∷ history) = elim (Bool-cases (same key ip)) [
    | inl here ↦ rw (here, here) refl
    | inr elsewhere ↦ rw (elsewhere, elsewhere) (find-put_same ip deq history)
  ]

  pub find-put_other :
      (ip a : Ip) (deq : List ℕ) (history : History same hash)
      → same ip a ≡ false
      → find same hash a (put same hash ip deq history) ≡ find same hash a history
  unfolding find put
  find-put_other ip a deq [] apart = rw apart refl
  find-put_other ip a deq ((key, old) ∷ history) apart = elim (Bool-cases (same key ip)) [
    | inl here ↦
        let key_apart : same key a ≡ false =
          ap (λ k. same k a) ((same_iff key ip).0 here) ∙ apart in
        rw (here, key_apart) refl
    | inr elsewhere ↦ elim (Bool-cases (same key a)) [
      | inl found ↦ rw (elsewhere, found) refl
      | inr not_found ↦ rw (elsewhere, not_found) (find-put_other ip a deq history apart)
    ]
  ]

  abbrev pub Log : Type 0
  Log = Ip → List ℕ

  -- The log after an allowed request.
  abbrev pub logged : ℕ → Ip → Log → Log
  logged now ip log a = if same ip a then log a ++ (now ∷ []) else log a

  -- The answers of a sliding window.
  unfoldable pub window_answers : List (ℕ × Ip) → Log → List Bool
  window_answers [] log = []
  window_answers ((now, ip) ∷ requests) log =
      let allowed = ltb (recent now (log ip)) rate_limit_max in
      allowed ∷ window_answers requests (if allowed then logged now ip log else log)

  -- From time `last` on the shards answer for the log.
  pub record Follows (last : ℕ) (shards : Shards same hash) (log : Log) : Type 0 where
    pub busy : (i : ℕ) → IsBusy same hash (shards i)
    pub agree :
        (a : Ip) (now : ℕ)
        → last ≤ now
        → expire now (find same hash a (shards (shard_of same hash a))) ≡ expire now (log a)
    pub sorted : (a : Ip) → IsSorted (log a)
    pub past : (a : Ip) → All (λ t. t ≤ last) (log a)

  abbrev pub next_log : ℕ → Ip → Log → Log
  next_log now ip log = if ltb (recent now (log ip)) rate_limit_max then logged now ip log else log

  -- What the log of the address itself becomes, and that it stays sorted and past.
  abbrev pub added : ℕ → Bool → List ℕ → List ℕ
  added now allowed log = if allowed then log ++ (now ∷ []) else log

  pub next_log-here :
      (now : ℕ) (ip : Ip) (log : Log)
      → next_log now ip log ip ≡ added now (ltb (recent now (log ip)) rate_limit_max) (log ip)
  next_log-here now ip log = elim (Bool-cases (ltb (recent now (log ip)) rate_limit_max)) [
    | inl go ↦ rw (go, (same_iff ip ip).1 refl) refl
    | inr stop ↦ rw stop refl
  ]

  pub next_log-other :
      (now : ℕ) (ip a : Ip) (log : Log) → same ip a ≡ false → next_log now ip log a ≡ log a
  next_log-other now ip a log apart = elim (Bool-cases (ltb (recent now (log ip)) rate_limit_max)) [
    | inl go ↦ rw (go, apart) refl
    | inr stop ↦ rw stop refl
  ]

  pub added_in_order :
      (now : ℕ) (allowed : Bool) (log : List ℕ)
      → IsSorted log
      → All (λ t. t ≤ now) log
      → IsSorted (added now allowed log) × All (λ t. t ≤ now) (added now allowed log)
  added_in_order now true log sorted past = (
    IsSorted-append log now sorted past,
    All-append (λ t. t ≤ now) log (now ∷ []) past (omega arith, tt),
  )
  added_in_order now false log sorted past = (sorted, past)

  pub added-expire :
      (t now : ℕ) (allowed : Bool) (deq log : List ℕ)
      → t ≤ now
      → deq ≡ expire t log
      → expire now (added t allowed deq) ≡ expire now (added t allowed log)
  added-expire t now true deq log h e =
      ap (λ d. expire now (d ++ (t ∷ []))) e ∙ expire-append t now log (t ∷ []) h
  added-expire t now false deq log h e =
      ap (expire now) e
      ∙ sym (ap (expire now) (append-nil (expire t log)))
      ∙ expire-append t now log [] h
      ∙ ap (expire now) (append-nil log)
