-- ===== src/RateLimit/Answers.antt =====
-- The answers of the rate limiter are those of a sliding window (src/server/handlers.cpp).
use terllama.Prelude.{
  ℕ, ◌≤◌, ◌≡◌, ◌↔◌, refl, sym, ap, ◌∙◌, Bool, true, false, List, [], ◌∷◌, length, All, arith,
  if◌then◌else◌, ltb, ◌==◌, ==_iff, Bool-cases, inl, inr,
}
use mathlib.Core.Path.{subst, ap₂}
use terllama.RateLimit.{
  rate_limit_max, expire, History, Shards, find, put, shard_allow, shard_of, rate_limit_allow,
  answers,
}
use terllama.RateLimit.Memory.{IsBusy, shard_allow_unbounded}
use terllama.RateLimit.Window.{
  recent, IsSorted, expire-recent, All-later, find-put_same, find-put_other, Log, Follows, next_log,
  next_log-here, next_log-other, added, added_in_order, added-expire, window_answers,
}

-- The times of requests do not fall.
abbrev pub IsOrdered {ℓ} : {Ip : Type ℓ} → ℕ → List (ℕ × Ip) → Type 0
IsOrdered last [] = Unit
IsOrdered last ((now, ip) ∷ requests) = (last ≤ now) × IsOrdered now requests

module _ {Ip : Type 0} (same : Ip → Ip → Bool) (hash : Ip → ℕ)
    (same_iff : (a b : Ip) → (same a b ≡ true) ↔ (a ≡ b)) where
  module _ (last now : ℕ) (ip : Ip) (shards : Shards same hash) (log : Log same hash same_iff)
      (h : Follows same hash same_iff last shards log) (later : last ≤ now) where
    abbrev deq : List ℕ
    deq = expire now (find same hash ip (shards (shard_of same hash ip)))

    abbrev allowed : Bool
    allowed = ltb (length deq) rate_limit_max

    abbrev history' : History same hash
    history' =
        put same hash ip (added same hash same_iff now allowed deq) (shards (shard_of same hash ip))

    abbrev shards' : Shards same hash
    shards' i = if i == shard_of same hash ip then history' else shards i

    one_shard_step :
        (shard_allow same hash now ip (shards (shard_of same hash ip)) ≡ (allowed, history'))
        × IsBusy same hash history'
    one_shard_step =
        shard_allow_unbounded same hash now ip (shards (shard_of same hash ip))
          ((same_iff ip ip).1 refl) (h.busy (shard_of same hash ip))

    step : rate_limit_allow same hash now ip shards ≡ (allowed, shards')
    unfolding rate_limit_allow
    step =
        ap (λ r. (r.0, λ i. if i == shard_of same hash ip then r.1 else shards i)) one_shard_step.0

    count : length deq ≡ recent now (log ip)
    count = ap length (h.agree ip now later) ∙ expire-recent now (log ip) (h.sorted ip)

    same_answer : allowed ≡ ltb (recent now (log ip)) rate_limit_max
    same_answer = ap (λ n. ltb n rate_limit_max) count

    agree_here :
        (t : ℕ)
        → now ≤ t
        → expire t (find same hash ip (shards' (shard_of same hash ip)))
          ≡ expire t (next_log same hash same_iff now ip log ip)
    agree_here t ht =
        let at : (shard_of same hash ip == shard_of same hash ip) ≡ true = (==_iff _ _).1 refl in
        ap (λ s. expire t (find same hash ip s)) (rw at refl)
        ∙ ap (expire t) (find-put_same same hash same_iff ip _ (shards (shard_of same hash ip)))
        ∙ added-expire same hash same_iff now t allowed deq (log ip) ht (h.agree ip now later)
        ∙ ap (λ b. expire t (added same hash same_iff now b (log ip))) same_answer
        ∙ ap (expire t) (sym (next_log-here same hash same_iff now ip log))

    agree_other :
        (a : Ip) (t : ℕ)
        → same ip a ≡ false
        → now ≤ t
        → expire t (find same hash a (shards' (shard_of same hash a)))
          ≡ expire t (next_log same hash same_iff now ip log a)
    agree_other a t apart ht =
        let kept =
          h.agree a t (omega (arith, later, ht))
          ∙ ap (expire t) (sym (next_log-other same hash same_iff now ip a log apart)) in
        elim (Bool-cases (shard_of same hash a == shard_of same hash ip)) [
          | inl together ↦
              let index : shard_of same hash ip ≡ shard_of same hash a =
                sym ((==_iff _ _).0 together) in
              let one_shard : shards' (shard_of same hash a) ≡ history' = rw together refl in
              ap (λ s. expire t (find same hash a s)) one_shard
              ∙ ap (expire t)
                  (find-put_other same hash same_iff ip a _ (shards (shard_of same hash ip)) apart)
              ∙ ap (λ i. expire t (find same hash a (shards i))) index
              ∙ kept
          | inr elsewhere ↦
              let untouched : shards' (shard_of same hash a) ≡ shards (shard_of same hash a) =
                rw elsewhere refl in
              ap (λ s. expire t (find same hash a s)) untouched ∙ kept
        ]

    next : Follows same hash same_iff now shards' (next_log same hash same_iff now ip log)
    next = record {
      busy = λ i. elim (Bool-cases (i == shard_of same hash ip)) [
        | inl here ↦ rw here one_shard_step.1
        | inr elsewhere ↦ rw elsewhere (h.busy i)
      ];
      agree = λ a t ht. elim (Bool-cases (same ip a)) [
        | inl here ↦
            subst
              (λ x.
                expire t (find same hash x (shards' (shard_of same hash x)))
                ≡ expire t (next_log same hash same_iff now ip log x))
              ((same_iff ip a).0 here) (agree_here t ht)
        | inr apart ↦ agree_other a t apart ht
      ];
      sorted = λ a. (logs a).0;
      past = λ a. (logs a).1;
    }
      where
        logs :
            (a : Ip)
            → IsSorted (next_log same hash same_iff now ip log a)
              × All (λ t. t ≤ now) (next_log same hash same_iff now ip log a)
        logs a = elim (Bool-cases (same ip a)) [
          | inl here ↦
              subst
                (λ x.
                  IsSorted (next_log same hash same_iff now ip log x)
                  × All (λ t. t ≤ now) (next_log same hash same_iff now ip log x))
                ((same_iff ip a).0 here)
                (subst (λ l. IsSorted l × All (λ t. t ≤ now) l)
                  (sym (next_log-here same hash same_iff now ip log))
                  (added_in_order same hash same_iff now (ltb (recent now (log ip)) rate_limit_max)
                    (log ip) (h.sorted ip) (All-later last now (log ip) later (h.past ip))))
          | inr apart ↦
              subst (λ l. IsSorted l × All (λ t. t ≤ now) l)
                (sym (next_log-other same hash same_iff now ip a log apart))
                (h.sorted a, All-later last now (log a) later (h.past a))
        ]

  answers-window :
      (last : ℕ) (requests : List (ℕ × Ip)) (shards : Shards same hash)
      (log : Log same hash same_iff)
      → Follows same hash same_iff last shards log
      → IsOrdered last requests
      → answers same hash requests shards ≡ window_answers same hash same_iff requests log
  unfolding answers window_answers
  answers-window last [] shards log h ordered = refl
  answers-window last ((now, ip) ∷ requests) shards log h (later, ordered) =
      let e = step last now ip shards log h later in
      ap₂ ◌∷◌ (ap (λ r. r.0) e ∙ same_answer last now ip shards log h later) (
        ap (λ r. answers same hash requests r.1) e
        ∙ answers-window now requests _ _ (next last now ip shards log h later) ordered)

  -- On requests whose times do not fall, starting from empty shards, rate_limit_allow answers each request as
  -- a sliding window does: it is allowed exactly when fewer than kRateLimitMax of the address's allowed
  -- requests are at most kRateLimitWindow old, however the hash spreads the addresses over the shards.
  pub answers-window_from_empty :
      (start : ℕ) (requests : List (ℕ × Ip))
      → IsOrdered start requests
      → answers same hash requests (λ i. []) ≡ window_answers same hash same_iff requests (λ a. [])
  unfolding find
  answers-window_from_empty start requests ordered =
      answers-window start requests (λ i. []) (λ a. [])
        (record { busy = λ i. tt; agree = λ a now later. refl; sorted = λ a. tt; past = λ a. tt })
        ordered
