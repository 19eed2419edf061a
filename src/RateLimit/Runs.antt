-- ===== src/RateLimit/Runs.antt =====
-- Requests of two addresses, and the theorems at them. An address is a number, its hash itself.
use terllama.Prelude.{
  ℕ, zero, suc, ◌+◌, ◌≤◌, ◌≡◌, refl, Bool, true, false, List, [], ◌∷◌, length, arith, ◌==◌, ==_iff,
}
use terllama.RateLimit.{
  rate_limit_window, History, answers, rate_limit_allow, shard_allow, bound_memory, find, put,
  expire,
}
use terllama.RateLimit.Memory.{IsBusy, shard_allow-keeps}
use terllama.RateLimit.Window.{window_answers}
use terllama.RateLimit.Answers.{IsOrdered, answers-window_from_empty}

-- `n` requests of an address at one time.
abbrev burst : ℕ → ℕ → ℕ → List (ℕ × ℕ) → List (ℕ × ℕ)
burst zero now ip others = others
burst (suc n) now ip others = (now, ip) ∷ burst n now ip others

-- Twenty requests, one too many, one of another address, and one after the window.
abbrev requests : List (ℕ × ℕ)
requests = burst 21 5 7 ((6, 23) ∷ (6 + rate_limit_window, 7) ∷ [])

abbrev last_four : List Bool → List Bool
last_four (a ∷ b ∷ c ∷ d ∷ []) = a ∷ b ∷ c ∷ d ∷ []
last_four (a ∷ answers) = last_four answers
last_four [] = []

limited : last_four (answers ◌==◌ (λ ip. ip) requests (λ i. [])) ≡ true ∷ false ∷ true ∷ true ∷ []
unfolding answers rate_limit_allow shard_allow bound_memory find put expire
limited = refl

ordered : IsOrdered 0 requests
ordered = omega arith

answers-window_from_empty_example :
    answers ◌==◌ (λ ip. ip) requests (λ i. [])
    ≡ window_answers ◌==◌ (λ ip. ip) ==_iff requests (λ a. [])
answers-window_from_empty_example =
    answers-window_from_empty ◌==◌ (λ ip. ip) ==_iff 0 requests ordered

abbrev two_entries : History ◌==◌ (λ ip. ip)
two_entries = (7, 5 ∷ []) ∷ (23, 6 ∷ []) ∷ []

shard_allow-keeps_example :
    IsBusy ◌==◌ (λ ip. ip) (shard_allow ◌==◌ (λ ip. ip) 9 39 two_entries).1
    × (2 ≤ length (shard_allow ◌==◌ (λ ip. ip) 9 39 two_entries).1)
shard_allow-keeps_example =
    shard_allow-keeps ◌==◌ (λ ip. ip) 9 39 two_entries refl (omega arith, (omega arith, tt))
