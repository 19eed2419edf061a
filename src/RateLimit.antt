-- ===== src/RateLimit.antt =====
-- The rate limiter of the HTTP server: rate_limit_allow of src/server/handlers.cpp.
-- Addresses and their hash are arguments. A time is a number of nanoseconds of the steady clock. A shard's
-- map is an association list; the order of its entries is of no consequence to this code.
pub mod Memory
pub mod Window
pub mod Answers
mod Runs
use terllama.Prelude.{
  ℕ, zero, suc, ◌+◌, ◌*◌, ◌%◌, Bool, true, false, List, [], ◌∷◌, ◌++◌, length, if◌then◌else◌, leb,
  ltb, ◌==◌,
}

abbrev pub rate_limit_max : ℕ
rate_limit_max = 20

abbrev pub rate_limit_window : ℕ
rate_limit_window = 60 * 1000000000

abbrev pub rate_limit_shards : ℕ
rate_limit_shards = 16

abbrev pub rate_limit_shard_cap : ℕ
rate_limit_shard_cap = 4096

-- The loop that drops old requests from the front.
unfoldable pub expire : ℕ → List ℕ → List ℕ
expire now [] = []
expire now (t ∷ deq) =
    let rest = expire now deq in if ltb (t + rate_limit_window) now then rest else t ∷ deq

module _ {Ip : Type 0} (same : Ip → Ip → Bool) (hash : Ip → ℕ) where
  abbrev pub History : Type 0
  History = List (Ip × List ℕ)

  -- `history[ip]`, and a write to it.
  unfoldable pub find : Ip → History → List ℕ
  find ip [] = []
  find ip ((key, deq) ∷ history) = if same key ip then deq else find ip history

  unfoldable pub put : Ip → List ℕ → History → History
  put ip deq [] = (ip, deq) ∷ []
  put ip deq ((key, old) ∷ history) =
      if same key ip then (key, deq) ∷ history else (key, old) ∷ put ip deq history

  -- The loop that erases entries without requests.
  unfoldable pub evict : History → History
  evict [] = []
  evict ((key, []) ∷ history) = evict history
  evict ((key, t ∷ deq) ∷ history) = (key, t ∷ deq) ∷ evict history

  unfoldable pub bound_memory : History → History
  bound_memory history =
      if ltb rate_limit_shard_cap (length history) then evict history else history

  -- On the shard of `ip`: whether the request is allowed, and the shard after it.
  unfoldable pub shard_allow : ℕ → Ip → History → Bool × History
  shard_allow now ip history =
      let deq = expire now (find ip history) in
      let history' = put ip deq history in
      if leb rate_limit_max (length deq)
      then (false, history')
      else (true, bound_memory (put ip (deq ++ (now ∷ [])) history'))

  abbrev pub Shards : Type 0
  Shards = ℕ → History

  abbrev pub shard_of : Ip → ℕ
  shard_of ip = hash ip % rate_limit_shards

  unfoldable pub rate_limit_allow : ℕ → Ip → Shards → Bool × Shards
  rate_limit_allow now ip shards =
      let (allowed, history) = shard_allow now ip (shards (shard_of ip)) in
      (allowed, λ i. if i == shard_of ip then history else shards i)

  -- The answers to requests, each a time and an address.
  unfoldable pub answers : List (ℕ × Ip) → Shards → List Bool
  answers [] shards = []
  answers ((now, ip) ∷ requests) shards =
      let (allowed, shards') = rate_limit_allow now ip shards in allowed ∷ answers requests shards'
