-- ===== src/RateLimit.antt =====
-- server/middleware/ratelimit.go: the table of rate limiters, one per address. `Limiter` stands for
-- `*rate.Limiter` and `new_limiter` for what rate.NewLimiter makes. The list of entries stands for the
-- order in which `range` visits the map.
mod Examples
pub mod Size
use callfs.Prelude.{
  ℕ, ◌-◌, ◌*◌, ◌^◌, Text, ltb, leb, if◌then◌else◌, Bool, Option, none, some, [], ◌∷◌,
}
use callfs.Prelude.Map
use callfs.Prelude.Map.{Map}

abbrev pub rate_limiter_max_entries : ℕ
rate_limiter_max_entries = 100000

-- rateLimiterEntryTTL, in nanoseconds
abbrev pub rate_limiter_entry_ttl : ℕ
rate_limiter_entry_ttl = 600 * 10 ^ 9

pub record LimiterEntry (Limiter : Type 0) : Type 0 where
  pub limiter : Limiter
  pub last_seen : ℕ

-- evictOldest: the first of the entries with the least `lastSeen`
pub sooner : Option (Text × ℕ) → Text → ℕ → Option (Text × ℕ)
sooner none ip seen = some (ip, seen)
sooner (some (oldest_ip, oldest_time)) ip seen =
    if ltb seen oldest_time then some (ip, seen) else some (oldest_ip, oldest_time)

module _ {Limiter : Type 0} where
  pub oldest : Option (Text × ℕ) → Map (LimiterEntry Limiter) → Option (Text × ℕ)
  oldest best [] = best
  oldest best ((ip, entry) ∷ limiters) = oldest (sooner best ip entry.last_seen) limiters

  unfoldable pub evict_oldest : Map (LimiterEntry Limiter) → Map (LimiterEntry Limiter)
  evict_oldest limiters = elim (oldest none limiters) [
    | none ↦ limiters
    | some (ip, _) ↦ Map.remove ip limiters
  ]

  -- getLimiter
  unfoldable pub get_limiter :
      Limiter → Text → ℕ → Map (LimiterEntry Limiter) → Limiter × Map (LimiterEntry Limiter)
  get_limiter new_limiter ip now limiters = elim (Map.get ip limiters) [
    | some entry ↦ (entry.limiter, Map.put ip (record entry { last_seen = now }) limiters)
    | none ↦ (
      new_limiter,
      Map.put ip (record { limiter = new_limiter; last_seen = now })
          (if leb rate_limiter_max_entries (Map.size limiters)
            then evict_oldest limiters
            else limiters),
    )
  ]

  -- one tick of cleanupLoop
  abbrev pub is_stale : ℕ → LimiterEntry Limiter → Bool
  is_stale cutoff entry = ltb entry.last_seen cutoff

  unfoldable pub cleanup : ℕ → Map (LimiterEntry Limiter) → Map (LimiterEntry Limiter)
  cleanup now limiters = Map.sweep (is_stale (now - rate_limiter_entry_ttl)) limiters
