-- ===== src/RateLimit/Examples.antt =====
-- Three addresses (server/middleware/ratelimit.go); the limiters are numbers.
use callfs.Prelude.{ℕ, ◌≤◌, ◌≡◌, refl, arith, codes, List, [], ◌∷◌}
use callfs.Prelude.Map
use callfs.Prelude.Map.{Map}
use callfs.RateLimit.{LimiterEntry, rate_limiter_max_entries, oldest, evict_oldest}
use callfs.RateLimit.Size.{Event, request, tick, after, table_bounded, NotBefore, evicts_least}

abbrev table : Map (LimiterEntry ℕ)
table =
    (codes "10.0.0.1", record { limiter = 1; last_seen = 5 })
    ∷ (codes "10.0.0.2", record { limiter = 2; last_seen = 3 })
    ∷ (codes "10.0.0.3", record { limiter = 3; last_seen = 4 })
    ∷ []

abbrev events : List Event
events = request (codes "10.0.0.4") 7 ∷ tick 9 ∷ request (codes "10.0.0.1") 10 ∷ []

table_bounded_example : Map.size (after 0 events table) ≤ rate_limiter_max_entries
unfolding Map.size
table_bounded_example = table_bounded 0 events table (omega arith)

least_evicted : (evict_oldest table ≡ Map.remove (codes "10.0.0.2") table) × NotBefore 3 table
unfolding oldest callfs.RateLimit.sooner
least_evicted = evicts_least table (codes "10.0.0.2") 3 refl
