-- ===== src/RateLimit/Size.antt =====
-- server/middleware/ratelimit.go: the table stays within its cap, and what makes room is the entry that
-- was seen longest ago.
use mathlib.Core.Path.{subst}
use callfs.Prelude.{
  ℕ, ◌+◌, ◌-◌, ◌≤◌, ◌<◌, ◌≡◌, refl, sym, ap, arith, Text, text_eq, text_eq_refl, ltb, leb,
  Bool-cases, Option, Option-cases, none, some, ◌⊎◌, inl, inr, List, [], ◌∷◌,
}
use callfs.Prelude.Map
use callfs.Prelude.Map.{Map, size-put, size-put_present, size-remove_present, size-sweep}
use callfs.RateLimit.{
  LimiterEntry, rate_limiter_max_entries, sooner, oldest, evict_oldest, get_limiter, is_stale,
  cleanup, rate_limiter_entry_ttl,
}

abbrev Bound : ℕ → Option (Text × ℕ) → Type 0
Bound t none = Unit
Bound t (some (ip, seen)) = t ≤ seen

sooner-cases :
    (best : Option (Text × ℕ)) (i : Text) (seen : ℕ) {ip : Text} {t : ℕ}
    → sooner best i seen ≡ some (ip, t)
    → (best ≡ some (ip, t)) ⊎ (i ≡ ip)
unfolding sooner
sooner-cases none i seen e = inr (ground arith)
sooner-cases (some (j, s)) i seen e = elim (Bool-cases (ltb seen s)) [
  | inl less ↦ inr (ground arith)
  | inr more ↦ inl (ground arith)
]

module _ {Limiter : Type 0} where
  abbrev pub NotBefore : ℕ → Map (LimiterEntry Limiter) → Type 0
  NotBefore t [] = Unit
  NotBefore t ((ip, entry) ∷ limiters) = (t ≤ entry.last_seen) × NotBefore t limiters

  oldest-least :
      (best : Option (Text × ℕ)) (limiters : Map (LimiterEntry Limiter)) {ip : Text} {t : ℕ}
      → oldest best limiters ≡ some (ip, t)
      → Bound t best × NotBefore t limiters
  unfolding oldest sooner
  oldest-least none [] e = absurd (ground arith)
  oldest-least (some (j, seen)) [] e = ground arith
  oldest-least none ((i, entry) ∷ limiters) e =
      (tt, oldest-least (some (i, entry.last_seen)) limiters e)
  oldest-least (some (j, seen)) ((i, entry) ∷ limiters) {ip} {t} e =
      elim (Bool-cases (ltb entry.last_seen seen)) [
        | inl less ↦
            let (b, all) =
              oldest-least (some (i, entry.last_seen)) limiters {ip = ip} {t = t} (ground arith) in
            (ground arith, (b, all))
        | inr more ↦
            let (b, all) =
              oldest-least (some (j, seen)) limiters {ip = ip} {t = t} (ground arith) in
            (b, (ground arith, all))
      ]

  abbrev Present : Text → Map (LimiterEntry Limiter) → Type 0
  Present ip limiters = (entry : LimiterEntry Limiter) × (Map.get ip limiters ≡ some entry)

  head-Present :
      (ip : Text) (entry : LimiterEntry Limiter) (limiters : Map (LimiterEntry Limiter))
      → Present ip ((ip, entry) ∷ limiters)
  unfolding Map.get
  head-Present ip entry limiters = (entry, ground (arith, text_eq_refl ip))

  tail-Present :
      (ip i : Text) (entry : LimiterEntry Limiter) (limiters : Map (LimiterEntry Limiter))
      → Present ip limiters
      → Present ip ((i, entry) ∷ limiters)
  unfolding Map.get
  tail-Present ip i entry limiters (found, e) = elim (Bool-cases (text_eq i ip)) [
    | inl same ↦ (entry, ground arith)
    | inr other ↦ (found, ground arith)
  ]

  oldest-Present :
      (best : Option (Text × ℕ)) (limiters : Map (LimiterEntry Limiter)) {ip : Text} {t : ℕ}
      → oldest best limiters ≡ some (ip, t)
      → (best ≡ some (ip, t)) ⊎ Present ip limiters
  unfolding oldest
  oldest-Present best [] e = inl e
  oldest-Present best ((i, entry) ∷ limiters) {ip} {t} e =
      elim (oldest-Present (sooner best i entry.last_seen) limiters e) [
        | inr later ↦ inr (tail-Present ip i entry limiters later)
        | inl now ↦ elim (sooner-cases best i entry.last_seen now) [
          | inl before ↦ inl before
          | inr here ↦ inr (
              subst (λ k. Present ip ((k, entry) ∷ limiters)) (sym here)
                (head-Present ip entry limiters))
        ]
      ]

  oldest-some :
      (best : Text × ℕ) (limiters : Map (LimiterEntry Limiter))
      → (r : Text × ℕ) × (oldest (some best) limiters ≡ some r)
  unfolding oldest sooner
  oldest-some best [] = (best, refl)
  oldest-some (j, seen) ((i, entry) ∷ limiters) = elim (Bool-cases (ltb entry.last_seen seen)) [
    | inl less ↦ rw less (oldest-some (i, entry.last_seen) limiters)
    | inr more ↦ rw more (oldest-some (j, seen) limiters)
  ]

  oldest-nonempty :
      (limiters : Map (LimiterEntry Limiter))
      → 0 < Map.size limiters
      → (r : Text × ℕ) × (oldest none limiters ≡ some r)
  unfolding oldest sooner Map.size
  oldest-nonempty [] p = absurd (omega arith)
  oldest-nonempty ((i, entry) ∷ limiters) p = oldest-some (i, entry.last_seen) limiters

  evict_oldest_lem :
      (limiters : Map (LimiterEntry Limiter)) {ip : Text} {t : ℕ}
      → oldest none limiters ≡ some (ip, t)
      → evict_oldest limiters ≡ Map.remove ip limiters
  unfolding evict_oldest
  evict_oldest_lem limiters e = rw (e, evict_oldest)

  evict_oldest-size :
      (limiters : Map (LimiterEntry Limiter))
      → 0 < Map.size limiters
      → Map.size (evict_oldest limiters) + 1 ≤ Map.size limiters
  evict_oldest-size limiters p =
      let ((ip, t), found) = oldest-nonempty limiters p in
      elim (oldest-Present none limiters found) [
        | inl never ↦ absurd (ground arith)
        | inr (e, here) ↦ omega (
          arith,
          ap Map.size (evict_oldest_lem limiters found),
          size-remove_present ip e limiters here,
        )
      ]

  get_limiter-size :
      (new_limiter : Limiter) (ip : Text) (now : ℕ) (limiters : Map (LimiterEntry Limiter))
      → Map.size limiters ≤ rate_limiter_max_entries
      → Map.size (get_limiter new_limiter ip now limiters).1 ≤ rate_limiter_max_entries
  unfolding get_limiter
  get_limiter-size new_limiter ip now limiters h = elim (Option-cases (Map.get ip limiters)) [
    | inr (entry, e) ↦
        rw (e, get_limiter)
          (omega
            (arith, size-put_present ip (record entry { last_seen = now }) entry limiters e, h))
    | inl e ↦
        let fresh : LimiterEntry Limiter = record { limiter = new_limiter; last_seen = now } in
        elim (Bool-cases (leb rate_limiter_max_entries (Map.size limiters))) [
          | inl full ↦
              rw (e, get_limiter, full)
                (omega (
                  arith,
                  size-put ip fresh (evict_oldest limiters),
                  evict_oldest-size limiters (ground arith),
                  h,
                ))
          | inr free ↦
              let below : Map.size limiters < rate_limiter_max_entries = ground arith in
              rw (e, get_limiter, free) (omega (arith, size-put ip fresh limiters, below))
        ]
  ]

-- The requests and the ticks that a table sees.
pub data Event : Type 0 where
  request : Text → ℕ → Event
  tick : ℕ → Event

unfoldable pub after :
    {Limiter : Type 0}
    → Limiter
    → List Event
    → Map (LimiterEntry Limiter)
    → Map (LimiterEntry Limiter)
after new_limiter [] limiters = limiters
after new_limiter (request ip now ∷ events) limiters =
    after new_limiter events (get_limiter new_limiter ip now limiters).1
after new_limiter (tick now ∷ events) limiters = after new_limiter events (cleanup now limiters)

-- However many addresses send requests, the table that starts within 100000 entries stays within them.
pub table_bounded :
    {Limiter : Type 0} (new_limiter : Limiter) (events : List Event)
    (limiters : Map (LimiterEntry Limiter))
    → Map.size limiters ≤ rate_limiter_max_entries
    → Map.size (after new_limiter events limiters) ≤ rate_limiter_max_entries
unfolding after cleanup
table_bounded new_limiter [] limiters h = h
table_bounded new_limiter (request ip now ∷ events) limiters h =
    table_bounded new_limiter events (get_limiter new_limiter ip now limiters).1
      (get_limiter-size new_limiter ip now limiters h)
table_bounded new_limiter (tick now ∷ events) limiters h =
    table_bounded new_limiter events (cleanup now limiters)
      (omega (arith, size-sweep (is_stale (now - rate_limiter_entry_ttl)) limiters, h))

-- The address that loses its limiter when the table is full is one that was seen no later than any
-- other in the table.
pub evicts_least :
    {Limiter : Type 0} (limiters : Map (LimiterEntry Limiter)) (ip : Text) (t : ℕ)
    → oldest none limiters ≡ some (ip, t)
    → (evict_oldest limiters ≡ Map.remove ip limiters) × NotBefore t limiters
evicts_least limiters ip t e = (evict_oldest_lem limiters e, (oldest-least none limiters e).1)
