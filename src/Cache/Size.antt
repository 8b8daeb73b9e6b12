-- ===== src/Cache/Size.antt =====
-- core/cache.go: the number of entries stays within the configured maximum.
use callfs.Prelude.{
  ℕ, ◌+◌, ◌≤◌, ◌<◌, ◌≡◌, refl, arith, Text, leb, Bool-cases, Option, Option-cases, none, some, inl,
  inr, List, [], ◌∷◌,
}
use callfs.Prelude.Map
use callfs.Prelude.Map.{Map, size-put, size-remove, size-remove_present, size-sweep}
use callfs.Metadata.{Metadata}
use callfs.Cache.{
  CacheEntry, MetadataCache, is_expired, evict_first, evict_expired, evict_one_entry, set,
  invalidate, drop_under, invalidate_prefix, perform_cleanup, Action, setting, invalidating,
  invalidating_prefix, cleaning, reordering, moved_first, reorder, step, run,
}

evict_expired-size :
    (now : ℕ) (m : Map CacheEntry) {m' : Map CacheEntry}
    → evict_expired now m ≡ some m'
    → Map.size m' + 1 ≡ Map.size m
unfolding evict_expired Map.size
evict_expired-size now [] e = absurd (ground arith)
evict_expired-size now ((path, entry) ∷ m) e = elim (Option-cases (evict_expired now m)) [
  | inl nothing ↦ ground arith
  | inr (m', found) ↦ ground (arith, evict_expired-size now m found)
]

evict_first-size : (m : Map CacheEntry) → 0 < Map.size m → Map.size (evict_first m) + 1 ≡ Map.size m
unfolding evict_first Map.size
evict_first-size [] h = absurd (omega arith)
evict_first-size (e ∷ m) h = omega arith

evict_one_entry-size :
    (now : ℕ) (m : Map CacheEntry)
    → 0 < Map.size m
    → Map.size (evict_one_entry now m) + 1 ≡ Map.size m
unfolding evict_one_entry
evict_one_entry-size now m h = elim (Option-cases (evict_expired now m)) [
  | inl e ↦ rw (e, evict_one_entry) (evict_first-size m h)
  | inr (m', e) ↦ rw (e, evict_one_entry) (evict_expired-size now m e)
]

abbrev pub Fits : MetadataCache → Type 0
Fits c = Map.size c.cache ≤ c.max_size

set-Fits :
    (path : Text) (md : Metadata) (now : ℕ) (c : MetadataCache)
    → 0 < c.max_size
    → Fits c
    → Fits (set path md now c)
unfolding set
set-Fits path md now c p h =
    let entry : CacheEntry = record { metadata = md; expires_at = now + c.ttl } in
    elim (Bool-cases (leb c.max_size (Map.size c.cache))) [
      | inl full ↦ ground (
        arith,
        size-put path entry (evict_one_entry now c.cache),
        evict_one_entry-size now c.cache (ground arith),
      )
      | inr room ↦ ground (arith, size-put path entry c.cache)
    ]

drop_under-size : (prefix : Text) (m : Map CacheEntry) → Map.size (drop_under prefix m) ≤ Map.size m
unfolding drop_under Map.size
drop_under-size prefix [] = omega arith
drop_under-size prefix ((path, entry) ∷ m) = ground (arith, drop_under-size prefix m)

moved_first-size :
    (path : Text) (o : Option CacheEntry) (m : Map CacheEntry)
    → Map.get path m ≡ o
    → Map.size (moved_first path o m) ≤ Map.size m
unfolding moved_first Map.size
moved_first-size path none m e = omega arith
moved_first-size path (some entry) m e = omega (arith, size-remove_present path entry m e)

step-max_size : (a : Action) (c : MetadataCache) → (step a c).max_size ≡ c.max_size
unfolding step set invalidate invalidate_prefix perform_cleanup reorder
step-max_size (setting path md now) c = refl
step-max_size (invalidating path) c = refl
step-max_size (invalidating_prefix prefix) c = refl
step-max_size (cleaning now) c = refl
step-max_size (reordering path) c = refl

step-Fits : (a : Action) (c : MetadataCache) → 0 < c.max_size → Fits c → Fits (step a c)
unfolding step invalidate invalidate_prefix perform_cleanup reorder
step-Fits (setting path md now) c p h = set-Fits path md now c p h
step-Fits (invalidating path) c p h = omega (arith, size-remove path c.cache, h)
step-Fits (invalidating_prefix prefix) c p h = omega (arith, drop_under-size prefix c.cache, h)
step-Fits (cleaning now) c p h = omega (arith, size-sweep (is_expired now) c.cache, h)
step-Fits (reordering path) c p h =
    omega (arith, moved_first-size path (Map.get path c.cache) c.cache refl, h)

-- Whatever is set, invalidated and cleaned up, a cache that may hold at least one entry never holds
-- more entries than its maximum.
pub run-Fits :
    (actions : List Action) (c : MetadataCache) → 0 < c.max_size → Fits c → Fits (run actions c)
unfolding run
run-Fits [] c p h = h
run-Fits (a ∷ actions) c p h =
    run-Fits actions (step a c) (omega (arith, step-max_size a c, p)) (step-Fits a c p h)
