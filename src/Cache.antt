-- ===== src/Cache.antt =====
-- core/cache.go: the metadata cache. Instants are numbers of nanoseconds and the clock readings
-- arguments. The entries hold values: that `Get` copies what it hands out makes no difference here.
-- The list of entries stands for the order in which `range` visits the map; Go leaves it open, so a step
-- that brings any entry to the front may stand between two operations.
mod Examples
pub mod Size
pub mod Within
pub mod Freshness
pub mod Prefix
use callfs.Prelude.{
  ℕ, ◌+◌, Text, text_eq, has_prefix, ltb, leb, if◌then◌else◌, Bool, ◌||◌, Option, none, some, List,
  [], ◌∷◌, ◌++◌,
}
use callfs.Prelude.Map
use callfs.Prelude.Map.{Map}
use callfs.Metadata.{Metadata}
use callfs.Paths.{root}

pub record CacheEntry : Type 0 where
  pub metadata : Metadata
  pub expires_at : ℕ

-- IsExpired
abbrev pub is_expired : ℕ → CacheEntry → Bool
is_expired now entry = ltb entry.expires_at now

pub record MetadataCache : Type 0 where
  pub cache : Map CacheEntry
  pub ttl : ℕ
  pub max_size : ℕ

-- NewMetadataCache
abbrev pub new_metadata_cache : ℕ → ℕ → MetadataCache
new_metadata_cache ttl max_size = record { cache = []; ttl = ttl; max_size = max_size }

-- Get
live : ℕ → Option CacheEntry → Option Metadata
live now none = none
live now (some entry) = if is_expired now entry then none else some entry.metadata

unfoldable pub get : Text → ℕ → MetadataCache → Option Metadata
unfolding live
get path now c = live now (Map.get path c.cache)

-- evictOneEntry: the first entry that has expired, or else the first one
pub evict_first : Map CacheEntry → Map CacheEntry
evict_first [] = []
evict_first (e ∷ m) = m

pub evict_expired : ℕ → Map CacheEntry → Option (Map CacheEntry)
evict_expired now [] = none
evict_expired now ((path, entry) ∷ m) =
    let rest = evict_expired now m in
    if is_expired now entry
    then some m
    else elim rest [ none ↦ none | some m' ↦ some ((path, entry) ∷ m') ]

unfoldable pub evict_one_entry : ℕ → Map CacheEntry → Map CacheEntry
evict_one_entry now m = elim (evict_expired now m) [ none ↦ evict_first m | some m' ↦ m' ]

-- Set
unfoldable pub set : Text → Metadata → ℕ → MetadataCache → MetadataCache
set path md now c =
    let room = if leb c.max_size (Map.size c.cache) then evict_one_entry now c.cache else c.cache in
    record c { cache = Map.put path (record { metadata = md; expires_at = now + c.ttl }) room }

-- Invalidate
unfoldable pub invalidate : Text → MetadataCache → MetadataCache
invalidate path c = record c { cache = Map.remove path c.cache }

-- InvalidatePrefix
unfoldable pub is_under : Text → Text → Bool
is_under prefix path = text_eq path prefix || has_prefix path (prefix ++ root)

pub drop_under : Text → Map CacheEntry → Map CacheEntry
drop_under prefix [] = []
drop_under prefix ((path, entry) ∷ m) =
    let rest = drop_under prefix m in if is_under prefix path then rest else (path, entry) ∷ rest

unfoldable pub invalidate_prefix : Text → MetadataCache → MetadataCache
invalidate_prefix prefix c = record c { cache = drop_under prefix c.cache }

-- performCleanup
unfoldable pub perform_cleanup : ℕ → MetadataCache → MetadataCache
perform_cleanup now c = record c { cache = Map.sweep (is_expired now) c.cache }

-- another order of the same entries, in which the path comes first
pub moved_first : Text → Option CacheEntry → Map CacheEntry → Map CacheEntry
moved_first path none m = m
moved_first path (some entry) m = (path, entry) ∷ Map.remove path m

unfoldable pub reorder : Text → MetadataCache → MetadataCache
unfolding moved_first
reorder path c = record c { cache = moved_first path (Map.get path c.cache) c.cache }

-- What the engine and the cleanup goroutine do to a cache, one step each, and what the order of the map
-- may become between the steps.
pub data Action : Type 0 where
  setting : Text → Metadata → ℕ → Action
  invalidating : Text → Action
  invalidating_prefix : Text → Action
  cleaning : ℕ → Action
  reordering : Text → Action

unfoldable pub step : Action → MetadataCache → MetadataCache
unfolding set invalidate invalidate_prefix perform_cleanup reorder
step (setting path md now) c = set path md now c
step (invalidating path) c = invalidate path c
step (invalidating_prefix prefix) c = invalidate_prefix prefix c
step (cleaning now) c = perform_cleanup now c
step (reordering path) c = reorder path c

unfoldable pub run : List Action → MetadataCache → MetadataCache
run [] c = c
run (a ∷ actions) c = run actions (step a c)
