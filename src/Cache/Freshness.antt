-- ===== src/Cache/Freshness.antt =====
-- core/cache.go: what `Get` answers against the record of all that was set and invalidated.
use mathlib.Core.Path.{subst}
use callfs.Prelude.{
  ℕ, ◌+◌, ◌≤◌, ◌≡◌, refl, sym, ◌∙◌, arith, Text, text_eq, text_eq_refl, leb, if◌then◌else◌,
  Bool-cases, false, Option, Option-cases, none, some, inl, inr, List, [], ◌∷◌,
}
use callfs.Prelude.Map
use callfs.Prelude.Map.{
  Map, get-put, get-remove, get-sweep, Distinct-put, Distinct-remove, Distinct-sweep,
}
use callfs.Metadata.{Metadata}
use callfs.Cache.{
  CacheEntry, MetadataCache, is_expired, new_metadata_cache, get, evict_one_entry, set, invalidate,
  is_under, invalidate_prefix, perform_cleanup, Action, setting, invalidating, invalidating_prefix,
  cleaning, reordering, reorder, step, run,
}
use callfs.Cache.Within.{
  Within, evict_one_entry-Within, drop_under-get, drop_under-Distinct, moved_first-get,
  moved_first-Distinct,
}

-- The entry that the latest `Set` of a path made, unless an invalidation of it came later.
abbrev record_step : ℕ → Text → Action → Option CacheEntry → Option CacheEntry
record_step ttl path (setting p md now) o =
    if text_eq p path then some (record { metadata = md; expires_at = now + ttl }) else o
record_step ttl path (invalidating p) o = if text_eq p path then none else o
record_step ttl path (invalidating_prefix prefix) o = if is_under prefix path then none else o
record_step ttl path (cleaning now) o = o
record_step ttl path (reordering p) o = o

abbrev pub newest : ℕ → Text → List Action → Option CacheEntry → Option CacheEntry
newest ttl path [] o = o
newest ttl path (a ∷ actions) o = newest ttl path actions (record_step ttl path a o)

abbrev Agrees : Text → MetadataCache → Option CacheEntry → Type 0
Agrees path c o = (e : CacheEntry) → Map.get path c.cache ≡ some e → o ≡ some e

room : ℕ → MetadataCache → Map CacheEntry
room now c = if leb c.max_size (Map.size c.cache) then evict_one_entry now c.cache else c.cache

room-Within :
    (now : ℕ) (c : MetadataCache)
    → Map.Distinct c.cache
    → Map.Distinct (room now c) × Within (room now c) c.cache
unfolding room
room-Within now c d = elim (Bool-cases (leb c.max_size (Map.size c.cache))) [
  | inl full ↦ rw full (evict_one_entry-Within now c.cache d)
  | inr free ↦ rw free (d, λ p e h. h)
]

step-Agrees :
    (path : Text) (a : Action) (c : MetadataCache) (o : Option CacheEntry)
    → Map.Distinct c.cache
    → Agrees path c o
    → Agrees path (step a c) (record_step c.ttl path a o)
unfolding step set room invalidate invalidate_prefix perform_cleanup reorder
step-Agrees path (setting p md now) c o d h e found =
    let entry : CacheEntry = record { metadata = md; expires_at = now + c.ttl } in
    let put : Map.get path (Map.put p entry (room now c)) ≡ some e = found in
    elim (Bool-cases (text_eq p path)) [
      | inl same ↦ ground (arith, get-put p path entry (room now c))
      | inr other ↦
          let kept : Map.get path (room now c) ≡ some e =
            ground (arith, get-put p path entry (room now c)) in
          let before : o ≡ some e = h e ((room-Within now c d).1 path e kept) in rw other before
    ]
step-Agrees path (invalidating p) c o d h e found = ground (arith, get-remove p path c.cache, h e)
step-Agrees path (invalidating_prefix prefix) c o d h e found =
    ground (arith, drop_under-get prefix path c.cache, h e)
step-Agrees path (cleaning now) c o d h e found =
    h e (ground (arith, get-sweep (is_expired now) path c.cache d))
step-Agrees path (reordering p) c o d h e found =
    h e (sym (moved_first-get p path (Map.get p c.cache) c.cache refl) ∙ found)

step-Distinct :
    (a : Action) (c : MetadataCache) → Map.Distinct c.cache → Map.Distinct (step a c).cache
unfolding step set room invalidate invalidate_prefix perform_cleanup reorder
step-Distinct (setting p md now) c d =
    Distinct-put p (record { metadata = md; expires_at = now + c.ttl }) (room now c)
      (room-Within now c d).0
step-Distinct (invalidating p) c d = Distinct-remove p c.cache d
step-Distinct (invalidating_prefix prefix) c d = drop_under-Distinct prefix c.cache d
step-Distinct (cleaning now) c d = Distinct-sweep (is_expired now) c.cache d
step-Distinct (reordering p) c d = moved_first-Distinct p (Map.get p c.cache) c.cache d

step-ttl : (a : Action) (c : MetadataCache) → (step a c).ttl ≡ c.ttl
unfolding step set invalidate invalidate_prefix perform_cleanup reorder
step-ttl (setting p md now) c = refl
step-ttl (invalidating p) c = refl
step-ttl (invalidating_prefix prefix) c = refl
step-ttl (cleaning now) c = refl
step-ttl (reordering p) c = refl

run-Agrees :
    (path : Text) (actions : List Action) (c : MetadataCache) (o : Option CacheEntry)
    → Map.Distinct c.cache
    → Agrees path c o
    → Agrees path (run actions c) (newest c.ttl path actions o)
unfolding run
run-Agrees path [] c o d h = h
run-Agrees path (a ∷ actions) c o d h =
    let later =
      run-Agrees path actions (step a c) (record_step c.ttl path a o) (step-Distinct a c d)
        (step-Agrees path a c o d h) in
    subst
      (λ t.
        Agrees path (run actions (step a c)) (newest t path actions (record_step c.ttl path a o)))
      (step-ttl a c) later

-- Whatever happens to a cache that starts empty, a record that `Get` returns is the one that the latest
-- `Set` of its path stored; no `Invalidate` of the path and no `InvalidatePrefix` above it came after
-- that, and the time to live since then is not over.
pub get_is_newest :
    (ttl max_size : ℕ) (path : Text) (actions : List Action) (now : ℕ) (md : Metadata)
    → get path now (run actions (new_metadata_cache ttl max_size)) ≡ some md
    → (until : ℕ) × (newest ttl path actions none
        ≡ some (record { metadata = md; expires_at = until }))
      × (now ≤ until)
unfolding get Map.get
get_is_newest ttl max_size path actions now md h =
    let c = run actions (new_metadata_cache ttl max_size) in
    let agrees =
      run-Agrees path actions (new_metadata_cache ttl max_size) none tt
        (λ e q. absurd (ground arith)) in
    elim (Option-cases (Map.get path c.cache)) [
      | inl e ↦ absurd (ground arith)
      | inr (e, found) ↦ (e.expires_at, agrees e found ∙ same_entry e (ground arith), ground arith)
    ]
  where
    same_entry :
        (e : CacheEntry)
        → e.metadata ≡ md
        → ◌≡◌ {A = Option CacheEntry}
            (some e)
            (some (record { metadata = md; expires_at = e.expires_at }))
    same_entry e h = λ i. some (record { metadata = h i; expires_at = e.expires_at })

-- `Set` is read back until the time to live is over, and leaves no other path with a record that it did
-- not have.
pub get-set :
    (path other : Text) (md : Metadata) (set_at now : ℕ) (c : MetadataCache)
    → Map.Distinct c.cache
    → now ≤ set_at + c.ttl
    → (get path now (set path md set_at c) ≡ some md)
      × (text_eq path other ≡ false
          → (e : CacheEntry) → Map.get other (set path md set_at c).cache ≡ some e
          → Map.get other c.cache ≡ some e)
unfolding get set room
get-set path other md set_at now c d soon =
    let entry : CacheEntry = record { metadata = md; expires_at = set_at + c.ttl } in
    (
      ground (arith, get-put path path entry (room set_at c), text_eq_refl path),
      λ ne e found.
          (room-Within set_at c d).1 other e
            (ground (arith, get-put path other entry (room set_at c))),
    )

-- What `InvalidatePrefix` leaves, by the code's own test.
pub get-invalidate_prefix :
    (prefix path : Text) (now : ℕ) (c : MetadataCache)
    → get path now (invalidate_prefix prefix c)
      ≡ (if is_under prefix path then none else get path now c)
unfolding get invalidate_prefix
get-invalidate_prefix prefix path now c = ground (arith, drop_under-get prefix path c.cache)
