-- ===== src/Engine/Stale.antt =====
-- core/file_operations.go: what `UpdateFile` leaves behind when it answers an error.
use callfs.Prelude.{
  ℕ, ◌≡◌, ◌⊎◌, refl, sym, ap, ◌∙◌, arith, inl, inr, Text, text_eq, Bool, Bool-cases, true, false,
  Option, none, some, Result, ok, err, Error,
}
use callfs.Metadata.{Metadata, file}
use callfs.Cache
use callfs.Locks
use callfs.Locks.{Locks}
use callfs.Raft.{State}
use callfs.Raft.Store.{get, update}
use callfs.Engine.{
  EngineConfig, Backend, Call, World, relative, lock_key, touched, get_metadata, fetched,
  select_backend, replicate_file, replicated, recorded, written, update_locked, on_lock,
  update_file,
}
use callfs.Engine.Acknowledged.{Required, replicate-Required}

-- what a cache has of a path, and else what the store has
abbrev pub cached_or : Option Metadata → Result Metadata → Result Metadata
cached_or (some old) stored = ok old
cached_or none stored = stored

reads_cache :
    {Disk : Type 0} (path : Text) (now set_at : ℕ) (w w' : World Disk)
    → w'.cache ≡ w.cache
    → (get_metadata path now set_at w').0
      ≡ cached_or (Cache.get path now w.cache) (get path w'.store)
unfolding get_metadata fetched
reads_cache path now set_at w w' same =
    by_cache (Cache.get path now w'.cache) refl
    ∙ ap (λ c. cached_or (Cache.get path now c) (get path w'.store)) same
  where
    by_store : (r : Result Metadata) → (fetched path set_at r w').0 ≡ r
    by_store (ok md) = refl
    by_store (err e) = refl

    by_cache :
        (o : Option Metadata)
        → Cache.get path now w'.cache ≡ o
        → (get_metadata path now set_at w').0
          ≡ cached_or (Cache.get path now w'.cache) (get path w'.store)
    by_cache none e = rw (e, get_metadata) (by_store (get path w'.store))
    by_cache (some old) e = rw (e, get_metadata) refl

module _ {Disk : Type 0} (cfg : EngineConfig) (open_file : Backend → Text → Disk → Result Text)
    (update_blob create_blob : Backend → Text → Text → ℕ → Disk → Result (Unit {0}) × Disk) where
  module _ (call : Call) (path bytes : Text) (size : ℕ) where
    -- what the world is before and after, by the step that failed: one before the store's,
    abbrev pub Untouched : World Disk → World Disk → Type 0
    Untouched w w' = (w'.store ≡ w.store) × (w'.cache ≡ w.cache)

    -- the store's,
    abbrev pub Unrecorded : World Disk → World Disk → Type 0
    Unrecorded w w' =
        (md : Metadata) × (e : Error) × (get path w.store ≡ ok md)
        × (update call.outcome (touched cfg call size md) w.store ≡ (err e, w'.store))
        × (w'.cache ≡ Cache.invalidate path w.cache)

    -- or the replica's: the file and its record are the new ones, and the cache is the old one.
    abbrev pub Unacknowledged : World Disk → World Disk → Type 0
    Unacknowledged w w' =
        (md : Metadata) × (disk : Disk) × (get path w.store ≡ ok md)
        × (update_blob (select_backend cfg md) (relative path) bytes size w.disk ≡ (ok tt, disk))
        × ((replicate_file cfg open_file update_blob create_blob path size md.backend_type disk).1
            ≡ w'.disk)
        × (update call.outcome (touched cfg call size md) w.store ≡ (ok tt, w'.store))
        × (cfg.require_replica_ack ≡ true)
        × (w'.cache ≡ w.cache)

    abbrev pub Left : World Disk → World Disk → Type 0
    Left w w' = Untouched w w' ⊎ (Unrecorded w w' ⊎ Unacknowledged w w')

    replicated-Left :
        (w w1 : World Disk) (md : Metadata) (disk : Disk) (r : Result (Unit {0}) × Disk) {e : Error}
        → get path w.store ≡ ok md
        → update_blob (select_backend cfg md) (relative path) bytes size w.disk ≡ (ok tt, disk)
        → replicate_file cfg open_file update_blob create_blob path size md.backend_type disk ≡ r
        → update call.outcome (touched cfg call size md) w.store ≡ (ok tt, w1.store)
        → w1.cache ≡ w.cache
        → Required cfg open_file update_blob create_blob r
        → (replicated cfg open_file update_blob create_blob path w1 r).0 ≡ err e
        → Left w (replicated cfg open_file update_blob create_blob path w1 r).1
    unfolding replicated
    replicated-Left w w1 md disk (ok t, disk') found wrote sent stored kept must h =
        absurd (ground arith)
    replicated-Left w w1 md disk (err x, disk') found wrote sent stored kept (inl good) h =
        absurd (ground arith)
    replicated-Left w w1 md disk (err x, disk') found wrote sent stored kept (inr must) h =
        inr (inr (md, disk, found, wrote, ap (λ r. r.1) sent, stored, must, kept))

    recorded-Left :
        (w w1 : World Disk) (md : Metadata) (r : Result (Unit {0}) × State) {e : Error}
        → get path w.store ≡ ok md
        → update_blob (select_backend cfg md) (relative path) bytes size w.disk ≡ (ok tt, w1.disk)
        → update call.outcome (touched cfg call size md) w.store ≡ r
        → w1.cache ≡ w.cache
        → (recorded cfg open_file update_blob create_blob path size md.backend_type w1 r).0 ≡ err e
        → Left w (recorded cfg open_file update_blob create_blob path size md.backend_type w1 r).1
    unfolding recorded
    recorded-Left w w1 md (err x, s) found wrote stored kept h =
        inr (inl (md, x, found, stored, ap (λ c. Cache.invalidate path c) kept))
    recorded-Left w w1 md (ok tt, s) found wrote stored kept h =
        replicated-Left w (record w1 { store = s }) md w1.disk _ found wrote refl stored kept
          (replicate-Required cfg open_file update_blob create_blob path size md.backend_type
            w1.disk)
          h

    written-Left :
        (w w1 : World Disk) (md : Metadata) (r : Result (Unit {0}) × Disk) {e : Error}
        → get path w.store ≡ ok md
        → update_blob (select_backend cfg md) (relative path) bytes size w.disk ≡ r
        → w1.store ≡ w.store
        → w1.cache ≡ w.cache
        → (written cfg open_file update_blob create_blob call path size md w1 r).0 ≡ err e
        → Left w (written cfg open_file update_blob create_blob call path size md w1 r).1
    unfolding written
    written-Left w w1 md (err x, disk) found wrote same kept h = inl (same, kept)
    written-Left w w1 md (ok tt, disk) found wrote same kept h =
        recorded-Left w (record w1 { disk = disk }) md _ found wrote
          (ap (λ s. update call.outcome (touched cfg call size md) s) (sym same)) kept h

    locked-Left :
        (w w1 : World Disk) (r : Result Metadata) {e : Error}
        → get path w.store ≡ r
        → w1.store ≡ w.store
        → w1.cache ≡ w.cache
        → w1.disk ≡ w.disk
        → (update_locked cfg open_file update_blob create_blob call path bytes size r w1).0 ≡ err e
        → Left w (update_locked cfg open_file update_blob create_blob call path bytes size r w1).1
    unfolding update_locked
    locked-Left w w1 (err x) found same kept disk h = inl (same, kept)
    locked-Left w w1 (ok md) {e} found same kept disk h = elim (Bool-cases (text_eq md.type file)) [
      | inr other ↦ rw (other, update_locked) (inl (same, kept))
      | inl is_file ↦
          rw (is_file, update_locked)
            (written-Left w w1 md _ {e = e} found
              (ap (λ d. update_blob (select_backend cfg md) (relative path) bytes size d)
                (sym disk))
              same kept (ground (arith, is_file)))
    ]

    on_lock-Left :
        (w : World Disk) (l : Result Bool × Locks) {e : Error}
        → (on_lock cfg open_file update_blob create_blob call path bytes size w l).0 ≡ err e
        → Left w (on_lock cfg open_file update_blob create_blob call path bytes size w l).1
    unfolding on_lock
    on_lock-Left w (err x, l) h = inl (refl, refl)
    on_lock-Left w (ok false, l) h = inl (refl, refl)
    on_lock-Left w (ok true, l) h =
        locked-Left w (record w { locks = l }) (get path w.store) refl refl refl refl h

-- An `UpdateFile` that answers an error leaves one of three things behind. If a step before the store's
-- failed, the store and the cache are as they were. If the store answered an error, the cache has let the
-- path go. Otherwise a replica that is required to has not acknowledged: the backend has taken the new
-- bytes and the store the new record, but the cache is as it was, and `GetMetadata` goes on answering the
-- record that it held of the path, where it held one.
pub failed_update_is_stale :
    {Disk : Type 0} (cfg : EngineConfig) (open_file : Backend → Text → Disk → Result Text)
    (update_blob create_blob : Backend → Text → Text → ℕ → Disk → Result (Unit {0}) × Disk)
    (call : Call) (path bytes : Text) (size now set_at : ℕ) (w : World Disk) {e : Error}
    → (update_file cfg open_file update_blob create_blob call path bytes size w).0 ≡ err e
    → Untouched cfg open_file update_blob create_blob call path bytes size w
        (update_file cfg open_file update_blob create_blob call path bytes size w).1
      ⊎ (Unrecorded cfg open_file update_blob create_blob call path bytes size w
            (update_file cfg open_file update_blob create_blob call path bytes size w).1
          ⊎ (Unacknowledged cfg open_file update_blob create_blob call path bytes size w
                (update_file cfg open_file update_blob create_blob call path bytes size w).1
              × ((get_metadata path now set_at
                    (update_file cfg open_file update_blob create_blob call path bytes size w).1).0
                  ≡ cached_or (Cache.get path now w.cache) (
                      get path
                        (update_file cfg open_file update_blob create_blob call path bytes size
                          w).1.store))))
unfolding update_file
failed_update_is_stale cfg open_file update_blob create_blob call path bytes size now set_at w {e}
      h =
    elim (on_lock-Left cfg open_file update_blob create_blob call path bytes size w
      (Locks.acquire call.cancelled call.owner_id (lock_key path) call.lock_now call.lock_later
        w.locks)
      h) [
        | inl untouched ↦ inl untouched
        | inr (inl unrecorded) ↦ inr (inl unrecorded)
        | inr (inr (md, disk, found, wrote, sent, stored, must, kept)) ↦ inr (
            inr (
              (md, disk, found, wrote, sent, stored, must, kept),
              reads_cache path now set_at w _ kept,
            ))
      ]
