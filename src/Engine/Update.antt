-- ===== src/Engine/Update.antt =====
-- core/file_operations.go: what a client reads after `UpdateFile`.
use mathlib.Core.Path.{subst}
use callfs.Prelude.{
  ℕ, ◌≡◌, refl, sym, ap, ◌∙◌, arith, Text, text_eq, text_eq_refl, if◌then◌else◌, Bool, Bool-cases,
  true, false, Option-cases, none, some, inl, inr, Result, ok, err,
}
use callfs.Prelude.Map
use callfs.Prelude.Map.{get-put, get-remove}
use callfs.Metadata.{Metadata, file}
use callfs.Paths.{dir}
use callfs.Cache
use callfs.Cache.{MetadataCache}
use callfs.Cache.Freshness.{get-invalidate_prefix}
use callfs.Locks.{Locks}
use callfs.Raft.{State}
use callfs.Raft.Store.{Outcome, committed, refused, given_up, get, update}
use callfs.Raft.Store.Committed.{update_lem}
use callfs.Engine.{
  EngineConfig, Backend, Call, World, relative, touched, get_metadata, fetched,
  update_metadata_only, only_updated, invalidated, select_backend, replicate_file, replicated,
  recorded, written, update_locked, on_lock, update_file,
}

pub get_found :
    (path : Text) (s : State) {md : Metadata}
    → get path s ≡ ok md
    → Map.get path s.metadata_by_path ≡ some md
unfolding get
get_found path s e = elim (Option-cases (Map.get path s.metadata_by_path)) [
  | inl nothing ↦ absurd (ground arith)
  | inr (md, found) ↦ ground arith
]

get-invalidate :
    (path : Text) (now : ℕ) (c : MetadataCache)
    → Cache.get path now (Cache.invalidate path c) ≡ none
unfolding Cache.get Cache.invalidate
get-invalidate path now c = ground (arith, get-remove path path c.cache, text_eq_refl path)

module _ {Disk : Type 0} (cfg : EngineConfig) (open_file : Backend → Text → Disk → Result Text)
    (update_blob create_blob : Backend → Text → Text → ℕ → Disk → Result (Unit {0}) × Disk)
    (call : Call) (path : Text) (size : ℕ) where
  -- What a successful update has read and left behind.
  record Updated (w w' : World Disk) : Type 0 where
    md : Metadata
    known : Map.get path w.store.metadata_by_path ≡ some md
    stored : (update call.outcome (touched cfg call size md) w.store) ≡ (ok tt, w'.store)
    dropped : w'.cache ≡ (invalidated path w).cache

  replicated_ok :
      (w : World Disk) (r : Result (Unit {0}) × Disk)
      → (replicated cfg open_file update_blob create_blob path w r).0 ≡ ok tt
      → ((replicated cfg open_file update_blob create_blob path w r).1.store ≡ w.store)
        × ((replicated cfg open_file update_blob create_blob path w r).1.cache
            ≡ (invalidated path w).cache)
  unfolding replicated
  replicated_ok w (err e, disk) h = absurd (ground arith)
  replicated_ok w (ok tt, disk) h = (refl, refl)

  recorded_ok :
      (md : Metadata) (w : World Disk) (backend_type : Text) (r : Result (Unit {0}) × State)
      → (recorded cfg open_file update_blob create_blob path size backend_type w r).0 ≡ ok tt
      → (r ≡ (
        ok tt,
        (recorded cfg open_file update_blob create_blob path size backend_type w r).1.store,
      ))
        × ((recorded cfg open_file update_blob create_blob path size backend_type w r).1.cache
            ≡ (invalidated path w).cache)
  unfolding recorded
  recorded_ok md w backend_type (err e, s) h = absurd (ground arith)
  recorded_ok md w backend_type (ok tt, s) h =
      let w1 : World Disk = record w { store = s } in
      let (same, dropped) =
        replicated_ok w1
          (replicate_file cfg open_file update_blob create_blob path size backend_type w1.disk) h in
      (ap (λ z. (ok tt, z)) (sym same), dropped)

  written_ok :
      (md : Metadata) (w : World Disk) (r : Result (Unit {0}) × Disk)
      → Map.get path w.store.metadata_by_path ≡ some md
      → (written cfg open_file update_blob create_blob call path size md w r).0 ≡ ok tt
      → Updated w (written cfg open_file update_blob create_blob call path size md w r).1
  unfolding written
  written_ok md w (err e, disk) known h = absurd (ground arith)
  written_ok md w (ok tt, disk) known h =
      let (stored, dropped) =
        recorded_ok md (record w { disk = disk }) md.backend_type
          (update call.outcome (touched cfg call size md) w.store) h in
      record { md = md; known = known; stored = stored; dropped = dropped }

  locked_ok :
      (bytes : Text) (w : World Disk) (r : Result Metadata)
      → get path w.store ≡ r
      → (update_locked cfg open_file update_blob create_blob call path bytes size r w).0 ≡ ok tt
      → Updated w (update_locked cfg open_file update_blob create_blob call path bytes size r w).1
  unfolding update_locked
  locked_ok bytes w (err e) found h = absurd (ground arith)
  locked_ok bytes w (ok md) found h = elim (Bool-cases (text_eq md.type file)) [
    | inr other ↦ absurd (ground arith)
    | inl is_file ↦
        let r = update_blob (select_backend cfg md) (relative path) bytes size w.disk in
        let step : update_locked cfg open_file update_blob create_blob call path bytes size (ok md)
              w
            ≡ written cfg open_file update_blob create_blob call path size md w r =
          ground arith in
        subst (λ z. Updated w z.1) (sym step)
          (written_ok md w r (get_found path w.store found) (ap (λ z. z.0) (sym step) ∙ h))
  ]

  lock_ok :
      (bytes : Text) (w : World Disk) (r : Result Bool × Locks)
      → (on_lock cfg open_file update_blob create_blob call path bytes size w r).0 ≡ ok tt
      → Updated w (on_lock cfg open_file update_blob create_blob call path bytes size w r).1
  unfolding on_lock
  lock_ok bytes w (err e, l) h = absurd (ground arith)
  lock_ok bytes w (ok false, l) h = absurd (ground arith)
  lock_ok bytes w (ok true, l) h =
      let u = locked_ok bytes (record w { locks = l }) (get path w.store) refl h in
      record { md = u.md; known = u.known; stored = u.stored; dropped = u.dropped }

pub only_updated-store :
    {Disk : Type 0} (o : Outcome) (md : Metadata) (w : World Disk)
    → (update_metadata_only o md w).1.store ≡ (update o md w.store).1
unfolding update_metadata_only only_updated
only_updated-store o md w = by_answer (update o md w.store)
  where
    by_answer : (r : Result (Unit {0}) × State) → (only_updated md.path w r).1.store ≡ r.1
    by_answer (err e, s) = refl
    by_answer (ok t, s) = refl

-- A look-up may fill the cache, and leaves the store as it is.
pub get_metadata-store :
    {Disk : Type 0} (path : Text) (now set_at : ℕ) (w : World Disk)
    → (get_metadata path now set_at w).1.store ≡ w.store
unfolding get_metadata fetched
get_metadata-store path now set_at w = elim (Option-cases (Cache.get path now w.cache)) [
  | inl e ↦ rw (e, get_metadata) (by_store (get path w.store))
  | inr (md, e) ↦ rw (e, get_metadata) refl
]
  where
    by_store : (r : Result Metadata) → (fetched path set_at r w).1.store ≡ w.store
    by_store (err e) = refl
    by_store (ok md) = refl

-- The store's record, once the update is committed.
pub stored_record :
    (o : Outcome) (md : Metadata) (s s' : State)
    → update o md s ≡ (ok tt, s')
    → Map.get md.path s'.metadata_by_path ≡ some md
stored_record (refused e) md s s' h = absurd (ground (arith, update_lem (refused e) md s))
stored_record (given_up e t) md s s' h = absurd (ground (arith, update_lem (given_up e t) md s))
stored_record (committed t) md s s' h = elim (Option-cases (Map.get md.path s.metadata_by_path)) [
  | inl e ↦ absurd (ground (arith, update_lem (committed t) md s))
  | inr (old, e) ↦
      let same : record s { metadata_by_path = Map.put md.path md s.metadata_by_path } ≡ s' =
        ground (arith, update_lem (committed t) md s) in
      subst (λ z. Map.get md.path z.metadata_by_path ≡ some md) same
        (ground (arith, get-put md.path md.path md s.metadata_by_path, text_eq_refl md.path))
]

-- Nothing of a path is left in the cache once the path and its directory are invalidated.
pub get-invalidated :
    {Disk : Type 0} (path : Text) (now : ℕ) (w : World Disk)
    → Cache.get path now (invalidated path w).cache ≡ none
get-invalidated path now w =
    get-invalidate_prefix (dir path) path now (Cache.invalidate path w.cache) ∙ both
  where
    gone : Cache.get path now (Cache.invalidate path w.cache) ≡ none
    gone = get-invalidate path now w.cache

    both :
        (if Cache.is_under (dir path) path
          then none
          else Cache.get path now (Cache.invalidate path w.cache))
        ≡ none
    both = rw gone (ground arith)

pub fetches :
    {Disk : Type 0} (path : Text) (now set_at : ℕ) (w : World Disk) {md : Metadata}
    → Cache.get path now w.cache ≡ none
    → Map.get path w.store.metadata_by_path ≡ some md
    → (get_metadata path now set_at w).0 ≡ ok md
unfolding get_metadata fetched get
fetches path now set_at w miss e = rw (miss, get_metadata, e) refl

-- After `UpdateFile` has answered without an error, the next `GetMetadata` of the path answers the new
-- record, whatever the cache held before: the old one with the new size and times. The store's record of
-- the path must name that path, as it does in every state that the log leads to.
pub update-get_metadata :
    {Disk : Type 0} (cfg : EngineConfig) (open_file : Backend → Text → Disk → Result Text)
    (update_blob create_blob : Backend → Text → Text → ℕ → Disk → Result (Unit {0}) × Disk)
    (call : Call) (path bytes : Text) (size now set_at : ℕ) (w : World Disk)
    → ((md : Metadata) → Map.get path w.store.metadata_by_path ≡ some md → md.path ≡ path)
    → (update_file cfg open_file update_blob create_blob call path bytes size w).0 ≡ ok tt
    → (md : Metadata) × (Map.get path w.store.metadata_by_path ≡ some md)
      × ((get_metadata path now set_at
            (update_file cfg open_file update_blob create_blob call path bytes size w).1).0
          ≡ ok (touched cfg call size md))
unfolding update_file touched
update-get_metadata cfg open_file update_blob create_blob call path bytes size now set_at w own h =
    let w' = (update_file cfg open_file update_blob create_blob call path bytes size w).1 in
    let u = lock_ok cfg open_file update_blob create_blob call path size bytes w _ h in
    let same : u.md.path ≡ path = own u.md u.known in
    let now_stored =
      stored_record call.outcome (touched cfg call size u.md) w.store w'.store u.stored in
    (
      u.md,
      u.known,
      fetches path now set_at w'
          (ap (λ c. Cache.get path now c) u.dropped ∙ get-invalidated path now w)
          (subst (λ k. Map.get k w'.store.metadata_by_path ≡ some (touched cfg call size u.md)) same
            now_stored),
    )
