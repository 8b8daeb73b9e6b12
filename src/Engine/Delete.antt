-- ===== src/Engine/Delete.antt =====
-- core/file_operations.go, `Engine.DeleteFile`. `erasure_delete` stands for the erasure manager's
-- `DeleteFile` and is `none` where no manager is set; it changes the replicated
-- state too, as in Erasure/Files.antt; `remove_blob` is the backends' `Delete`.
use callfs.Prelude.{
  ℕ, ◌≡◌, refl, ap, ◌∙◌, arith, Text, text_eq, to_lower, trim_space, if◌then◌else◌, Bool, true,
  false, not, ◌&&◌, ◌||◌, Option, none, some, List, [], ◌∷◌, Result, ok, err, message, wrap,
  not_found,
}
use callfs.Metadata.{Metadata, directory}
use callfs.Locks
use callfs.Locks.{Locks}
use callfs.Raft.{State}
use callfs.Raft.Store.{get, delete, list_children}
use callfs.Prelude.Map
use callfs.Cache
use callfs.Raft.Store.Committed.{delete_removes}
use callfs.Engine.Update.{get-invalidated}
use callfs.Engine.{
  get_metadata, fetched, EngineConfig, Backend, Call, World, relative, lock_key, invalidated,
  select_backend, select_backend_by_type,
}

module _ {Disk : Type 0} (cfg : EngineConfig)
    (erasure_delete : Option (Text → State × Disk → Result (Unit {0}) × (State × Disk)))
    (remove_blob : Backend → Text → Disk → Result (Unit {0}) × Disk) where
  -- deleteReplicatedFile
  replica_deleted : Result (Unit {0}) × Disk → Result (Unit {0}) × Disk
  replica_deleted (ok _, disk) = (ok tt, disk)
  replica_deleted (err e, disk) = (
    if cfg.require_replica_ack then err (wrap "failed to delete replicated file" e) else ok tt,
    disk,
  )

  unfoldable pub delete_replicated_file : Text → Text → Disk → Result (Unit {0}) × Disk
  unfolding replica_deleted
  delete_replicated_file path primary_backend disk =
      let replica = to_lower (trim_space cfg.replica_backend) in
      if not cfg.replication_enabled
        || text_eq replica []
        || text_eq replica (to_lower primary_backend)
      then (ok tt, disk)
      else replica_deleted (remove_blob (select_backend_by_type replica) (relative path) disk)

  -- behind the replica, behind the store's deletion, with or without erasure coding
  replica_gone : Text → World Disk → Result (Unit {0}) × Disk → Result (Unit {0}) × World Disk
  replica_gone path w (err e, disk) = (err e, record w { disk = disk })
  replica_gone path w (ok _, disk) = (ok tt, invalidated path (record w { disk = disk }))

  plain_gone :
      Text → Metadata → World Disk → Result (Unit {0}) × State → Result (Unit {0}) × World Disk
  unfolding replica_gone
  plain_gone path md w (err e, s) =
      (err (wrap "failed to delete metadata" e), record w { store = s })
  plain_gone path md w (ok _, s) =
      replica_gone path (record w { store = s })
        (delete_replicated_file path md.backend_type
          (remove_blob (select_backend cfg md) (relative path) w.disk).1)

  coded_gone : Text → World Disk → Result (Unit {0}) × State → Result (Unit {0}) × World Disk
  coded_gone path w (err e, s) = (err (wrap "failed to delete metadata" e), record w { store = s })
  coded_gone path w (ok _, s) = (ok tt, invalidated path (record w { store = s }))

  shards_gone :
      Call → Text → World Disk → Result (Unit {0}) × (State × Disk) → Result (Unit {0}) × World Disk
  unfolding coded_gone
  shards_gone call path w (err e, (s, disk)) =
      (err (wrap "failed to delete erasure-coded file" e), record w { store = s; disk = disk })
  shards_gone call path w (ok _, (s, disk)) =
      coded_gone path (record w { store = s; disk = disk }) (delete call.outcome path s)

  erasure_of : Metadata → Option (Text → State × Disk → Result (Unit {0}) × (State × Disk))
  erasure_of md = if md.erasure_coded then erasure_delete else none

  delete_entry :
      Call
      → Text
      → Metadata
      → Option (Text → State × Disk → Result (Unit {0}) × (State × Disk))
      → World Disk
      → Result (Unit {0}) × World Disk
  unfolding shards_gone plain_gone
  delete_entry call path md none w = plain_gone path md w (delete call.outcome path w.store)
  delete_entry call path md (some delete_shards) w =
      shards_gone call path w (delete_shards path (w.store, w.disk))

  is_empty : List Metadata → Bool
  is_empty [] = true
  is_empty (md ∷ mds) = false

  delete_locked : Call → Text → Result Metadata → World Disk → Result (Unit {0}) × World Disk
  unfolding delete_entry erasure_of is_empty
  delete_locked call path (err e) w = (err (wrap "failed to get metadata" e), w)
  delete_locked call path (ok md) w =
      if text_eq md.type directory && not (is_empty (list_children path w.store))
      then (err (message "directory not empty"), w)
      else delete_entry call path md (erasure_of md) w

  on_delete_lock : Call → Text → World Disk → Result Bool × Locks → Result (Unit {0}) × World Disk
  unfolding delete_locked
  on_delete_lock call path w (err e, l) =
      (err (wrap "failed to acquire lock" e), record w { locks = l })
  on_delete_lock call path w (ok false, l) =
      (err (message "failed to acquire lock for file deletion"), record w { locks = l })
  on_delete_lock call path w (ok true, l) =
      let r = delete_locked call path (get path w.store) (record w { locks = l }) in
      (r.0, record r.1 { locks = Locks.release (lock_key path) call.release_now r.1.locks })

  unfoldable pub delete_file : Call → Text → World Disk → Result (Unit {0}) × World Disk
  unfolding on_delete_lock
  delete_file call path w = on_delete_lock call path w (
      Locks.acquire call.cancelled call.owner_id (lock_key path) call.lock_now call.lock_later
        w.locks)

module _ {Disk : Type 0} (cfg : EngineConfig)
    (erasure_delete : Option (Text → State × Disk → Result (Unit {0}) × (State × Disk)))
    (remove_blob : Backend → Text → Disk → Result (Unit {0}) × Disk) (call : Call)
    (path : Text) where
  record Gone (w w' : World Disk) : Type 0 where
    before : State
    deleted : delete call.outcome path before ≡ (ok tt, w'.store)
    dropped : w'.cache ≡ (invalidated path w).cache

  plain_gone_ok :
      (md : Metadata) (w : World Disk) (r : Result (Unit {0}) × State)
      → delete call.outcome path w.store ≡ r
      → (plain_gone cfg erasure_delete remove_blob path md w r).0 ≡ ok tt
      → Gone w (plain_gone cfg erasure_delete remove_blob path md w r).1
  unfolding plain_gone replica_gone
  plain_gone_ok md w (err e, s) d h = absurd (ground arith)
  plain_gone_ok md w (ok tt, s) d h =
      by_replica
        (delete_replicated_file cfg erasure_delete remove_blob path md.backend_type
          (remove_blob (select_backend cfg md) (relative path) w.disk).1)
        h
    where
      by_replica :
          (r : Result (Unit {0}) × Disk)
          → (replica_gone cfg erasure_delete remove_blob path (record w { store = s }) r).0 ≡ ok tt
          → Gone w (replica_gone cfg erasure_delete remove_blob path (record w { store = s }) r).1
      by_replica (err e, disk) q = absurd (ground arith)
      by_replica (ok tt, disk) q = record { before = w.store; deleted = d; dropped = refl }

  shards_gone_ok :
      (w : World Disk) (r : Result (Unit {0}) × (State × Disk))
      → (shards_gone cfg erasure_delete remove_blob call path w r).0 ≡ ok tt
      → Gone w (shards_gone cfg erasure_delete remove_blob call path w r).1
  unfolding shards_gone coded_gone
  shards_gone_ok w (err e, (s, disk)) h = absurd (ground arith)
  shards_gone_ok w (ok tt, (s0, disk)) h = by_store (delete call.outcome path s0) refl h
    where
      by_store :
          (r : Result (Unit {0}) × State)
          → delete call.outcome path s0 ≡ r
          → (coded_gone cfg erasure_delete remove_blob path
              (record w { store = s0; disk = disk })
              r).0
            ≡ ok tt
          → Gone w
              (coded_gone cfg erasure_delete remove_blob path
                (record w { store = s0; disk = disk })
                r).1
      by_store (err e, s) d q = absurd (ground arith)
      by_store (ok tt, s) d q = record { before = s0; deleted = d; dropped = refl }

  delete_entry_ok :
      (md : Metadata) (shards : Option (Text → State × Disk → Result (Unit {0}) × (State × Disk)))
      (w : World Disk)
      → (delete_entry cfg erasure_delete remove_blob call path md shards w).0 ≡ ok tt
      → Gone w (delete_entry cfg erasure_delete remove_blob call path md shards w).1
  unfolding delete_entry
  delete_entry_ok md none w h = plain_gone_ok md w (delete call.outcome path w.store) refl h
  delete_entry_ok md (some delete_shards) w h =
      shards_gone_ok w (delete_shards path (w.store, w.disk)) h

  delete_locked_ok :
      (r : Result Metadata) (w : World Disk)
      → (delete_locked cfg erasure_delete remove_blob call path r w).0 ≡ ok tt
      → Gone w (delete_locked cfg erasure_delete remove_blob call path r w).1
  unfolding delete_locked
  delete_locked_ok (err e) w h = absurd (ground arith)
  delete_locked_ok (ok md) w h =
      by_test
        (text_eq md.type directory
          && not (is_empty cfg erasure_delete remove_blob (list_children path w.store)))
        h
    where
      refused : Result (Unit {0}) × World Disk
      refused = (err (message "directory not empty"), w)

      go : Result (Unit {0}) × World Disk
      go =
          delete_entry cfg erasure_delete remove_blob call path md
            (erasure_of cfg erasure_delete remove_blob md) w

      by_test :
          (b : Bool) → (if b then refused else go).0 ≡ ok tt → Gone w (if b then refused else go).1
      by_test true q = absurd (ground arith)
      by_test false q = delete_entry_ok md (erasure_of cfg erasure_delete remove_blob md) w q

  on_delete_lock_ok :
      (w : World Disk) (r : Result Bool × Locks)
      → (on_delete_lock cfg erasure_delete remove_blob call path w r).0 ≡ ok tt
      → Gone w (on_delete_lock cfg erasure_delete remove_blob call path w r).1
  unfolding on_delete_lock
  on_delete_lock_ok w (err e, l) h = absurd (ground arith)
  on_delete_lock_ok w (ok false, l) h = absurd (ground arith)
  on_delete_lock_ok w (ok true, l) h =
      let g = delete_locked_ok (get path w.store) (record w { locks = l }) h in
      record { before = g.before; deleted = g.deleted; dropped = g.dropped }

misses :
    {Disk : Type 0} (path : Text) (now set_at : ℕ) (w : World Disk)
    → Cache.get path now w.cache ≡ none
    → Map.get path w.store.metadata_by_path ≡ none
    → (get_metadata path now set_at w).0 ≡ err not_found
unfolding get_metadata fetched get
misses path now set_at w miss e = rw (miss, get_metadata, e) refl

-- After `DeleteFile` has answered without an error, of a plain file, an erasure-coded one or a directory,
-- the next `GetMetadata` of the path answers "not found", whatever the cache held before.
pub delete-get_metadata :
    {Disk : Type 0} (cfg : EngineConfig)
    (erasure_delete : Option (Text → State × Disk → Result (Unit {0}) × (State × Disk)))
    (remove_blob : Backend → Text → Disk → Result (Unit {0}) × Disk) (call : Call) (path : Text)
    (now set_at : ℕ) (w : World Disk)
    → (delete_file cfg erasure_delete remove_blob call path w).0 ≡ ok tt
    → (get_metadata path now set_at (delete_file cfg erasure_delete remove_blob call path w).1).0
      ≡ err not_found
unfolding delete_file
delete-get_metadata cfg erasure_delete remove_blob call path now set_at w h =
    let w' = (delete_file cfg erasure_delete remove_blob call path w).1 in
    let g = on_delete_lock_ok cfg erasure_delete remove_blob call path w _ h in
    misses path now set_at w'
      (ap (λ c. Cache.get path now c) g.dropped ∙ get-invalidated path now w)
      (delete_removes call.outcome path g.before w'.store g.deleted)
