-- ===== src/Engine/Create.antt =====
-- core/file_operations.go: `CreateFile` and `CreateErasureMetadata`. `make_dir`, `create_blob` and
-- `remove_blob` are the backends' `CreateDirectory`, `Create` and `Delete`; a call's `mtime` is its
-- reading of the clock for CreatedAt. `none` is fuel that runs out in `ensureParentDirectories`.
pub mod Terminates
pub mod Made
pub mod Tree
mod Examples
use callfs.Prelude.{
  ℕ, suc, Text, length, Bool, true, false, Option, none, some, Result, ok, err, already_exists,
  message, wrap,
}
use callfs.Metadata.{Metadata, localfs}
use callfs.Paths.{dir}
use callfs.Locks
use callfs.Locks.{Locks}
use callfs.Cache
use callfs.Raft.{State}
use callfs.Raft.Store
use callfs.Engine.{
  EngineConfig, Backend, Call, World, relative, lock_key, select_backend_by_type, replicate_file,
}
use callfs.Engine.Directories.{Answer, unlocked, stamped, ensure_parents}

module _ {Disk : Type 0} (cfg : EngineConfig) (open_file : Backend → Text → Disk → Result Text)
    (update_blob create_blob : Backend → Text → Text → ℕ → Disk → Result (Unit {0}) × Disk)
    (make_dir remove_blob : Backend → Text → Disk → Result (Unit {0}) × Disk) (calls : Text → Call)
    (call : Call) where
  -- CreateFile, from its last step to its first; `call` is its own, `calls` those for its parents
  file_replicated : Text → World Disk → Result (Unit {0}) × Disk → Answer Disk
  file_replicated path w (err e, disk) = (err e, record w { disk = disk })
  file_replicated path w (ok _, disk) =
      (ok tt, record w { disk = disk; cache = Cache.invalidate_prefix (dir path) w.cache })

  file_stored : Text → ℕ → Metadata → World Disk → Result (Unit {0}) × State → Answer Disk
  unfolding file_replicated
  file_stored path size md w (err e, s) = (
    err (wrap "failed to store metadata" e),
    record w {
      store = s;
      disk = (remove_blob (select_backend_by_type md.backend_type) (relative path) w.disk).1;
    },
  )
  file_stored path size md w (ok _, s) =
      file_replicated path (record w { store = s })
        (replicate_file cfg open_file update_blob create_blob path size md.backend_type w.disk)

  file_written : Text → ℕ → Metadata → World Disk → Result (Unit {0}) × Disk → Answer Disk
  unfolding file_stored
  file_written path size md w (err e, disk) =
      (err (wrap "failed to create file in backend" e), record w { disk = disk })
  file_written path size md w (ok _, disk) =
      file_stored path size md (record w { disk = disk })
        (Store.create call.outcome (stamped cfg call path size md) w.store)

  file_parented : Text → Text → ℕ → Metadata → Option (Answer Disk) → Option (Answer Disk)
  unfolding file_written
  file_parented path bytes size md none = none
  file_parented path bytes size md (some (err e, w)) =
      some (err (wrap "failed to ensure parent directories" e), w)
  file_parented path bytes size md (some (ok _, w)) = some (
      file_written path size md w
        (create_blob (select_backend_by_type md.backend_type) (relative path) bytes size w.disk))

  file_locked : Text → Text → ℕ → Metadata → World Disk → Result Metadata → Option (Answer Disk)
  unfolding file_parented ensure_parents
  file_locked path bytes size md w (ok _) = some (err already_exists, w)
  file_locked path bytes size md w (err _) =
      file_parented path bytes size md
        (ensure_parents cfg make_dir remove_blob calls (suc (length path)) md.backend_type path w)

  on_file_lock :
      Text → Text → ℕ → Metadata → World Disk → Result Bool × Locks → Option (Answer Disk)
  unfolding file_locked unlocked
  on_file_lock path bytes size md w (err e, l) =
      some (err (wrap "failed to acquire lock" e), record w { locks = l })
  on_file_lock path bytes size md w (ok false, l) =
      some (err (message "failed to acquire lock for file creation"), record w { locks = l })
  on_file_lock path bytes size md w (ok true, l) =
      unlocked (lock_key path) call
        (file_locked path bytes size md (record w { locks = l }) (Store.get path w.store))

  unfoldable pub create_file : Text → Text → ℕ → Metadata → World Disk → Option (Answer Disk)
  unfolding on_file_lock
  create_file path bytes size md w = on_file_lock path bytes size md w (
      Locks.acquire call.cancelled call.owner_id (lock_key path) call.lock_now call.lock_later
        w.locks)

  -- CreateErasureMetadata
  erasure_stored : Text → World Disk → Result (Unit {0}) × State → Answer Disk
  erasure_stored path w (err e, s) =
      (err (wrap "failed to store erasure metadata" e), record w { store = s })
  erasure_stored path w (ok _, s) =
      (ok tt, record w { store = s; cache = Cache.invalidate_prefix (dir path) w.cache })

  erasure_parented : Text → Metadata → Option (Answer Disk) → Option (Answer Disk)
  unfolding erasure_stored
  erasure_parented path md none = none
  erasure_parented path md (some (err e, w)) =
      some (err (wrap "failed to ensure parent directories" e), w)
  erasure_parented path md (some (ok _, w)) = some (
      erasure_stored path w (
        Store.create call.outcome
          (record md { path = path; created_at = call.mtime; updated_at = call.updated_at })
          w.store))

  unfoldable pub create_erasure_metadata : Text → Metadata → World Disk → Option (Answer Disk)
  unfolding erasure_parented ensure_parents
  create_erasure_metadata path md w =
      erasure_parented path md
        (ensure_parents cfg make_dir remove_blob calls (suc (length path)) localfs path w)
