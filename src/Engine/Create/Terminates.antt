-- ===== src/Engine/Create/Terminates.antt =====
-- core/file_operations.go: `CreateFile` and `CreateErasureMetadata` return, on every path and in every
-- state, although `ensureParentDirectories` and `CreateDirectory` call each other.
use callfs.Prelude.{
  ℕ, suc, ◌<◌, refl, arith, Text, length, Option, none, some, Bool, true, false, Result, ok, err,
}
use callfs.Metadata.{Metadata, localfs}
use callfs.Locks.{Locks}
use callfs.Raft.Store
use callfs.Engine.{EngineConfig, Backend, Call, World, lock_key}
use callfs.Engine.Directories.{Answer, create_directory, ensure_parents}
use callfs.Engine.Directories.Terminates.{
  Returns, unlocked-Returns, create_directory_with-Returns, ensure_parents-Returns,
}
use callfs.Engine.Create.{
  file_parented, file_locked, on_file_lock, create_file, erasure_parented, create_erasure_metadata,
}

one_more : (n : ℕ) → n < suc n
one_more n = omega arith

module _ {Disk : Type 0} (cfg : EngineConfig) (open_file : Backend → Text → Disk → Result Text)
    (update_blob create_blob : Backend → Text → Text → ℕ → Disk → Result (Unit {0}) × Disk)
    (make_dir remove_blob : Backend → Text → Disk → Result (Unit {0}) × Disk) (calls : Text → Call)
    (call : Call) where
  parented-Returns :
      (path bytes : Text) (size : ℕ) (md : Metadata) (o : Option (Answer Disk))
      → Returns o
      → Returns (
          file_parented cfg open_file update_blob create_blob make_dir remove_blob calls call path
            bytes size md o)
  unfolding file_parented
  parented-Returns path bytes size md none (a, e) = absurd (ground arith)
  parented-Returns path bytes size md (some (err e, w)) h = (_, refl)
  parented-Returns path bytes size md (some (ok t, w)) h = (_, refl)

  locked-Returns :
      (path bytes : Text) (size : ℕ) (md : Metadata) (w : World Disk) (found : Result Metadata)
      → Returns (
          file_locked cfg open_file update_blob create_blob make_dir remove_blob calls call path
            bytes size md w found)
  unfolding file_locked
  locked-Returns path bytes size md w (ok x) = (_, refl)
  locked-Returns path bytes size md w (err e) = parented-Returns path bytes size md _ (
      ensure_parents-Returns cfg make_dir remove_blob calls (suc (length path)) md.backend_type path
        w (one_more (length path)))

  on_lock-Returns :
      (path bytes : Text) (size : ℕ) (md : Metadata) (w : World Disk) (r : Result Bool × Locks)
      → Returns (
          on_file_lock cfg open_file update_blob create_blob make_dir remove_blob calls call path
            bytes size md w r)
  unfolding on_file_lock
  on_lock-Returns path bytes size md w (err e, l) = (_, refl)
  on_lock-Returns path bytes size md w (ok false, l) = (_, refl)
  on_lock-Returns path bytes size md w (ok true, l) =
      unlocked-Returns (lock_key path) call _
        (locked-Returns path bytes size md (record w { locks = l }) (Store.get path w.store))

  coded-Returns :
      (path : Text) (md : Metadata) (o : Option (Answer Disk))
      → Returns o
      → Returns (
          erasure_parented cfg open_file update_blob create_blob make_dir remove_blob calls call
            path md o)
  unfolding erasure_parented
  coded-Returns path md none (a, e) = absurd (ground arith)
  coded-Returns path md (some (err e, w)) h = (_, refl)
  coded-Returns path md (some (ok t, w)) h = (_, refl)

  -- `CreateFile`, `CreateDirectory` and `CreateErasureMetadata` return an answer for every path, whatever
  -- the store, the locks and the backends answer: the recursion over the parent directories, which goes
  -- through `CreateDirectory` and back, takes at most as many levels as the path has runes.
  pub create-Returns :
      (path bytes : Text) (size : ℕ) (md : Metadata) (w : World Disk)
      → Returns (
          create_file cfg open_file update_blob create_blob make_dir remove_blob calls call path
            bytes size md w)
        × Returns (create_directory cfg make_dir remove_blob calls path md w)
        × Returns (
            create_erasure_metadata cfg open_file update_blob create_blob make_dir remove_blob calls
              call path md w)
  unfolding create_file create_directory create_erasure_metadata
  create-Returns path bytes size md w = (
    on_lock-Returns path bytes size md w _,
    create_directory_with-Returns cfg make_dir remove_blob calls
        (ensure_parents cfg make_dir remove_blob calls (suc (length path)) md.backend_type path)
        (λ w'.
          ensure_parents-Returns cfg make_dir remove_blob calls (suc (length path)) md.backend_type
            path w' (one_more (length path)))
        path md w,
    coded-Returns path md _ (
        ensure_parents-Returns cfg make_dir remove_blob calls (suc (length path)) localfs path w
          (one_more (length path))),
  )
