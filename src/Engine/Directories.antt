-- ===== src/Engine/Directories.antt =====
-- core/directory_operations.go (`CreateDirectory`) and core/backend_selection.go
-- (`ensureParentDirectories`, `EnsureRootDirectory`). The first two call each other: here on fuel,
-- `none` where it runs out. `make_dir` and `remove_blob` are the backends' `CreateDirectory` and
-- `Delete`. `calls` has the clock readings and answers of the `CreateDirectory` of each path, whose
-- `mtime` is the reading for CreatedAt.
pub mod Terminates
pub mod Tree
use callfs.Prelude.{
  ℕ, zero, suc, Text, text_eq, codes, length, cut_last, trim_right, if◌then◌else◌, Bool, true,
  false, ◌||◌, Option, none, some, [], ◌++◌, Result, ok, err, eq_already_exists, already_exists,
  message, wrap, pos,
}
use callfs.Metadata.{Metadata, directory, localfs}
use callfs.Paths.{slash, root, dot, dir}
use callfs.Locks
use callfs.Locks.{Locks}
use callfs.Cache
use callfs.Raft.{State}
use callfs.Raft.Store
use callfs.Raft.Store.{Outcome}
use callfs.Engine.{EngineConfig, Backend, Call, World, relative, select_backend_by_type}

-- filepath.Base
unfoldable pub base : Text → Text
base path =
    let trimmed = trim_right slash path in
    if text_eq path []
    then dot
    else if text_eq trimmed []
    then root
    else elim (cut_last slash trimmed) [ none ↦ trimmed | some (_, name) ↦ name ]

abbrev pub dir_key : Text → Text
dir_key path = codes "dir:" ++ path

-- the test on a parent path that ends the recursion
unfoldable pub is_top : Text → Bool
is_top parent = text_eq parent root || text_eq parent dot

-- a record with zero fields but those of the literal in `ensureParentDirectories`
abbrev pub parent_metadata : Text → Text → Metadata
parent_metadata parent backend_type = record {
  id = 0;
  parent_id = none;
  name = base parent;
  path = [];
  type = directory;
  size = 0;
  mode = codes "0777";
  uid = pos 0;
  gid = pos 0;
  atime = 0;
  mtime = 0;
  ctime = 0;
  backend_type = backend_type;
  erasure_coded = false;
  callfs_instance_id = none;
  symlink_target = none;
  created_at = 0;
  updated_at = 0;
}

abbrev pub or_localfs : Text → Text
or_localfs backend_type = if text_eq backend_type [] then localfs else backend_type

-- the fields that `CreateFile` sets in the record it was given
unfoldable pub stamped : EngineConfig → Call → Text → ℕ → Metadata → Metadata
stamped cfg call path size md = record md {
  path = path;
  size = size;
  created_at = call.mtime;
  updated_at = call.updated_at;
  callfs_instance_id =
      if text_eq md.backend_type localfs
      then some cfg.current_instance_id
      else md.callfs_instance_id;
}

-- and `CreateDirectory`
abbrev pub stamped_dir : EngineConfig → Call → Text → Metadata → Metadata
stamped_dir cfg call path md = record (stamped cfg call path 0 md) { type = directory }

abbrev pub Answer : Type 0 → Type 0
Answer Disk = Result (Unit {0}) × World Disk

module _ {Disk : Type 0} where
  -- the deferred release
  unfoldable pub unlocked : Text → Call → Option (Answer Disk) → Option (Answer Disk)
  unlocked key call none = none
  unlocked key call (some (r, w)) =
      some (r, record w { locks = Locks.release key call.release_now w.locks })

  -- the test for ErrAlreadyExists behind `CreateDirectory`
  exists_now : Option (Answer Disk) → Option (Answer Disk)
  exists_now none = none
  exists_now (some (ok _, w)) = some (ok tt, w)
  exists_now (some (err e, w)) = some (if eq_already_exists e then ok tt else err e, w)

module _ {Disk : Type 0} (cfg : EngineConfig)
    (make_dir remove_blob : Backend → Text → Disk → Result (Unit {0}) × Disk)
    (calls : Text → Call) where
  -- CreateDirectory, from its last step to its first; `parents` is its call of
  -- `ensureParentDirectories`
  directory_stored : Text → Metadata → World Disk → Result (Unit {0}) × State → Answer Disk
  directory_stored path md w (ok _, s) = (ok tt, record w { store = s })
  directory_stored path md w (err e, s) = (
    err (wrap "failed to store metadata" e),
    record w {
      store = s;
      disk = (remove_blob (select_backend_by_type md.backend_type) (relative path) w.disk).1;
    },
  )

  directory_made : Text → Metadata → World Disk → Result (Unit {0}) × Disk → Answer Disk
  unfolding directory_stored
  directory_made path md w (err e, disk) =
      (err (wrap "failed to create directory in backend" e), record w { disk = disk })
  directory_made path md w (ok _, disk) =
      directory_stored path md (record w { disk = disk })
        (Store.create (calls path).outcome (stamped_dir cfg (calls path) path md) w.store)

  directory_parented : Text → Metadata → Option (Answer Disk) → Option (Answer Disk)
  unfolding directory_made
  directory_parented path md none = none
  directory_parented path md (some (err e, w)) =
      some (err (wrap "failed to ensure parent directories" e), w)
  directory_parented path md (some (ok _, w)) = some (
      directory_made path md w
        (make_dir (select_backend_by_type md.backend_type) (relative path) w.disk))

  directory_locked :
      (World Disk → Option (Answer Disk))
      → Text
      → Metadata
      → World Disk
      → Result Metadata
      → Option (Answer Disk)
  unfolding directory_parented
  directory_locked parents path md w (ok _) = some (err already_exists, w)
  directory_locked parents path md w (err _) = directory_parented path md (parents w)

  on_directory_lock :
      (World Disk → Option (Answer Disk))
      → Text
      → Metadata
      → World Disk
      → Result Bool × Locks
      → Option (Answer Disk)
  unfolding directory_locked unlocked
  on_directory_lock parents path md w (err e, l) =
      some (err (wrap "failed to acquire lock" e), record w { locks = l })
  on_directory_lock parents path md w (ok false, l) =
      some (err (message "failed to acquire lock for directory creation"), record w { locks = l })
  on_directory_lock parents path md w (ok true, l) =
      unlocked (dir_key path) (calls path)
        (directory_locked parents path md (record w { locks = l }) (Store.get path w.store))

  pub create_directory_with :
      (World Disk → Option (Answer Disk)) → Text → Metadata → World Disk → Option (Answer Disk)
  unfolding on_directory_lock
  create_directory_with parents path md w = on_directory_lock parents path md w (
      Locks.acquire (calls path).cancelled (calls path).owner_id (dir_key path)
        (calls path).lock_now (calls path).lock_later w.locks)

  -- ensureParentDirectories
  then_create :
      (World Disk → Option (Answer Disk))
      → Text
      → Text
      → Option (Answer Disk)
      → Option (Answer Disk)
  unfolding create_directory_with exists_now
  then_create parents backend_type parent none = none
  then_create parents backend_type parent (some (err e, w)) = some (err e, w)
  then_create parents backend_type parent (some (ok _, w)) =
      exists_now (create_directory_with parents parent (parent_metadata parent backend_type) w)

  unfoldable pub ensure_parents : ℕ → Text → Text → World Disk → Option (Answer Disk)
  unfolding then_create
  ensure_parents zero backend_type path w = none
  ensure_parents (suc fuel) backend_type path w = elim (is_top (dir path)) [
    | true ↦ some (ok tt, w)
    | false ↦ elim (Store.get (dir path) w.store) [
      | ok _ ↦ some (ok tt, w)
      | err _ ↦
          then_create (ensure_parents fuel (or_localfs backend_type) (dir path))
            (or_localfs backend_type) (dir path) (ensure_parents fuel backend_type (dir path) w)
    ]
  ]

  -- CreateDirectory
  unfoldable pub create_directory : Text → Metadata → World Disk → Option (Answer Disk)
  unfolding create_directory_with
  create_directory path md w =
      create_directory_with (ensure_parents (suc (length path)) md.backend_type path) path md w

-- the record of `EnsureRootDirectory`, with its readings of the clock
abbrev pub root_metadata : ℕ → ℕ → ℕ → Metadata
root_metadata atime mtime ctime = record (parent_metadata root localfs) {
  name = root;
  path = root;
  atime = atime;
  mtime = mtime;
  ctime = ctime;
}

module _ {Disk : Type 0} where
  -- EnsureRootDirectory
  root_stored : World Disk → Result (Unit {0}) × State → Answer Disk
  root_stored w (err e, s) =
      (err (wrap "failed to create root directory metadata" e), record w { store = s })
  root_stored w (ok _, s) = (ok tt, record w { store = s })

  unfoldable pub ensure_root_directory : Outcome → ℕ → ℕ → ℕ → World Disk → Answer Disk
  unfolding root_stored
  ensure_root_directory o atime mtime ctime w = elim (Store.get root w.store) [
    | ok _ ↦ (ok tt, w)
    | err _ ↦ root_stored w (Store.create o (root_metadata atime mtime ctime) w.store)
  ]
