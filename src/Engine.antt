-- ===== src/Engine.antt =====
-- core/file_operations.go, core/backend_selection.go: `Engine.UpdateFile`, `GetMetadata`, `GetFile` and
-- `UpdateMetadataOnly`, over the replicated store, the cache and the lock manager. The storage backends
-- are parameters: `Disk` is all that they keep, `open`, `update` and `create` are their operations.
-- Clock readings and the answers of Raft are the fields of `Call`, one for each call of the engine.
mod Examples
pub mod Update
pub mod Acknowledged
pub mod Stale
pub mod Delete
pub mod Create
pub mod Tree
pub mod Directories
pub mod Listing
pub mod Remote
use callfs.Prelude.{
  String, ℕ, Text, text_eq, codes, ◌++◌, trim_prefix, trim_space, to_lower, if◌then◌else◌, Bool,
  true, false, not, ◌||◌, Option, none, some, [], Result, ok, err, Error, message, wrap,
}
use callfs.Prelude.Map
use callfs.Metadata.{Metadata, file, localfs, s3}
use callfs.Paths.{root, dir}
use callfs.Locks
use callfs.Locks.{Locks}
use callfs.Cache
use callfs.Cache.{MetadataCache}
use callfs.Raft.{State}
use callfs.Raft.Store
use callfs.Raft.Store.{Outcome}

-- the configuration's part of `Engine`
pub record EngineConfig : Type 0 where
  pub current_instance_id : Text
  pub replication_enabled : Bool
  pub replica_backend : Text
  pub require_replica_ack : Bool

pub data Backend : Type 0 where
  local_fs_backend s3_backend : Backend
  internal_proxy_backend : Text → Backend

-- selectBackendByType
unfoldable pub select_backend_by_type : Text → Backend
select_backend_by_type backend_type =
    if text_eq backend_type localfs
    then local_fs_backend
    else if text_eq backend_type s3
    then s3_backend
    else local_fs_backend

-- selectBackend; the proxy gets the instance by the context
unfoldable pub select_backend : EngineConfig → Metadata → Backend
unfolding select_backend_by_type
select_backend cfg md = elim md.callfs_instance_id [
  | none ↦ select_backend_by_type md.backend_type
  | some id ↦
      if text_eq id cfg.current_instance_id
      then select_backend_by_type md.backend_type
      else internal_proxy_backend id
]

pub record Call : Type 0 where
  pub cancelled : Bool
  pub owner_id : Option Text
  pub lock_now : ℕ
  pub lock_later : ℕ
  pub mtime : ℕ
  pub updated_at : ℕ
  pub outcome : Outcome
  pub release_now : ℕ

pub record World (Disk : Type 0) : Type 0 where
  pub store : State
  pub cache : MetadataCache
  pub locks : Locks
  pub disk : Disk

-- the relative path that backends take
abbrev pub relative : Text → Text
relative path = trim_prefix path root

abbrev pub lock_key : Text → Text
lock_key path = codes "file:" ++ path

-- the existing record as `UpdateFile` writes it back
unfoldable pub touched : EngineConfig → Call → ℕ → Metadata → Metadata
touched cfg call size md = record md {
  size = size;
  mtime = call.mtime;
  updated_at = call.updated_at;
  callfs_instance_id = elim md.callfs_instance_id [
    | some id ↦ some id
    | none ↦ if text_eq md.backend_type localfs then some cfg.current_instance_id else none
  ];
}

module _ {Disk : Type 0} where
  -- GetMetadata
  pub fetched : Text → ℕ → Result Metadata → World Disk → Result Metadata × World Disk
  fetched path set_at (err e) w = (err e, w)
  fetched path set_at (ok md) w = (ok md, record w { cache = Cache.set path md set_at w.cache })

  unfoldable pub get_metadata : Text → ℕ → ℕ → World Disk → Result Metadata × World Disk
  unfolding fetched
  get_metadata path now set_at w = elim (Cache.get path now w.cache) [
    | some md ↦ (ok md, w)
    | none ↦ fetched path set_at (Store.get path w.store) w
  ]

  abbrev pub invalidated : Text → World Disk → World Disk
  invalidated path w = record w {
    cache = Cache.invalidate_prefix (dir path) (Cache.invalidate path w.cache);
  }

  -- UpdateMetadataOnly
  only_updated : Text → World Disk → Result (Unit {0}) × State → Result (Unit {0}) × World Disk
  only_updated path w (err e, s) =
      (err (wrap "failed to update metadata" e), record w { store = s })
  only_updated path w (ok _, s) =
      (ok tt, record w { store = s; cache = Cache.invalidate path w.cache })

  unfoldable pub update_metadata_only :
      Outcome → Metadata → World Disk → Result (Unit {0}) × World Disk
  unfolding only_updated
  update_metadata_only o md w = only_updated md.path w (Store.update o md w.store)

  module _ (cfg : EngineConfig) (open_file : Backend → Text → Disk → Result Text)
      (update_blob create_blob : Backend → Text → Text → ℕ → Disk → Result (Unit {0}) × Disk) where
    -- GetFile; the erasure manager's `RetrieveFile` is `none` where no manager is set
    from_backend : Text → Metadata → World Disk → Result Text
    from_backend path md w = elim (open_file (select_backend cfg md) (relative path) w.disk) [
      | err e ↦ err (wrap "failed to open file" e)
      | ok bytes ↦ ok bytes
    ]

    reassembled : Result Text → Result Text
    reassembled (err e) = err (wrap "failed to retrieve erasure-coded file" e)
    reassembled (ok bytes) = ok bytes

    content_of : Option (Text → Result Text) → Text → Metadata → World Disk → Result Text
    unfolding from_backend reassembled
    content_of none path md w = from_backend path md w
    content_of (some retrieve) path md w =
        if md.erasure_coded then reassembled (retrieve path) else from_backend path md w

    located :
        Option (Text → Result Text) → Text → Result Metadata × World Disk → Result Text × World Disk
    unfolding content_of
    located retrieve path (err e, w) = (err (wrap "failed to get file metadata" e), w)
    located retrieve path (ok md, w) =
        if not (text_eq md.type file)
        then (err (message "path is not a file"), w)
        else (content_of retrieve path md w, w)

    unfoldable pub get_file :
        Option (Text → Result Text) → Text → ℕ → ℕ → World Disk → Result Text × World Disk
    unfolding located
    get_file retrieve path now set_at w = located retrieve path (get_metadata path now set_at w)

    -- replicateFileToSecondaryBackend: an error counts only if the replica must acknowledge
    acknowledged : String → Error → Disk → Result (Unit {0}) × Disk
    acknowledged what e disk = (if cfg.require_replica_ack then err (wrap what e) else ok tt, disk)

    created_replica : Result (Unit {0}) × Disk → Result (Unit {0}) × Disk
    unfolding acknowledged
    created_replica (ok _, disk) = (ok tt, disk)
    created_replica (err e, disk) =
        acknowledged "failed to replicate file to secondary backend" e disk

    reopened : Backend → Text → ℕ → Result Text → Disk → Result (Unit {0}) × Disk
    unfolding created_replica
    reopened replica path size (err e) disk =
        acknowledged "failed to reopen source for replica create" e disk
    reopened replica path size (ok bytes) disk =
        created_replica (create_blob replica path bytes size disk)

    updated_replica :
        Backend → Backend → Text → ℕ → Result (Unit {0}) × Disk → Result (Unit {0}) × Disk
    unfolding reopened
    updated_replica primary replica path size (ok _, disk) = (ok tt, disk)
    updated_replica primary replica path size (err e, disk) =
        reopened replica path size (open_file primary path disk) disk

    opened : Backend → Backend → Text → ℕ → Result Text → Disk → Result (Unit {0}) × Disk
    unfolding updated_replica
    opened primary replica path size (err e) disk =
        acknowledged "failed to open source for replication" e disk
    opened primary replica path size (ok bytes) disk =
        updated_replica primary replica path size (update_blob replica path bytes size disk)

    unfoldable pub replicate_file : Text → ℕ → Text → Disk → Result (Unit {0}) × Disk
    unfolding opened
    replicate_file path size primary_backend disk =
        let replica = to_lower (trim_space cfg.replica_backend) in
        if not cfg.replication_enabled
          || text_eq replica []
          || text_eq replica (to_lower primary_backend)
        then (ok tt, disk)
        else let primary = select_backend_by_type primary_backend in
          opened primary (select_backend_by_type replica) (relative path) size
            (open_file primary (relative path) disk) disk

    -- UpdateFile: behind the replication, behind the store's update, behind the backend's
    replicated : Text → World Disk → Result (Unit {0}) × Disk → Result (Unit {0}) × World Disk
    replicated path w (err e, disk) = (err e, record w { disk = disk })
    replicated path w (ok _, disk) = (ok tt, invalidated path (record w { disk = disk }))

    recorded :
        Text → ℕ → Text → World Disk → Result (Unit {0}) × State → Result (Unit {0}) × World Disk
    unfolding replicated
    recorded path size backend_type w (err e, s) = (
      err (wrap "failed to update metadata" e),
      record w { store = s; cache = Cache.invalidate path w.cache },
    )
    recorded path size backend_type w (ok _, s) =
        replicated path (record w { store = s }) (replicate_file path size backend_type w.disk)

    written :
        Call
        → Text
        → ℕ
        → Metadata
        → World Disk
        → Result (Unit {0}) × Disk
        → Result (Unit {0}) × World Disk
    unfolding recorded
    written call path size md w (err e, disk) =
        (err (wrap "failed to update file in backend" e), record w { disk = disk })
    written call path size md w (ok _, disk) =
        recorded path size md.backend_type (record w { disk = disk })
          (Store.update call.outcome (touched cfg call size md) w.store)

    pub update_locked :
        Call → Text → Text → ℕ → Result Metadata → World Disk → Result (Unit {0}) × World Disk
    unfolding written
    update_locked call path bytes size (err e) w =
        (err (wrap "failed to get existing metadata" e), w)
    update_locked call path bytes size (ok md) w =
        if not (text_eq md.type file)
        then (err (message "path is not a file"), w)
        else written call path size md w
            (update_blob (select_backend cfg md) (relative path) bytes size w.disk)

    -- the deferred release
    abbrev pub released :
        Call → Text → Result (Unit {0}) × World Disk → Result (Unit {0}) × World Disk
    released call path (r, w) =
        (r, record w { locks = Locks.release (lock_key path) call.release_now w.locks })

    pub on_lock :
        Call → Text → Text → ℕ → World Disk → Result Bool × Locks → Result (Unit {0}) × World Disk
    unfolding update_locked
    on_lock call path bytes size w (err e, l) =
        (err (wrap "failed to acquire lock" e), record w { locks = l })
    on_lock call path bytes size w (ok false, l) =
        (err (message "failed to acquire lock for file update"), record w { locks = l })
    on_lock call path bytes size w (ok true, l) =
        released call path
          (update_locked call path bytes size (Store.get path w.store) (record w { locks = l }))

    unfoldable pub update_file :
        Call → Text → Text → ℕ → World Disk → Result (Unit {0}) × World Disk
    unfolding on_lock
    update_file call path bytes size w = on_lock call path bytes size w (
        Locks.acquire call.cancelled call.owner_id (lock_key path) call.lock_now call.lock_later
          w.locks)
