-- ===== src/Engine/Examples.antt =====
-- A file that is cached, written again and read (core/file_operations.go). A disk is a map of bytes.
use callfs.Prelude.{
  ℕ, ◌≡◌, ◌⊎◌, refl, arith, Text, text_eq, text_eq_iff, codes, pos, true, false, Option, none, some,
  [], ◌∷◌, Result, ok, err, not_found,
}
use callfs.Prelude.Map
use callfs.Prelude.Map.{Map}
use callfs.Metadata.{Metadata, file, localfs}
use callfs.Cache.{new_metadata_cache}
use callfs.Raft.{empty}
use callfs.Raft.Store.{committed}
use callfs.Engine.{EngineConfig, Backend, Call, World, touched, get_metadata, update_file}
use callfs.Cache
use callfs.Locks
use callfs.Locks.{Locks, local_lock_ttl}
use callfs.Raft.{State}
use callfs.Raft.Store.{get, update}
use callfs.Engine.{lock_key, select_backend, replicate_file, local_fs_backend}
use callfs.Engine.Stale.{Untouched, Unrecorded, Unacknowledged, cached_or, failed_update_is_stale}
use callfs.Engine.Delete.{delete_file, delete-get_metadata}
use callfs.Prelude.{Error, message, wrap, ◌+◌}
use callfs.Engine.Update.{update-get_metadata}

abbrev path : Text
path = codes "/a"

abbrev pub old : Metadata
old = record {
  id = 0;
  parent_id = none;
  name = codes "a";
  path = path;
  type = file;
  size = 3;
  mode = codes "0644";
  uid = pos 1000;
  gid = pos 1000;
  atime = 1;
  mtime = 1;
  ctime = 1;
  backend_type = localfs;
  erasure_coded = false;
  callfs_instance_id = none;
  symlink_target = none;
  created_at = 1;
  updated_at = 1;
}

abbrev pub cfg : EngineConfig
cfg = record {
  current_instance_id = codes "n1";
  replication_enabled = true;
  replica_backend = codes " S3 ";
  require_replica_ack = true;
}

abbrev pub Disk : Type 0
Disk = Map Text

abbrev read_result : Option Text → Result Text
read_result none = err not_found
read_result (some bytes) = ok bytes

abbrev pub open_file : Backend → Text → Disk → Result Text
open_file _ name disk = read_result (Map.get name disk)

abbrev pub write : Backend → Text → Text → ℕ → Disk → Result (Unit {0}) × Disk
write _ name bytes size disk = (ok tt, Map.put name bytes disk)

abbrev pub call : Call
call = record {
  cancelled = false;
  owner_id = some (codes "01");
  lock_now = 10;
  lock_later = 11;
  mtime = 12;
  updated_at = 13;
  outcome = committed 14;
  release_now = 15;
}

abbrev world : World Disk
world = record {
  store = record empty { metadata_by_path = (path, old) ∷ [] };
  cache = record (new_metadata_cache 300 10) {
    cache = (path, record { metadata = old; expires_at = 300 }) ∷ [];
  };
  locks = [];
  disk = (codes "a", codes "old") ∷ [];
}

goes_through : (update_file cfg open_file write write call path (codes "new!") 4 world).0 ≡ ok tt
unfolding update_file callfs.Locks.acquire Map.get callfs.Raft.Store.get text_eq
    callfs.Raft.Store.update touched callfs.Engine.replicate_file callfs.Prelude.to_lower
    callfs.Prelude.trim_space Map.put callfs.Prelude.trim_prefix
goes_through = refl

update-get_metadata_example :
    (md : Metadata) × (Map.get path world.store.metadata_by_path ≡ some md)
    × ((get_metadata path 20 21
          (update_file cfg open_file write write call path (codes "new!") 4 world).1).0
        ≡ ok (touched cfg call 4 md))
unfolding Map.get
update-get_metadata_example =
    update-get_metadata cfg open_file write write call path (codes "new!") 4 20 21 world
      (λ md e. ground (arith, text_eq_iff path path)) goes_through

-- S3 cannot be reached.
abbrev down : Error
down = message "unreachable"

abbrev write_local : Backend → Text → Text → ℕ → Disk → Result (Unit {0}) × Disk
write_local local_fs_backend name bytes size disk = (ok tt, Map.put name bytes disk)
write_local _ name bytes size disk = (err down, disk)

abbrev new_disk : Disk
new_disk = (codes "a", codes "new!") ∷ []

abbrev new_store : State
new_store = record empty { metadata_by_path = (path, touched cfg call 4 old) ∷ [] }

abbrev held : Locks
held = (lock_key path, record { expiry = 11 + local_lock_ttl; owner_id = codes "01" }) ∷ []

abbrev no_ack : Error
no_ack = wrap "failed to replicate file to secondary backend" down

abbrev unacknowledged : Result (Unit {0}) × World Disk
unacknowledged = update_file cfg open_file write_local write_local call path (codes "new!") 4 world

update_fails : unacknowledged.0 ≡ err no_ack
unfolding update_file Locks.acquire Map.get Map.put get select_backend callfs.Prelude.trim_prefix
    update touched replicate_file text_eq callfs.Prelude.to_lower callfs.Prelude.trim_space
    callfs.Engine.select_backend_by_type
update_fails = refl

failed_update_is_stale_example :
    Untouched cfg open_file write_local write_local call path
      (codes "new!")
      4
      world
      unacknowledged.1
    ⊎ (Unrecorded cfg open_file write_local write_local call path
          (codes "new!")
          4
          world
          unacknowledged.1
        ⊎ (Unacknowledged cfg open_file write_local write_local call path
              (codes "new!")
              4
              world
              unacknowledged.1
            × ((get_metadata path 20 21 unacknowledged.1).0
                ≡ cached_or (Cache.get path 20 world.cache) (get path unacknowledged.1.store))))
failed_update_is_stale_example =
    failed_update_is_stale cfg open_file write_local write_local call path (codes "new!") 4 20 21
      world update_fails

abbrev pub remove_blob : Backend → Text → Disk → Result (Unit {0}) × Disk
remove_blob _ name disk = (ok tt, Map.remove name disk)

delete_goes_through : (delete_file cfg none remove_blob call path world).0 ≡ ok tt
unfolding delete_file Locks.acquire Map.get get text_eq callfs.Raft.Store.delete
    callfs.Engine.Delete.delete_replicated_file callfs.Prelude.to_lower callfs.Prelude.trim_space
delete_goes_through = refl

delete-get_metadata_example :
    (get_metadata path 20 21 (delete_file cfg none remove_blob call path world).1).0 ≡ err not_found
delete-get_metadata_example =
    delete-get_metadata cfg none remove_blob call path 20 21 world delete_goes_through
