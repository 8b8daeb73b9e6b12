-- ===== src/FileHandlers/Examples.antt =====
-- Requests to the file handlers (server/handlers/).
use callfs.Prelude.{
  ℕ, ◌≡◌, inr, refl, arith, Text, codes, pos, false, none, some, [], ◌∷◌, Result, ok, err,
  not_found, permission_denied,
}
use callfs.Prelude.Map
use callfs.Prelude.Map.{Map}
use callfs.Metadata.{Metadata}
use callfs.Auth.{read_perm, write_perm, delete_perm, api_user}
use callfs.Cache
use callfs.Cache.{new_metadata_cache}
use callfs.Raft.{empty}
use callfs.Raft.Store.{committed}
use callfs.Paths.{validate_path}
use callfs.Paths.Parse.{parse_file_path}
use callfs.Links.Handlers.{engine_path}
use callfs.Engine.{EngineConfig, Backend, Call, World, get_metadata}
use callfs.Metadata.{file, localfs}
use callfs.Erasure.{extract_shard_prefix}
use callfs.Erasure.Url.{url_path}
use callfs.Erasure.Store.{shard_path, shard_route}
use callfs.FileHandlers.{authorized, delete_handler}
use callfs.FileHandlers.Delete.{FoundGone, delete_handler_sound}
use callfs.FileHandlers.Put.{Upload, Correction, put_handler, put_existing, resized, new_metadata}
use callfs.FileHandlers.Put.Owner.{put_file_is_read_only}
use callfs.FileHandlers.Shards.{parse_shard_path, shard_route-url_path-parse_shard_path}

abbrev path : Text
path = codes "/a"

abbrev old : Metadata
old = record {
  id = 0;
  parent_id = none;
  name = codes "a";
  path = path;
  type = file;
  size = 3;
  mode = codes "0666";
  uid = pos 1000;
  gid = pos 1000;
  atime = 1;
  mtime = 1;
  ctime = 1;
  backend_type = localfs;
  erasure_coded = false;
  callfs_instance_id = none;
  symlink_target = none;
  created_at = 1;
  updated_at = 1;
}

abbrev cfg : EngineConfig
cfg = record {
  current_instance_id = codes "n1";
  replication_enabled = false;
  replica_backend = [];
  require_replica_ack = false;
}

abbrev Disk : Type 0
Disk = Map Text

abbrev call : Call
call = record {
  cancelled = false;
  owner_id = some (codes "01");
  lock_now = 10;
  lock_later = 11;
  mtime = 12;
  updated_at = 13;
  outcome = committed 14;
  release_now = 15;
}

abbrev world_with : Metadata → World Disk
world_with md = record {
  store = record empty { metadata_by_path = (path, md) ∷ [] };
  cache = new_metadata_cache 300 10;
  locks = [];
  disk = (codes "a", codes "old") ∷ [];
}

abbrev remove_blob : Backend → Text → Disk → Result (Unit {0}) × Disk
remove_blob _ name disk = (ok tt, Map.remove name disk)

abbrev writable : World Disk
writable = world_with old

deleted_204 :
    (delete_handler cfg none remove_blob none
      (some (codes "internal-proxy"))
      (codes "a")
      call
      20
      21
      writable).0
    ≡ 204
unfolding delete_handler parse_file_path callfs.Prelude.text_eq callfs.Prelude.trim_suffix
    callfs.Prelude.contains_rune validate_path callfs.Paths.any_refused callfs.Paths.clean
    callfs.Prelude.has_prefix callfs.Paths.lexical_clean callfs.Prelude.join callfs.Paths.resolve
    callfs.Prelude.split callfs.Paths.enter callfs.Paths.stays_inside callfs.Paths.deepen
    callfs.Auth.authorize callfs.Auth.check_parent_permission callfs.Auth.check_unix_permissions
    callfs.Auth.class_bits callfs.Auth.parse_mode_bits callfs.Auth.user_number callfs.Cache.get
    callfs.Cache.set get_metadata callfs.Engine.Delete.delete_file
    callfs.Engine.Delete.delete_replicated_file callfs.FileHandlers.remote_owner engine_path
    callfs.Locks.acquire callfs.Locks.release Map.get Map.put Map.remove Map.size
    callfs.Prelude.cut_last callfs.Prelude.to_lower callfs.Prelude.trim_prefix
    callfs.Prelude.trim_space callfs.Raft.Store.delete callfs.Raft.Store.get
    callfs.Raft.Store.list_children callfs.Prelude.has_suffix callfs.Prelude.parse_uint
deleted_204 = refl

delete_handler_sound_example :
    ((parse_file_path (codes "a")).is_invalid ≡ false)
    × ((name : Text) × (some (codes "internal-proxy") ≡ some name)
        × (authorized cfg name (engine_path (parse_file_path (codes "a"))) delete_perm writable
            ≡ ok tt)
        × FoundGone cfg none remove_blob none call
            (engine_path (parse_file_path (codes "a")))
            20
            21
            writable
            (delete_handler cfg none remove_blob none
              (some (codes "internal-proxy"))
              (codes "a")
              call
              20
              21
              writable).1)
delete_handler_sound_example =
    delete_handler_sound cfg none remove_blob none (some (codes "internal-proxy")) (codes "a") call
      20 21 writable deleted_204

-- A file that the instance n2 owns.
abbrev owned : Metadata
owned = record old { callfs_instance_id = some (codes "n2") }

abbrev chunked : Upload
chunked = record { content_length = none; body = codes "four" }

abbrev correction : Correction
correction = record { mtime = 22; updated_at = 23; outcome = committed 24 }

abbrev write : Backend → Text → Text → ℕ → Disk → Result (Unit {0}) × Disk
write _ name bytes size disk = (ok tt, Map.put name bytes disk)

abbrev update_on : Text → Text → Text → ℕ → Disk → Result (Unit {0}) × Disk
update_on inst name bytes size disk = (ok tt, Map.put name bytes disk)

abbrev open_file : Backend → Text → Disk → Result Text
open_file _ name disk = err not_found

abbrev after_put : World Disk
after_put = record (world_with (resized correction 0 owned)) {
  disk = (codes "a", codes "four") ∷ [];
}

abbrev no_files : World Disk
no_files = record (world_with old) { store = empty; disk = [] }

abbrev sized : Upload
sized = record { content_length = some 4; body = codes "four" }

abbrev made : Metadata
made = record (new_metadata (codes "a") localfs 16 17 18) {
  path = path;
  size = 4;
  created_at = 12;
  updated_at = 13;
  callfs_instance_id = some (codes "n1");
}

abbrev after_made : World Disk
after_made = record (world_with made) {
  cache = Cache.invalidate_prefix (codes "/") (new_metadata_cache 300 10);
  disk = (codes "a", codes "four") ∷ [];
}

puts_201 :
    put_handler cfg localfs open_file write write remove_blob remove_blob update_on
      (λ p. call)
      call
      correction
      sized
      16
      17
      18
      (some (codes "internal-proxy"))
      (codes "a")
      20
      21
      no_files
    ≡ some (201, after_made)
unfolding put_handler put_existing callfs.Engine.Remote.update_file_on_instance
    callfs.Engine.update_metadata_only callfs.Raft.Store.update Cache.invalidate Cache.set
    parse_file_path callfs.Prelude.text_eq callfs.Prelude.trim_suffix callfs.Prelude.contains_rune
    validate_path callfs.Paths.any_refused callfs.Paths.clean callfs.Prelude.has_prefix
    callfs.Paths.lexical_clean callfs.Prelude.join callfs.Paths.resolve callfs.Prelude.split
    callfs.Paths.enter callfs.Paths.stays_inside callfs.Paths.deepen callfs.Auth.authorize
    callfs.Auth.check_parent_permission callfs.Auth.check_unix_permissions callfs.Auth.class_bits
    callfs.Auth.parse_mode_bits callfs.Auth.user_number callfs.Cache.get get_metadata
    callfs.FileHandlers.remote_owner engine_path callfs.Locks.acquire callfs.Locks.release Map.get
    Map.put Map.remove Map.size callfs.Prelude.cut_last callfs.Prelude.to_lower
    callfs.Prelude.trim_prefix callfs.Prelude.trim_space callfs.Raft.Store.get
    callfs.Raft.Store.list_children callfs.Prelude.has_suffix callfs.Prelude.parse_uint
    callfs.Engine.Create.create_file callfs.Raft.Store.create callfs.Engine.Directories.stamped
    callfs.Engine.Directories.unlocked callfs.Engine.Directories.ensure_parents
    callfs.Prelude.length callfs.Engine.replicate_file callfs.Engine.Directories.is_top
    callfs.Paths.dir Cache.invalidate_prefix
puts_201 = refl

put_file_is_read_only_example :
    (authorized cfg (api_user 1) (engine_path (parse_file_path (codes "a"))) write_perm after_made
      ≡ err permission_denied)
    × (authorized cfg
          (api_user 1)
          (engine_path (parse_file_path (codes "a")))
          delete_perm
          after_made
        ≡ err permission_denied)
    × (authorized cfg (api_user 1) (engine_path (parse_file_path (codes "a"))) read_perm after_made
        ≡ ok tt)
put_file_is_read_only_example =
    put_file_is_read_only cfg localfs open_file write write remove_blob remove_blob update_on
      (λ p. call) call correction sized 16 17 18 (some (codes "internal-proxy")) (codes "a") 20 21 1
      no_files after_made (omega arith) (omega arith) puts_201

-- A prefix that goes up is let pass, as `ValidatePath` takes ".." for the root.
goes_up : parse_shard_path (codes "/v1/internal/shards/../3") ≡ ok (codes ".erasure/../3", pos 3)
unfolding parse_shard_path callfs.Prelude.text_eq callfs.Prelude.trim_prefix callfs.Prelude.cut_last
    callfs.Prelude.atoi validate_path callfs.Prelude.contains_rune callfs.Paths.any_refused
    callfs.Paths.clean callfs.Prelude.has_prefix callfs.Paths.lexical_clean callfs.Prelude.join
    callfs.Paths.resolve callfs.Prelude.split callfs.Paths.enter callfs.Prelude.show
goes_up = refl

prefix_valid : validate_path (codes "ab") ≡ ok tt
unfolding validate_path callfs.Prelude.text_eq callfs.Prelude.contains_rune callfs.Paths.any_refused
    callfs.Paths.clean callfs.Prelude.has_prefix callfs.Paths.lexical_clean callfs.Prelude.join
    callfs.Paths.resolve callfs.Prelude.split callfs.Prelude.trim_prefix callfs.Paths.enter
    callfs.Paths.stays_inside callfs.Paths.deepen
prefix_valid = refl

shard_route-url_path-parse_shard_path_example :
    ((seen : Text) × (url_path (shard_route (codes "ab") 12) ≡ some seen)
      × (parse_shard_path seen ≡ ok (shard_path (codes "ab") 12, pos 12)))
    × (extract_shard_prefix (shard_path (codes "ab") 12) ≡ codes "ab")
shard_route-url_path-parse_shard_path_example =
    shard_route-url_path-parse_shard_path (codes "ab") 12 (omega arith)
      (inr (omega arith, omega arith), (inr (omega arith, omega arith), tt)) prefix_valid

-- A question mark in a prefix would cut the URL.
cut_short : url_path (codes "/v1/internal/shards/a?b/3") ≡ some (codes "/v1/internal/shards/a")
unfolding url_path callfs.Erasure.Url.role
cut_short = refl
