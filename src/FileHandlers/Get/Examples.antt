-- ===== src/FileHandlers/Get/Examples.antt =====
-- A plain file that its owner reads (server/handlers/get_file.go). A disk is a map of bytes.
use callfs.Prelude.{
  ℕ, ◌≡◌, refl, Text, codes, pos, false, none, some, [], ◌∷◌, Result, ok, err, not_found,
}
use callfs.Prelude.Map
use callfs.Prelude.Map.{Map}
use callfs.Metadata.{Metadata, file, localfs}
use callfs.Cache.{new_metadata_cache}
use callfs.Raft.{empty}
use callfs.Paths.Parse.{parse_file_path}
use callfs.Links.Handlers.{engine_path}
use callfs.Engine.{EngineConfig, Backend, World}
use callfs.FileHandlers.Get.{content, get_handler}
use callfs.FileHandlers.Get.Permitted.{Answered, get_handler-Readable}

abbrev stored : Metadata
stored = record {
  id = 0;
  parent_id = none;
  name = codes "a";
  path = codes "/a";
  type = file;
  size = 3;
  mode = codes "0644";
  uid = pos 1000;
  gid = pos 1000;
  atime = 1;
  mtime = 1;
  ctime = 1;
  backend_type = localfs;
  erasure_coded = false;
  callfs_instance_id = none;
  symlink_target = none;
  created_at = 1;
  updated_at = 1;
}

abbrev cfg : EngineConfig
cfg = record {
  current_instance_id = codes "n1";
  replication_enabled = false;
  replica_backend = [];
  require_replica_ack = false;
}

abbrev open_stored : Backend → Text → Map Text → Result Text
open_stored _ name disk = elim (Map.get name disk) [ none ↦ err not_found | some bytes ↦ ok bytes ]

abbrev write : Backend → Text → Text → ℕ → Map Text → Result (Unit {0}) × Map Text
write _ name bytes size disk = (ok tt, Map.put name bytes disk)

abbrev one_file : World (Map Text)
one_file = record {
  store = record empty { metadata_by_path = (codes "/a", stored) ∷ [] };
  cache = new_metadata_cache 300 10;
  locks = [];
  disk = (codes "a", codes "abc") ∷ [];
}

reads_bytes :
    (get_handler cfg open_stored write write none [] 22 23
      (some (codes "internal-proxy"))
      (codes "a")
      20
      21
      one_file).0
    ≡ content stored (codes "abc")
unfolding get_handler callfs.Engine.get_file callfs.Engine.select_backend parse_file_path
    callfs.Prelude.text_eq callfs.Prelude.trim_suffix callfs.Prelude.contains_rune
    callfs.Paths.validate_path callfs.Paths.any_refused callfs.Paths.clean callfs.Prelude.has_prefix
    callfs.Paths.lexical_clean callfs.Prelude.join callfs.Paths.resolve callfs.Prelude.split
    callfs.Paths.enter callfs.Paths.stays_inside callfs.Paths.deepen callfs.Auth.authorize
    callfs.Auth.check_parent_permission callfs.Auth.check_unix_permissions callfs.Auth.class_bits
    callfs.Auth.parse_mode_bits callfs.Auth.user_number callfs.Cache.get callfs.Cache.set
    callfs.Engine.get_metadata engine_path Map.get Map.put Map.size callfs.Prelude.cut_last
    callfs.Prelude.trim_prefix callfs.Prelude.atoi callfs.Raft.Store.get
    callfs.Raft.Store.list_children callfs.Prelude.has_suffix callfs.Prelude.parse_uint
    callfs.Prelude.length callfs.Raft.Store.children_of callfs.Raft.Store.insert_by_path
reads_bytes = refl

get_handler-Readable_example :
    Answered cfg open_stored write write none [] 22 23
      (engine_path (parse_file_path (codes "a")))
      (some (codes "internal-proxy"))
      20
      21
      one_file
      (parse_file_path (codes "a")).is_invalid
      (get_handler cfg open_stored write write none [] 22 23
        (some (codes "internal-proxy"))
        (codes "a")
        20
        21
        one_file).0
get_handler-Readable_example =
    get_handler-Readable cfg open_stored write write none [] 22 23 (some (codes "internal-proxy"))
      (codes "a") 20 21 one_file
