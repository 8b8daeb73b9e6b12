-- ===== src/FileHandlers/List/Examples.antt =====
-- A directory with one file, listed to a depth that is cut (server/handlers/list_directory.go).
use callfs.Prelude.{◌≡◌, refl, Text, codes, pos, true, false, none, some, [], ◌∷◌, ◌++◌}
use callfs.Metadata.{Metadata, file, directory, localfs}
use callfs.Cache.{new_metadata_cache}
use callfs.Raft.{empty}
use callfs.Paths.{root}
use callfs.Paths.Parse.{parse_file_path}
use callfs.Links.Handlers.{engine_path}
use callfs.Engine.{EngineConfig, World}
use callfs.FileHandlers.List.{response, list_handler}
use callfs.FileHandlers.List.Depth.{Permitted, list_handler-Permitted}

abbrev entry : Text → Text → Text → Metadata
entry name path type = record {
  id = 0;
  parent_id = none;
  name = name;
  path = path;
  type = type;
  size = 3;
  mode = codes "0755";
  uid = pos 1000;
  gid = pos 1000;
  atime = 1;
  mtime = 1;
  ctime = 1;
  backend_type = localfs;
  erasure_coded = false;
  callfs_instance_id = none;
  symlink_target = none;
  created_at = 1;
  updated_at = 1;
}

abbrev cfg : EngineConfig
cfg = record {
  current_instance_id = codes "n1";
  replication_enabled = false;
  replica_backend = [];
  require_replica_ack = false;
}

abbrev below : Metadata
below = entry (codes "a") (codes "/d/a") file

abbrev listed_world : World (Unit {0})
listed_world = record {
  store = record empty {
    metadata_by_path =
        (codes "/d", entry (codes "d") (codes "/d") directory) ∷ (codes "/d/a", below) ∷ [];
  };
  cache = new_metadata_cache 300 10;
  locks = [];
  disk = tt;
}

lists_one :
    (list_handler cfg
      (some (codes "internal-proxy"))
      (codes "d")
      (codes "true")
      (codes "4000")
      20
      21
      listed_world).0.1
    ≡ some (response (codes "/d") true 1000 (below ∷ []))
unfolding list_handler parse_file_path callfs.Prelude.text_eq callfs.Prelude.trim_suffix
    callfs.Prelude.contains_rune callfs.Paths.validate_path callfs.Paths.any_refused
    callfs.Paths.clean callfs.Prelude.has_prefix callfs.Paths.lexical_clean callfs.Prelude.join
    callfs.Paths.resolve callfs.Prelude.split callfs.Paths.enter callfs.Paths.stays_inside
    callfs.Paths.deepen callfs.Auth.authorize callfs.Auth.check_parent_permission
    callfs.Auth.check_unix_permissions callfs.Auth.class_bits callfs.Auth.parse_mode_bits
    callfs.Auth.user_number callfs.Cache.get callfs.Cache.set callfs.Engine.get_metadata engine_path
    callfs.Prelude.Map.get callfs.Prelude.Map.put callfs.Prelude.Map.size callfs.Prelude.cut_last
    callfs.Prelude.trim_prefix callfs.Prelude.atoi callfs.Raft.Store.get
    callfs.Raft.Store.list_children callfs.Prelude.has_suffix callfs.Prelude.parse_uint
    callfs.FileHandlers.List.max_depth_of callfs.FileHandlers.List.children_of
    callfs.FileHandlers.List.file_infos callfs.Engine.Listing.list_directory
    callfs.Engine.Listing.list_directory_recursive callfs.Engine.Listing.list_levels
    callfs.Engine.Listing.or_nothing callfs.Prelude.length callfs.Raft.Store.children_of
    callfs.Raft.Store.insert_by_path
lists_one = refl

list_handler-Permitted_example :
    ((parse_file_path (root ++ codes "d")).is_invalid ≡ false)
    × Permitted cfg
        (some (codes "internal-proxy"))
        (engine_path (parse_file_path (root ++ codes "d")))
        listed_world
        (response (codes "/d") true 1000 (below ∷ []))
        (list_handler cfg
          (some (codes "internal-proxy"))
          (codes "d")
          (codes "true")
          (codes "4000")
          20
          21
          listed_world).0
list_handler-Permitted_example =
    list_handler-Permitted cfg (some (codes "internal-proxy")) (codes "d") (codes "true")
      (codes "4000") 20 21 listed_world (response (codes "/d") true 1000 (below ∷ [])) lists_one
