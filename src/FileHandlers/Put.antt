-- ===== src/FileHandlers/Put.antt =====
-- server/handlers/put_file_enhanced.go: the PUT handler, and the record that it leaves of a chunked
-- upload to another instance. An upload is its body, within the 10 GiB that are allowed, and the length
-- that its header states: `none` is a chunked one, which the backend reads to its end. The backends'
-- operations are those of Engine/Create.antt and Engine/Remote.antt. The clock and Raft answer in `Call`,
-- and in `Correction` for the record that is written behind the upload. `none` is the fuel of
-- Engine/Create.antt, which does not run out.
pub mod Chunked
pub mod Owner
pub mod Recorded
use callfs.Prelude.{
  ℕ, pos, length, Text, text_eq, codes, ◌==◌, if◌then◌else◌, true, false, Option, none, some, [],
  Result, ok, err, eq_not_found, wrap, authentication_failed,
}
use callfs.Prelude.Map
use callfs.Metadata.{Metadata, file}
use callfs.Paths.Parse.{PathInfo, parse_file_path}
use callfs.Auth.{write_perm}
use callfs.Links.Handlers.{engine_path}
use callfs.Raft.Store.{Outcome}
use callfs.Engine.{
  EngineConfig, Backend, Call, World, get_metadata, update_file, update_metadata_only,
}
use callfs.Engine.Directories.{Answer, stamped}
use callfs.Engine.Create.{create_file}
use callfs.Engine.Remote.{update_file_on_instance}
use callfs.FileHandlers.{remote_owner, failing, authorized}

pub record Upload : Type 0 where
  pub content_length : Option ℕ
  pub body : Text

pub record Correction : Type 0 where
  pub mtime : ℕ
  pub updated_at : ℕ
  pub outcome : Outcome

-- the size that goes to the engine: 0 for a chunked upload
abbrev pub stated_size : Upload → ℕ
stated_size u = elim u.content_length [ none ↦ 0 | some n ↦ n ]

abbrev pub resized : Correction → ℕ → Metadata → Metadata
resized c size md = record md { size = size; mtime = c.mtime; updated_at = c.updated_at }

-- the record of a file that is not there yet, with three readings of the clock
abbrev pub new_metadata : Text → Text → ℕ → ℕ → ℕ → Metadata
new_metadata name backend_type atime mtime ctime = record {
  id = 0;
  parent_id = none;
  name = name;
  path = [];
  type = file;
  size = 0;
  mode = codes "0644";
  uid = pos 1000;
  gid = pos 1000;
  atime = atime;
  mtime = mtime;
  ctime = ctime;
  backend_type = backend_type;
  erasure_coded = false;
  callfs_instance_id = none;
  symlink_target = none;
  created_at = 0;
  updated_at = 0;
}

module _ {Disk : Type 0} where
  -- the correction behind a chunked upload; its error is only logged
  correct_size : Correction → Upload → Metadata → World Disk → World Disk
  correct_size c u md w = elim u.content_length [
    | some n ↦ w
    | none ↦
        if length u.body == 0
        then w
        else (update_metadata_only c.outcome (resized c (length u.body) md) w).1
  ]

  -- the record behind an upload to another instance; its error is only logged
  remote_put : Correction → Upload → Metadata → Result (Unit {0}) × World Disk → ℕ × World Disk
  remote_put c u md (err e, w) = failing (wrap "failed to update file on remote server" e) 502 w
  remote_put c u md (ok _, w) =
      (200, (update_metadata_only c.outcome (resized c (stated_size u) md) w).1)

  local_put : ℕ → Correction → Upload → Metadata → Result (Unit {0}) × World Disk → ℕ × World Disk
  unfolding correct_size
  local_put status c u md (err e, w) = failing e 500 w
  local_put status c u md (ok _, w) = (status, correct_size c u md w)

  created_put : Correction → Upload → Metadata → Option (Answer Disk) → Option (ℕ × World Disk)
  unfolding local_put
  created_put c u md none = none
  created_put c u md (some answer) = some (local_put 201 c u md answer)

module _ {Disk : Type 0} (cfg : EngineConfig) (default_backend : Text)
    (open_file : Backend → Text → Disk → Result Text)
    (update_blob create_blob : Backend → Text → Text → ℕ → Disk → Result (Unit {0}) × Disk)
    (make_dir remove_blob : Backend → Text → Disk → Result (Unit {0}) × Disk)
    (update_on : Text → Text → Text → ℕ → Disk → Result (Unit {0}) × Disk) (calls : Text → Call)
    (call : Call) (c : Correction) (u : Upload) (atime mtime ctime : ℕ) where
  put_owned : Text → Metadata → Option Text → World Disk → ℕ × World Disk
  unfolding remote_put local_put
  put_owned path md (some id) w =
      remote_put c u md (update_file_on_instance update_on id path u.body (stated_size u) w)
  put_owned path md none w =
      local_put 200 c u md
        (update_file cfg open_file update_blob create_blob call path u.body (stated_size u) w)

  unfoldable pub put_existing : Text → Metadata → World Disk → ℕ × World Disk
  unfolding put_owned
  put_existing path md w =
      if text_eq md.type file then put_owned path md (remote_owner cfg md) w else (400, w)

  put_new : Text → Text → World Disk → Option (ℕ × World Disk)
  unfolding created_put
  put_new path name w =
      created_put c u
        (stamped cfg call path (stated_size u)
          (new_metadata name default_backend atime mtime ctime))
        (create_file cfg open_file update_blob create_blob make_dir remove_blob calls call path
          u.body (stated_size u) (new_metadata name default_backend atime mtime ctime) w)

  put_found : Text → Text → Result Metadata × World Disk → Option (ℕ × World Disk)
  unfolding put_existing put_new
  put_found path name (ok md, w) = some (put_existing path md w)
  put_found path name (err e, w) = elim (eq_not_found e) [
    | true ↦ put_new path name w
    | false ↦ some (failing e 500 w)
  ]

  put_allowed : Text → Text → ℕ → ℕ → World Disk → Result (Unit {0}) → Option (ℕ × World Disk)
  unfolding put_found
  put_allowed path name now set_at w (err e) = some (failing e 403 w)
  put_allowed path name now set_at w (ok _) = put_found path name (get_metadata path now set_at w)

  put_as : Option Text → PathInfo → ℕ → ℕ → World Disk → Option (ℕ × World Disk)
  unfolding put_allowed
  put_as none info now set_at w = some (failing authentication_failed 401 w)
  put_as (some user) info now set_at w =
      put_allowed (engine_path info) info.name now set_at w
        (authorized cfg user (engine_path info) write_perm w)

  -- V1PutFileEnhanced
  unfoldable pub put_handler : Option Text → Text → ℕ → ℕ → World Disk → Option (ℕ × World Disk)
  unfolding put_as
  put_handler user url now set_at w =
      let info = parse_file_path url in
      if info.is_invalid
      then some (400, w)
      else if info.is_directory
      then some (400, w)
      else put_as user info now set_at w
