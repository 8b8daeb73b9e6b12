-- ===== src/FileHandlers/List.antt =====
-- server/handlers/list_directory.go: the handler that lists a directory. The two parameters of the query
-- are texts, empty where the query has none; the headers of an answer repeat its record.
pub mod Depth
mod Examples
use callfs.Prelude.{
  ℕ, ℤ, pos, negsuc, length, Text, text_eq, codes, if◌then◌else◌, ltb, Bool, Option, none, some,
  List, [], ◌∷◌, ◌++◌, Result, ok, err, atoi, authentication_failed,
}
use callfs.Metadata.{Metadata, directory}
use callfs.Raft.{State}
use callfs.Paths.{root}
use callfs.Paths.Parse.{parse_file_path}
use callfs.Auth.{read_perm}
use callfs.Links.Handlers.{status_of, engine_path}
use callfs.Engine.{EngineConfig, World, get_metadata}
use callfs.Engine.Listing.{list_directory, list_directory_recursive}
use callfs.FileHandlers.{authorized}

pub record FileInfo : Type 0 where
  pub name : Text
  pub path : Text
  pub type : Text
  pub size : ℕ
  pub mode : Text
  pub uid : ℤ
  pub gid : ℤ
  pub mtime : ℕ

pub record DirectoryListingResponse : Type 0 where
  pub path : Text
  pub type : Text
  pub recursive : Bool
  pub max_depth : Option ℕ
  pub count : ℕ
  pub items : List FileInfo

abbrev pub info_of : Metadata → FileInfo
info_of md = record {
  name = md.name;
  path = md.path;
  type = md.type;
  size = md.size;
  mode = md.mode;
  uid = md.uid;
  gid = md.gid;
  mtime = md.mtime;
}

unfoldable pub file_infos : List Metadata → List FileInfo
file_infos [] = []
file_infos (child ∷ children) = info_of child ∷ file_infos children

abbrev pub ListAnswer : Type 0
ListAnswer = ℕ × Option DirectoryListingResponse

-- a number that is not negative, 1000 at most; 100 where the text is none
limited : Option ℤ → ℕ
limited none = 100
limited (some (pos n)) = if ltb 1000 n then 1000 else n
limited (some (negsuc n)) = 100

unfoldable pub max_depth_of : Text → ℕ
unfolding limited
max_depth_of [] = 100
max_depth_of (c ∷ s) = limited (atoi (c ∷ s))

unfoldable pub children_of : Text → Bool → ℕ → State → Result (List Metadata)
children_of path recursive max_depth s =
    if recursive then list_directory_recursive path (pos max_depth) s else list_directory path s

abbrev pub response : Text → Bool → ℕ → List Metadata → DirectoryListingResponse
response path recursive max_depth children = record {
  path = path;
  type = directory;
  recursive = recursive;
  max_depth = if recursive then some max_depth else none;
  count = length (file_infos children);
  items = file_infos children;
}

list_answered : Text → Bool → ℕ → Result (List Metadata) → ListAnswer
list_answered path recursive max_depth (err e) = (status_of e 500, none)
list_answered path recursive max_depth (ok children) =
    (200, some (response path recursive max_depth children))

module _ {Disk : Type 0} where
  list_found : Text → Bool → ℕ → Result Metadata × World Disk → ListAnswer × World Disk
  unfolding list_answered children_of
  list_found path recursive max_depth (err e, w) = ((status_of e 404, none), w)
  list_found path recursive max_depth (ok md, w) =
      if text_eq md.type directory
      then (
        list_answered path recursive max_depth (children_of path recursive max_depth w.store),
        w,
      )
      else ((400, none), w)

  list_allowed : Text → Bool → ℕ → ℕ → ℕ → World Disk → Result (Unit {0}) → ListAnswer × World Disk
  unfolding list_found
  list_allowed path recursive max_depth now set_at w (err e) = ((status_of e 403, none), w)
  list_allowed path recursive max_depth now set_at w (ok _) =
      list_found path recursive max_depth (get_metadata path now set_at w)

  module _ (cfg : EngineConfig) where
    list_as : Option Text → Text → Bool → ℕ → ℕ → ℕ → World Disk → ListAnswer × World Disk
    unfolding list_allowed
    list_as none path recursive max_depth now set_at w =
        ((status_of authentication_failed 401, none), w)
    list_as (some user) path recursive max_depth now set_at w =
        list_allowed path recursive max_depth now set_at w (authorized cfg user path read_perm w)

    -- V1ListDirectory
    unfoldable pub list_handler :
        Option Text → Text → Text → Text → ℕ → ℕ → World Disk → ListAnswer × World Disk
    unfolding list_as max_depth_of
    list_handler user url recursive max_depth now set_at w =
        let info = parse_file_path (root ++ url) in
        if info.is_invalid
        then ((400, none), w)
        else list_as user (engine_path info) (text_eq recursive (codes "true"))
            (max_depth_of max_depth) now set_at w
