-- ===== src/FileHandlers/Get.antt =====
-- server/handlers/get_file.go: the GET handler, with the answers of server/handlers/erasure_handlers.go.
-- The erasure manager is its configuration and its `RetrieveFile`, `none` where none is set; `manifest`
-- is the query's parameter, empty where it has none. `Engine.GetFile` looks the record up again, with its
-- own readings of the clock. The headers of an answer are the record that stands in it.
mod Examples
pub mod Permitted
pub mod Served
use callfs.Prelude.{
  ℕ, Text, text_eq, codes, if◌then◌else◌, Option, none, some, List, Result, ok, err, Error,
  authentication_failed,
}
use callfs.Metadata.{Metadata, file, directory}
use callfs.Paths.Parse.{parse_file_path}
use callfs.Auth.{read_perm}
use callfs.Links.Handlers.{status_of, engine_path}
use callfs.Engine.{EngineConfig, Backend, World, get_metadata, get_file}
use callfs.Engine.Listing.{list_directory}
use callfs.Erasure.Store.{ManagerConfig}
use callfs.Erasure.Files.{ChunkManifest, get_manifest}
use callfs.FileHandlers.{authorized}
use callfs.FileHandlers.List.{FileInfo, file_infos}

pub data GetAnswer : Type 0 where
  failed : ℕ → GetAnswer
  content : Metadata → Text → GetAnswer
  reassembled : Text → GetAnswer
  manifest : ChunkManifest → GetAnswer
  entries : Metadata → List FileInfo → GetAnswer
  nothing : GetAnswer

abbrev pub Manager : Type 0
Manager = ManagerConfig × (Text → Result Text)

-- the erasure manager's `RetrieveFile`, as the engine has it
abbrev pub retrieve_of : Option Manager → Option (Text → Result Text)
retrieve_of em = elim em [ none ↦ none | some m ↦ some m.1 ]

abbrev pub refusal : Error → ℕ → GetAnswer
refusal e default_status = failed (status_of e default_status)

-- HandleErasureManifest
manifest_answered : Result ChunkManifest → GetAnswer
manifest_answered (err e) = refusal e 500
manifest_answered (ok m) = manifest m

-- HandleErasureDownload
download_answered : Result Text → GetAnswer
download_answered (err e) = refusal e 500
download_answered (ok bytes) = reassembled bytes

entries_answered : Metadata → Result (List Metadata) → GetAnswer
entries_answered md (err e) = refusal e 500
entries_answered md (ok children) = entries md (file_infos children)

module _ {Disk : Type 0} where
  content_answered : Metadata → Result Text × World Disk → GetAnswer × World Disk
  content_answered md (err e, w) = (refusal e 500, w)
  content_answered md (ok bytes, w) = (content md bytes, w)

  module _ (cfg : EngineConfig) (open_file : Backend → Text → Disk → Result Text)
      (update_blob create_blob : Backend → Text → Text → ℕ → Disk → Result (Unit {0}) × Disk)
      (em : Option Manager) (query : Text) (reads_at sets_at : ℕ) where
    streamed : Text → Metadata → World Disk → GetAnswer × World Disk
    unfolding content_answered
    streamed path md w =
        content_answered md
          (get_file cfg open_file update_blob create_blob (retrieve_of em) path reads_at sets_at w)

    coded : Option Manager → Text → Metadata → World Disk → GetAnswer × World Disk
    unfolding streamed manifest_answered download_answered
    coded none path md w = streamed path md w
    coded (some m) path md w =
        if text_eq query (codes "true")
        then (manifest_answered (get_manifest m.0 path w.store), w)
        else (download_answered (m.1 path), w)

    file_answered : Text → Metadata → World Disk → GetAnswer × World Disk
    unfolding coded streamed
    file_answered path md w = if md.erasure_coded then coded em path md w else streamed path md w

    pub get_found : Text → Result Metadata × World Disk → GetAnswer × World Disk
    unfolding file_answered entries_answered
    get_found path (err e, w) = (refusal e 404, w)
    get_found path (ok md, w) =
        if text_eq md.type file
        then file_answered path md w
        else if text_eq md.type directory
        then (entries_answered md (list_directory path w.store), w)
        else (nothing, w)

    get_allowed : Text → ℕ → ℕ → World Disk → Result (Unit {0}) → GetAnswer × World Disk
    unfolding get_found
    get_allowed path now set_at w (err e) = (refusal e 403, w)
    get_allowed path now set_at w (ok _) = get_found path (get_metadata path now set_at w)

    get_as : Option Text → Text → ℕ → ℕ → World Disk → GetAnswer × World Disk
    unfolding get_allowed
    get_as none path now set_at w = (refusal authentication_failed 401, w)
    get_as (some user) path now set_at w =
        get_allowed path now set_at w (authorized cfg user path read_perm w)

    -- V1GetFile
    unfoldable pub get_handler : Option Text → Text → ℕ → ℕ → World Disk → GetAnswer × World Disk
    unfolding get_as
    get_handler user url now set_at w =
        let info = parse_file_path url in
        if info.is_invalid then (failed 400, w) else get_as user (engine_path info) now set_at w
