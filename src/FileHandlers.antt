-- ===== src/FileHandlers.antt =====
-- server/handlers/cross_server_handlers.go: the DELETE and HEAD handlers, from the path of the URL to the
-- status. The user is `none` where authentication has set none; the authorizer asks the engine's store.
-- `remove_blob`, `erasure_delete`, `delete_on` and `stat_on` are those of Engine/Delete.antt and
-- Engine/Remote.antt. The headers of an answer are the record that they are made of.
pub mod Delete
pub mod Get
pub mod List
pub mod Put
pub mod Shards
mod Examples
use callfs.Prelude.{
  ℕ, Text, text_eq, if◌then◌else◌, Option, none, some, Result, ok, err, Error, wrap,
  authentication_failed,
}
use callfs.Metadata.{Metadata}
use callfs.Paths.Parse.{parse_file_path}
use callfs.Auth.{Permission, read_perm, delete_perm, authorize}
use callfs.Links.Handlers.{status_of, engine_path}
use callfs.Raft.{State}
use callfs.Raft.Store
use callfs.Engine.{EngineConfig, Backend, Call, World, get_metadata}
use callfs.Engine.Delete.{delete_file}
use callfs.Engine.Remote.{delete_file_on_instance, stat_file_on_instance}

-- the other instance that owns a record, if it is not this one
unfoldable pub remote_owner : EngineConfig → Metadata → Option Text
remote_owner cfg md = elim md.callfs_instance_id [
  | none ↦ none
  | some id ↦ if text_eq id cfg.current_instance_id then none else some id
]

abbrev pub failing : {A : Type 0} → Error → ℕ → A → ℕ × A
failing e default_status w = (status_of e default_status, w)

module _ {Disk : Type 0} (cfg : EngineConfig) where
  -- the authorizer over the engine's store
  abbrev pub authorized : Text → Text → Permission → World Disk → Result (Unit {0})
  authorized user path perm w = authorize (λ p. Store.get p w.store) user path perm

  module _ (erasure_delete : Option (Text → State × Disk → Result (Unit {0}) × (State × Disk)))
      (remove_blob : Backend → Text → Disk → Result (Unit {0}) × Disk)
      (delete_on : Option (Text → Text → Disk → Result (Unit {0}) × Disk)) where
    remote_deleted : Result (Unit {0}) × World Disk → ℕ × World Disk
    remote_deleted (err e, w) = failing (wrap "failed to proxy request to owning server" e) 502 w
    remote_deleted (ok _, w) = (204, w)

    local_deleted : Result (Unit {0}) × World Disk → ℕ × World Disk
    local_deleted (err e, w) = failing e 500 w
    local_deleted (ok _, w) = (204, w)

    delete_located : Call → Text → Option Text → World Disk → ℕ × World Disk
    unfolding remote_deleted local_deleted
    delete_located call path (some id) w =
        remote_deleted (delete_file_on_instance delete_on id path w)
    delete_located call path none w =
        local_deleted (delete_file cfg erasure_delete remove_blob call path w)

    delete_found : Call → Text → Result Metadata × World Disk → ℕ × World Disk
    unfolding delete_located
    delete_found call path (err e, w) = failing e 404 w
    delete_found call path (ok md, w) = delete_located call path (remote_owner cfg md) w

    delete_allowed : Call → Text → ℕ → ℕ → World Disk → Result (Unit {0}) → ℕ × World Disk
    unfolding delete_found
    delete_allowed call path now set_at w (err e) = failing e 403 w
    delete_allowed call path now set_at w (ok _) =
        delete_found call path (get_metadata path now set_at w)

    delete_as : Option Text → Call → Text → ℕ → ℕ → World Disk → ℕ × World Disk
    unfolding delete_allowed
    delete_as none call path now set_at w = failing authentication_failed 401 w
    delete_as (some user) call path now set_at w =
        delete_allowed call path now set_at w (authorized user path delete_perm w)

    -- V1DeleteFileEnhanced
    unfoldable pub delete_handler : Option Text → Text → Call → ℕ → ℕ → World Disk → ℕ × World Disk
    unfolding delete_as
    delete_handler user url call now set_at w =
        let info = parse_file_path url in
        if info.is_invalid then (400, w) else delete_as user call (engine_path info) now set_at w

  module _ (stat_on : Option (Text → Text → Disk → Result Metadata)) where
    -- a status, the record whose fields become headers, and the instance of a remote one
    abbrev pub HeadAnswer : Type 0
    HeadAnswer = ℕ × Option (Metadata × Option Text)

    abbrev head_failed : Error → ℕ → World Disk → HeadAnswer × World Disk
    head_failed e default_status w = ((status_of e default_status, none), w)

    head_remote : Text → Result Metadata → World Disk → HeadAnswer × World Disk
    head_remote id (err e) w = head_failed (wrap "failed to proxy request to owning server" e) 502 w
    head_remote id (ok md) w = ((200, some (md, some id)), w)

    head_located : Text → Metadata → Option Text → World Disk → HeadAnswer × World Disk
    unfolding head_remote
    head_located path md none w = ((200, some (md, md.callfs_instance_id)), w)
    head_located path md (some id) w = head_remote id (stat_file_on_instance stat_on id path w) w

    head_found : Text → Result Metadata × World Disk → HeadAnswer × World Disk
    unfolding head_located
    head_found path (err e, w) = head_failed e 404 w
    head_found path (ok md, w) = head_located path md (remote_owner cfg md) w

    head_allowed : Text → ℕ → ℕ → World Disk → Result (Unit {0}) → HeadAnswer × World Disk
    unfolding head_found
    head_allowed path now set_at w (err e) = head_failed e 403 w
    head_allowed path now set_at w (ok _) = head_found path (get_metadata path now set_at w)

    head_as : Option Text → Text → ℕ → ℕ → World Disk → HeadAnswer × World Disk
    unfolding head_allowed
    head_as none path now set_at w = head_failed authentication_failed 401 w
    head_as (some user) path now set_at w =
        head_allowed path now set_at w (authorized user path read_perm w)

    -- V1HeadFileEnhanced
    unfoldable pub head_handler : Option Text → Text → ℕ → ℕ → World Disk → HeadAnswer × World Disk
    unfolding head_as
    head_handler user url now set_at w =
        let info = parse_file_path url in
        if info.is_invalid then ((400, none), w) else head_as user (engine_path info) now set_at w
