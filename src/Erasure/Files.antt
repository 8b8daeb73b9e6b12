-- ===== src/Erasure/Files.antt =====
-- erasure/manager.go: `StoreFile`, `DeleteFile` and `GetManifest`, over the replicated records of
-- erasure-coded files and the shards of Erasure/Store.antt.
pub mod Recovery
pub mod Stored
mod Examples
use callfs.Prelude.{
  ℕ, suc, ◌+◌, length, Text, text_eq, codes, trim_prefix, trim_right, show, ◌==◌, if◌then◌else◌,
  not, Option, none, some, List, [], ◌∷◌, ◌++◌, Result, ok, err, Error, message, wrap,
}
use callfs.Prelude.Map
use callfs.Paths.{slash, root}
use callfs.Metadata.{ErasureShardInfo, ErasureFileInfo}
use callfs.Raft.{State}
use callfs.Raft.Store.{Outcome, create_erasure, get_erasure_info, delete_erasure}
use callfs.Erasure.{at, assign_shards}
use callfs.Erasure.Store.{
  ManagerConfig, StoreOptions, data_shards_of, parity_shards_of, available, shard_path, encode,
  write_shard, delete_shards,
}

-- GetManifest
pub record ShardEndpoint : Type 0 where
  pub index : ℕ
  pub endpoint : Text
  pub size : ℕ
  pub checksum : Text

pub record ChunkManifest : Type 0 where
  pub path : Text
  pub original_size : ℕ
  pub data_shards : ℕ
  pub parity_shards : ℕ
  pub shard_size : ℕ
  pub shards : List ShardEndpoint

-- a peer that is not in the map has the empty endpoint
or_empty : Option Text → Text
or_empty none = []
or_empty (some endpoint) = endpoint

endpoint_of : ManagerConfig → Text → Text
unfolding or_empty
endpoint_of m inst =
    if text_eq inst m.instance_id then m.self_endpoint else or_empty (Map.get inst m.peer_endpoints)

abbrev pub shard_endpoint : Text → Text → ErasureShardInfo → ShardEndpoint
shard_endpoint endpoint path si = record {
  index = si.index;
  endpoint =
      ((trim_right slash endpoint ++ codes "/v1/shards/") ++ trim_prefix path root)
      ++ slash ∷ show si.index;
  size = si.size;
  checksum = si.checksum;
}

and_more : ShardEndpoint → Result (List ShardEndpoint) → Result (List ShardEndpoint)
and_more s (err e) = err e
and_more s (ok ss) = ok (s ∷ ss)

shard_endpoints : ManagerConfig → Text → List ErasureShardInfo → Result (List ShardEndpoint)
unfolding endpoint_of and_more
shard_endpoints m path [] = ok []
shard_endpoints m path (si ∷ infos) =
    let rest = shard_endpoints m path infos in
    if text_eq (endpoint_of m si.instance_id) []
    then err (message "no endpoint found for instance")
    else and_more (shard_endpoint (endpoint_of m si.instance_id) path si) rest

manifest : Text → ErasureFileInfo → Result (List ShardEndpoint) → Result ChunkManifest
manifest path info (err e) = err e
manifest path info (ok shards) = ok (record {
  path = path;
  original_size = info.original_size;
  data_shards = info.data_shards;
  parity_shards = info.parity_shards;
  shard_size = info.shard_size;
  shards = shards;
})

unfoldable pub get_manifest : ManagerConfig → Text → State → Result ChunkManifest
unfolding manifest shard_endpoints
get_manifest m path s = elim (get_erasure_info path s) [
  | err e ↦ err (wrap "failed to get erasure info" e)
  | ok info ↦ manifest path info (shard_endpoints m path info.shards)
]

-- the writes: the shards that were written, and the first error
record Written (Net : Type 0) : Type 0 where
  infos : List ErasureShardInfo
  failure : Option Error
  net : Net

noted : {Net : Type 0} → ErasureShardInfo → Result (Unit {0}) → Written Net → Written Net
noted si (ok _) rest = record rest { infos = si ∷ rest.infos }
noted si (err e) rest = record rest { failure = some (wrap "failed to store shard" e) }

module _ {Net : Type 0} (m : ManagerConfig)
    (put_local : Text → Text → Net → Result (Unit {0}) × Net)
    (remove_local : Text → Net → Result (Unit {0}) × Net)
    (request : Text → Text → Text → Net → Result ℕ × Net) where
  -- DeleteFile: the record first, then the shards
  shards_deleted :
      ErasureFileInfo → Net → Result (Unit {0}) × State → Result (Unit {0}) × (State × Net)
  shards_deleted info net (err e, s) = (err (wrap "failed to delete erasure metadata" e), (s, net))
  shards_deleted info net (ok _, s) =
      (ok tt, (s, delete_shards m put_local remove_local request info.shards net))

  unfoldable pub delete_file : Outcome → Text → State × Net → Result (Unit {0}) × (State × Net)
  unfolding shards_deleted
  delete_file o path (s, net) = elim (get_erasure_info path s) [
    | err e ↦ (err (wrap "failed to get erasure info for delete" e), (s, net))
    | ok info ↦ shards_deleted info net (delete_erasure o path s)
  ]

  module _ (new_codec : ℕ → ℕ → Option Error) (split_data : ℕ → ℕ → Text → Result (List Text))
      (encode_parity : ℕ → ℕ → List Text → Result (List Text))
      (checksum prefix_of : Text → Text) where
    -- what is recorded of a shard
    abbrev pub shard_info : Text → List Text → ℕ → Text → ErasureShardInfo
    shard_info prefix assignments i bytes = record {
      index = i;
      instance_id = at i m.instance_id assignments;
      backend_type = m.shard_backend;
      path = shard_path prefix i;
      size = length bytes;
      checksum = checksum bytes;
    }

    unfoldable pub shard_infos : Text → List Text → ℕ → List Text → List ErasureShardInfo
    shard_infos prefix assignments i [] = []
    shard_infos prefix assignments i (bytes ∷ shards) =
        shard_info prefix assignments i bytes ∷ shard_infos prefix assignments (suc i) shards

    write_shards : Text → List Text → ℕ → List Text → Net → Written Net
    unfolding noted
    write_shards prefix assignments i [] net = record { infos = []; failure = none; net = net }
    write_shards prefix assignments i (bytes ∷ shards) net =
        let r =
          write_shard m put_local remove_local request (at i m.instance_id assignments) prefix i
            bytes net in
        noted (shard_info prefix assignments i bytes) r.0
          (write_shards prefix assignments (suc i) shards r.1)

    -- the record, and the shards away again where it is refused
    recorded :
        ErasureFileInfo → Net → Result (Unit {0}) × State → Result ErasureFileInfo × (State × Net)
    recorded info net (ok _, s) = (ok info, (s, net))
    recorded info net (err e, s) = (
      err (wrap "failed to store erasure metadata" e),
      (s, delete_shards m put_local remove_local request info.shards net),
    )

    abbrev pub file_info : Text → ℕ → ℕ → ℕ → ℕ → List ErasureShardInfo → ErasureFileInfo
    file_info path size d p shard_size infos = record {
      file_path = path;
      original_size = size;
      data_shards = d;
      parity_shards = p;
      shard_size = shard_size;
      shards = infos;
    }

    first_size : List Text → ℕ
    first_size [] = 0
    first_size (bytes ∷ shards) = length bytes

    all_written :
        Outcome
        → Text
        → ℕ
        → ℕ
        → ℕ
        → ℕ
        → State
        → Written Net
        → Result ErasureFileInfo × (State × Net)
    unfolding recorded
    all_written o path size d p shard_size s w = elim w.failure [
      | some e ↦ (err e, (s, delete_shards m put_local remove_local request w.infos w.net))
      | none ↦
          recorded (file_info path size d p shard_size w.infos) w.net
            (create_erasure o path (file_info path size d p shard_size w.infos) s)
    ]

    distributed :
        Outcome
        → Text
        → Text
        → ℕ
        → Option StoreOptions
        → State × Net
        → Result (List Text)
        → Result ErasureFileInfo × (State × Net)
    unfolding all_written write_shards first_size
    distributed o path bytes size opts (s, net) (err e) =
        (err (wrap "erasure encode failed" e), (s, net))
    distributed o path bytes size opts (s, net) (ok shards) =
        let d = data_shards_of m opts in
        let p = parity_shards_of m opts in
        all_written o path size d p (first_size shards) s (
          write_shards (prefix_of bytes) (assign_shards (d + p) m.instance_id (available m opts)) 0
            shards net)

    -- StoreFile
    unfoldable pub store_file :
        Outcome
        → Text
        → Text
        → ℕ
        → Option StoreOptions
        → State × Net
        → Result ErasureFileInfo × (State × Net)
    unfolding distributed
    store_file o path bytes size opts (s, net) =
        if not (size == length bytes)
        then (err (message "originalSize does not match data length"), (s, net))
        else distributed o path bytes size opts (s, net)
            (encode new_codec split_data encode_parity (data_shards_of m opts)
              (parity_shards_of m opts) bytes)
