-- ===== src/Metadata.antt =====
-- metadata/store.go: the records that every metadata store keeps. A pointer field is an `Option`,
-- an instant a number of nanoseconds.
use callfs.Prelude.{ℕ, ℤ, Text, codes, Option, Bool, List}

pub record Metadata : Type 0 where
  pub id : ℕ
  pub parent_id : Option ℕ
  pub name : Text
  pub path : Text
  pub type : Text
  pub size : ℕ
  pub mode : Text
  pub uid : ℤ
  pub gid : ℤ
  pub atime : ℕ
  pub mtime : ℕ
  pub ctime : ℕ
  pub backend_type : Text
  pub erasure_coded : Bool
  pub callfs_instance_id : Option Text
  pub symlink_target : Option Text
  pub created_at : ℕ
  pub updated_at : ℕ

pub record SingleUseLink : Type 0 where
  pub id : ℕ
  pub token : Text
  pub file_path : Text
  pub status : Text
  pub expires_at : ℕ
  pub used_at : Option ℕ
  pub used_by_ip : Option Text
  pub hmac_signature : Text
  pub created_at : ℕ
  pub updated_at : ℕ

pub record ErasureShardInfo : Type 0 where
  pub index : ℕ
  pub instance_id : Text
  pub backend_type : Text
  pub path : Text
  pub size : ℕ
  pub checksum : Text

pub record ErasureFileInfo : Type 0 where
  pub file_path : Text
  pub original_size : ℕ
  pub data_shards : ℕ
  pub parity_shards : ℕ
  pub shard_size : ℕ
  pub shards : List ErasureShardInfo

-- the values of `type` and `status` that the program writes and tests
abbrev pub file : Text
file = codes "file"

abbrev pub directory : Text
directory = codes "directory"

abbrev pub active : Text
active = codes "active"

abbrev pub used : Text
used = codes "used"

abbrev pub localfs : Text
localfs = codes "localfs"

abbrev pub s3 : Text
s3 = codes "s3"
