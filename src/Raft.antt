-- ===== src/Raft.antt =====
-- metadata/raft/store.go: the replicated state machine and the store's operations over it.
-- The maps hold values, so the clones that the source makes on every way in and out are the values
-- themselves. Reading the log entry (JSON) is outside: `none` is an entry that does not decode. The
-- clock that `Apply` reads when it consumes a link is an argument.
mod Examples
pub mod Effects
pub mod Keys
pub mod Links
pub mod Replicas
pub mod SingleUse
pub mod Spec
pub mod Store
use callfs.Prelude.{
  ℕ, Text, text_eq, ltb, if◌then◌else◌, Option, none, some, Bool, false, ◌&&◌, List, [], ◌∷◌,
}
use callfs.Prelude.Map
use callfs.Prelude.Map.{Map}
use callfs.Metadata.{Metadata, SingleUseLink, ErasureFileInfo, active, used}

-- Command.Op
pub data Op : Type 0 where
  create_metadata update_metadata delete_metadata : Op
  create_link update_link cleanup_expired_links cleanup_used_links : Op
  create_erasure_info delete_erasure_info : Op
  other : Text → Op

pub record Command : Type 0 where
  pub op : Op
  pub path : Text
  pub metadata : Option Metadata
  pub token : Text
  pub link : Option SingleUseLink
  pub status : Text
  pub used_at : Option ℕ
  pub used_by_ip : Option Text
  pub before : Option ℕ
  pub older_than : Option ℕ
  pub erasure_info : Option ErasureFileInfo

-- CommandResult.Err; the empty string is `none` below
pub data Fault : Type 0 where
  no_such_entry entry_exists metadata_required link_required before_required : Fault
  older_than_required erasure_info_required unknown_operation invalid_command : Fault

pub record CommandResult : Type 0 where
  pub cleanup_count : ℕ
  pub fault : Option Fault

pub record State : Type 0 where
  pub metadata_by_path : Map Metadata
  pub links_by_token : Map SingleUseLink
  pub erasure_by_path : Map ErasureFileInfo

abbrev pub empty : State
empty = record { metadata_by_path = []; links_by_token = []; erasure_by_path = [] }

abbrev pub done : CommandResult
done = record { cleanup_count = 0; fault = none }

abbrev pub fail : Fault → CommandResult
fail f = record { cleanup_count = 0; fault = some f }

abbrev pub removed : ℕ → CommandResult
removed n = record { cleanup_count = n; fault = none }

-- the cases of `fsm.Apply`
apply_create_metadata : Option Metadata → State → CommandResult × State
apply_create_metadata none s = (fail metadata_required, s)
apply_create_metadata (some md) s = elim (Map.get md.path s.metadata_by_path) [
  | some _ ↦ (fail entry_exists, s)
  | none ↦ (done, record s { metadata_by_path = Map.put md.path md s.metadata_by_path })
]

apply_update_metadata : Option Metadata → State → CommandResult × State
apply_update_metadata none s = (fail metadata_required, s)
apply_update_metadata (some md) s = elim (Map.get md.path s.metadata_by_path) [
  | none ↦ (fail no_such_entry, s)
  | some _ ↦ (done, record s { metadata_by_path = Map.put md.path md s.metadata_by_path })
]

apply_delete_metadata : Text → State → CommandResult × State
apply_delete_metadata path s = elim (Map.get path s.metadata_by_path) [
  | none ↦ (fail no_such_entry, s)
  | some _ ↦ (done, record s { metadata_by_path = Map.remove path s.metadata_by_path })
]

apply_create_link : Option SingleUseLink → State → CommandResult × State
apply_create_link none s = (fail link_required, s)
apply_create_link (some l) s = elim (Map.get l.token s.links_by_token) [
  | some _ ↦ (fail entry_exists, s)
  | none ↦ (done, record s { links_by_token = Map.put l.token l s.links_by_token })
]

-- the link as a successful update leaves it
abbrev pub consumed : Command → ℕ → SingleUseLink → SingleUseLink
consumed cmd now l = record l {
  status = cmd.status;
  used_at = cmd.used_at;
  used_by_ip = cmd.used_by_ip;
  updated_at = now;
}

pub apply_update_link : Command → ℕ → State → CommandResult × State
apply_update_link cmd now s = elim (Map.get cmd.token s.links_by_token) [
  | none ↦ (fail no_such_entry, s)
  | some l ↦
      if text_eq l.status active
      then (
        done,
        record s { links_by_token = Map.put cmd.token (consumed cmd now l) s.links_by_token },
      )
      else (fail no_such_entry, s)
]

abbrev pub is_expired : ℕ → SingleUseLink → Bool
is_expired before l = text_eq l.status active && ltb l.expires_at before

abbrev pub used_before : ℕ → Option ℕ → Bool
used_before older none = false
used_before older (some t) = ltb t older

abbrev pub is_spent : ℕ → SingleUseLink → Bool
is_spent older l = text_eq l.status used && used_before older l.used_at

-- both cleanup loops
pub cleanup : (SingleUseLink → Bool) → State → CommandResult × State
cleanup p s = (
  removed (Map.count p s.links_by_token),
  record s { links_by_token = Map.sweep p s.links_by_token },
)

apply_cleanup_expired_links : Option ℕ → State → CommandResult × State
unfolding cleanup
apply_cleanup_expired_links none s = (fail before_required, s)
apply_cleanup_expired_links (some before) s = cleanup (is_expired before) s

apply_cleanup_used_links : Option ℕ → State → CommandResult × State
unfolding cleanup
apply_cleanup_used_links none s = (fail older_than_required, s)
apply_cleanup_used_links (some older) s = cleanup (is_spent older) s

apply_create_erasure_info : Text → Option ErasureFileInfo → State → CommandResult × State
apply_create_erasure_info path none s = (fail erasure_info_required, s)
apply_create_erasure_info path (some info) s = elim (Map.get path s.erasure_by_path) [
  | some _ ↦ (fail entry_exists, s)
  | none ↦ (done, record s { erasure_by_path = Map.put path info s.erasure_by_path })
]

apply_delete_erasure_info : Text → State → CommandResult × State
apply_delete_erasure_info path s =
    (done, record s { erasure_by_path = Map.remove path s.erasure_by_path })

-- the `switch` of `fsm.Apply`
apply_op : Op → Command → ℕ → State → CommandResult × State
unfolding apply_create_metadata apply_update_metadata apply_delete_metadata apply_create_link
    apply_update_link apply_cleanup_expired_links apply_cleanup_used_links apply_create_erasure_info
    apply_delete_erasure_info
apply_op create_metadata cmd now s = apply_create_metadata cmd.metadata s
apply_op update_metadata cmd now s = apply_update_metadata cmd.metadata s
apply_op delete_metadata cmd now s = apply_delete_metadata cmd.path s
apply_op create_link cmd now s = apply_create_link cmd.link s
apply_op update_link cmd now s = apply_update_link cmd now s
apply_op cleanup_expired_links cmd now s = apply_cleanup_expired_links cmd.before s
apply_op cleanup_used_links cmd now s = apply_cleanup_used_links cmd.older_than s
apply_op create_erasure_info cmd now s = apply_create_erasure_info cmd.path cmd.erasure_info s
apply_op delete_erasure_info cmd now s = apply_delete_erasure_info cmd.path s
apply_op (other _) cmd now s = (fail unknown_operation, s)

-- fsm.Apply
unfoldable pub apply : Option Command → ℕ → State → CommandResult × State
unfolding apply_op
apply none now s = (fail invalid_command, s)
apply (some cmd) now s = apply_op cmd.op cmd now s

-- A log: each entry with the clock of the node that applies it.
unfoldable pub replay : List (Option Command × ℕ) → State → State
replay [] s = s
replay ((c, now) ∷ log) s = replay log (apply c now s).1
