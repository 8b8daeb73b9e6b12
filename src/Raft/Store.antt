-- ===== src/Raft/Store.antt =====
-- metadata/raft/store.go, `Store`: the operations that the rest of the program calls, over the
-- replicated state. The Raft library decides whether an entry is committed: `Outcome` is its answer
-- to `raft.Apply`, with the clock of the state machine if it applies the entry. A leader that is deposed, or
-- whose answer comes too late, gives up on an entry that is applied all the same: `given_up`. One that is applied only after other
-- entries is an entry of its own.
pub mod Committed
pub mod ErasureInfo
use callfs.Prelude.{
  ℕ, Text, text_eq, cut_last, if◌then◌else◌, Bool, true, false, List, ◌∷◌, ltb, ◌==◌, Option, none,
  some, [], Result, ok, err, Error, not_found, already_exists, message, wrap,
}
use callfs.Prelude.Map
use callfs.Prelude.Map.{Map}
use callfs.Metadata.{Metadata, SingleUseLink, ErasureFileInfo}
use callfs.Paths.{slash, root}
use callfs.Raft.{
  Op, Command, CommandResult, State, Fault, apply, create_metadata, update_metadata,
  delete_metadata, create_link, update_link, cleanup_expired_links, cleanup_used_links,
  create_erasure_info, delete_erasure_info, no_such_entry, entry_exists, metadata_required,
  link_required, before_required, older_than_required, erasure_info_required, unknown_operation,
  invalid_command,
}

pub data Outcome : Type 0 where
  committed : ℕ → Outcome
  refused : Error → Outcome
  given_up : Error → ℕ → Outcome

-- The `switch` on the text of the answer's error.
unfoldable pub error_of : Fault → Error
error_of no_such_entry = not_found
error_of entry_exists = already_exists
error_of metadata_required = message "metadata_required"
error_of link_required = message "link_required"
error_of before_required = message "before_required"
error_of older_than_required = message "older_than_required"
error_of erasure_info_required = message "erasure_info_required"
error_of unknown_operation = message "unknown_operation"
error_of invalid_command = message "invalid_command"

answer_of : Option Fault → CommandResult → Result CommandResult
unfolding error_of
answer_of none r = ok r
answer_of (some f) r = err (error_of f)

answered : CommandResult × State → Result CommandResult × State
unfolding answer_of
answered (r, s) = (answer_of r.fault r, s)

-- applyAsLeader
unfoldable pub apply_as_leader : Outcome → Command → State → Result CommandResult × State
unfolding answered apply
apply_as_leader (refused e) cmd s = (err (wrap "raft apply failed" e), s)
apply_as_leader (given_up e now) cmd s =
    (err (wrap "raft apply failed" e), (apply (some cmd) now s).1)
apply_as_leader (committed now) cmd s = answered (apply (some cmd) now s)

-- A command with nothing but its operation.
abbrev pub bare : Op → Command
bare op = record {
  op = op;
  path = [];
  metadata = none;
  token = [];
  link = none;
  status = [];
  used_at = none;
  used_by_ip = none;
  before = none;
  older_than = none;
  erasure_info = none;
}

abbrev forget : Result CommandResult × State → Result (Unit {0}) × State
forget (ok r, s) = (ok tt, s)
forget (err e, s) = (err e, s)

abbrev counted : Result CommandResult × State → Result ℕ × State
counted (ok r, s) = (ok r.cleanup_count, s)
counted (err e, s) = (err e, s)

found : {V : Type 0} → Option V → Result V
found none = err not_found
found (some v) = ok v

-- Get, Create, Update, Delete
unfoldable pub get : Text → State → Result Metadata
unfolding found
get path s = found (Map.get path s.metadata_by_path)

unfoldable pub create : Outcome → Metadata → State → Result (Unit {0}) × State
unfolding apply_as_leader
create o md s = forget (apply_as_leader o (record (bare create_metadata) { metadata = some md }) s)

unfoldable pub update : Outcome → Metadata → State → Result (Unit {0}) × State
unfolding apply_as_leader
update o md s = forget (apply_as_leader o (record (bare update_metadata) { metadata = some md }) s)

unfoldable pub delete : Outcome → Text → State → Result (Unit {0}) × State
unfolding apply_as_leader
delete o path s = forget (apply_as_leader o (record (bare delete_metadata) { path = path }) s)

-- GetSingleUseLink, CreateSingleUseLink, UpdateSingleUseLink
unfoldable pub get_single_use_link : Text → State → Result SingleUseLink
unfolding found
get_single_use_link token s = found (Map.get token s.links_by_token)

unfoldable pub create_single_use_link : Outcome → SingleUseLink → State → Result (Unit {0}) × State
unfolding apply_as_leader
create_single_use_link o link s =
    forget (apply_as_leader o (record (bare create_link) { link = some link }) s)

abbrev pub update_link_command : Text → Text → Option ℕ → Option Text → Command
update_link_command token status used_at ip = record (bare update_link) {
  token = token;
  status = status;
  used_at = used_at;
  used_by_ip = ip;
}

unfoldable pub update_single_use_link :
    Outcome → Text → Text → Option ℕ → Option Text → State → Result (Unit {0}) × State
unfolding apply_as_leader
update_single_use_link o token status used_at ip s =
    forget (apply_as_leader o (update_link_command token status used_at ip) s)

-- CleanupExpiredLinks and CleanupUsedLinks
unfoldable pub cleanup_expired : Outcome → ℕ → State → Result ℕ × State
unfolding apply_as_leader
cleanup_expired o before s =
    counted (apply_as_leader o (record (bare cleanup_expired_links) { before = some before }) s)

unfoldable pub cleanup_used : Outcome → ℕ → State → Result ℕ × State
unfolding apply_as_leader
cleanup_used o older_than s =
    counted
      (apply_as_leader o (record (bare cleanup_used_links) { older_than = some older_than }) s)

-- pathDir; a slash at the front or none is the test `lastSlash <= 0`
unfoldable pub path_dir : Text → Text
path_dir p = if text_eq p root then root else elim (cut_last slash p) [
  | none ↦ root
  | some (before, _) ↦ if text_eq before [] then root else before
]

-- metadata/raft/erasure.go: CreateErasureInfo, GetErasureInfo, DeleteErasureInfo
unfoldable pub create_erasure : Outcome → Text → ErasureFileInfo → State → Result (Unit {0}) × State
unfolding apply_as_leader
create_erasure o path info s = forget (
    apply_as_leader o (record (bare create_erasure_info) { path = path; erasure_info = some info })
      s)

unfoldable pub get_erasure_info : Text → State → Result ErasureFileInfo
unfolding found
get_erasure_info path s = found (Map.get path s.erasure_by_path)

unfoldable pub delete_erasure : Outcome → Text → State → Result (Unit {0}) × State
unfolding apply_as_leader
delete_erasure o path s =
    forget (apply_as_leader o (record (bare delete_erasure_info) { path = path }) s)

-- ListChildren: the entries below a path, but "/", sorted by their paths
unfoldable pub text_less : Text → Text → Bool
text_less s [] = false
text_less [] (b ∷ t) = true
text_less (a ∷ s) (b ∷ t) = if a == b then text_less s t else ltb a b

unfoldable pub insert_by_path : Metadata → List Metadata → List Metadata
insert_by_path md [] = md ∷ []
insert_by_path md (m ∷ mds) =
    let rest = insert_by_path md mds in if text_less md.path m.path then md ∷ m ∷ mds else m ∷ rest

pub is_child : Text → Metadata → Bool
unfolding path_dir
is_child parent md = if text_eq md.path root then false else text_eq (path_dir md.path) parent

unfoldable pub children_of : Text → Map Metadata → List Metadata
unfolding is_child
children_of parent [] = []
children_of parent ((path, md) ∷ entries) =
    let rest = children_of parent entries in
    if is_child parent md then insert_by_path md rest else rest

unfoldable pub list_children : Text → State → List Metadata
list_children parent s = children_of parent s.metadata_by_path
