-- ===== src/FileHandlers/Put/Recorded.antt =====
-- core/file_operations.go, as server/handlers/put_file_enhanced.go calls it: what `UpdateMetadataOnly`
-- leaves of a record, whatever Raft answers.
use callfs.Prelude.{◌≡◌, ◌⊎◌, refl, arith, text_eq_refl, Option-cases, some, inl, inr}
use callfs.Prelude.Map
use callfs.Prelude.Map.{get-put}
use callfs.Metadata.{Metadata}
use callfs.Raft.{State}
use callfs.Raft.Store.{Outcome, committed, refused, given_up, update}
use callfs.Raft.Store.Committed.{update_lem}
use callfs.Engine.{World, update_metadata_only}
use callfs.Engine.Update.{only_updated-store}

-- the record is there, or nothing has changed
abbrev pub Recorded : Metadata → State → State → Type 0
Recorded md s s' = (Map.get md.path s'.metadata_by_path ≡ some md) ⊎ (s' ≡ s)

update-Recorded : (o : Outcome) (md : Metadata) (s : State) → Recorded md s (update o md s).1
update-Recorded (refused e) md s = inr (rw (update_lem (refused e) md s) refl)
update-Recorded (given_up e t) md s = elim (Option-cases (Map.get md.path s.metadata_by_path)) [
  | inl gone ↦ inr (rw (update_lem (given_up e t) md s, gone) refl)
  | inr (old, there) ↦ inl (
      rw (update_lem (given_up e t) md s, there)
        (ground (arith, get-put md.path md.path md s.metadata_by_path, text_eq_refl md.path)))
]
update-Recorded (committed t) md s = elim (Option-cases (Map.get md.path s.metadata_by_path)) [
  | inl gone ↦ inr (rw (update_lem (committed t) md s, gone) refl)
  | inr (old, there) ↦ inl (
      rw (update_lem (committed t) md s, there)
        (ground (arith, get-put md.path md.path md s.metadata_by_path, text_eq_refl md.path)))
]

pub update_metadata_only-Recorded :
    {Disk : Type 0} (o : Outcome) (md : Metadata) (w : World Disk)
    → Recorded md w.store (update_metadata_only o md w).1.store
update_metadata_only-Recorded o md w = rw (only_updated-store o md w) (update-Recorded o md w.store)
