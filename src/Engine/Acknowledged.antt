-- ===== src/Engine/Acknowledged.antt =====
-- core/file_operations.go: `replicateFileToSecondaryBackend` fails only where a replica must acknowledge.
use callfs.Prelude.{
  ℕ, ◌≡◌, ◌⊎◌, refl, arith, inl, inr, Text, String, text_eq, trim_space, to_lower, Bool-cases, true,
  not, ◌||◌, [], Result, ok, err, Error,
}
use callfs.Engine.{
  EngineConfig, Backend, relative, acknowledged, created_replica, reopened, updated_replica, opened,
  replicate_file,
}

module _ {Disk : Type 0} (cfg : EngineConfig) (open_file : Backend → Text → Disk → Result Text)
    (update_blob create_blob : Backend → Text → Text → ℕ → Disk → Result (Unit {0}) × Disk) where
  -- only a replica that must acknowledge makes the replication fail
  abbrev pub Required : Result (Unit {0}) × Disk → Type 0
  Required r = (r.0 ≡ ok tt) ⊎ (cfg.require_replica_ack ≡ true)

  acknowledged-Required :
      (what : String) (e : Error) (disk : Disk)
      → Required (acknowledged cfg open_file update_blob create_blob what e disk)
  unfolding acknowledged
  acknowledged-Required what e disk = elim (Bool-cases cfg.require_replica_ack) [
    | inl must ↦ inr must
    | inr may ↦ inl (ground arith)
  ]

  created-Required :
      (r : Result (Unit {0}) × Disk)
      → Required (created_replica cfg open_file update_blob create_blob r)
  unfolding created_replica
  created-Required (ok t, disk) = inl refl
  created-Required (err e, disk) = acknowledged-Required _ e disk

  reopened-Required :
      (replica : Backend) (path : Text) (size : ℕ) (r : Result Text) (disk : Disk)
      → Required (reopened cfg open_file update_blob create_blob replica path size r disk)
  unfolding reopened
  reopened-Required replica path size (err e) disk = acknowledged-Required _ e disk
  reopened-Required replica path size (ok bytes) disk = created-Required _

  updated-Required :
      (primary replica : Backend) (path : Text) (size : ℕ) (r : Result (Unit {0}) × Disk)
      → Required (updated_replica cfg open_file update_blob create_blob primary replica path size r)
  unfolding updated_replica
  updated-Required primary replica path size (ok t, disk) = inl refl
  updated-Required primary replica path size (err e, disk) =
      reopened-Required replica path size (open_file primary path disk) disk

  opened-Required :
      (primary replica : Backend) (path : Text) (size : ℕ) (r : Result Text) (disk : Disk)
      → Required (opened cfg open_file update_blob create_blob primary replica path size r disk)
  unfolding opened
  opened-Required primary replica path size (err e) disk = acknowledged-Required _ e disk
  opened-Required primary replica path size (ok bytes) disk =
      updated-Required primary replica path size (update_blob replica path bytes size disk)

  pub replicate-Required :
      (path : Text) (size : ℕ) (primary : Text) (disk : Disk)
      → Required (replicate_file cfg open_file update_blob create_blob path size primary disk)
  unfolding replicate_file
  replicate-Required path size primary disk =
      elim (Bool-cases (
        not cfg.replication_enabled
        || text_eq (to_lower (trim_space cfg.replica_backend)) []
        || text_eq (to_lower (trim_space cfg.replica_backend)) (to_lower primary))) [
          | inl none_wanted ↦ rw (none_wanted, replicate_file) (inl refl)
          | inr wanted ↦
              rw (wanted, replicate_file) (opened-Required _ _ (relative path) size _ disk)
        ]
