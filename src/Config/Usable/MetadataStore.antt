-- ===== src/Config/Usable/MetadataStore.antt =====
-- config/loader.go: the sections of the metadata store and of Raft, once they are accepted.
use mathlib.Core.Path.{subst}
use callfs.Prelude.{
  ◌≤◌, ◌≡◌, ◌≢◌, ◌⊎◌, inl, inr, refl, sym, ap, ◌∙◌, arith, Bool-cases, true, [], ok,
}
use callfs.Config.{MetadataStoreConfig, RaftConfig}
use callfs.Config.Validate.{require, names, is_positive, Stores, guard_raft, guard_store}
use callfs.Config.Usable.Guards.{set_text}

-- A Raft store knows who and where it is and where it keeps its data, and its times and counts are positive.
pub record UsableRaft (raft : RaftConfig) : Type 0 where
  pub enabled : raft.enabled ≡ true
  pub node_id : raft.node_id ≢ []
  pub bind_addr : raft.bind_addr ≢ []
  pub data_dir : raft.data_dir ≢ []
  pub apply_timeout : is_positive raft.apply_timeout ≡ true
  pub forward_timeout : is_positive raft.forward_timeout ≡ true
  pub snapshot_interval : is_positive raft.snapshot_interval ≡ true
  pub snapshot_threshold : 1 ≤ raft.snapshot_threshold
  pub retain_snapshot_count : is_positive raft.retain_snapshot_count ≡ true

guard_raft_ok :
    (store : MetadataStoreConfig) (raft : RaftConfig) (stores : Stores)
    → guard_raft store raft ≡ ok stores
    → (stores ≡ (store, record raft { enabled = true }))
      × UsableRaft (record raft { enabled = true })
unfolding guard_raft require
guard_raft_ok store raft stores h = (
  ground arith,
  record {
    enabled = refl;
    node_id = set_text raft.node_id (ground arith);
    bind_addr = set_text raft.bind_addr (ground arith);
    data_dir = set_text raft.data_dir (ground arith);
    apply_timeout = ground arith;
    forward_timeout = ground arith;
    snapshot_interval = ground arith;
    snapshot_threshold = ground arith;
    retain_snapshot_count = ground arith;
  },
)

guard_raft_again :
    (store : MetadataStoreConfig) (raft : RaftConfig) (stores : Stores)
    → guard_raft store raft ≡ ok stores
    → guard_raft store (record raft { enabled = true }) ≡ ok stores
unfolding guard_raft
guard_raft_again store raft stores h = h

-- The metadata store is one of the four, with what it needs.
abbrev pub UsableStores : Stores → Type 0
UsableStores (store, raft) =
    ((names store.type "postgres" ≡ true) × (store.dsn ≢ []))
    ⊎ (((names store.type "sqlite" ≡ true) × (store.sqlite_path ≢ []))
        ⊎ (((names store.type "redis" ≡ true) × (store.redis_addr ≢ []))
            ⊎ ((names store.type "raft" ≡ true) × UsableRaft raft)))

-- what is shown of an answer of this section: it is usable, and accepted again as it is
abbrev pub Settled : MetadataStoreConfig → Stores → Type 0
Settled store stores =
    UsableStores stores × (stores.0 ≡ store) × (guard_store store stores.1 ≡ ok stores)

settled :
    (store : MetadataStoreConfig) (raft : RaftConfig) (stores : Stores)
    → stores ≡ (store, raft)
    → UsableStores (store, raft)
    → guard_store store raft ≡ ok stores
    → Settled store stores
settled store raft stores same usable h =
    subst (Settled store) (sym same) (usable, refl, h ∙ ap ok same)

pub guard_store_ok :
    (store : MetadataStoreConfig) (raft : RaftConfig) (stores : Stores)
    → guard_store store raft ≡ ok stores
    → Settled store stores
unfolding guard_store require
guard_store_ok store raft stores h = elim (Bool-cases (names store.type "postgres")) [
  | inl a ↦ settled store raft stores (ground arith) (inl (a, set_text store.dsn (ground arith))) h
  | inr a ↦ elim (Bool-cases (names store.type "sqlite")) [
    | inl b ↦
        settled store raft stores (ground arith)
          (inr (inl (b, set_text store.sqlite_path (ground arith)))) h
    | inr b ↦ elim (Bool-cases (names store.type "redis")) [
      | inl c ↦
          settled store raft stores (ground arith)
            (inr (inr (inl (c, set_text store.redis_addr (ground arith))))) h
      | inr c ↦ elim (Bool-cases (names store.type "raft")) [
        | inl d ↦
            let (same, usable) = guard_raft_ok store raft stores (ground arith) in
            settled store (record raft { enabled = true }) stores same (inr (inr (inr (d, usable))))
              (rw (a, b, c, d, guard_store) (guard_raft_again store raft stores (ground arith)))
        | inr d ↦ absurd (ground arith)
      ]
    ]
  ]
]
