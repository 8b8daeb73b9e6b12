-- ===== src/Config/Validate.antt =====
-- config/loader.go: `validateConfig`, section by section in its order. It fills a default into a field
-- that is empty, so its answer is the configuration that the program goes on with.
use callfs.Prelude.{
  ℕ, ◌+◌, ◌^◌, ℤ, pos, negsuc, String, Text, text_eq, codes, to_lower, trim_space, ltb, leb, ◌==◌,
  if◌then◌else◌, Bool, true, false, not, ◌&&◌, ◌||◌, List, [], ◌∷◌, Result, ok, err, message,
}
use callfs.Metadata.{localfs, s3}
use callfs.Config.{
  AppConfig, ServerConfig, BackendConfig, MetadataStoreConfig, RaftConfig, DlmConfig, HaConfig,
  ErasureConfig,
}

-- a guard, and the statements behind it
unfoldable pub require {ℓ} : {A : Type ℓ} → Bool → String → Result A → Result A
require test what rest = if test then rest else err (message what)

abbrev pub and_then {ℓ κ} : {A : Type ℓ} {B : Type κ} → Result A → (A → Result B) → Result B
and_then (ok a) rest = rest a
and_then (err e) rest = err e

abbrev pub is_set : Text → Bool
is_set s = not (text_eq s [])

abbrev pub or_default : Text → Text → Text
or_default default s = if text_eq s [] then default else s

-- `strings.ToLower(s) == name`
abbrev pub names : Text → String → Bool
names s name = text_eq (to_lower s) (codes name)

abbrev pub is_positive : ℤ → Bool
is_positive (pos n) = ltb 0 n
is_positive (negsuc _) = false

-- server
abbrev pub fill_server : ServerConfig → ServerConfig
fill_server cfg = record cfg { protocol = or_default (codes "https") cfg.protocol }

abbrev pub has_certificate : ServerConfig → Bool
has_certificate cfg = is_set cfg.cert_file && is_set cfg.key_file

unfoldable pub guard_server : ServerConfig → Result ServerConfig
unfolding require
guard_server cfg =
    require (names cfg.protocol "http" || names cfg.protocol "https" || names cfg.protocol "auto")
      "server.protocol must be one of: http, https, auto"
      (require (not (names cfg.protocol "https") || has_certificate cfg)
        "server.cert_file and server.key_file are required when server.protocol=https"
        (require (not cfg.enable_quic || has_certificate cfg)
          "server.cert_file and server.key_file are required when server.enable_quic=true"
          (require (not cfg.enable_quic || is_set cfg.quic_listen_addr)
            "server.quic_listen_addr is required when server.enable_quic=true" (ok cfg))))

unfoldable pub check_server : ServerConfig → Result ServerConfig
unfolding require
check_server cfg =
    require (is_set cfg.listen_addr) "server.listen_addr is required"
      (guard_server (fill_server cfg))

-- metadata_store and raft
abbrev pub Stores : Type 0
Stores = MetadataStoreConfig × RaftConfig

unfoldable pub guard_raft : MetadataStoreConfig → RaftConfig → Result Stores
unfolding require
guard_raft store raft =
    require (is_set raft.node_id) "raft.node_id is required when metadata_store.type=raft" (
      require (is_set raft.bind_addr) "raft.bind_addr is required when metadata_store.type=raft" (
        require (is_set raft.data_dir) "raft.data_dir is required when metadata_store.type=raft" (
          require (is_positive raft.apply_timeout)
            "raft.apply_timeout must be > 0 when metadata_store.type=raft"
            (require (is_positive raft.forward_timeout)
              "raft.forward_timeout must be > 0 when metadata_store.type=raft"
              (require (is_positive raft.snapshot_interval)
                "raft.snapshot_interval must be > 0 when metadata_store.type=raft"
                (require (not (raft.snapshot_threshold == 0))
                  "raft.snapshot_threshold must be > 0 when metadata_store.type=raft"
                  (require (is_positive raft.retain_snapshot_count)
                    "raft.retain_snapshot_count must be > 0 when metadata_store.type=raft"
                    (ok (store, record raft { enabled = true })))))))))

unfoldable pub guard_store : MetadataStoreConfig → RaftConfig → Result Stores
unfolding require guard_raft
guard_store store raft =
    if names store.type "postgres"
    then require (is_set store.dsn)
        "metadata_store.dsn is required when metadata_store.type=postgres" (ok (store, raft))
    else if names store.type "sqlite"
    then require (is_set store.sqlite_path)
        "metadata_store.sqlite_path is required when metadata_store.type=sqlite" (ok (store, raft))
    else if names store.type "redis"
    then require (is_set store.redis_addr)
        "metadata_store.redis_addr is required when metadata_store.type=redis" (ok (store, raft))
    else if names store.type "raft"
    then guard_raft store raft
    else err (message "metadata_store.type must be one of: postgres, sqlite, redis, raft")

abbrev pub fill_store : MetadataStoreConfig → MetadataStoreConfig
fill_store store = record store { type = or_default (codes "postgres") store.type }

-- dlm
abbrev pub fill_dlm : DlmConfig → DlmConfig
fill_dlm dlm = record dlm { type = or_default (codes "redis") dlm.type }

unfoldable pub guard_dlm : DlmConfig → Result DlmConfig
unfolding require
guard_dlm dlm =
    if names dlm.type "redis"
    then require (is_set dlm.redis_addr) "dlm.redis_addr is required when dlm.type=redis" (ok dlm)
    else require (names dlm.type "local") "dlm.type must be one of: redis, local" (ok dlm)

-- ha
abbrev pub replica_of : HaConfig → Text
replica_of ha = to_lower (trim_space ha.replica_backend)

abbrev pub ha_allowed : HaConfig → Bool
ha_allowed ha =
    not ha.replication_enabled || text_eq (replica_of ha) localfs || text_eq (replica_of ha) s3

-- auth: Go's `len` counts bytes, of which a rune takes up to four in UTF-8
rune_bytes : ℕ → ℕ
rune_bytes c = if ltb c 0x80 then 1 else if ltb c 0x800 then 2 else if ltb c 0x10000 then 3 else 4

unfoldable pub byte_length : Text → ℕ
unfolding rune_bytes
byte_length [] = 0
byte_length (c ∷ s) = rune_bytes c + byte_length s

unfoldable pub check_api_keys : List Text → Result (Unit {0})
unfolding require byte_length
check_api_keys [] = ok tt
check_api_keys (key ∷ keys) =
    let rest = check_api_keys keys in
    require (not (text_eq key (codes "default-api-key")))
      "auth.api_keys must not use default value 'default-api-key'"
      (require (leb 16 (byte_length key)) "auth.api_keys: each key must be at least 16 characters"
        rest)

abbrev pub is_empty : List Text → Bool
is_empty [] = true
is_empty (_ ∷ _) = false

-- `s == "" || s == default`, negated
abbrev pub changed : Text → String → Bool
changed s default = is_set s && not (text_eq s (codes default))

-- erasure
abbrev pub at_least : ℕ → ℕ → ℤ → ℤ
at_least low default (pos n) = if ltb n low then pos default else pos n
at_least low default (negsuc _) = pos default

abbrev pub fill_erasure : ErasureConfig → ErasureConfig
fill_erasure e =
    if e.enabled
    then record e {
      data_shards = at_least 2 4 e.data_shards;
      parity_shards = at_least 1 2 e.parity_shards;
    }
    else e

-- `DataShards + ParityShards > 256` in 64-bit `int`, for counts that are not negative
abbrev pub too_many : ℤ → ℤ → Bool
too_many (pos d) (pos p) = ltb 256 (d + p) && ltb (d + p) (2 ^ 63)
too_many _ _ = false

-- backend
abbrev pub default_allowed : BackendConfig → Bool
default_allowed backend =
    let name = to_lower (trim_space backend.default_backend) in
    text_eq name localfs || text_eq name s3 || text_eq name []

-- validateConfig, behind its first two sections
unfoldable pub check_rest : AppConfig → Result AppConfig
unfolding require check_api_keys
check_rest cfg =
    require (ha_allowed cfg.ha)
      "ha.replica_backend must be one of: localfs, s3 when ha.replication_enabled=true"
      (require (is_set cfg.instance_discovery.instance_id)
        "instance_discovery.instance_id is required"
        (require (not (is_empty cfg.auth.api_keys)) "auth.api_keys must contain at least one key" (
          and_then (check_api_keys cfg.auth.api_keys) (λ _.
            let filled = fill_erasure cfg.erasure in
            require (not filled.enabled || not (too_many filled.data_shards filled.parity_shards))
              "erasure.data_shards + erasure.parity_shards must not exceed 256"
              (require (default_allowed cfg.backend)
                "backend.default_backend must be one of: localfs, s3"
                (require (changed cfg.auth.internal_proxy_secret "change-me-internal-secret")
                  "auth.internal_proxy_secret must be set and not use default value"
                  (require (changed cfg.auth.single_use_link_secret "change-me-link-secret")
                    "auth.single_use_link_secret must be set and not use default value"
                    (ok (record cfg { erasure = filled })))))))))

unfoldable pub validate_config : AppConfig → Result AppConfig
unfolding check_server guard_store guard_dlm check_rest
validate_config cfg = and_then (check_server cfg.server) (λ server.
    and_then (guard_store (fill_store cfg.metadata_store) cfg.raft) (λ stores.
      and_then (guard_dlm (fill_dlm cfg.dlm)) (λ dlm.
        check_rest
          (record cfg { server = server; metadata_store = stores.0; raft = stores.1; dlm = dlm }))))
