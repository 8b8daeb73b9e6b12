-- ===== src/Config/Usable.antt =====
-- config/loader.go: what a configuration that `validateConfig` accepts is good for.
pub mod Guards
pub mod Server
pub mod MetadataStore
pub mod Sections
use mathlib.Core.Path.{subst}
use callfs.Prelude.{
  ◌≡◌, ◌≢◌, ◌⊎◌, inl, inr, sym, ap, ◌∙◌, arith, String, Text, text_eq_iff, codes, true, [], All,
  Result-cases, ok,
}
use callfs.Metadata.{localfs, s3}
use callfs.Config.{AppConfig, MetadataStoreConfig, DlmConfig}
use callfs.Config.Validate.{
  require, check_server, Stores, guard_store, fill_store, fill_dlm, guard_dlm, replica_of,
  check_api_keys, changed, fill_erasure, default_allowed, check_rest, validate_config,
}
use callfs.Config.Usable.Guards.{and_then_ok, set_text}
use callfs.Config.Usable.Server.{or_default_twice, UsableServer, check_server_ok}
use callfs.Config.Usable.MetadataStore.{UsableStores, guard_store_ok}
use callfs.Config.Usable.Sections.{
  UsableDlm, GoodKey, UsableShards, guard_dlm_ok, check_api_keys_ok, fill_erasure_twice,
  filled-UsableShards,
}

-- Whether the program can start with a configuration: every section has what it needs, and no secret
-- or API key is the default one.
pub record IsUsable (cfg : AppConfig) : Type 0 where
  pub server : UsableServer cfg.server
  pub stores : UsableStores (cfg.metadata_store, cfg.raft)
  pub dlm : UsableDlm cfg.dlm
  pub replica :
      cfg.ha.replication_enabled ≡ true → (replica_of cfg.ha ≡ localfs) ⊎ (replica_of cfg.ha ≡ s3)
  pub instance_id : cfg.instance_discovery.instance_id ≢ []
  pub some_key : cfg.auth.api_keys ≢ []
  pub keys : All GoodKey cfg.auth.api_keys
  pub shards :
      cfg.erasure.enabled ≡ true → UsableShards cfg.erasure.data_shards cfg.erasure.parity_shards
  pub backend : default_allowed cfg.backend ≡ true
  pub proxy_secret :
      (cfg.auth.internal_proxy_secret ≢ [])
      × (cfg.auth.internal_proxy_secret ≢ codes "change-me-internal-secret")
  pub link_secret :
      (cfg.auth.single_use_link_secret ≢ [])
      × (cfg.auth.single_use_link_secret ≢ codes "change-me-link-secret")

changed_text :
    (s : Text) (default : String) → changed s default ≡ true → (s ≢ []) × (s ≢ codes default)
changed_text s default h = (
  λ e. absurd (ground (arith, text_eq_iff s [])),
  λ e. absurd (ground (arith, text_eq_iff s (codes default))),
)

abbrev filled : AppConfig → AppConfig
filled cfg = record cfg { erasure = fill_erasure cfg.erasure }

keys_pass :
    (cfg cfg' : AppConfig) → check_rest cfg ≡ ok cfg' → check_api_keys cfg.auth.api_keys ≡ ok tt
unfolding check_rest require
keys_pass cfg cfg' h = elim (Result-cases (check_api_keys cfg.auth.api_keys)) [
  | inl (tt, e) ↦ e
  | inr (x, e) ↦ absurd (ground arith)
]

check_rest-filled : (cfg cfg' : AppConfig) → check_rest cfg ≡ ok cfg' → filled cfg ≡ cfg'
unfolding check_rest require
check_rest-filled cfg cfg' h = let e = keys_pass cfg cfg' h in ground arith

check_rest-IsUsable :
    (cfg cfg' : AppConfig)
    → UsableServer cfg.server
    → UsableStores (cfg.metadata_store, cfg.raft)
    → UsableDlm cfg.dlm
    → check_rest cfg ≡ ok cfg'
    → IsUsable (filled cfg)
unfolding check_rest require
check_rest-IsUsable cfg cfg' server stores dlm h =
    let e = keys_pass cfg cfg' h in
    record {
      server = server;
      stores = stores;
      dlm = dlm;
      replica = λ on.
          ground
            (arith, text_eq_iff (replica_of cfg.ha) localfs, text_eq_iff (replica_of cfg.ha) s3);
      instance_id = set_text cfg.instance_discovery.instance_id (ground arith);
      some_key = (ground arith);
      keys = check_api_keys_ok cfg.auth.api_keys e;
      shards = λ on. filled-UsableShards cfg.erasure on (ground arith);
      backend = (ground arith);
      proxy_secret =
          changed_text cfg.auth.internal_proxy_secret "change-me-internal-secret" (ground arith);
      link_secret =
          changed_text cfg.auth.single_use_link_secret "change-me-link-secret" (ground arith);
    }

check_rest_again :
    (cfg cfg' : AppConfig) → check_rest cfg ≡ ok cfg' → check_rest (filled cfg) ≡ ok (filled cfg)
unfolding check_rest require
check_rest_again cfg cfg' h =
    rw (fill_erasure_twice cfg.erasure) (h ∙ ap ok (sym (check_rest-filled cfg cfg' h)))

revalidated :
    (c : AppConfig)
    → check_server c.server ≡ ok c.server
    → guard_store (fill_store c.metadata_store) c.raft ≡ ok (c.metadata_store, c.raft)
    → guard_dlm (fill_dlm c.dlm) ≡ ok c.dlm
    → check_rest c ≡ ok c
    → validate_config c ≡ ok c
unfolding validate_config
revalidated c a b d e = rw (a, b, d) e

stores_again :
    (store : MetadataStoreConfig) (stores : Stores)
    → stores.0 ≡ fill_store store
    → guard_store (fill_store store) stores.1 ≡ ok stores
    → guard_store (fill_store stores.0) stores.1 ≡ ok stores
stores_again store stores same h =
    let twice : fill_store (fill_store store) ≡ fill_store store =
      ap (λ t. record store { type = t })
        (or_default_twice (codes "postgres") store.type (λ e. absurd (ground arith))) in
    ap (λ x. guard_store x stores.1) (ap fill_store same ∙ twice) ∙ h

dlm_again :
    (dlm dlm' : DlmConfig)
    → fill_dlm dlm ≡ dlm'
    → guard_dlm (fill_dlm dlm) ≡ ok dlm'
    → guard_dlm (fill_dlm dlm') ≡ ok dlm'
dlm_again dlm dlm' same h =
    let twice : fill_dlm (fill_dlm dlm) ≡ fill_dlm dlm =
      ap (λ t. record dlm { type = t })
        (or_default_twice (codes "redis") dlm.type (λ e. absurd (ground arith))) in
    ap guard_dlm (ap fill_dlm (sym same) ∙ twice) ∙ h

-- Whatever `validateConfig` accepts is fit to start with: addresses, certificates, secrets, keys and the
-- settings of the chosen stores are there and within their bounds, none of the secrets is a default one, and
-- the shard counts, where erasure coding is enabled, are at least two and one and 256 at most in all, or
-- have a sum of 2 ^ 63 or more, which wraps around and is accepted. Validating the configuration again changes nothing.
pub validated-IsUsable :
    (cfg cfg' : AppConfig)
    → validate_config cfg ≡ ok cfg'
    → IsUsable cfg' × (validate_config cfg' ≡ ok cfg')
unfolding validate_config
validated-IsUsable cfg cfg' h =
    let (server, s, h1) = and_then_ok (check_server cfg.server) _ h in
    let (stores, m, h2) = and_then_ok (guard_store (fill_store cfg.metadata_store) cfg.raft) _ h1 in
    let (dlm, d, h3) = and_then_ok (guard_dlm (fill_dlm cfg.dlm)) _ h2 in
    let mid : AppConfig = record cfg {
      server = server;
      metadata_store = stores.0;
      raft = stores.1;
      dlm = dlm;
    } in
    let (good_server, server_again) = check_server_ok cfg.server server s in
    let (good_stores, same_store, store_again) = guard_store_ok _ cfg.raft stores m in
    let (same_dlm, good_dlm) = guard_dlm_ok (fill_dlm cfg.dlm) dlm d in
    subst (λ c. IsUsable c × (validate_config c ≡ ok c)) (check_rest-filled mid cfg' h3)
      (
        check_rest-IsUsable mid cfg' good_server good_stores (subst UsableDlm same_dlm good_dlm) h3,
        revalidated (filled mid) server_again
            (stores_again cfg.metadata_store stores same_store store_again)
            (dlm_again cfg.dlm dlm same_dlm d) (check_rest_again mid cfg' h3),
      )
