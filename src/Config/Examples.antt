-- ===== src/Config/Examples.antt =====
-- The default configuration, which is refused, and one with secrets of its own (config/defaults.go).
use callfs.Prelude.{◌≡◌, refl, codes, true, pos, [], ◌∷◌, ok, err, message}
use callfs.Config.{AppConfig, default_app_config}
use callfs.Config.Validate.{validate_config}
use callfs.Config.Usable.{IsUsable, validated-IsUsable}

default_refused :
    validate_config default_app_config
    ≡ err (message "auth.api_keys must not use default value 'default-api-key'")
unfolding validate_config callfs.Prelude.text_eq callfs.Config.Validate.guard_server
    callfs.Prelude.to_lower
default_refused = refl

abbrev own : AppConfig
own = record default_app_config {
  auth = record {
    api_keys = codes "0123456789abcdef" ∷ [];
    internal_proxy_secret = codes "between nodes";
    single_use_link_secret = codes "for links";
  };
  erasure = record default_app_config.erasure { enabled = true };
}

abbrev own_filled : AppConfig
own_filled = record own {
  erasure = record own.erasure { data_shards = pos 4; parity_shards = pos 2 };
}

own_accepted : validate_config own ≡ ok own_filled
unfolding validate_config callfs.Prelude.text_eq callfs.Config.Validate.guard_server
    callfs.Prelude.to_lower callfs.Prelude.trim_space
own_accepted = refl

validated-IsUsable_example : IsUsable own_filled × (validate_config own_filled ≡ ok own_filled)
validated-IsUsable_example = validated-IsUsable own own_filled own_accepted
