-- ===== src/Config/Usable/Server.antt =====
-- config/loader.go: the server's section, once it is accepted.
use mathlib.Core.Path.{subst}
use callfs.Prelude.{
  ◌≡◌, ◌≢◌, ◌⊎◌, inl, inr, refl, ap, ◌∙◌, arith, Text, text_eq_iff, codes, Bool, true, false, ◌||◌,
  [], ok,
}
use callfs.Config.{ServerConfig}
use callfs.Config.Validate.{
  require, is_set, or_default, names, fill_server, has_certificate, guard_server, check_server,
}
use callfs.Config.Usable.Guards.{set_text}

-- The server has an address and a protocol, a certificate for HTTPS and for QUIC, and an address for QUIC.
pub record UsableServer (cfg : ServerConfig) : Type 0 where
  pub address : cfg.listen_addr ≢ []
  pub protocol :
      (names cfg.protocol "http" ≡ true)
      ⊎ ((names cfg.protocol "https" ≡ true) ⊎ (names cfg.protocol "auto" ≡ true))
  pub certificate :
      (names cfg.protocol "https" ≡ true) ⊎ (cfg.enable_quic ≡ true)
      → (cfg.cert_file ≢ []) × (cfg.key_file ≢ [])
  pub quic : cfg.enable_quic ≡ true → cfg.quic_listen_addr ≢ []

both_set :
    (cfg : ServerConfig) → has_certificate cfg ≡ true → (cfg.cert_file ≢ []) × (cfg.key_file ≢ [])
both_set cfg h = (set_text cfg.cert_file (ground arith), set_text cfg.key_file (ground arith))

one_of_three : (a b c : Bool) → (a || b || c) ≡ true → (a ≡ true) ⊎ ((b ≡ true) ⊎ (c ≡ true))
one_of_three true b c h = inl refl
one_of_three false true c h = inr (inl refl)
one_of_three false false c h = inr (inr h)

guard_server_ok :
    (cfg cfg' : ServerConfig)
    → cfg.listen_addr ≢ []
    → guard_server cfg ≡ ok cfg'
    → (cfg ≡ cfg') × UsableServer cfg
unfolding guard_server require
guard_server_ok cfg cfg' set h = (
  ground arith,
  record {
    address = set;
    protocol = ground arith;
    certificate = λ w. both_set cfg (ground arith);
    quic = λ w. set_text cfg.quic_listen_addr (ground arith);
  },
)

pub or_default_twice :
    (default s : Text)
    → default ≢ []
    → or_default default (or_default default s) ≡ or_default default s
or_default_twice default s n = ground (arith, text_eq_iff default [], text_eq_iff s [])

pub check_server_ok :
    (cfg cfg' : ServerConfig)
    → check_server cfg ≡ ok cfg'
    → UsableServer cfg' × (check_server cfg' ≡ ok cfg')
unfolding check_server require
check_server_ok cfg cfg' h =
    let (same, usable) =
      guard_server_ok (fill_server cfg) cfg' (set_text cfg.listen_addr (ground arith))
        (ground arith) in
    let twice : fill_server (fill_server cfg) ≡ fill_server cfg =
      ap (λ p. record cfg { protocol = p })
        (or_default_twice (codes "https") cfg.protocol (λ e. absurd (ground arith))) in
    (
      subst UsableServer same usable,
      subst (λ c. check_server c ≡ ok cfg') same
          (ap
              (λ c.
                require (is_set cfg.listen_addr) "server.listen_addr is required" (guard_server c))
              twice
            ∙ h),
    )
