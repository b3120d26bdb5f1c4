-- ===== src/Config/Validation.antt =====
-- Which configurations internal/config/config.go accepts.
use aquatiq_root.Common.{ℕ, ◌≡◌, ◌≢◌, ◌↔◌, ◌≤◌, refl, Option, none, some, [], arith, sym, ap, ◌∙◌}
use aquatiq_root.Common.Int.{ℤ, pos, negsuc}
use aquatiq_root.Config.{
  Config, validate, Viper, Unmarshalled, bad, good, ReadError, unreadable, config_file_not_found,
  loaded, load, unmarshalled, settings,
}

-- What a configuration needs.
pub record IsValid (cfg : Config) : Type 0 where
  pub port : ℕ
  pub is_port : (cfg.server.port ≡ pos port) × (1 ≤ port) × (port ≤ 65535)
  pub rps : ℕ
  pub is_rps : (cfg.rate_limit.global_rps ≡ pos rps) × (1 ≤ rps)
  pub has_api_key : cfg.server.api_key ≢ []
  pub has_redis_host : cfg.redis.host ≢ []
  pub has_docker_host : cfg.docker.host ≢ []

signs :
    (cfg : Config) (p r : ℤ)
    → cfg.server.port ≡ p
    → cfg.rate_limit.global_rps ≡ r
    → validate cfg ≡ none
    → IsValid cfg
unfolding validate
signs cfg (pos p) (pos r) e f h = record {
  port = p;
  is_port = (e, ground (arith, e, h), ground (arith, e, h));
  rps = r;
  is_rps = (f, ground (arith, f, h));
  has_api_key = λ k. ground (arith, k, h);
  has_redis_host = λ k. ground (arith, k, h);
  has_docker_host = λ k. ground (arith, k, h);
}
signs cfg (pos p) (negsuc r) e f h = let no : 1 ≤ 0 = ground (arith, e, f, h) in elim no [ ]
signs cfg (negsuc p) r e f h = let no : 1 ≤ 0 = ground (arith, e, h) in elim no [ ]

-- validate accepts exactly the configurations with a server port from 1 to 65535, a positive rate for the
-- global tier, an API key, and hosts for Redis and Docker.
validate_iff : (cfg : Config) → (validate cfg ≡ none) ↔ IsValid cfg
unfolding validate
validate_iff cfg = (
  signs cfg cfg.server.port cfg.rate_limit.global_rps refl refl,
  λ v. ground (arith, v.is_port, v.is_rps, v.has_api_key, v.has_redis_host, v.has_docker_host),
)

-- The file was read, or there is none.
abbrev pub IsReadable : Option ReadError → Type 0
IsReadable none = Unit
IsReadable (some config_file_not_found) = Unit
IsReadable (some (unreadable _)) = 1 ≤ 0

unmarshalled-loaded :
    (cfg : Config) (u : Unmarshalled)
    → (unmarshalled u ≡ loaded cfg) ↔ ((u ≡ good cfg) × IsValid cfg)
unmarshalled-loaded cfg (bad e) = ((λ h. cc h), λ p. cc p.0)
unmarshalled-loaded cfg (good c) = (
  λ h.
      let same : c ≡ cfg = ground (arith, h) in
      (ap (λ x. good x) same, (validate_iff cfg).0 (ap validate (sym same) ∙ ground (arith, h))),
  λ p. ground (arith, p.0, (validate_iff cfg).1 p.1),
)

-- Load returns a configuration exactly where the file could be read or there is none, viper unmarshals that
-- configuration, and it is valid.
pub load_iff :
    (viper : Viper) (cfg : Config)
    → (load viper ≡ loaded cfg) ↔ (
        IsReadable viper.read_in_config
        × (viper.unmarshal (settings viper) ≡ good cfg)
        × IsValid cfg)
unfolding load
load_iff viper cfg = go viper.read_in_config refl
  where
    go :
        (r : Option ReadError)
        → viper.read_in_config ≡ r
        → (load viper ≡ loaded cfg)
          ↔ (IsReadable r × (viper.unmarshal (settings viper) ≡ good cfg) × IsValid cfg)
    go none e =
        let (there, back) = unmarshalled-loaded cfg (viper.unmarshal (settings viper)) in
        (
          λ h. let (u, v) = there (ground (arith, e, h)) in (tt, u, v),
          λ p. ground (arith, e, back (p.1, p.2)),
        )
    go (some config_file_not_found) e =
        let (there, back) = unmarshalled-loaded cfg (viper.unmarshal (settings viper)) in
        (
          λ h. let (u, v) = there (ground (arith, e, h)) in (tt, u, v),
          λ p. ground (arith, e, back (p.1, p.2)),
        )
    go (some (unreadable m)) e =
        (λ h. ground (arith, e, h), λ p. let no : 1 ≤ 0 = p.0 in elim no [ ])
