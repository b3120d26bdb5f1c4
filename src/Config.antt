-- ===== src/Config.antt =====
-- internal/config/config.go: the configuration, how it is loaded through viper, and its validation.
-- Durations are in nanoseconds.
pub mod Defaults
use aquatiq_root.Common.{
  ℕ, Text, lit, ◌≡◌, Bool, true, false, Option, none, some, List, [], ◌∷◌, ◌++◌, if◌then◌else◌,
  is_empty, ◌||◌,
}
use aquatiq_root.Common.Int.{ℤ, pos, ltb_ℤ, decimal_ℤ}
pub mod Validation
pub mod Complete
mod Tests
use aquatiq_root.Common.Assoc.{lookup}
use aquatiq_root.Config.Defaults.{Value, set_defaults}

pub record ServerConfig : Type 0 where
  pub host : Text
  pub port : ℤ
  pub grpc_port : ℤ
  pub read_timeout : ℤ
  pub write_timeout : ℤ
  pub shutdown_timeout : ℤ
  pub api_key : Text

pub record GrpcTlsConfig : Type 0 where
  pub enabled : Bool
  pub cert_file : Text
  pub key_file : Text
  pub ca_file : Text

pub record GrpcConfig : Type 0 where
  pub host : Text
  pub port : ℤ
  pub tls : GrpcTlsConfig

pub record TlsConfig : Type 0 where
  pub enabled : Bool
  pub insecure_skip_verify : Bool
  pub min_version : ℕ

pub record RedisConfig : Type 0 where
  pub enabled : Bool
  pub host : Text
  pub port : ℤ
  pub password : Text
  pub db : ℤ
  pub tls : TlsConfig
  pub pool_size : ℤ
  pub timeout : ℤ

pub record RateLimitConfig : Type 0 where
  pub global_rps : ℤ
  pub admin_rps : ℤ
  pub burst_size : ℤ
  pub distributed : Bool

pub record CircuitBreakerConfig : Type 0 where
  pub max_requests : ℕ
  pub interval : ℤ
  pub timeout : ℤ
  pub failure_threshold : ℕ

pub record DockerConfig : Type 0 where
  pub host : Text
  pub version : Text
  pub timeout : ℤ

pub record AuthConfig : Type 0 where
  pub token_refresh_interval : ℤ
  pub token_encryption_key : Text

pub record SuperOfficeConfig : Type 0 where
  pub base_url : Text
  pub client_id : Text
  pub client_secret : Text
  pub tenant_id : Text
  pub timeout : ℤ
  pub retry_max : ℤ

pub record VismaConfig : Type 0 where
  pub base_url : Text
  pub client_id : Text
  pub client_secret : Text
  pub company_id : Text
  pub timeout : ℤ
  pub retry_max : ℤ

pub record IntegrationsConfig : Type 0 where
  pub super_office : SuperOfficeConfig
  pub visma : VismaConfig

pub record LoggingConfig : Type 0 where
  pub level : Text
  pub format : Text
  pub output_path : Text

pub record WhitelistConfig : Type 0 where
  pub traefik_config_path : Text

pub record DatabaseConfig : Type 0 where
  pub postgres_url : Text

pub record Config : Type 0 where
  pub server : ServerConfig
  pub grpc : GrpcConfig
  pub redis : RedisConfig
  pub rate_limit : RateLimitConfig
  pub circuit_breaker : CircuitBreakerConfig
  pub docker : DockerConfig
  pub auth : AuthConfig
  pub integrations : IntegrationsConfig
  pub logging : LoggingConfig
  pub whitelist : WhitelistConfig
  pub database : DatabaseConfig

-- The messages of validate.
pub data Invalid : Type 0 where
  invalid_server_port : ℤ → Invalid
  api_key_required redis_host_required global_rps_not_positive docker_host_required : Invalid

-- validate
unfoldable pub validate : Config → Option Invalid
validate cfg =
    if ltb_ℤ cfg.server.port (pos 1) || ltb_ℤ (pos 65535) cfg.server.port
    then some (invalid_server_port cfg.server.port)
    else if is_empty cfg.server.api_key
    then some api_key_required
    else if is_empty cfg.redis.host
    then some redis_host_required
    else if ltb_ℤ cfg.rate_limit.global_rps (pos 1)
    then some global_rps_not_positive
    else if is_empty cfg.docker.host
    then some docker_host_required
    else none

-- GetRedisAddr and GetServerAddr
unfoldable pub get_redis_addr : RedisConfig → Text
get_redis_addr c = c.host ++ (lit ":" ++ decimal_ℤ c.port)

unfoldable pub get_server_addr : ServerConfig → Text
get_server_addr c = c.host ++ (lit ":" ++ decimal_ℤ c.port)

pub data ReadError : Type 0 where
  config_file_not_found : ReadError
  unreadable : Text → ReadError

pub data Unmarshalled : Type 0 where
  bad : Text → Unmarshalled
  good : Config → Unmarshalled

-- What Load uses of viper: reading the file, which may fail; what the file and the environment set
-- for a key; and what Unmarshal makes of the settings, a configuration or an error.
pub record Viper : Type 0 where
  pub read_in_config : Option ReadError
  pub overridden : Text → Option Value
  pub unmarshal : (Text → Option Value) → Unmarshalled

-- What is set for a key: the file and the environment come before the defaults.
abbrev pub settings : Viper → Text → Option Value
settings viper key = elim (viper.overridden key) [
  | some v ↦ some v
  | none ↦ lookup key set_defaults
]

pub data Loaded : Type 0 where
  loaded : Config → Loaded
  failed_to_read failed_to_unmarshal : Text → Loaded
  invalid_configuration : Invalid → Loaded

abbrev pub checked : Config → Option Invalid → Loaded
checked cfg none = loaded cfg
checked cfg (some e) = invalid_configuration e

abbrev pub unmarshalled : Unmarshalled → Loaded
unmarshalled (bad e) = failed_to_unmarshal e
unmarshalled (good cfg) = checked cfg (validate cfg)

-- Load
unfoldable pub load : Viper → Loaded
load viper = elim viper.read_in_config [
  | some (unreadable e) ↦ failed_to_read e
  | some config_file_not_found ↦ unmarshalled (viper.unmarshal (settings viper))
  | none ↦ unmarshalled (viper.unmarshal (settings viper))
]
