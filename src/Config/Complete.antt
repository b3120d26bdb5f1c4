-- ===== src/Config/Complete.antt =====
-- The defaults of internal/config/config.go against its validation.
use aquatiq_root.Common.{Text, lit, text_eq, ◌≡◌, refl, ◌∙◌, Option, none, some, arith}
use aquatiq_root.Common.Int.{ℤ, pos}
use aquatiq_root.Common.Assoc.{lookup}
use aquatiq_root.Config.Defaults.{Value, text, number, set_defaults}
use aquatiq_root.Config.{Config, Viper, settings, good, loaded, load}
use aquatiq_root.Config.Validation.{IsReadable, IsValid, load_iff}

-- What viper's Unmarshal does with the settings that validation looks at: a number or a text is
-- read into its field.
pub record IsDecoded (get : Text → Option Value) (cfg : Config) : Type 0 where
  pub port : (n : ℤ) → get (lit "server.port") ≡ some (number n) → cfg.server.port ≡ n
  pub api_key : (s : Text) → get (lit "server.apikey") ≡ some (text s) → cfg.server.api_key ≡ s
  pub redis_host : (s : Text) → get (lit "redis.host") ≡ some (text s) → cfg.redis.host ≡ s
  pub global_rps :
      (n : ℤ) → get (lit "ratelimit.globalrps") ≡ some (number n) → cfg.rate_limit.global_rps ≡ n
  pub docker_host : (s : Text) → get (lit "docker.host") ≡ some (text s) → cfg.docker.host ≡ s

-- Neither the file nor the environment sets what validation looks at.
pub record IsUnset (viper : Viper) : Type 0 where
  pub port : viper.overridden (lit "server.port") ≡ none
  pub api_key : viper.overridden (lit "server.apikey") ≡ none
  pub redis_host : viper.overridden (lit "redis.host") ≡ none
  pub global_rps : viper.overridden (lit "ratelimit.globalrps") ≡ none
  pub docker_host : viper.overridden (lit "docker.host") ≡ none

settings-default :
    (viper : Viper) (key : Text)
    → viper.overridden key ≡ none
    → settings viper key ≡ lookup key set_defaults
settings-default viper key h = ground (arith, h)

default_port : lookup (lit "server.port") set_defaults ≡ some (number (pos 5001))
unfolding lookup set_defaults text_eq lit
default_port = refl

default_api_key :
    lookup (lit "server.apikey") set_defaults ≡ some (text (lit "dev-api-key-change-in-production"))
unfolding lookup set_defaults text_eq lit
default_api_key = refl

default_redis_host : lookup (lit "redis.host") set_defaults ≡ some (text (lit "aquatiq-redis"))
unfolding lookup set_defaults text_eq lit
default_redis_host = refl

default_global_rps : lookup (lit "ratelimit.globalrps") set_defaults ≡ some (number (pos 100))
unfolding lookup set_defaults text_eq lit
default_global_rps = refl

default_docker_host :
    lookup (lit "docker.host") set_defaults ≡ some (text (lit "tcp://docker-socket-proxy:2375"))
unfolding lookup set_defaults text_eq lit
default_docker_host = refl

defaults-IsValid :
    (viper : Viper) (cfg : Config) → IsUnset viper → IsDecoded (settings viper) cfg → IsValid cfg
unfolding lit
defaults-IsValid viper cfg unset decoded =
    let key = decoded.api_key _ (settings-default viper _ unset.api_key ∙ default_api_key) in
    let redis =
      decoded.redis_host _ (settings-default viper _ unset.redis_host ∙ default_redis_host) in
    let docker =
      decoded.docker_host _ (settings-default viper _ unset.docker_host ∙ default_docker_host) in
    record {
      port = 5001;
      is_port = (
        decoded.port _ (settings-default viper _ unset.port ∙ default_port),
        omega arith,
        omega arith,
      );
      rps = 100;
      is_rps = (
        decoded.global_rps _ (settings-default viper _ unset.global_rps ∙ default_global_rps),
        omega arith,
      );
      has_api_key = λ e. ground (arith, key, e);
      has_redis_host = λ e. ground (arith, redis, e);
      has_docker_host = λ e. ground (arith, docker, e);
    }

-- The defaults are complete: where the file could be read or there is none, and neither it nor the
-- environment sets the port, the API key, the hosts of Redis and Docker or the global rate, Load
-- returns whatever configuration viper unmarshals, and so rejects none. Viper is taken to read
-- these five settings into their fields.
pub load_defaults :
    (viper : Viper) (cfg : Config)
    → IsReadable viper.read_in_config
    → IsUnset viper
    → viper.unmarshal (settings viper) ≡ good cfg
    → IsDecoded (settings viper) cfg
    → load viper ≡ loaded cfg
load_defaults viper cfg readable unset unmarshalled decoded =
    (load_iff viper cfg).1 (readable, unmarshalled, defaults-IsValid viper cfg unset decoded)
