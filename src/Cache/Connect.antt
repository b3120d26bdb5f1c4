-- ===== src/Cache/Connect.antt =====
-- NewRedisCache of internal/cache/redis.go: the options of the client, and the ping that tests it.
use aquatiq_root.Common.{ℕ, Text, Bool, Option, none, some, if◌then◌else◌}
use aquatiq_root.Common.Int.{ℤ}
use aquatiq_root.Redis.{Client, ok, err}
use aquatiq_root.Config.{RedisConfig, get_redis_addr}

-- tls.Config, as far as it is set.
pub record TlsOptions : Type 0 where
  pub min_version : ℕ
  pub insecure_skip_verify : Bool

-- redis.Options, as far as they are set.
pub record Options : Type 0 where
  pub addr : Text
  pub password : Text
  pub db : ℤ
  pub pool_size : ℤ
  pub dial_timeout : ℤ
  pub read_timeout : ℤ
  pub write_timeout : ℤ
  pub tls_config : Option TlsOptions

unfoldable pub options_of : RedisConfig → Options
options_of cfg = record {
  addr = get_redis_addr cfg;
  password = cfg.password;
  db = cfg.db;
  pool_size = cfg.pool_size;
  dial_timeout = cfg.timeout;
  read_timeout = cfg.timeout;
  write_timeout = cfg.timeout;
  tls_config =
      if cfg.tls.enabled
      then some (record {
        min_version = cfg.tls.min_version;
        insecure_skip_verify = cfg.tls.insecure_skip_verify;
      })
      else none;
}

-- NewRedisCache, where `new_client` is redis.NewClient: the server, unless the ping fails.
unfoldable pub new_redis_cache :
    (redis : Client) → (Options → redis.Server) → RedisConfig → Option redis.Server
new_redis_cache redis new_client cfg =
    let (reply, server) = redis.ping (new_client (options_of cfg)) in
    elim reply [ ok _ ↦ some server | err _ ↦ none ]
