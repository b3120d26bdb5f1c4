-- ===== src/Gateway/Startup.antt =====
-- The start of cmd/gateway/main.go, up to the servers, and the configuration that it falls back on.
use aquatiq_root.Common.{
  Text, lit, ◌++◌, Bool, true, false, ◌&&◌, Option, none, some, List, [], ◌∷◌, if◌then◌else◌,
}
use aquatiq_root.Common.Int.{pos, decimal_ℤ}
use aquatiq_root.Audit.{Logger}
use aquatiq_root.Config as Config
use aquatiq_root.Config.{
  Loaded, loaded, failed_to_read, failed_to_unmarshal, invalid_configuration, get_server_addr,
}
use aquatiq_root.Redis.{Client}
use aquatiq_root.Cache.Connect.{Options, new_redis_cache}
use aquatiq_root.RateLimit.Bucket.{Rate}
use aquatiq_root.RateLimit.Limiter as Limiter

-- getDefaultConfig: what it does not set is zero.
unfoldable pub get_default_config : Config.Config
get_default_config = record {
  server = record {
    host = lit "0.0.0.0";
    port = pos 7500;
    grpc_port = pos 0;
    read_timeout = pos 30000000000;
    write_timeout = pos 30000000000;
    shutdown_timeout = pos 30000000000;
    api_key = lit "test-api-key";
  };
  grpc = record {
    host = [];
    port = pos 0;
    tls = record { enabled = false; cert_file = []; key_file = []; ca_file = [] };
  };
  redis = record {
    enabled = false;
    host = [];
    port = pos 0;
    password = [];
    db = pos 0;
    tls = record { enabled = false; insecure_skip_verify = false; min_version = 0 };
    pool_size = pos 0;
    timeout = pos 0;
  };
  rate_limit = record {
    global_rps = pos 0;
    admin_rps = pos 0;
    burst_size = pos 0;
    distributed = false;
  };
  circuit_breaker = record {
    max_requests = 0;
    interval = pos 0;
    timeout = pos 0;
    failure_threshold = 0;
  };
  docker = record { host = []; version = []; timeout = pos 0 };
  auth = record { token_refresh_interval = pos 0; token_encryption_key = [] };
  integrations = record {
    super_office = record {
      base_url = [];
      client_id = [];
      client_secret = [];
      tenant_id = [];
      timeout = pos 0;
      retry_max = pos 0;
    };
    visma = record {
      base_url = [];
      client_id = [];
      client_secret = [];
      company_id = [];
      timeout = pos 0;
      retry_max = pos 0;
    };
  };
  logging = record { level = []; format = []; output_path = [] };
  whitelist = record { traefik_config_path = [] };
  database = record { postgres_url = [] };
}

-- The configuration that main goes on with.
unfoldable pub configured : Loaded → Config.Config
configured (loaded cfg) = cfg
configured (failed_to_read e) = get_default_config
configured (failed_to_unmarshal e) = get_default_config
configured (invalid_configuration e) = get_default_config

abbrev pub is_set : {A : Type 0} → Option A → Bool
is_set none = false
is_set (some a) = true

-- The configuration of the rate limiter.
unfoldable pub limiter_config : {A : Type 0} → Config.Config → Option A → Limiter.Config
limiter_config cfg cache = record {
  global_rps = cfg.rate_limit.global_rps;
  admin_rps = cfg.rate_limit.admin_rps;
  burst_size = cfg.rate_limit.burst_size;
  distributed = cfg.rate_limit.distributed && is_set cache;
}

-- The addresses on which the two servers listen.
unfoldable pub rest_addr : Config.Config → Text
rest_addr cfg = get_server_addr cfg.server

unfoldable pub grpc_addr : Config.Config → Text
grpc_addr cfg = cfg.server.host ++ (lit ":" ++ decimal_ℤ cfg.server.grpc_port)

-- The gRPC services, in the order of their registration: those of Docker and of the whitelist only where their
-- managers were created.
unfoldable pub registered : Bool → Bool → List Text
registered docker whitelist =
    lit "health" ∷ (if docker then lit "docker" ∷ [] else [])
    ++ ((if whitelist then lit "whitelist" ∷ [] else []) ++ (lit "database" ∷ []))

module _ (rate : Rate) (redis : Client) (new_client : Options → redis.Server) where
  -- The Redis cache of main: none where it is disabled or does not answer.
  unfoldable pub connect : Config.Config → Option redis.Server
  connect cfg = if cfg.redis.enabled then new_redis_cache redis new_client cfg.redis else none

  -- The limiter of main.
  unfoldable pub start_limiter : Loaded → Logger → Limiter.Limiter rate redis
  start_limiter result audit =
      let cfg = configured result in
      let cache = connect cfg in Limiter.new rate redis (limiter_config cfg cache) cache audit
