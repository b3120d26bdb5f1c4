-- ===== src/Config/Tests.antt =====
-- A configuration that is valid, and the theorems on validation there.
use aquatiq_root.Common.{lit, text_eq, ◌≡◌, refl, true, false, none, some, [], ◌∷◌}
use aquatiq_root.Common.Int.{pos, decimal_ℤ, decimal, digits_of}
use aquatiq_root.Config.{
  Config, validate, Viper, good, config_file_not_found, loaded, load, get_redis_addr,
  invalid_server_port, settings,
}
use aquatiq_root.Common.Assoc.{lookup}
use aquatiq_root.Config.Defaults.{set_defaults}
use aquatiq_root.Config.Complete.{IsDecoded, IsUnset, load_defaults}

-- The defaults of setDefaults.
abbrev default : Config
default = record {
  server = record {
    host = lit "0.0.0.0";
    port = pos 5001;
    grpc_port = pos 50051;
    read_timeout = pos 30000000000;
    write_timeout = pos 30000000000;
    shutdown_timeout = pos 30000000000;
    api_key = b'k' ∷ [];
  };
  grpc = record {
    host = lit "0.0.0.0";
    port = pos 50051;
    tls = record { enabled = false; cert_file = []; key_file = []; ca_file = [] };
  };
  redis = record {
    enabled = false;
    host = b'r' ∷ [];
    port = pos 6379;
    password = [];
    db = pos 0;
    tls = record { enabled = true; insecure_skip_verify = false; min_version = 771 };
    pool_size = pos 10;
    timeout = pos 10000000000;
  };
  rate_limit = record {
    global_rps = pos 100;
    admin_rps = pos 20;
    burst_size = pos 50;
    distributed = true;
  };
  circuit_breaker = record {
    max_requests = 100;
    interval = pos 10000000000;
    timeout = pos 30000000000;
    failure_threshold = 5;
  };
  docker = record { host = b'd' ∷ []; version = lit "1.41"; timeout = pos 30000000000 };
  auth = record { token_refresh_interval = pos 1800000000000; token_encryption_key = [] };
  integrations = record {
    super_office = record {
      base_url = [];
      client_id = [];
      client_secret = [];
      tenant_id = [];
      timeout = pos 0;
      retry_max = pos 0;
    };
    visma = record {
      base_url = [];
      client_id = [];
      client_secret = [];
      company_id = [];
      timeout = pos 0;
      retry_max = pos 0;
    };
  };
  logging = record { level = lit "info"; format = lit "json"; output_path = lit "stdout" };
  whitelist = record { traefik_config_path = lit "/app/configs/traefik-dynamic.yml" };
  database = record { postgres_url = [] };
}

redis_addr : get_redis_addr default.redis ≡ lit "r:6379"
unfolding get_redis_addr decimal_ℤ decimal digits_of lit
redis_addr = refl

bad_port :
    validate (record default { server = record default.server { port = pos 65536 } })
    ≡ some (invalid_server_port (pos 65536))
unfolding validate
bad_port = refl

abbrev no_file : Viper
no_file = record {
  read_in_config = some config_file_not_found;
  overridden = λ _. none;
  unmarshal = λ _. good default;
}

-- What viper makes of the defaults, up to settings that validation does not look at.
abbrev from_defaults : Config
from_defaults = record default {
  server = record default.server { api_key = lit "dev-api-key-change-in-production" };
  redis = record default.redis { host = lit "aquatiq-redis" };
  docker = record default.docker { host = lit "tcp://docker-socket-proxy:2375" };
}

abbrev defaults_only : Viper
defaults_only = record no_file { unmarshal = λ _. good from_defaults }

from_defaults-IsDecoded : IsDecoded (settings defaults_only) from_defaults
unfolding lookup set_defaults text_eq lit
from_defaults-IsDecoded = record {
  port = λ n e. cc e;
  api_key = λ s e. cc e;
  redis_host = λ s e. cc e;
  global_rps = λ n e. cc e;
  docker_host = λ s e. cc e;
}

nothing_set : IsUnset defaults_only
nothing_set = record {
  port = refl;
  api_key = refl;
  redis_host = refl;
  global_rps = refl;
  docker_host = refl;
}

load_defaults_example : load defaults_only ≡ loaded from_defaults
load_defaults_example =
    load_defaults defaults_only from_defaults tt nothing_set refl from_defaults-IsDecoded
