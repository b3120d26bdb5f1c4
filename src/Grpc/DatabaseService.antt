-- ===== src/Grpc/DatabaseService.antt =====
-- internal/grpc/database_service.go: the checks of the health service with other fields, and fixed answers.
pub mod Agreement
mod Tests
use aquatiq_root.Common.{ℕ, Text, lit, text_eq, some, if◌then◌else◌}
use aquatiq_root.Common.Int.{ℤ, pos}
use aquatiq_root.Common.Words.{to_int32, to_int64}
use aquatiq_root.Health.{DatabaseChecker, check_postgresql, check_redis}
use aquatiq_root.Grpc.HealthService.{
  Status, unspecified, healthy, degraded, unhealthy, unavailable, milliseconds, PostgresqlResponse,
  RedisResponse,
}

-- convertToDatabaseStatus
unfoldable pub convert_to_database_status : Text → Status
convert_to_database_status s =
    if text_eq s (lit "healthy")
    then healthy
    else if text_eq s (lit "degraded")
    then degraded
    else if text_eq s (lit "unhealthy")
    then unhealthy
    else if text_eq s (lit "unavailable")
    then unavailable
    else unspecified

-- parseDatabaseSize
abbrev pub parse_database_size : Text → ℕ
parse_database_size size = 0

-- CheckPostgreSQL of the database service.
unfoldable pub database_check_postgresql : ℕ → ℕ → DatabaseChecker → PostgresqlResponse
database_check_postgresql elapsed now d =
    let pg = check_postgresql elapsed d.postgres in
    record {
      status = convert_to_database_status pg.status;
      version = pg.version;
      active_connections = to_int32 pg.connections;
      max_connections = to_int32 pg.max_connections;
      database_size_bytes = parse_database_size pg.database_size;
      response_time_ms = milliseconds pg.response_time;
      checked_at = some now;
      error = pg.error;
    }

-- CheckRedis of the database service.
unfoldable pub database_check_redis : ℕ → ℕ → DatabaseChecker → RedisResponse
database_check_redis elapsed now d =
    let redis = check_redis elapsed d.redis in
    record {
      status = convert_to_database_status redis.status;
      version = redis.version;
      connected_clients = to_int32 (pos redis.connected_clients);
      used_memory_bytes = to_int64 redis.used_memory;
      max_memory_bytes = pos 0;
      response_time_ms = milliseconds redis.response_time;
      checked_at = some now;
      error = redis.error;
    }

-- GetPostgreSQLStats; the ratio is a float64 that is always 0.
pub record PostgresqlStats : Type 0 where
  pub version : Text
  pub total_connections : ℤ
  pub active_connections : ℤ
  pub idle_connections : ℤ
  pub max_connections : ℤ
  pub database_size_bytes : ℕ
  pub table_count : ℤ
  pub index_count : ℤ
  pub cache_hit_ratio : ℕ

unfoldable pub get_postgresql_stats : ℕ → DatabaseChecker → PostgresqlStats
get_postgresql_stats elapsed d =
    let pg = check_postgresql elapsed d.postgres in
    record {
      version = pg.version;
      total_connections = to_int32 pg.connections;
      active_connections = to_int32 pg.connections;
      idle_connections = pos 0;
      max_connections = to_int32 pg.max_connections;
      database_size_bytes = parse_database_size pg.database_size;
      table_count = pos 0;
      index_count = pos 0;
      cache_hit_ratio = 0;
    }

-- GetRedisStats
pub record RedisStats : Type 0 where
  pub version : Text
  pub mode : Text
  pub connected_clients : ℤ
  pub blocked_clients : ℤ
  pub used_memory_bytes : ℤ

unfoldable pub get_redis_stats : ℕ → DatabaseChecker → RedisStats
get_redis_stats elapsed d =
    let redis = check_redis elapsed d.redis in
    record {
      version = redis.version;
      mode = lit "standalone";
      connected_clients = to_int32 (pos redis.connected_clients);
      blocked_clients = pos 0;
      used_memory_bytes = to_int64 redis.used_memory;
    }

-- GetConnectionPoolStats
pub record PoolStats : Type 0 where
  pub pool_name : Text
  pub total_connections : ℤ
  pub idle_connections : ℤ
  pub active_connections : ℤ
  pub max_connections : ℤ

unfoldable pub get_connection_pool_stats : Text → PoolStats
get_connection_pool_stats name = record {
  pool_name = name;
  total_connections = pos 0;
  idle_connections = pos 0;
  active_connections = pos 0;
  max_connections = pos 0;
}
