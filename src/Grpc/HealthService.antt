-- ===== src/Grpc/HealthService.antt =====
-- internal/grpc/health_service.go: each method converts what the checkers of internal/health answer.
use aquatiq_root.Common.{
  ℕ, ◌/◌, Text, lit, text_eq, Bool, true, false, not, Option, none, some, List, [], ◌∷◌,
  if◌then◌else◌,
}
use aquatiq_root.Common.Int.{ℤ, pos}
use aquatiq_root.Common.Words.{to_int32, to_int64}
use aquatiq_root.Health.{
  PostgresqlHealth, RedisHealth, DatabaseChecker, HealthChecker, Times, check_postgresql,
  check_redis, check, readiness,
}
pub mod Agreement
mod Tests

-- The enumerations of the health and of the database protocol; `unavailable` is one of the second.
pub data Status : Type 0 where
  unspecified healthy degraded unhealthy unavailable : Status

-- convertHealthStatus
unfoldable pub convert_health_status : Text → Status
convert_health_status s =
    if text_eq s (lit "healthy")
    then healthy
    else if text_eq s (lit "degraded")
    then degraded
    else if text_eq s (lit "unhealthy")
    then unhealthy
    else unspecified

-- `d.Milliseconds()` and `int64(d.Seconds())` of a duration in nanoseconds.
abbrev pub milliseconds : ℕ → ℕ
milliseconds d = d / 1000000

abbrev pub seconds : ℕ → ℕ
seconds d = d / 1000000000

pub record ProtoDatabase : Type 0 where
  pub status : Status
  pub name : Text
  pub response_time_ms : ℕ
  pub error : Text

pub record HealthCheckResponse : Type 0 where
  pub status : Status
  pub message : Text
  pub timestamp : ℕ
  pub uptime_seconds : ℕ
  pub postgresql : ProtoDatabase
  pub redis : ProtoDatabase

-- Check. Both databases are in the answer of the checker, with the types that are asked for.
unfoldable pub serve_check : Times → HealthChecker → HealthCheckResponse
serve_check t h =
    let health = check t h in
    record {
      status = convert_health_status health.status;
      message = [];
      timestamp = health.timestamp;
      uptime_seconds = seconds health.uptime;
      postgresql = record {
        status = convert_health_status health.database.postgres.status;
        name = lit "postgresql";
        response_time_ms = milliseconds health.database.postgres.response_time;
        error = health.database.postgres.error;
      };
      redis = record {
        status = convert_health_status health.database.redis.status;
        name = lit "redis";
        response_time_ms = milliseconds health.database.redis.response_time;
        error = health.database.redis.error;
      };
    }

-- Liveness and Readiness, at a time.
pub record ProbeResponse : Type 0 where
  pub is_ok : Bool
  pub message : Text
  pub timestamp : ℕ

unfoldable pub serve_liveness : ℕ → ProbeResponse
serve_liveness now = record { is_ok = true; message = []; timestamp = now }

unfoldable pub serve_readiness : ℕ → ℕ → HealthChecker → ProbeResponse
serve_readiness elapsed now h =
    let ready = readiness elapsed h in
    record {
      is_ok = ready;
      message = if not ready then lit "Service not ready - database unavailable" else [];
      timestamp = now;
    }

-- The answers of both services on PostgreSQL; that of the health service has no `checked_at`.
pub record PostgresqlResponse : Type 0 where
  pub status : Status
  pub version : Text
  pub active_connections : ℤ
  pub max_connections : ℤ
  pub database_size_bytes : ℕ
  pub response_time_ms : ℕ
  pub checked_at : Option ℕ
  pub error : Text

-- CheckPostgreSQL of the health service.
unfoldable pub health_check_postgresql : ℕ → DatabaseChecker → PostgresqlResponse
health_check_postgresql elapsed d =
    let pg = check_postgresql elapsed d.postgres in
    record {
      status = convert_health_status pg.status;
      version = pg.version;
      active_connections = to_int32 pg.connections;
      max_connections = to_int32 pg.max_connections;
      database_size_bytes = 0;
      response_time_ms = milliseconds pg.response_time;
      checked_at = none;
      error = pg.error;
    }

-- The answers on Redis; that of the health service has neither `max_memory_bytes`, which is 0, nor
-- `checked_at`.
pub record RedisResponse : Type 0 where
  pub status : Status
  pub version : Text
  pub connected_clients : ℤ
  pub used_memory_bytes : ℤ
  pub max_memory_bytes : ℤ
  pub response_time_ms : ℕ
  pub checked_at : Option ℕ
  pub error : Text

-- CheckRedis of the health service.
unfoldable pub health_check_redis : ℕ → DatabaseChecker → RedisResponse
health_check_redis elapsed d =
    let redis = check_redis elapsed d.redis in
    record {
      status = convert_health_status redis.status;
      version = redis.version;
      connected_clients = to_int32 (pos redis.connected_clients);
      used_memory_bytes = to_int64 redis.used_memory;
      max_memory_bytes = pos 0;
      response_time_ms = milliseconds redis.response_time;
      checked_at = none;
      error = redis.error;
    }
