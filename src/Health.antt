-- ===== src/Health.antt =====
-- internal/health/checker.go: the checks of PostgreSQL and Redis, and the health of the service.
use aquatiq_root.Common.{
  ℕ, ◌+◌, ◌-◌, ◌%◌, ◌^◌, Text, lit, text_eq, Bool, true, false, not, ◌&&◌, Option, none, some, List,
  [], ◌++◌, if◌then◌else◌,
}
use aquatiq_root.Common.Int.{ℤ, pos}
pub mod Status
mod Tests

-- The answer of a query that is scanned.
pub data Scan (A : Type 0) : Type 0 where
  scanned : A → Scan A
  scan_error : Text → Scan A

-- What lib/pq answers during one check: the error of `sql.Open`, that of the ping, and the three queries.
pub record Postgres : Type 0 where
  pub open_error : Option Text
  pub ping_error : Option Text
  pub version : Scan Text
  pub stats : Scan (ℤ × ℤ)
  pub size : Scan Text

-- What the Redis cache answers during one check; the connections are 32-bit numbers.
pub record RedisAnswers : Type 0 where
  pub ping_error : Option Text
  pub total_conns : ℕ
  pub idle_conns : ℕ

-- Both, where the cache may be nil.
pub record DatabaseChecker : Type 0 where
  pub postgres : Postgres
  pub redis : Option RedisAnswers

pub record PostgresqlHealth : Type 0 where
  pub status : Text
  pub version : Text
  pub connections : ℤ
  pub max_connections : ℤ
  pub database_size : Text
  pub response_time : ℕ
  pub error : Text

pub record RedisHealth : Type 0 where
  pub status : Text
  pub version : Text
  pub connected_clients : ℕ
  pub used_memory : ℕ
  pub response_time : ℕ
  pub error : Text

abbrev unhealthy_postgresql : ℕ → PostgresqlHealth
unhealthy_postgresql elapsed = record {
  status = lit "unhealthy";
  version = [];
  connections = pos 0;
  max_connections = pos 0;
  database_size = [];
  response_time = elapsed;
  error = [];
}

-- CheckPostgreSQL after the statistics: the size is left out on an error.
unfoldable pub with_size : Scan Text → PostgresqlHealth → PostgresqlHealth
with_size (scanned size) health = record health { database_size = size; status = lit "healthy" }
with_size (scan_error e) health = record health { status = lit "healthy" }

-- CheckPostgreSQL after the version.
unfoldable pub with_stats : Postgres → PostgresqlHealth → PostgresqlHealth
with_stats p health = elim p.stats [
  | scan_error e ↦ record health { error = lit "failed to get connection stats: " ++ e }
  | scanned (used, most) ↦
      with_size p.size (record health { connections = used; max_connections = most })
]

-- CheckPostgreSQL, which takes `elapsed`.
unfoldable pub check_postgresql : ℕ → Postgres → PostgresqlHealth
check_postgresql elapsed p = elim p.open_error [
  | some e ↦ record (unhealthy_postgresql elapsed) {
    error = lit "failed to open connection: " ++ e;
  }
  | none ↦ elim p.ping_error [
    | some e ↦ record (unhealthy_postgresql elapsed) { error = lit "ping failed: " ++ e }
    | none ↦ elim p.version [
      | scan_error e ↦ record (unhealthy_postgresql elapsed) {
        error = lit "failed to get version: " ++ e;
      }
      | scanned version ↦ with_stats p (record (unhealthy_postgresql elapsed) { version = version })
    ]
  ]
]

abbrev unhealthy_redis : ℕ → RedisHealth
unhealthy_redis elapsed = record {
  status = lit "unhealthy";
  version = [];
  connected_clients = 0;
  used_memory = 0;
  response_time = elapsed;
  error = [];
}

-- `int(stats.TotalConns - stats.IdleConns)`, a difference of 32 bits.
abbrev pub busy_conns : RedisAnswers → ℕ
busy_conns r = (r.total_conns + 2 ^ 32 - r.idle_conns) % 2 ^ 32

abbrev pub not_configured : Text
not_configured = lit "Redis not configured"

-- CheckRedis
unfoldable pub check_redis : ℕ → Option RedisAnswers → RedisHealth
check_redis elapsed none = record (unhealthy_redis elapsed) { error = not_configured }
check_redis elapsed (some r) = elim r.ping_error [
  | some e ↦ record (unhealthy_redis elapsed) { error = lit "ping failed: " ++ e }
  | none ↦ record (unhealthy_redis elapsed) {
    connected_clients = busy_conns r;
    status = lit "healthy";
  }
]

-- CheckAll
pub record DatabaseHealth : Type 0 where
  pub postgres : PostgresqlHealth
  pub redis : RedisHealth

unfoldable pub check_all : ℕ → ℕ → DatabaseChecker → DatabaseHealth
check_all pg_elapsed redis_elapsed d = record {
  postgres = check_postgresql pg_elapsed d.postgres;
  redis = check_redis redis_elapsed d.redis;
}

pub record ServiceHealth : Type 0 where
  pub status : Text
  pub timestamp : ℕ
  pub version : Text
  pub uptime : ℕ
  pub database : DatabaseHealth

pub record HealthChecker : Type 0 where
  pub db_checker : DatabaseChecker
  pub start_time : ℕ
  pub version : Text

-- NewHealthChecker, at a time.
unfoldable pub new_health_checker : ℕ → DatabaseChecker → Text → HealthChecker
new_health_checker now db_checker version = record {
  db_checker = db_checker;
  start_time = now;
  version = version;
}

-- When Check reads the clock, and how long its two checks take.
pub record Times : Type 0 where
  pub stamped : ℕ
  pub asked : ℕ
  pub pg_elapsed : ℕ
  pub redis_elapsed : ℕ

abbrev pub is_healthy : Text → Bool
is_healthy status = text_eq status (lit "healthy")

-- The status of Check.
unfoldable pub overall : DatabaseHealth → Text
overall d =
    let status = if not (is_healthy d.postgres.status) then lit "degraded" else lit "healthy" in
    if not (is_healthy d.redis.status) && not (text_eq d.redis.error not_configured)
    then lit "degraded"
    else status

-- Check
unfoldable pub check : Times → HealthChecker → ServiceHealth
check t h =
    let database = check_all t.pg_elapsed t.redis_elapsed h.db_checker in
    record {
      status = overall database;
      timestamp = t.stamped;
      version = h.version;
      uptime = t.asked - h.start_time;
      database = database;
    }

-- Readiness
unfoldable pub readiness : ℕ → HealthChecker → Bool
readiness elapsed h = is_healthy (check_postgresql elapsed h.db_checker.postgres).status

-- Liveness
unfoldable pub liveness : HealthChecker → Bool
liveness h = true
