-- ===== src/Health/Tests.antt =====
-- Checks of databases that answer in fixed ways, and the theorems on health there.
use aquatiq_root.Common.{lit, text_eq, ◌≡◌, refl, Option, none, some}
use aquatiq_root.Common.Int.{pos}
use aquatiq_root.Health.{
  scanned, scan_error, Postgres, RedisAnswers, HealthChecker, Times, with_size, with_stats,
  check_postgresql, check_redis, check_all, overall, check,
}

abbrev up : Postgres
up = record {
  open_error = none;
  ping_error = none;
  version = scanned (lit "16");
  stats = scanned (pos 7, pos 100);
  size = scan_error (lit "denied");
}

abbrev checker : Option RedisAnswers → HealthChecker
checker redis = record {
  db_checker = record { postgres = up; redis = redis };
  start_time = 5;
  version = lit "1.0.0";
}

abbrev times : Times
times = record { stamped = 9; asked = 10; pg_elapsed = 2; redis_elapsed = 1 }

abbrev silent : RedisAnswers
silent = record { ping_error = some (lit "refused"); total_conns = 0; idle_conns = 0 }

degraded : (check times (checker (some silent))).status ≡ lit "degraded"
unfolding check check_all overall check_postgresql check_redis with_stats with_size text_eq lit
degraded = refl

-- More idle connections than connections: the difference wraps around.
wraps :
    (check_redis 0
      (some (record { ping_error = none; total_conns = 1; idle_conns = 2 }))).connected_clients
    ≡ 4294967295
unfolding check_redis
wraps = refl
