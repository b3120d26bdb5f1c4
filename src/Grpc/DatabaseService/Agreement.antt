-- ===== src/Grpc/DatabaseService/Agreement.antt =====
-- The database service against the health service, on the same checker.
use aquatiq_root.Common.{ℕ, Text, lit, text_eq, ◌≡◌, refl, false, Option, none, some, arith}
use aquatiq_root.Health.{
  Postgres, RedisAnswers, DatabaseChecker, check_postgresql, check_redis, with_stats, with_size,
}
use aquatiq_root.Grpc.HealthService.{
  convert_health_status, health_check_postgresql, health_check_redis,
}
use aquatiq_root.Grpc.DatabaseService.{
  convert_to_database_status, database_check_postgresql, database_check_redis,
}

conversions_agree :
    (s : Text)
    → text_eq s (lit "unavailable") ≡ false
    → convert_to_database_status s ≡ convert_health_status s
unfolding convert_to_database_status convert_health_status
conversions_agree s h = ground (arith, h)

check_postgresql-status :
    (elapsed : ℕ) (p : Postgres)
    → text_eq (check_postgresql elapsed p).status (lit "unavailable") ≡ false
unfolding check_postgresql with_stats with_size text_eq lit
check_postgresql-status elapsed p = ground arith

check_redis-status :
    (elapsed : ℕ) (r : Option RedisAnswers)
    → text_eq (check_redis elapsed r).status (lit "unavailable") ≡ false
unfolding check_redis text_eq lit
check_redis-status elapsed none = refl
check_redis-status elapsed (some r) = ground arith

-- The database service answers on PostgreSQL and on Redis what the health service answers, with the
-- time of the check added.
services_agree :
    (elapsed now : ℕ) (d : DatabaseChecker)
    → (database_check_postgresql elapsed now d
        ≡ record (health_check_postgresql elapsed d) { checked_at = some now })
      × (database_check_redis elapsed now d
          ≡ record (health_check_redis elapsed d) { checked_at = some now })
unfolding database_check_postgresql database_check_redis health_check_postgresql health_check_redis
services_agree elapsed now d = (
  rw
      (conversions_agree (check_postgresql elapsed d.postgres).status
        (check_postgresql-status elapsed d.postgres))
      refl,
  rw (conversions_agree (check_redis elapsed d.redis).status (check_redis-status elapsed d.redis))
      refl,
)
