-- ===== src/Health/Status.antt =====
-- When the service of internal/health/checker.go is healthy and ready.
use aquatiq_root.Common.{
  ℕ, ◌≤◌, Text, lit, text_eq, ◌≡◌, ◌↔◌, ◌⊎◌, refl, Bool, true, false, not, ◌&&◌, Option, none, some,
  if◌then◌else◌, arith,
}
use aquatiq_root.Common.Int.{ℤ}
use aquatiq_root.Health.{
  Scan, scanned, scan_error, Postgres, RedisAnswers, with_size, with_stats, check_postgresql,
  check_redis, check_all, HealthChecker, Times, is_healthy, not_configured, overall, check,
  readiness,
}

-- PostgreSQL can be reached, and tells its version and its connections.
pub record IsUp (p : Postgres) : Type 0 where
  pub opens : p.open_error ≡ none
  pub answers : p.ping_error ≡ none
  pub version : Text
  pub has_version : p.version ≡ scanned version
  pub stats : ℤ × ℤ
  pub has_stats : p.stats ≡ scanned stats

-- There is no Redis, or it answers the ping.
abbrev pub IsFine : Option RedisAnswers → Type 0
IsFine none = Unit
IsFine (some r) = r.ping_error ≡ none

IsUp-check_postgresql :
    (elapsed : ℕ) (p : Postgres) → IsUp p → is_healthy (check_postgresql elapsed p).status ≡ true
unfolding check_postgresql with_stats with_size text_eq lit
IsUp-check_postgresql elapsed p up =
    ground (arith, up.opens, up.answers, up.has_version, up.has_stats)

check_postgresql-IsUp :
    (elapsed : ℕ) (p : Postgres) (o i : Option Text) (v : Scan Text) (s : Scan (ℤ × ℤ))
    → p.open_error ≡ o
    → p.ping_error ≡ i
    → p.version ≡ v
    → p.stats ≡ s
    → is_healthy (check_postgresql elapsed p).status ≡ true
    → IsUp p
unfolding check_postgresql with_stats text_eq lit
check_postgresql-IsUp elapsed p none none (scanned v) (scanned s) a b c d h = record {
  opens = a;
  answers = b;
  version = v;
  has_version = c;
  stats = s;
  has_stats = d;
}
check_postgresql-IsUp elapsed p (some e) i v s a b c d h =
    let no : 1 ≤ 0 = ground (arith, a, h) in elim no [ ]
check_postgresql-IsUp elapsed p none (some e) v s a b c d h =
    let no : 1 ≤ 0 = ground (arith, a, b, h) in elim no [ ]
check_postgresql-IsUp elapsed p none none (scan_error e) s a b c d h =
    let no : 1 ≤ 0 = ground (arith, a, b, c, h) in elim no [ ]
check_postgresql-IsUp elapsed p none none (scanned v) (scan_error e) a b c d h =
    let no : 1 ≤ 0 = ground (arith, a, b, c, d, h) in elim no [ ]

-- The gateway is ready exactly if PostgreSQL is up, whatever Redis and the size query answer.
pub readiness_iff :
    (elapsed : ℕ) (h : HealthChecker) → (readiness elapsed h ≡ true) ↔ IsUp h.db_checker.postgres
unfolding readiness
readiness_iff elapsed h =
    let p = h.db_checker.postgres in
    (
      check_postgresql-IsUp elapsed p p.open_error p.ping_error p.version p.stats refl refl refl
          refl,
      IsUp-check_postgresql elapsed p,
    )

check_redis-IsFine :
    (elapsed : ℕ) (r : Option RedisAnswers)
    → (not (is_healthy (check_redis elapsed r).status)
          && not (text_eq (check_redis elapsed r).error not_configured)
        ≡ false)
      ↔ IsFine r
unfolding check_redis text_eq lit
check_redis-IsFine elapsed none = (λ _. tt, λ _. refl)
check_redis-IsFine elapsed (some r) = (λ h. ground (arith, h), λ h. ground (arith, h))

verdict :
    (up bad : Bool)
    → (((if bad then lit "degraded" else (if not up then lit "degraded" else lit "healthy"))
          ≡ lit "healthy")
        ↔ ((up ≡ true) × (bad ≡ false)))
unfolding lit
verdict true true = ((λ h. cc h), λ h. cc h.1)
verdict true false = ((λ _. (refl, refl)), λ _. refl)
verdict false true = ((λ h. cc h), λ h. cc h.0)
verdict false false = ((λ h. cc h), λ h. cc h.0)

-- Check reports a healthy service exactly if PostgreSQL is up and Redis answers or is not configured, and a
-- degraded one otherwise.
pub check_iff :
    (t : Times) (h : HealthChecker)
    → (((check t h).status ≡ lit "healthy")
        ↔ (IsUp h.db_checker.postgres × IsFine h.db_checker.redis))
      × (((check t h).status ≡ lit "healthy") ⊎ ((check t h).status ≡ lit "degraded"))
unfolding check overall check_all
check_iff t h =
    let r = check_redis t.redis_elapsed h.db_checker.redis in
    let up = is_healthy (check_postgresql t.pg_elapsed h.db_checker.postgres).status in
    let bad = not (is_healthy r.status) && not (text_eq r.error not_configured) in
    let (there, back) = verdict up bad in
    let (fine, fine') = check_redis-IsFine t.redis_elapsed h.db_checker.redis in
    let (ready, ready') = readiness_iff t.pg_elapsed h in
    (
      (
        λ e. let (u, b) = there e in (unfold readiness in ready u, fine b),
        λ p. back (unfold readiness in ready' p.0, fine' p.1),
      ),
      ground arith,
    )
