-- ===== src/Grpc/HealthService/Agreement.antt =====
-- What the health service tells about the databases.
use aquatiq_root.Common.{
  ℕ, Text, lit, text_eq, ◌≡◌, ◌↔◌, ◌⊎◌, inl, inr, refl, ap, ◌∙◌, true, arith, text_eq_iff,
}
use aquatiq_root.Health.{HealthChecker, Times, check, check_all, readiness}
use aquatiq_root.Health.Status.{IsUp, IsFine, check_iff, readiness_iff}
use aquatiq_root.Grpc.HealthService.{
  healthy, degraded, convert_health_status, serve_check, serve_readiness,
}

convert_health_status-healthy :
    (s : Text) → (convert_health_status s ≡ healthy) ↔ (s ≡ lit "healthy")
unfolding convert_health_status
convert_health_status-healthy s = ground (arith, text_eq_iff s (lit "healthy"))

convert_degraded : convert_health_status (lit "degraded") ≡ degraded
unfolding convert_health_status text_eq lit
convert_degraded = refl

-- The health service reports a healthy gateway exactly if PostgreSQL is up and Redis answers or is
-- not configured, and a degraded one otherwise; it reports a healthy PostgreSQL, and a gateway that
-- is ready, exactly if PostgreSQL is up.
pub serve_check_iff :
    (t : Times) (h : HealthChecker) (elapsed now : ℕ)
    → (((serve_check t h).status ≡ healthy)
        ↔ (IsUp h.db_checker.postgres × IsFine h.db_checker.redis))
      × (((serve_check t h).status ≡ healthy) ⊎ ((serve_check t h).status ≡ degraded))
      × (((serve_check t h).postgresql.status ≡ healthy) ↔ IsUp h.db_checker.postgres)
      × (((serve_readiness elapsed now h).is_ok ≡ true) ↔ IsUp h.db_checker.postgres)
unfolding serve_check serve_readiness
serve_check_iff t h elapsed now =
    let (all, either) = check_iff t h in
    let (said, shown) = convert_health_status-healthy (check t h).status in
    let (told, put) = convert_health_status-healthy (check t h).database.postgres.status in
    let (ready, ready') = readiness_iff t.pg_elapsed h in
    let (same, same') = text_eq_iff (check t h).database.postgres.status (lit "healthy") in
    (
      ((λ e. all.0 (said e)), λ p. shown (all.1 p)),
      elim either [
        | inl good ↦ inl (shown good)
        | inr bad ↦ inr (ap convert_health_status bad ∙ convert_degraded)
      ],
      (
        (λ e. ready (unfold readiness in unfold check in unfold check_all in same' (told e))),
        λ up. put (same (unfold readiness in unfold check in unfold check_all in ready' up)),
      ),
      readiness_iff elapsed h,
    )
