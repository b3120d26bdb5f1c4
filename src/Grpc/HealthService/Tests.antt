-- ===== src/Grpc/HealthService/Tests.antt =====
-- The health service on a checker without Redis, and its theorem there.
use aquatiq_root.Common.{lit, text_eq, ◌≡◌, ◌↔◌, ◌⊎◌, refl, true, none}
use aquatiq_root.Common.Int.{pos}
use aquatiq_root.Health.{scanned, scan_error, HealthChecker, Times}
use aquatiq_root.Health.Status.{IsUp, IsFine}
use aquatiq_root.Grpc.HealthService.{
  healthy, degraded, convert_health_status, unspecified, serve_check, serve_readiness,
}
use aquatiq_root.Grpc.HealthService.Agreement.{serve_check_iff}

abbrev checker : HealthChecker
checker = record {
  db_checker = record {
    postgres = record {
      open_error = none;
      ping_error = none;
      version = scanned (lit "16");
      stats = scanned (pos 7, pos 100);
      size = scan_error (lit "denied");
    };
    redis = none;
  };
  start_time = 5;
  version = lit "1.0.0";
}

abbrev times : Times
times = record { stamped = 9; asked = 10; pg_elapsed = 2; redis_elapsed = 1 }

other : convert_health_status (lit "unavailable") ≡ unspecified
unfolding convert_health_status text_eq lit
other = refl

serve_check_iff_example :
    (((serve_check times checker).status ≡ healthy)
      ↔ (IsUp checker.db_checker.postgres × IsFine none))
    × (((serve_check times checker).status ≡ healthy)
        ⊎ ((serve_check times checker).status ≡ degraded))
    × (((serve_check times checker).postgresql.status ≡ healthy) ↔ IsUp checker.db_checker.postgres)
    × (((serve_readiness 2 9 checker).is_ok ≡ true) ↔ IsUp checker.db_checker.postgres)
serve_check_iff_example = serve_check_iff times checker 2 9
