-- ===== src/Grpc/DatabaseService/Tests.antt =====
-- The database service on databases that are down.
use aquatiq_root.Common.{lit, text_eq, ◌≡◌, refl, none, some, []}
use aquatiq_root.Health.{scan_error, DatabaseChecker, check_postgresql}
use aquatiq_root.Grpc.HealthService.{unhealthy}
use aquatiq_root.Grpc.DatabaseService.{convert_to_database_status, database_check_postgresql}

abbrev down : DatabaseChecker
down = record {
  postgres = record {
    open_error = some (lit "refused");
    ping_error = none;
    version = scan_error [];
    stats = scan_error [];
    size = scan_error [];
  };
  redis = none;
}

unreachable : (database_check_postgresql 2 9 down).status ≡ unhealthy
unfolding database_check_postgresql convert_to_database_status check_postgresql text_eq lit
unreachable = refl
