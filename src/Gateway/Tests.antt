-- ===== src/Gateway/Tests.antt =====
-- Runs of the gateway on limiters of tokens and a server in memory, and its theorems there.
use aquatiq_root.Common.{
  ℕ, ◌≤◌, ◌⊎◌, Text, lit, text_eq, ◌≡◌, ◌≢◌, arith, refl, true, false, none, some, [], ◌∷◌,
}
use aquatiq_root.Common.Int.{pos, decimal_ℤ, decimal, digits_of}
use aquatiq_root.Http.{Request, Writer}
use aquatiq_root.Redis.{ok}
use aquatiq_root.Redis.Memory.{Memory, memory, empty}
use aquatiq_root.Config.{Config, failed_to_read, get_server_addr}
use aquatiq_root.Common.Assoc.{lookup}
use aquatiq_root.RateLimit.Limiter.{Limiter}
use aquatiq_root.RateLimit.Tokens.{tokens}
use aquatiq_root.Gateway.Startup.{
  get_default_config, registered, rest_addr, grpc_addr, start_limiter,
}
use aquatiq_root.Gateway.Run.{Answers, Running, exits, running, run, serves}
use aquatiq_root.Gateway.Outcome.{IsReady, IsServed, run_decides}
use aquatiq_root.Gateway.Server.{Payload, route_of, cache_route}
use aquatiq_root.Gateway.Starved.{statuses, failed_load_rejects}
use aquatiq_root.Gateway.Counted.{is_admin}
use aquatiq_root.Gateway.Bounds.{passed, passed_bounded}
use aquatiq_root.Gateway.Lifecycle.{
  Event, signalled, grpc_stopped, log_synced, Process, stopped, started, deferred, Step, rest_takes,
  grpc_takes, grpc_answers, grpc_hangs, signal, rest_shuts, rest_times_out, grpc_shuts, returns,
  Reach, here, next,
}
use aquatiq_root.Gateway.Shutdown.{RestEnd, is_docker_closed, is_redis_closed, happened, clean_exit}
use aquatiq_root.Gateway.Ending.{steps, Waits, shutdown_terminates}

-- The servers listen on different ports, one of which the fallback leaves to the system.
addresses :
    (rest_addr get_default_config ≡ lit "0.0.0.0:7500")
    × (grpc_addr get_default_config ≡ lit "0.0.0.0:0")
unfolding rest_addr grpc_addr get_server_addr get_default_config decimal_ℤ decimal digits_of lit
addresses = (refl, refl)

abbrev get : Text → Request
get path = record {
  method = lit "GET";
  path = path;
  header = λ _. [];
  query = λ _. [];
  remote_addr = lit "10.0.0.7:4000";
  actor = none;
  request_id = none;
}

stats_route : route_of (get (lit "/cache/stats")) ≡ cache_route
unfolding route_of text_eq lit
stats_route = refl

abbrev encode : Payload → Text
encode _ = []

abbrev unrouted : Request → Writer → Writer
unrouted _ w = record w { status = 404 }

abbrev still : ℕ → ℕ
still n = 60000000000

failed_load_rejects_example :
    statuses tokens
      (memory false)
      still
      encode
      unrouted
      (get (lit "/health") ∷ get (lit "/cache/stats") ∷ [])
      (start_limiter tokens (memory false) (λ _. empty) (failed_to_read (lit "yaml")) (some []))
    ≡ 429 ∷ 429 ∷ []
failed_load_rejects_example =
    failed_load_rejects tokens (memory false) still encode unrouted (λ _. empty)
      (failed_to_read (lit "yaml")) (some []) (get (lit "/health") ∷ get (lit "/cache/stats") ∷ [])
      refl

abbrev shared : Limiter tokens (memory true)
shared = record {
  global_limiter = record { limit = pos 1; burst = pos 3; left = 3 };
  admin_limiter = record { limit = pos 2; burst = pos 1; left = 1 };
  cache = some empty;
  audit = some [];
  distributed = true;
  readings = 0;
}

works : (k : Text) (s : Memory) → (n : ℕ) × (((memory true).incr k s).0 ≡ ok n)
works k s = (_, refl)

passed_bounded_example :
    (passed tokens (memory true) still encode unrouted (λ _. true) (get (lit "/health") ∷ []) shared
      ≤ 60)
    × (passed tokens (memory true) still encode unrouted is_admin (get (lit "/health") ∷ []) shared
        ≤ 120)
unfolding lookup
passed_bounded_example =
    passed_bounded tokens (memory true) still encode unrouted 1 (λ n. refl) works
      (get (lit "/health") ∷ []) empty shared refl refl

-- No configuration, no Docker and no certificate.
abbrev bare : Answers
bare = record {
  logger_error = none;
  configuration = failed_to_read (lit "yaml");
  docker_error = some (lit "no client");
  whitelist_error = none;
  listen_error = λ _. none;
  tls_error = λ _ _. some (lit "no such file");
}

bare_services :
    (running bare get_default_config false).services
    ≡ lit "health" ∷ lit "whitelist" ∷ lit "database" ∷ []
unfolding registered
bare_services = refl

run_decides_example :
    (cfg : Config) × (cfg ≡ get_default_config)
    × (((run bare ≡ exits) × (¬ (IsReady bare cfg)))
        ⊎ (IsReady bare cfg × (r : Running) × (run bare ≡ serves r) × IsServed bare cfg r))
run_decides_example = run_decides bare

-- A request of the REST server that outlives the time-out, and a call of the gRPC server that ends in time.
abbrev busy : (p : Process) × Reach true false started p
busy = (_, next (next here (rest_takes refl refl)) (grpc_takes refl refl))

abbrev timed_out : (p : Process) × Reach true false started p
timed_out = (_, next (next busy.1 (signal refl refl)) (rest_times_out refl refl))

abbrev ended : (p : Process) × Reach true false timed_out.0 p
ended = (
  _,
  next (next (next here (grpc_answers refl refl)) (grpc_shuts refl refl refl refl))
      (returns refl refl),
)

abbrev idle : (p : Process) × Reach true false started p
idle = (
  _,
  next
      (next (next (next here (signal refl refl)) (rest_shuts refl refl refl))
        (grpc_shuts refl refl refl refl))
      (returns refl refl),
)

clean_exit_example :
    (r : Event) × RestEnd r idle.0
    × (idle.0.events ≡ signalled ∷ r ∷ grpc_stopped ∷ log_synced ∷ deferred true false)
    × (idle.0.grpc ≡ stopped)
    × (idle.0.grpc_open ≡ 0)
    × (idle.0.grpc_hanging ≡ 0)
    × (happened is_docker_closed idle.0.events ≡ true)
    × (happened is_redis_closed idle.0.events ≡ false)
clean_exit_example = clean_exit true false idle.0 idle.1 refl

shutdown_terminates_example :
    (steps true false ended.1 ≤ 5)
    × (((code : ℕ) × (ended.0.exit ≡ some code))
        ⊎ (((q : Process) × Step true false ended.0 q) ⊎ Waits ended.0))
    × ((ended.0.exit ≢ some 0) ⊎ (timed_out.0.grpc_hanging ≡ 0))
shutdown_terminates_example =
    shutdown_terminates true false timed_out.0 ended.0 timed_out.1 refl ended.1

-- A call that hangs is waited for.
abbrev stuck : (p : Process) × Reach true false started p
stuck = (_, next timed_out.1 (grpc_hangs refl refl))

stuck-Waits : Waits stuck.0
stuck-Waits = (refl, refl, omega arith)
