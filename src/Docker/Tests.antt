-- ===== src/Docker/Tests.antt =====
-- A daemon that gives fixed answers and counts its calls, and the theorems on the manager there.
use aquatiq_root.Common.{
  ℕ, suc, ◌*◌, ◌/◌, ◌^◌, ◌<◌, Text, lit, ◌≡◌, ◌≢◌, ◌↔◌, refl, true, none, [], ◌∷◌, ltb, length,
  arith,
}
use aquatiq_root.Common.Int.{pos}
use aquatiq_root.Common.Attempt.{returned, panicked}
use aquatiq_root.Docker.Daemon.{Reply, ok, error, Summary, Inspect, Network, StatsResponse, Docker}
use aquatiq_root.Docker.Containers.{list_containers, get_aquatiq_services, to_info, scan_port}
use aquatiq_root.Docker.Statistics.{Float, get_container_stats}
use aquatiq_root.Docker.Views.{view, list_containers_decides}
use aquatiq_root.Docker.Totals.{get_container_stats_panics}

abbrev redis_container : Summary
redis_container = record {
  id = lit "0123456789abcdef";
  names = lit "/redis" ∷ [];
  image = lit "redis:7";
  state = lit "running";
  status = lit "Up";
  created = pos 5;
  ports = [];
  labels = [];
}

abbrev redis_inspect : Inspect
redis_inspect = record {
  id = lit "0123456789abcdef";
  name = lit "/redis";
  image = lit "redis:7";
  status = lit "running";
  created = none;
  ports = [];
  labels = [];
}

abbrev stats : StatsResponse
stats = record {
  total_usage = 9;
  system_usage = 20;
  percpu_usage = [];
  pre_total_usage = 1;
  pre_system_usage = 10;
  memory_usage = 3;
  memory_limit = 10;
  networks = [];
  blkio = [];
}

abbrev refused : {A : Type 0} → ℕ → Reply A × ℕ
refused n = (error (lit "no such container"), suc n)

abbrev daemon : Docker
daemon = record {
  Daemon = ℕ;
  container_list = λ _ n. (ok (redis_container ∷ []), suc n);
  container_inspect = λ _ n. (ok redis_inspect, suc n);
  container_start = λ _ n. (ok tt, suc n);
  container_stop = λ _ _ n. refused n;
  container_restart = λ _ _ n. (ok tt, suc n);
  container_logs = λ _ _ n. (ok (ok []), suc n);
  container_stats = λ _ n. (ok (ok stats), suc n);
  image_list = λ n. (ok [], suc n);
  info = λ n. refused n;
  network_list = λ n. (ok [], suc n);
  volume_list = λ n. (ok [], suc n);
  ping = λ n. (ok tt, suc n);
}

host_port : scan_port (lit "8080") ≡ 8080
unfolding scan_port lit
host_port = refl

too_large : scan_port (lit "65536") ≡ 0
unfolding scan_port lit
too_large = refl

short_id : to_info (record redis_container { id = lit "0123" }) ≡ panicked
unfolding to_info lit
short_id = refl

list_containers_decides_example :
    ((list_containers daemon 0).0 ≡ returned (view redis_container ∷ []))
    × ((get_aquatiq_services daemon 0).0 ≡ returned (view redis_container ∷ []))
unfolding lit
list_containers_decides_example =
    list_containers_decides daemon 0 (redis_container ∷ []) (redis_container ∷ []) refl refl

abbrev eth : Text × Network
eth = (lit "eth0", record { rx_bytes = 18446744073709551615; tx_bytes = 4 })

abbrev lo : Text × Network
lo = (lit "lo", record { rx_bytes = 3; tx_bytes = 5 })

-- Whole numbers, with the quotient rounded down.
quotient_times_zero_lem : (a b : ℕ) → a < 2 ^ 64 → ltb 0 b ≡ true → a / b * 0 ≡ 0
quotient_times_zero_lem a b h k = omega arith

zero_times_lem : (n : ℕ) → n < 2 ^ 64 → 0 * n ≡ 0
zero_times_lem n h = omega arith

abbrev whole : Float
whole = record {
  F = ℕ;
  of_uint = λ n. n;
  divided = λ a b. a / b;
  times = λ a b. a * b;
  is_positive = λ n. ltb 0 n;
  quotient_times_zero = quotient_times_zero_lem;
  zero_times = zero_times_lem;
}

named : redis_inspect.name ≢ []
unfolding lit
named e = cc e

get_container_stats_panics_example :
    ((get_container_stats whole daemon (lit "redis") 0).0 ≡ panicked) ↔ (length (lit "redis") < 12)
get_container_stats_panics_example =
    get_container_stats_panics whole daemon (lit "redis") 0 stats redis_inspect refl refl named
