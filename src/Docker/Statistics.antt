-- ===== src/Docker/Statistics.antt =====
-- GetContainerStats of internal/docker/manager.go. The sums and differences have 64 bits; a float64
-- is a parameter.
use aquatiq_root.Common.{
  ℕ, ◌^◌, ◌<◌, Text, lit, text_eq, ◌≡◌, Bool, true, not, List, [], ◌∷◌, if◌then◌else◌, ltb, ◌==◌,
  length,
}
use aquatiq_root.Common.Words.{add_64, sub_64}
use aquatiq_root.Common.Attempt.{
  Attempt, returned, failed, panicked, ◌>>=◌, slice_to, slice_from_one,
}
use aquatiq_root.Docker.Daemon.{Inspect, Network, BlkioEntry, StatsResponse, Docker}
use aquatiq_root.Docker.Containers.{or_fail}

-- What the code does with a float64: `of_uint u` is `float64(u)` of a 64-bit number or an int. A quotient of
-- two of these numbers is finite where the divisor is not 0, and a finite number times 0 is 0.
pub record Float : Type 1 where
  pub F : Type 0
  pub of_uint : ℕ → F
  pub divided : F → F → F
  pub times : F → F → F
  pub is_positive : F → Bool
  pub quotient_times_zero :
      (a b : ℕ)
      → a < 2 ^ 64
      → is_positive (of_uint b) ≡ true
      → times (divided (of_uint a) (of_uint b)) (of_uint 0) ≡ of_uint 0
  pub zero_times : (n : ℕ) → n < 2 ^ 64 → times (of_uint 0) (of_uint n) ≡ of_uint 0

-- The loop over the networks, in one order of the map.
unfoldable pub sum_networks : ℕ → ℕ → List (Text × Network) → ℕ × ℕ
sum_networks rx tx [] = (rx, tx)
sum_networks rx tx ((_, n) ∷ ns) = sum_networks (add_64 rx n.rx_bytes) (add_64 tx n.tx_bytes) ns

-- The loop over the block device entries.
unfoldable pub sum_blkio : ℕ → ℕ → List BlkioEntry → ℕ × ℕ
sum_blkio r w [] = (r, w)
sum_blkio r w (s ∷ ss) =
    let is_read = text_eq s.op (lit "read") in
    let is_write = text_eq s.op (lit "write") in
    sum_blkio (if is_read then add_64 r s.value else r)
      (if is_read then w else (if is_write then add_64 w s.value else w)) ss

module _ (float : Float) where
  open float use {F, of_uint, divided, times, is_positive}

  pub record ContainerStats : Type 0 where
    pub id : Text
    pub name : Text
    pub cpu_percent : F
    pub memory_usage : ℕ
    pub memory_limit : ℕ
    pub memory_percent : F
    pub network_rx : ℕ
    pub network_tx : ℕ
    pub block_read : ℕ
    pub block_write : ℕ

  -- The CPU percentage.
  unfoldable pub cpu_percent : StatsResponse → F
  cpu_percent s =
      let cpu_delta = of_uint (sub_64 s.total_usage s.pre_total_usage) in
      let system_delta = of_uint (sub_64 s.system_usage s.pre_system_usage) in
      if not (s.pre_system_usage == 0)
      then if is_positive system_delta
        then times (times (divided cpu_delta system_delta) (of_uint (length s.percpu_usage)))
            (of_uint 100)
        else of_uint 0
      else of_uint 0

  -- The memory percentage.
  unfoldable pub memory_percent : StatsResponse → F
  memory_percent s =
      if ltb 0 s.memory_limit
      then times (divided (of_uint s.memory_usage) (of_uint s.memory_limit)) (of_uint 100)
      else of_uint 0

  -- What GetContainerStats returns for the statistics and the inspected container.
  unfoldable pub to_stats : Text → StatsResponse → Inspect → Attempt ContainerStats
  to_stats name_or_id s i = do
    id ← slice_to 12 name_or_id
    name ← slice_from_one i.name
    returned (record {
      id = id;
      name = name;
      cpu_percent = cpu_percent s;
      memory_usage = s.memory_usage;
      memory_limit = s.memory_limit;
      memory_percent = memory_percent s;
      network_rx = (sum_networks 0 0 s.networks).0;
      network_tx = (sum_networks 0 0 s.networks).1;
      block_read = (sum_blkio 0 0 s.blkio).0;
      block_write = (sum_blkio 0 0 s.blkio).1;
    })

  module _ (docker : Docker) where
    open docker use {Daemon}

    -- GetContainerStats from the decoded statistics on.
    unfoldable pub with_name :
        Text → Attempt StatsResponse → Daemon → Attempt ContainerStats × Daemon
    with_name name_or_id (returned s) d =
        let (reply, d') = docker.container_inspect name_or_id d in
        (or_fail (lit "failed to inspect container") reply >>= to_stats name_or_id s, d')
    with_name name_or_id (failed e) d = (failed e, d)
    with_name name_or_id panicked d = (panicked, d)

    -- GetContainerStats
    unfoldable pub get_container_stats : Text → Daemon → Attempt ContainerStats × Daemon
    get_container_stats name_or_id d =
        let (reply, d') = docker.container_stats name_or_id d in
        with_name name_or_id
          (or_fail (lit "failed to get container stats") reply
            >>= or_fail (lit "failed to decode stats"))
          d'
