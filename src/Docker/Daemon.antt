-- ===== src/Docker/Daemon.antt =====
-- What internal/docker/manager.go uses of the Docker client: the fields that it reads of the answers, and the
-- calls. A call answers or fails, and the daemon may be another one after each.
use aquatiq_root.Common.{ℕ, Text, Bool, Option, List}
use aquatiq_root.Common.Int.{ℤ}

pub data Reply (A : Type 0) : Type 0 where
  ok : A → Reply A
  error : Text → Reply A

-- container.Port. The ports are 16-bit numbers.
pub record Port : Type 0 where
  pub private_port : ℕ
  pub public_port : ℕ
  pub kind : Text

-- A container of the list.
pub record Summary : Type 0 where
  pub id : Text
  pub names : List Text
  pub image : Text
  pub state : Text
  pub status : Text
  pub created : ℤ
  pub ports : List Port
  pub labels : List (Text × Text)

-- A port of an inspected container, with the number and the protocol that nat.Port gives, and the host ports
-- of its bindings. The order of the list is that of one iteration over the map.
pub record Exposed : Type 0 where
  pub number : ℕ
  pub proto : Text
  pub host_ports : List Text

-- An inspected container; a daemon's answer has all of its parts. `created` is the Unix time that
-- time.Parse reads, unless it gives an error.
pub record Inspect : Type 0 where
  pub id : Text
  pub name : Text
  pub image : Text
  pub status : Text
  pub created : Option ℤ
  pub ports : List Exposed
  pub labels : List (Text × Text)

pub record Network : Type 0 where
  pub rx_bytes : ℕ
  pub tx_bytes : ℕ

pub record BlkioEntry : Type 0 where
  pub op : Text
  pub value : ℕ

-- container.StatsResponse; the numbers have 64 bits.
pub record StatsResponse : Type 0 where
  pub total_usage : ℕ
  pub system_usage : ℕ
  pub percpu_usage : List ℕ
  pub pre_total_usage : ℕ
  pub pre_system_usage : ℕ
  pub memory_usage : ℕ
  pub memory_limit : ℕ
  pub networks : List (Text × Network)
  pub blkio : List BlkioEntry

pub record LogsOptions : Type 0 where
  pub show_stdout : Bool
  pub show_stderr : Bool
  pub since : Text
  pub tail : Text
  pub timestamps : Bool

pub record ImageSummary : Type 0 where
  pub id : Text
  pub repo_tags : List Text
  pub repo_digests : List Text
  pub created : ℤ
  pub size : ℤ
  pub virtual_size : ℤ
  pub labels : List (Text × Text)

pub record NetworkSummary : Type 0 where
  pub id : Text
  pub name : Text
  pub driver : Text
  pub scope : Text
  pub is_internal : Bool
  pub is_attachable : Bool
  pub labels : List (Text × Text)

-- volume.Volume; `created` is what time.Parse makes of CreatedAt.
pub record Volume : Type 0 where
  pub name : Text
  pub driver : Text
  pub mountpoint : Text
  pub created : Option ℤ
  pub scope : Text
  pub labels : List (Text × Text)

-- system.Info
pub record SystemInfo : Type 0 where
  pub server_version : Text
  pub operating_system : Text
  pub architecture : Text
  pub containers : ℤ
  pub containers_running : ℤ
  pub containers_paused : ℤ
  pub containers_stopped : ℤ
  pub images : ℤ
  pub driver : Text
  pub mem_total : ℤ

-- `container_list` takes the name filter, and lists stopped containers too. The stream of the logs is what
-- io.ReadAll makes of it, and the body of the statistics what the JSON decoder makes of it.
pub record Docker : Type 1 where
  pub Daemon : Type 0
  pub container_list : Option Text → Daemon → Reply (List Summary) × Daemon
  pub container_inspect : Text → Daemon → Reply Inspect × Daemon
  pub container_start : Text → Daemon → Reply (Unit {0}) × Daemon
  pub container_stop : Text → ℤ → Daemon → Reply (Unit {0}) × Daemon
  pub container_restart : Text → ℤ → Daemon → Reply (Unit {0}) × Daemon
  pub container_logs : Text → LogsOptions → Daemon → Reply (Reply Text) × Daemon
  pub container_stats : Text → Daemon → Reply (Reply StatsResponse) × Daemon
  pub image_list : Daemon → Reply (List ImageSummary) × Daemon
  pub info : Daemon → Reply SystemInfo × Daemon
  pub network_list : Daemon → Reply (List NetworkSummary) × Daemon
  pub volume_list : Daemon → Reply (List Volume) × Daemon
  pub ping : Daemon → Reply (Unit {0}) × Daemon
