-- ===== src/Grpc/DockerService/Messages.antt =====
-- The messages of internal/grpc/docker_service.go and the conversions into them.
use aquatiq_root.Common.{Text, Bool, Option, none, some, List, [], ◌∷◌, map}
use aquatiq_root.Common.Int.{ℤ, pos, negsuc}
use aquatiq_root.Common.Words.{to_int32, to_int64}
use aquatiq_root.Docker.Daemon.{ImageSummary, NetworkSummary, Volume, SystemInfo}
use aquatiq_root.Docker.Containers.{PortBinding, ContainerInfo}
use aquatiq_root.Docker.Statistics.{Float, ContainerStats}

-- The messages of the protocol. A time is in seconds.
pub record ProtoPort : Type 0 where
  pub private_port : ℤ
  pub public_port : ℤ
  pub kind : Text
  pub ip : Text

pub record ProtoContainer : Type 0 where
  pub id : Text
  pub names : List Text
  pub image : Text
  pub image_id : Text
  pub command : Text
  pub created : ℤ
  pub state : Text
  pub status : Text
  pub ports : List ProtoPort
  pub labels : List (Text × Text)

pub record ImageInfo : Type 0 where
  pub id : Text
  pub repo_tags : List Text
  pub repo_digests : List Text
  pub created : ℤ
  pub size : ℤ
  pub virtual_size : ℤ
  pub labels : List (Text × Text)

pub record NetworkInfo : Type 0 where
  pub id : Text
  pub name : Text
  pub driver : Text
  pub scope : Text
  pub is_internal : Bool
  pub is_attachable : Bool
  pub labels : List (Text × Text)

pub record VolumeInfo : Type 0 where
  pub name : Text
  pub driver : Text
  pub mountpoint : Text
  pub created : ℤ
  pub scope : Text
  pub labels : List (Text × Text)

pub record ProtoSystem : Type 0 where
  pub version : Text
  pub api_version : Text
  pub os : Text
  pub architecture : Text
  pub containers : ℤ
  pub containers_running : ℤ
  pub containers_paused : ℤ
  pub containers_stopped : ℤ
  pub images : ℤ
  pub driver : Text
  pub memory_total : ℤ

pub record Response : Type 0 where
  pub success : Bool
  pub message : Text

abbrev pub to_proto_port : PortBinding → ProtoPort
to_proto_port p = record {
  private_port = to_int32 (pos p.private_port);
  public_port = to_int32 (pos p.public_port);
  kind = p.kind;
  ip = [];
}

-- convertToProtoContainerInfo
unfoldable pub convert_to_proto_container_info : ContainerInfo → ProtoContainer
convert_to_proto_container_info c = record {
  id = c.id;
  names = c.name ∷ [];
  image = c.image;
  image_id = [];
  command = [];
  created = c.created;
  state = c.state;
  status = c.status;
  ports = map to_proto_port c.ports;
  labels = c.labels;
}

-- The conversion in GetSystemInfo.
unfoldable pub to_proto_system : SystemInfo → ProtoSystem
to_proto_system i = record {
  version = i.server_version;
  api_version = [];
  os = i.operating_system;
  architecture = i.architecture;
  containers = to_int32 i.containers;
  containers_running = to_int32 i.containers_running;
  containers_paused = to_int32 i.containers_paused;
  containers_stopped = to_int32 i.containers_stopped;
  images = to_int32 i.images;
  driver = i.driver;
  memory_total = i.mem_total;
}

-- The bodies of the loops of ListImages, ListNetworks and ListVolumes.
unfoldable pub to_proto_image : ImageSummary → ImageInfo
to_proto_image img = record {
  id = img.id;
  repo_tags = img.repo_tags;
  repo_digests = img.repo_digests;
  created = img.created;
  size = img.size;
  virtual_size = img.virtual_size;
  labels = img.labels;
}

unfoldable pub to_proto_network : NetworkSummary → NetworkInfo
to_proto_network net = record {
  id = net.id;
  name = net.name;
  driver = net.driver;
  scope = net.scope;
  is_internal = net.is_internal;
  is_attachable = net.is_attachable;
  labels = net.labels;
}

-- The zero time.Time, where a time does not parse, is the first of January of the year 1.
abbrev pub or_zero_time : Option ℤ → ℤ
or_zero_time none = negsuc 62135596799
or_zero_time (some t) = t

unfoldable pub to_proto_volume : Volume → VolumeInfo
to_proto_volume vol = record {
  name = vol.name;
  driver = vol.driver;
  mountpoint = vol.mountpoint;
  created = or_zero_time vol.created;
  scope = vol.scope;
  labels = vol.labels;
}

module _ (float : Float) where
  open float use {F}

  pub record ProtoStats : Type 0 where
    pub container_id : Text
    pub name : Text
    pub cpu_percentage : F
    pub memory_usage : ℤ
    pub memory_limit : ℤ
    pub memory_percentage : F
    pub network_rx : ℤ
    pub network_tx : ℤ
    pub block_read : ℤ
    pub block_write : ℤ
    pub pids : ℤ

  -- convertToProtoContainerStats
  unfoldable pub convert_to_proto_container_stats : ContainerStats float → ProtoStats
  convert_to_proto_container_stats s = record {
    container_id = s.id;
    name = s.name;
    cpu_percentage = s.cpu_percent;
    memory_usage = to_int64 s.memory_usage;
    memory_limit = to_int64 s.memory_limit;
    memory_percentage = s.memory_percent;
    network_rx = to_int64 s.network_rx;
    network_tx = to_int64 s.network_tx;
    block_read = to_int64 s.block_read;
    block_write = to_int64 s.block_write;
    pids = pos 0;
  }
