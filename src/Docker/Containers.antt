-- ===== src/Docker/Containers.antt =====
-- The views of containers, images, networks and volumes of internal/docker/manager.go. A slice of a
-- text that is too short panics.
use aquatiq_root.Common.{
  ℕ, ◌+◌, ◌-◌, ◌*◌, ◌%◌, ◌^◌, Text, lit, is_empty, Bool, ◌&&◌, not, Option, none, some, List, [],
  ◌∷◌, ◌++◌, map, if◌then◌else◌, ltb, leb,
}
use aquatiq_root.Common.Int.{ℤ, pos}
use aquatiq_root.Common.Attempt.{Attempt, returned, failed, ◌>>=◌, slice_to, slice_from_one, each}
use aquatiq_root.Docker.Daemon.{
  Reply, ok, error, Port, Summary, Exposed, Inspect, ImageSummary, NetworkSummary, Volume,
  SystemInfo, Docker,
}

pub record PortBinding : Type 0 where
  pub private_port : ℕ
  pub public_port : ℕ
  pub kind : Text

pub record ContainerInfo : Type 0 where
  pub id : Text
  pub name : Text
  pub image : Text
  pub state : Text
  pub status : Text
  pub created : ℤ
  pub ports : List PortBinding
  pub labels : List (Text × Text)

-- `fmt.Errorf("…: %w", err)`: the error with its context, or the answer.
abbrev pub or_fail : {A : Type 0} → Text → Reply A → Attempt A
or_fail context (ok a) = returned a
or_fail context (error e) = failed (context ++ (lit ": " ++ e))

-- The first name without its slash, or "" where there is no name.
abbrev pub first_name : List Text → Attempt Text
first_name [] = returned []
first_name (name ∷ _) = slice_from_one name

abbrev pub to_binding : Port → PortBinding
to_binding p = record { private_port = p.private_port; public_port = p.public_port; kind = p.kind }

-- The body of the loops of ListContainers and GetAquatiqServices.
unfoldable pub to_info : Summary → Attempt ContainerInfo
to_info c = do
  name ← first_name c.names
  id ← slice_to 12 c.id
  returned (record {
    id = id;
    name = name;
    image = c.image;
    state = c.state;
    status = c.status;
    created = c.created;
    ports = map to_binding c.ports;
    labels = c.labels;
  })

abbrev is_digit : ℕ → Bool
is_digit c = leb 48 c && leb c 57

-- The number that the first digits of a text write, and whether there is one.
abbrev pub leading_number : ℕ → Text → ℕ
leading_number acc [] = acc
leading_number acc (c ∷ s) =
    let rest = leading_number (acc * 10 + (c - 48)) s in if is_digit c then rest else acc

-- `fmt.Sscanf(s, "%d", &port)` into a uint16 that is 0: a number that does not fit is an error and changes
-- nothing. The daemon writes a host port without a space.
unfoldable pub scan_port : Text → ℕ
scan_port s = let n = leading_number 0 s in if ltb n (2 ^ 16) then n else 0

-- The bindings of one exposed port.
abbrev pub bindings : Exposed → List Text → List PortBinding
bindings p [] = []
bindings p (host ∷ hosts) =
    record {
      private_port = p.number % 2 ^ 16;
      public_port = if not (is_empty host) then scan_port host else 0;
      kind = p.proto;
    }
    ∷ bindings p hosts

abbrev pub all_bindings : List Exposed → List PortBinding
all_bindings [] = []
all_bindings (p ∷ ps) = bindings p p.host_ports ++ all_bindings ps

abbrev pub unix_or_zero : Option ℤ → ℤ
unix_or_zero none = pos 0
unix_or_zero (some t) = t

-- GetContainer from the answer on.
unfoldable pub inspected : Inspect → Attempt ContainerInfo
inspected i = do
  id ← slice_to 12 i.id
  name ← slice_from_one i.name
  returned (record {
    id = id;
    name = name;
    image = i.image;
    state = i.status;
    status = i.status;
    created = unix_or_zero i.created;
    ports = all_bindings i.ports;
    labels = i.labels;
  })

module _ (docker : Docker) where
  open docker use {Daemon}

  -- ListContainers
  unfoldable pub list_containers : Daemon → Attempt (List ContainerInfo) × Daemon
  list_containers d =
      let (reply, d') = docker.container_list none d in
      (or_fail (lit "failed to list containers") reply >>= each to_info, d')

  -- GetAquatiqServices
  unfoldable pub get_aquatiq_services : Daemon → Attempt (List ContainerInfo) × Daemon
  get_aquatiq_services d =
      let (reply, d') = docker.container_list (some (lit "aquatiq-")) d in
      (or_fail (lit "failed to list Aquatiq services") reply >>= each to_info, d')

  -- GetContainer
  unfoldable pub get_container : Text → Daemon → Attempt ContainerInfo × Daemon
  get_container name_or_id d =
      let (reply, d') = docker.container_inspect name_or_id d in
      (or_fail (lit "failed to inspect container") reply >>= inspected, d')

  -- ListImages, GetSystemInfo, ListNetworks and ListVolumes
  unfoldable pub list_images : Daemon → Attempt (List ImageSummary) × Daemon
  list_images d =
      let (reply, d') = docker.image_list d in (or_fail (lit "failed to list images") reply, d')

  unfoldable pub get_system_info : Daemon → Attempt SystemInfo × Daemon
  get_system_info d =
      let (reply, d') = docker.info d in (or_fail (lit "failed to get system info") reply, d')

  unfoldable pub list_networks : Daemon → Attempt (List NetworkSummary) × Daemon
  list_networks d =
      let (reply, d') = docker.network_list d in (or_fail (lit "failed to list networks") reply, d')

  unfoldable pub list_volumes : Daemon → Attempt (List Volume) × Daemon
  list_volumes d =
      let (reply, d') = docker.volume_list d in (or_fail (lit "failed to list volumes") reply, d')

  -- Ping, whose error is passed on as it is.
  unfoldable pub ping : Daemon → Option Text × Daemon
  ping d = let (reply, d') = docker.ping d in (elim reply [ ok _ ↦ none | error e ↦ some e ], d')
