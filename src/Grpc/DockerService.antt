-- ===== src/Grpc/DockerService.antt =====
-- internal/grpc/docker_service.go: each method calls the Docker manager and converts its answer. Where the
-- manager panics the method does, and the server does not recover.
pub mod Messages
pub mod Control
mod Tests
use aquatiq_root.Common.{
  ℕ, Text, lit, Bool, true, false, Option, none, some, List, [], ◌∷◌, ◌++◌, map, if◌then◌else◌,
  ◌==◌,
}
use aquatiq_root.Common.Int.{ℤ, pos, negsuc, decimal_ℤ}
use aquatiq_root.Common.Words.{to_int32, to_int64}
use aquatiq_root.Common.Attempt.{Attempt, returned, failed, panicked, ◌>>=◌}
use aquatiq_root.Docker.Daemon.{ImageSummary, NetworkSummary, Volume, SystemInfo, Docker}
use aquatiq_root.Docker.Containers.{
  PortBinding, ContainerInfo, list_containers, get_aquatiq_services, get_container, list_images,
  get_system_info, list_networks, list_volumes,
}
use aquatiq_root.Docker.Lifecycle.{
  Manager, start_container, stop_container, restart_container, get_container_logs,
}
use aquatiq_root.Grpc.DockerService.Messages.{
  Response, ProtoContainer, ImageInfo, NetworkInfo, VolumeInfo, ProtoSystem, ProtoStats,
  convert_to_proto_container_info, convert_to_proto_container_stats, to_proto_image,
  to_proto_network, to_proto_volume, to_proto_system,
}
use aquatiq_root.Docker.Statistics.{Float, ContainerStats, get_container_stats}

-- The default of StopContainer and RestartContainer.
abbrev pub or_ten : ℤ → ℤ
or_ten (pos n) = if n == 0 then pos 10 else pos n
or_ten (negsuc n) = negsuc n

-- The answer of StartContainer, StopContainer and RestartContainer.
unfoldable pub to_response : Text → Text → Attempt (Unit {0}) → Attempt Response
to_response container_id verb (returned _) = returned (record {
  success = true;
  message = lit "Container " ++ (container_id ++ (lit " " ++ (verb ++ lit " successfully")));
})
to_response container_id verb (failed e) = returned (record { success = false; message = e })
to_response container_id verb panicked = panicked

module _ (docker : Docker) where
  open docker use {Daemon}

  -- ListContainers and GetAquatiqServices
  unfoldable pub serve_list_containers : Daemon → Attempt (List ProtoContainer) × Daemon
  serve_list_containers d =
      let (answer, d') = list_containers docker d in
      (answer >>= λ cs. returned (map convert_to_proto_container_info cs), d')

  unfoldable pub serve_get_aquatiq_services : Daemon → Attempt (List ProtoContainer) × Daemon
  serve_get_aquatiq_services d =
      let (answer, d') = get_aquatiq_services docker d in
      (answer >>= λ cs. returned (map convert_to_proto_container_info cs), d')

  -- GetContainer
  unfoldable pub serve_get_container : Text → Daemon → Attempt ProtoContainer × Daemon
  serve_get_container container_id d =
      let (answer, d') = get_container docker container_id d in
      (answer >>= λ c. returned (convert_to_proto_container_info c), d')

  -- GetContainerLogs; `tail` is an int32 and `since_unix` an int64.
  unfoldable pub serve_get_container_logs : Text → ℤ → ℤ → Daemon → Attempt Text × Daemon
  serve_get_container_logs container_id tail since_unix d =
      get_container_logs docker container_id (decimal_ℤ tail) (decimal_ℤ since_unix) d

  -- GetSystemInfo
  unfoldable pub serve_get_system_info : Daemon → Attempt ProtoSystem × Daemon
  serve_get_system_info d =
      let (answer, d') = get_system_info docker d in
      (answer >>= λ i. returned (to_proto_system i), d')

  -- ListImages, ListNetworks and ListVolumes
  unfoldable pub serve_list_images : Daemon → Attempt (List ImageInfo) × Daemon
  serve_list_images d =
      let (answer, d') = list_images docker d in
      (answer >>= λ images. returned (map to_proto_image images), d')

  unfoldable pub serve_list_networks : Daemon → Attempt (List NetworkInfo) × Daemon
  serve_list_networks d =
      let (answer, d') = list_networks docker d in
      (answer >>= λ networks. returned (map to_proto_network networks), d')

  unfoldable pub serve_list_volumes : Daemon → Attempt (List VolumeInfo) × Daemon
  serve_list_volumes d =
      let (answer, d') = list_volumes docker d in
      (answer >>= λ volumes. returned (map to_proto_volume volumes), d')

  module _ (clock : ℕ → ℕ) where
    -- StartContainer
    unfoldable pub serve_start_container : Text → Manager docker → Attempt Response × Manager docker
    serve_start_container container_id m =
        let (answer, m') = start_container docker clock container_id m in
        (to_response container_id (lit "started") answer, m')

    -- StopContainer; `seconds` is an int32.
    unfoldable pub serve_stop_container :
        Text → ℤ → Manager docker → Attempt Response × Manager docker
    serve_stop_container container_id seconds m =
        let (answer, m') = stop_container docker clock container_id (or_ten seconds) m in
        (to_response container_id (lit "stopped") answer, m')

    -- RestartContainer
    unfoldable pub serve_restart_container :
        Text → ℤ → Manager docker → Attempt Response × Manager docker
    serve_restart_container container_id seconds m =
        let (answer, m') = restart_container docker clock container_id (or_ten seconds) m in
        (to_response container_id (lit "restarted") answer, m')

module _ (float : Float) where
  -- GetContainerStats
  unfoldable pub serve_get_container_stats :
      (docker : Docker) → Text → docker.Daemon → Attempt (ProtoStats float) × docker.Daemon
  serve_get_container_stats docker container_id d =
      let (answer, d') = get_container_stats float docker container_id d in
      (answer >>= λ s. returned (convert_to_proto_container_stats float s), d')
