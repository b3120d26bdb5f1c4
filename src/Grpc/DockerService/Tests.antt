-- ===== src/Grpc/DockerService/Tests.antt =====
-- The Docker service over a daemon that refuses to stop a container, and its theorem there.
use aquatiq_root.Common.{ℕ, suc, lit, ◌≡◌, refl, false, some, []}
use aquatiq_root.Common.Int.{pos}
use aquatiq_root.Common.Attempt.{returned}
use aquatiq_root.Docker.Daemon.{Reply, ok, error, Docker}
use aquatiq_root.Docker.Lifecycle.{Manager}
use aquatiq_root.Docker.Views.{stop}
use aquatiq_root.Grpc.DockerService.{or_ten}
use aquatiq_root.Grpc.DockerService.Control.{control, control-Answered}

abbrev refused : {A : Type 0} → ℕ → Reply A × ℕ
refused n = (error (lit "no such container"), suc n)

abbrev daemon : Docker
daemon = record {
  Daemon = ℕ;
  container_list = λ _ n. (ok [], suc n);
  container_inspect = λ _ n. refused n;
  container_start = λ _ n. (ok tt, suc n);
  container_stop = λ _ _ n. refused n;
  container_restart = λ _ _ n. (ok tt, suc n);
  container_logs = λ _ _ n. refused n;
  container_stats = λ _ n. refused n;
  image_list = λ n. (ok [], suc n);
  info = λ n. refused n;
  network_list = λ n. (ok [], suc n);
  volume_list = λ n. (ok [], suc n);
  ping = λ n. (ok tt, suc n);
}

abbrev manager : Manager daemon
manager = record { client = 0; audit = some []; readings = 0 }

defaulted : or_ten (pos 0) ≡ pos 10
defaulted = refl

control-Answered_example :
    (((control daemon (λ n. n) (stop (pos 0)) (lit "redis") manager).0
        ≡ returned (record {
          success = false;
          message = lit "failed to stop container: no such container";
        }))
      × ((control daemon (λ n. n) (stop (pos 0)) (lit "redis") manager).1.audit ≡ some []))
    × ((control daemon (λ n. n) (stop (pos 0)) (lit "redis") manager).1.client ≡ 1)
unfolding lit
control-Answered_example =
    control-Answered daemon (λ n. n) (stop (pos 0)) (lit "redis") manager [] refl
