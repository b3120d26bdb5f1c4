-- ===== src/Grpc/DockerService/Control.antt =====
-- What the Docker service of internal/grpc/docker_service.go answers to the requests that start,
-- stop and restart.
use aquatiq_root.Common.Int.{ℤ, pos, negsuc}
use aquatiq_root.Common.{arith, ℕ, zero, suc, Text, lit, ◌++◌, ◌≡◌, refl, sym, true, false, some}
use aquatiq_root.Common.Attempt.{Attempt, returned}
use aquatiq_root.Audit.{Log, log_event}
use aquatiq_root.Docker.Daemon.{Reply, ok, error, Docker}
use aquatiq_root.Docker.Lifecycle.{Manager, event}
use aquatiq_root.Docker.Views.{
  Operation, start, stop, restart, ask, perform, verb, Reported, perform-Reported,
}
use aquatiq_root.Grpc.DockerService.Messages.{Response}
use aquatiq_root.Grpc.DockerService.{
  or_ten, to_response, serve_start_container, serve_stop_container, serve_restart_container,
}

-- The seconds of a request, or ten where it has none.
abbrev pub seconds : ℤ → ℤ
seconds (pos zero) = pos 10
seconds (pos (suc n)) = pos (suc n)
seconds (negsuc n) = negsuc n

or_ten-seconds : (t : ℤ) → or_ten t ≡ seconds t
or_ten-seconds (pos zero) = refl
or_ten-seconds (pos (suc n)) = ground arith
or_ten-seconds (negsuc n) = refl

module _ (docker : Docker) where
  -- A request with its seconds, and the operation with the time-out that is used.
  abbrev pub with_default : Operation docker → Operation docker
  with_default start = start
  with_default (stop t) = stop (seconds t)
  with_default (restart t) = restart (seconds t)

  abbrev pub past : Operation docker → Text
  past start = lit "started"
  past (stop t) = lit "stopped"
  past (restart t) = lit "restarted"

  abbrev pub control :
      (ℕ → ℕ) → Operation docker → Text → Manager docker → Attempt Response × Manager docker
  control clock start name m = serve_start_container docker clock name m
  control clock (stop t) name m = serve_stop_container docker clock name t m
  control clock (restart t) name m = serve_restart_container docker clock name t m

  -- The answer to a request for an answer of the daemon, and the log.
  abbrev pub Answered :
      (ℕ → ℕ)
      → Operation docker
      → Text
      → Manager docker
      → Log
      → Reply (Unit {0})
      → Attempt Response × Manager docker
      → Type 0
  Answered clock op name m log (ok _) r =
      (r.0
        ≡ returned (record {
          success = true;
          message = lit "Container " ++ (name ++ (lit " " ++ (past op ++ lit " successfully")));
        }))
      × (r.1.audit
          ≡ some (
              log_event (event (clock m.readings) (lit "docker_container_" ++ verb docker op) name)
                log))
  Answered clock op name m log (error e) r =
      (r.0
        ≡ returned (record {
          success = false;
          message = (lit "failed to " ++ (verb docker op ++ lit " container")) ++ (lit ": " ++ e);
        }))
      × (r.1.audit ≡ some log)

  verb-with_default : (op : Operation docker) → verb docker (with_default op) ≡ verb docker op
  verb-with_default start = refl
  verb-with_default (stop t) = refl
  verb-with_default (restart t) = refl

  control-perform :
      (clock : ℕ → ℕ) (op : Operation docker) (name : Text) (m : Manager docker)
      → control clock op name m ≡ (
        to_response name (past op) (perform docker clock (with_default op) name m).0,
        (perform docker clock (with_default op) name m).1,
      )
  unfolding serve_start_container serve_stop_container serve_restart_container
  control-perform clock start name m = refl
  control-perform clock (stop t) name m = rw (or_ten-seconds t) refl
  control-perform clock (restart t) name m = rw (or_ten-seconds t) refl

  Reported-Answered :
      (clock : ℕ → ℕ) (op : Operation docker) (name : Text) (m : Manager docker) (log : Log)
      (reply : Reply (Unit {0})) (r : Attempt (Unit {0}) × Manager docker)
      → Reported docker clock (with_default op) name m log reply r
      → Answered clock op name m log reply (to_response name (past op) r.0, r.1)
  unfolding to_response
  Reported-Answered clock op name m log (ok u) r h =
      rw (h.0, sym (verb-with_default op)) (refl, h.1)
  Reported-Answered clock op name m log (error e) r h =
      rw (h.0, sym (verb-with_default op)) (refl, h.1)

  -- StartContainer, StopContainer and RestartContainer of the service ask the daemon once, for the
  -- container of the request, with a time-out of ten seconds where the request has none. The answer
  -- tells whether the daemon succeeded, with its error otherwise, and one line is written to the
  -- log exactly where it did.
  pub control-Answered :
      (clock : ℕ → ℕ) (op : Operation docker) (name : Text) (m : Manager docker) (log : Log)
      → m.audit ≡ some log
      → Answered clock op name m log
          (ask docker (with_default op) name m.client).0
          (control clock op name m)
        × ((control clock op name m).1.client ≡ (ask docker (with_default op) name m.client).1)
  control-Answered clock op name m log a =
      let (told, client) = perform-Reported docker clock (with_default op) name m log a in
      rw (control-perform clock op name m) (
        Reported-Answered clock op name m log (ask docker (with_default op) name m.client).0
            (perform docker clock (with_default op) name m) told,
        client,
      )
