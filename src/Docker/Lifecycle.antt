-- ===== src/Docker/Lifecycle.antt =====
-- Start, stop, restart and the logs of a container in internal/docker/manager.go, with the manager's audit log.
use aquatiq_root.Common.{ℕ, suc, Text, lit, true, none, some, ◌++◌}
use aquatiq_root.Common.Int.{ℤ}
use aquatiq_root.Common.Attempt.{Attempt, returned, failed, ◌>>=◌}
use aquatiq_root.Audit.{Logger, AuditEvent, zero_event, log_if_set}
use aquatiq_root.Docker.Daemon.{Reply, ok, error, LogsOptions, Docker}
use aquatiq_root.Docker.Containers.{or_fail}

abbrev pub event : ℕ → Text → Text → AuditEvent
event now action name_or_id = record zero_event {
  timestamp = now;
  action = action;
  actor = lit "gateway";
  resource = name_or_id;
  success = true;
}

module _ (docker : Docker) where
  open docker use {Daemon}

  -- The manager: the daemon of its client, its audit logger, and how often the clock was read.
  pub record Manager : Type 0 where
    pub client : Daemon
    pub audit : Logger
    pub readings : ℕ

  module _ (clock : ℕ → ℕ) where
    -- `if m.audit != nil { m.audit.LogEvent(…) }`
    abbrev pub log_success : Text → Text → Manager → Manager
    log_success action name_or_id m = elim m.audit [
      | none ↦ m
      | some log ↦ record m {
        audit = log_if_set (event (clock m.readings) action name_or_id) m.audit;
        readings = suc m.readings;
      }
    ]

    -- What a method does with the answer of the daemon.
    unfoldable pub after_call :
        Text → Text → Text → Reply (Unit {0}) → Manager → Attempt (Unit {0}) × Manager
    after_call context action name_or_id (ok _) m = (returned tt, log_success action name_or_id m)
    after_call context action name_or_id (error e) m = (failed (context ++ (lit ": " ++ e)), m)

    -- StartContainer
    unfoldable pub start_container : Text → Manager → Attempt (Unit {0}) × Manager
    start_container name_or_id m =
        let (reply, d) = docker.container_start name_or_id m.client in
        after_call (lit "failed to start container") (lit "docker_container_start") name_or_id reply
          (record m { client = d })

    -- StopContainer
    unfoldable pub stop_container : Text → ℤ → Manager → Attempt (Unit {0}) × Manager
    stop_container name_or_id timeout m =
        let (reply, d) = docker.container_stop name_or_id timeout m.client in
        after_call (lit "failed to stop container") (lit "docker_container_stop") name_or_id reply
          (record m { client = d })

    -- RestartContainer
    unfoldable pub restart_container : Text → ℤ → Manager → Attempt (Unit {0}) × Manager
    restart_container name_or_id timeout m =
        let (reply, d) = docker.container_restart name_or_id timeout m.client in
        after_call (lit "failed to restart container") (lit "docker_container_restart") name_or_id
          reply (record m { client = d })

  -- The options of GetContainerLogs: `Since` is set where it is not "", and is "" before.
  abbrev pub logs_options : Text → Text → LogsOptions
  logs_options tail since = record {
    show_stdout = true;
    show_stderr = true;
    since = since;
    tail = tail;
    timestamps = true;
  }

  -- GetContainerLogs
  unfoldable pub get_container_logs : Text → Text → Text → Daemon → Attempt Text × Daemon
  get_container_logs name_or_id tail since d =
      let (reply, d') = docker.container_logs name_or_id (logs_options tail since) d in
      (
        or_fail (lit "failed to get container logs") reply >>= or_fail (lit "failed to read logs"),
        d',
      )
