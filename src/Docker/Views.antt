-- ===== src/Docker/Views.antt =====
-- What the views of internal/docker/manager.go show, where they panic, and what its log records.
use aquatiq_root.Common.{
  ℕ, Text, lit, is_empty, ◌≡◌, refl, Bool, true, ◌&&◌, not, none, some, List, [], ◌∷◌, ◌++◌, map,
  if◌then◌else◌, leb, length, take, drop, arith,
}
use aquatiq_root.Common.Int.{ℤ}
use aquatiq_root.Common.Attempt.{Attempt, returned, failed, panicked, each}
use aquatiq_root.Audit.{Log, log_event, log_if_set}
use aquatiq_root.Docker.Daemon.{Reply, ok, error, Summary, Docker}
use aquatiq_root.Docker.Containers.{
  ContainerInfo, first_name, to_binding, to_info, list_containers, get_aquatiq_services,
}
use aquatiq_root.Docker.Lifecycle.{
  event, Manager, after_call, start_container, stop_container, restart_container,
}

-- The name that is shown: the first one without its first byte, or "".
abbrev pub shown_name : List Text → Text
shown_name [] = []
shown_name (name ∷ _) = drop 1 name

abbrev pub has_shown_name : List Text → Bool
has_shown_name [] = true
has_shown_name (name ∷ _) = not (is_empty name)

-- A container that the manager can show: its id has twelve bytes, and its first name is not empty.
abbrev pub is_showable : Summary → Bool
is_showable c = has_shown_name c.names && leb 12 (length c.id)

abbrev pub all_showable : List Summary → Bool
all_showable [] = true
all_showable (c ∷ cs) = is_showable c && all_showable cs

abbrev pub view : Summary → ContainerInfo
view c = record {
  id = take 12 c.id;
  name = shown_name c.names;
  image = c.image;
  state = c.state;
  status = c.status;
  created = c.created;
  ports = map to_binding c.ports;
  labels = c.labels;
}

first_name-decides :
    (names : List Text)
    → first_name names ≡ (if has_shown_name names then returned (shown_name names) else panicked)
first_name-decides [] = refl
first_name-decides ([] ∷ names) = refl
first_name-decides ((c ∷ name) ∷ names) = refl

to_info-decides :
    (c : Summary) → to_info c ≡ (if is_showable c then returned (view c) else panicked)
unfolding to_info
to_info-decides c = ground (arith, first_name-decides c.names)

each-to_info :
    (cs : List Summary)
    → each to_info cs ≡ (if all_showable cs then returned (map view cs) else panicked)
unfolding each
each-to_info [] = refl
each-to_info (c ∷ cs) = ground (arith, to_info-decides c, each-to_info cs)

module _ (docker : Docker) where
  open docker use {Daemon}

  -- Where the daemon answers, ListContainers shows every container of the answer in its order, the
  -- id cut to twelve bytes and the first name without its first byte; and it panics exactly where
  -- an id is shorter or a first name is empty. GetAquatiqServices does the same with the filtered
  -- list.
  pub list_containers_decides :
      (d : Daemon) (cs fs : List Summary)
      → (docker.container_list none d).0 ≡ ok cs
      → (docker.container_list (some (lit "aquatiq-")) d).0 ≡ ok fs
      → ((list_containers docker d).0
          ≡ (if all_showable cs then returned (map view cs) else panicked))
        × ((get_aquatiq_services docker d).0
            ≡ (if all_showable fs then returned (map view fs) else panicked))
  unfolding list_containers get_aquatiq_services
  list_containers_decides d cs fs e f = (rw e (each-to_info cs), rw f (each-to_info fs))

  -- Starting, stopping and restarting.
  pub data Operation : Type 0 where
    start : Operation
    stop restart : ℤ → Operation

  abbrev pub ask : Operation → Text → Daemon → Reply (Unit {0}) × Daemon
  ask start name d = docker.container_start name d
  ask (stop t) name d = docker.container_stop name t d
  ask (restart t) name d = docker.container_restart name t d

  abbrev pub perform :
      (ℕ → ℕ) → Operation → Text → Manager docker → Attempt (Unit {0}) × Manager docker
  perform clock start name m = start_container docker clock name m
  perform clock (stop t) name m = stop_container docker clock name t m
  perform clock (restart t) name m = restart_container docker clock name t m

  abbrev pub verb : Operation → Text
  verb start = lit "start"
  verb (stop t) = lit "stop"
  verb (restart t) = lit "restart"

  -- What is reported for an answer of the daemon: success and one line, or the error and no line.
  abbrev pub Reported :
      (ℕ → ℕ)
      → Operation
      → Text
      → Manager docker
      → Log
      → Reply (Unit {0})
      → Attempt (Unit {0}) × Manager docker
      → Type 0
  Reported clock op name m log (ok _) r =
      (r.0 ≡ returned tt)
      × (r.1.audit
          ≡ some
              (log_event (event (clock m.readings) (lit "docker_container_" ++ verb op) name) log))
  Reported clock op name m log (error e) r =
      (r.0 ≡ failed ((lit "failed to " ++ (verb op ++ lit " container")) ++ (lit ": " ++ e)))
      × (r.1.audit ≡ some log)

  abbrev context : Operation → Text
  context start = lit "failed to start container"
  context (stop t) = lit "failed to stop container"
  context (restart t) = lit "failed to restart container"

  abbrev action : Operation → Text
  action start = lit "docker_container_start"
  action (stop t) = lit "docker_container_stop"
  action (restart t) = lit "docker_container_restart"

  context-eq : (op : Operation) → context op ≡ lit "failed to " ++ (verb op ++ lit " container")
  unfolding lit
  context-eq start = refl
  context-eq (stop t) = refl
  context-eq (restart t) = refl

  action-eq : (op : Operation) → action op ≡ lit "docker_container_" ++ verb op
  unfolding lit
  action-eq start = refl
  action-eq (stop t) = refl
  action-eq (restart t) = refl

  after_call-Reported :
      (clock : ℕ → ℕ) (op : Operation) (name : Text) (m : Manager docker) (log : Log)
      (reply : Reply (Unit {0})) (d : Daemon)
      → m.audit ≡ some log
      → let r =
          after_call docker clock (context op) (action op) name reply (record m { client = d }) in
        Reported clock op name m log reply r × (r.1.client ≡ d)
  unfolding after_call log_if_set
  after_call-Reported clock op name m log (ok u) d a =
      ((refl, ground (arith, a, action-eq op)), ground (arith, a))
  after_call-Reported clock op name m log (error e) d a = ((ground (arith, context-eq op), a), refl)

  perform-after_call :
      (clock : ℕ → ℕ) (op : Operation) (name : Text) (m : Manager docker)
      → perform clock op name m
        ≡ after_call docker clock
            (context op)
            (action op)
            name
            (ask op name m.client).0
            (record m { client = (ask op name m.client).1 })
  unfolding start_container stop_container restart_container
  perform-after_call clock start name m = refl
  perform-after_call clock (stop t) name m = refl
  perform-after_call clock (restart t) name m = refl

  -- Each of StartContainer, StopContainer and RestartContainer asks the daemon once, with the name and the
  -- time-out as they were given, reports its answer, and writes one line to the log exactly where the daemon
  -- succeeded.
  pub perform-Reported :
      (clock : ℕ → ℕ) (op : Operation) (name : Text) (m : Manager docker) (log : Log)
      → m.audit ≡ some log
      → Reported clock op name m log (ask op name m.client).0 (perform clock op name m)
        × ((perform clock op name m).1.client ≡ (ask op name m.client).1)
  perform-Reported clock op name m log a =
      rw (perform-after_call clock op name m) (
        after_call-Reported clock op name m log (ask op name m.client).0 (ask op name m.client).1 a)
