-- ===== src/Gateway/Lifecycle.antt =====
-- The servers of cmd/gateway/main.go as they run: the goroutines of both, the signal and the shutdown, as steps
-- in any order. What ends a server but the shutdown, and panics of handlers, are steps of the environment.
use aquatiq_root.Common.{ℕ, suc, ◌≡◌, Bool, Option, none, some, List, [], ◌∷◌, ◌++◌, if◌then◌else◌}

-- A server takes requests, or only ends those that it has, or has ended.
pub data Server : Type 0 where
  serving draining stopped : Server

-- Where main stands: at the signal, in restSrv.Shutdown, in grpcSrv.GracefulStop, behind it, or at its end.
pub data Phase : Type 0 where
  waiting shutting_rest shutting_grpc returning finished : Phase

-- What main does on its way.
pub data Event : Type 0 where
  signalled rest_stopped rest_timed_out grpc_stopped log_synced shutdown_cancelled docker_closed
        redis_closed :
      Event

-- The requests that each server has, the gRPC calls among them that will not end apart, and the exit code.
pub record Process : Type 0 where
  pub phase : Phase
  pub rest : Server
  pub grpc : Server
  pub rest_open : ℕ
  pub grpc_open : ℕ
  pub grpc_hanging : ℕ
  pub exit : Option ℕ
  pub events : List Event

-- The process behind the start of both goroutines.
abbrev pub started : Process
started = record {
  phase = waiting;
  rest = serving;
  grpc = serving;
  rest_open = 0;
  grpc_open = 0;
  grpc_hanging = 0;
  exit = none;
  events = [];
}

-- The deferred calls, the last first; those of Docker and of Redis where their clients were made.
abbrev pub deferred : Bool → Bool → List Event
deferred docker redis =
    shutdown_cancelled ∷ (if docker then docker_closed ∷ [] else [])
    ++ ((if redis then redis_closed ∷ [] else []) ++ log_synced ∷ [])

module _ (docker redis : Bool) where
  pub data Step (p : Process) : Process → Type 0 where
    rest_takes :
        p.exit ≡ none → p.rest ≡ serving → Step p (record p { rest_open = suc p.rest_open })
    grpc_takes :
        p.exit ≡ none → p.grpc ≡ serving → Step p (record p { grpc_open = suc p.grpc_open })
    rest_answers :
        {n : ℕ} → p.exit ≡ none → p.rest_open ≡ suc n → Step p (record p { rest_open = n })
    grpc_answers :
        {n : ℕ} → p.exit ≡ none → p.grpc_open ≡ suc n → Step p (record p { grpc_open = n })
    -- A call turns out not to end.
    grpc_hangs :
        {n : ℕ}
        → p.exit ≡ none
        → p.grpc_open ≡ suc n
        → Step p (record p { grpc_open = n; grpc_hanging = suc p.grpc_hanging })
    -- ListenAndServe or Serve returns an error: os.Exit(1).
    rest_fails : p.exit ≡ none → p.rest ≡ serving → Step p (record p { exit = some 1 })
    grpc_fails : p.exit ≡ none → p.grpc ≡ serving → Step p (record p { exit = some 1 })
    -- A panic in a gRPC method, which nothing recovers.
    panics : {n : ℕ} → p.exit ≡ none → p.grpc_open ≡ suc n → Step p (record p { exit = some 2 })
    -- An interrupt or SIGTERM; Shutdown closes the listener first.
    signal :
        p.exit ≡ none
        → p.phase ≡ waiting
        → Step p (record p {
          phase = shutting_rest;
          rest = draining;
          events = p.events ++ signalled ∷ [];
        })
    -- Shutdown returns without an error where no request is left, and with one after the time-out.
    rest_shuts :
        p.exit ≡ none
        → p.phase ≡ shutting_rest
        → p.rest_open ≡ 0
        → Step p (record p {
          phase = shutting_grpc;
          rest = stopped;
          grpc = draining;
          events = p.events ++ rest_stopped ∷ [];
        })
    rest_times_out :
        p.exit ≡ none
        → p.phase ≡ shutting_rest
        → Step p (record p {
          phase = shutting_grpc;
          grpc = draining;
          events = p.events ++ rest_timed_out ∷ [];
        })
    -- GracefulStop returns where no call is left, and waits without a limit.
    grpc_shuts :
        p.exit ≡ none
        → p.phase ≡ shutting_grpc
        → p.grpc_open ≡ 0
        → p.grpc_hanging ≡ 0
        → Step p
            (record p { phase = returning; grpc = stopped; events = p.events ++ grpc_stopped ∷ [] })
    -- Sync, the return and the deferred calls.
    returns :
        p.exit ≡ none
        → p.phase ≡ returning
        → Step p (record p {
          phase = finished;
          exit = some 0;
          events = p.events ++ log_synced ∷ deferred docker redis;
        })

  pub data Reach (p : Process) : Process → Type 0 where
    here : Reach p p
    next : {q r : Process} → Reach p q → Step q r → Reach p r
