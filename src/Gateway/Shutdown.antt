-- ===== src/Gateway/Shutdown.antt =====
-- How the servers of cmd/gateway/main.go end.
use mathlib.Core.Path.{subst}
use aquatiq_root.Common.{
  ℕ, ◌+◌, zero, suc, ◌≤◌, ◌≡◌, ◌⊎◌, inl, inr, refl, sym, ap, ◌∙◌, Bool, true, false, ◌||◌, Option,
  none, some, List, [], ◌∷◌, ◌++◌, arith,
}
use aquatiq_root.Gateway.Lifecycle.{
  serving, draining, stopped, Phase, waiting, shutting_rest, shutting_grpc, returning, finished,
  Event, signalled, docker_closed, redis_closed, rest_stopped, rest_timed_out, grpc_stopped,
  log_synced, Process, started, deferred, Step, rest_takes, grpc_takes, rest_answers, grpc_answers,
  grpc_hangs, rest_fails, grpc_fails, panics, signal, rest_shuts, rest_times_out, grpc_shuts,
  returns, Reach, here, next,
}

-- How the REST server was shut down: with no request left, or by the time-out.
abbrev pub RestEnd : Event → Process → Type 0
RestEnd r p =
    ((r ≡ rest_stopped) × (p.rest ≡ stopped) × (p.rest_open ≡ 0))
    ⊎ ((r ≡ rest_timed_out) × (p.rest ≡ draining))

abbrev pub IsFinished : Phase → Type 0
IsFinished finished = Unit
IsFinished _ = 1 ≤ 0

abbrev pub IsRunning : Phase → Type 0
IsRunning finished = 1 ≤ 0
IsRunning _ = Unit

-- The exit code is 0 exactly at the end of main.
abbrev pub ExitAt : Option ℕ → Phase → Type 0
ExitAt none phase = IsRunning phase
ExitAt (some zero) phase = IsFinished phase
ExitAt (some (suc n)) phase = Unit

abbrev pub is_docker_closed : Event → Bool
is_docker_closed docker_closed = true
is_docker_closed _ = false

abbrev pub is_redis_closed : Event → Bool
is_redis_closed redis_closed = true
is_redis_closed _ = false

abbrev pub happened : (Event → Bool) → List Event → Bool
happened f [] = false
happened f (e ∷ es) = f e || happened f es

module _ (docker redis : Bool) where
  -- What holds of a process at each place of main.
  abbrev pub At : Phase → Process → Type 0
  At waiting p = (p.rest ≡ serving) × (p.grpc ≡ serving) × (p.events ≡ [])
  At shutting_rest p = (p.rest ≡ draining) × (p.grpc ≡ serving) × (p.events ≡ signalled ∷ [])
  At shutting_grpc p =
      (p.grpc ≡ draining) × ((r : Event) × RestEnd r p × (p.events ≡ signalled ∷ r ∷ []))
  At returning p =
      (p.grpc ≡ stopped)
      × (p.grpc_open + p.grpc_hanging ≡ 0)
      × ((r : Event) × RestEnd r p × (p.events ≡ signalled ∷ r ∷ grpc_stopped ∷ []))
  At finished p =
      (p.grpc ≡ stopped)
      × (p.grpc_open + p.grpc_hanging ≡ 0)
      × ((r : Event) × RestEnd r p
          × (p.events ≡ signalled ∷ r ∷ grpc_stopped ∷ log_synced ∷ deferred docker redis))

  pub record IsOrderly (p : Process) : Type 0 where
    pub place : At p.phase p
    pub exits : ExitAt p.exit p.phase

  -- A step that changes the requests only.
  At-same :
      (phase : Phase) (p q : Process)
      → q.rest ≡ p.rest
      → q.grpc ≡ p.grpc
      → q.events ≡ p.events
      → ((r : Event) → RestEnd r p → RestEnd r q)
      → (p.grpc ≡ stopped → p.grpc_open + p.grpc_hanging ≡ 0 → q.grpc_open + q.grpc_hanging ≡ 0)
      → At phase p
      → At phase q
  At-same waiting p q a b c f g (x, y, z) = (a ∙ x, b ∙ y, c ∙ z)
  At-same shutting_rest p q a b c f g (x, y, z) = (a ∙ x, b ∙ y, c ∙ z)
  At-same shutting_grpc p q a b c f g (x, (r, e, z)) = (b ∙ x, (r, f r e, c ∙ z))
  At-same returning p q a b c f g (x, y, (r, e, z)) = (b ∙ x, g x y, (r, f r e, c ∙ z))
  At-same finished p q a b c f g (x, y, (r, e, z)) = (b ∙ x, g x y, (r, f r e, c ∙ z))

  -- A step that changes the exit code only.
  exit-IsOrderly :
      (p : Process) (n : ℕ) → IsOrderly p → IsOrderly (record p { exit = some (suc n) })
  exit-IsOrderly p n h = record {
    place =
        At-same p.phase p (record p { exit = some (suc n) }) refl refl refl (λ r e. e) (λ x y. y)
          h.place;
    exits = tt;
  }

  still-exits :
      (p : Process) (phase : Phase) → IsRunning phase → p.exit ≡ none → ExitAt p.exit phase
  still-exits p phase r e = subst (λ x. ExitAt x phase) (sym e) r

  RestEnd-takes :
      (p : Process) (n : ℕ) (r : Event)
      → p.rest ≡ serving
      → RestEnd r p
      → RestEnd r (record p { rest_open = n })
  RestEnd-takes p n r s (inl (x, y, z)) = let no : 1 ≤ 0 = cc (s, y) in elim no [ ]
  RestEnd-takes p n r s (inr e) = inr e

  RestEnd-answers :
      (p : Process) (n : ℕ) (r : Event)
      → p.rest_open ≡ suc n
      → RestEnd r p
      → RestEnd r (record p { rest_open = n })
  RestEnd-answers p n r s (inl (x, y, z)) = let no : 1 ≤ 0 = omega (arith, s, z) in elim no [ ]
  RestEnd-answers p n r s (inr e) = inr e

  place-At : {p : Process} {phase : Phase} → p.phase ≡ phase → IsOrderly p → At phase p
  place-At {p} e h = subst (λ x. At x p) e h.place

  pub Step-IsOrderly : {p q : Process} → Step docker redis p q → IsOrderly p → IsOrderly q
  Step-IsOrderly {p} (rest_takes e s) h = record {
    place =
        At-same p.phase p _ refl refl refl (λ r. RestEnd-takes p (suc p.rest_open) r s) (λ x y. y)
          h.place;
    exits = h.exits;
  }
  Step-IsOrderly {p} (grpc_takes e s) h = record {
    place = At-same p.phase p _ refl refl refl (λ r f. f) (λ x y. cc (s, x)) h.place;
    exits = h.exits;
  }
  Step-IsOrderly {p} (rest_answers {n} e s) h = record {
    place = At-same p.phase p _ refl refl refl (λ r. RestEnd-answers p n r s) (λ x y. y) h.place;
    exits = h.exits;
  }
  Step-IsOrderly {p} (grpc_answers {n} e s) h = record {
    place = At-same p.phase p _ refl refl refl (λ r f. f) (λ x y. omega (arith, s, y)) h.place;
    exits = h.exits;
  }
  Step-IsOrderly {p} (grpc_hangs {n} e s) h = record {
    place = At-same p.phase p _ refl refl refl (λ r f. f) (λ x y. omega (arith, s, y)) h.place;
    exits = h.exits;
  }
  Step-IsOrderly {p} (rest_fails e s) h = exit-IsOrderly p 0 h
  Step-IsOrderly {p} (grpc_fails e s) h = exit-IsOrderly p 0 h
  Step-IsOrderly {p} (panics e s) h = exit-IsOrderly p 1 h
  Step-IsOrderly {p} (signal e s) h =
      let (x, y, z) = place-At s h in
      record {
        place = (refl, y, ap (λ l. l ++ signalled ∷ []) z);
        exits = still-exits p shutting_rest tt e;
      }
  Step-IsOrderly {p} (rest_shuts e s n) h =
      let (x, y, z) = place-At s h in
      record {
        place = (refl, (rest_stopped, inl (refl, refl, n), ap (λ l. l ++ rest_stopped ∷ []) z));
        exits = still-exits p shutting_grpc tt e;
      }
  Step-IsOrderly {p} (rest_times_out e s) h =
      let (x, y, z) = place-At s h in
      record {
        place = (refl, (rest_timed_out, inr (refl, x), ap (λ l. l ++ rest_timed_out ∷ []) z));
        exits = still-exits p shutting_grpc tt e;
      }
  Step-IsOrderly {p} (grpc_shuts e s n k) h =
      let (x, (r, f, z)) = place-At s h in
      record {
        place = (refl, omega (arith, n, k), (r, f, ap (λ l. l ++ grpc_stopped ∷ []) z));
        exits = still-exits p returning tt e;
      }
  Step-IsOrderly {p} (returns e s) h =
      let (x, y, (r, f, z)) = place-At s h in
      record {
        place = (x, y, (r, f, ap (λ l. l ++ log_synced ∷ deferred docker redis) z));
        exits = tt;
      }

  pub Reach-IsOrderly : {p q : Process} → Reach docker redis p q → IsOrderly p → IsOrderly q
  Reach-IsOrderly here h = h
  Reach-IsOrderly (next r s) h = Step-IsOrderly s (Reach-IsOrderly r h)

  pub started-IsOrderly : IsOrderly started
  started-IsOrderly = record { place = (refl, refl, refl); exits = tt }

  pub finished-At :
      (p : Process) (phase : Phase)
      → p.phase ≡ phase
      → IsFinished phase
      → At p.phase p
      → At finished p
  finished-At p finished e f h = subst (λ x. At x p) e h
  finished-At p waiting e f h = elim f [ ]
  finished-At p shutting_rest e f h = elim f [ ]
  finished-At p shutting_grpc e f h = elim f [ ]
  finished-At p returning e f h = elim f [ ]

  -- The deferred calls close the clients that were made, and no other.
  closes :
      (r : Event) (p : Process)
      → RestEnd r p
      → p.events ≡ signalled ∷ r ∷ grpc_stopped ∷ log_synced ∷ deferred docker redis
      → (happened is_docker_closed p.events ≡ docker) × (happened is_redis_closed p.events ≡ redis)
  closes r p (inl (x, y, z)) e =
      let same =
        e ∙ ap (λ q. signalled ∷ q ∷ grpc_stopped ∷ log_synced ∷ deferred docker redis) x in
      (
        ap (happened is_docker_closed) same ∙ ground arith,
        ap (happened is_redis_closed) same ∙ ground arith,
      )
  closes r p (inr (x, y)) e =
      let same =
        e ∙ ap (λ q. signalled ∷ q ∷ grpc_stopped ∷ log_synced ∷ deferred docker redis) x in
      (
        ap (happened is_docker_closed) same ∙ ground arith,
        ap (happened is_redis_closed) same ∙ ground arith,
      )

  -- The gateway ends with exit code 0 only after a signal: main has closed the REST server, which had no request
  -- left or whose time-out was over, then the gRPC server, with no call left, and has flushed the log and run the
  -- deferred calls, in this order; the clients of Docker and Redis are closed exactly if main has made them.
  pub clean_exit :
      (p : Process)
      → Reach docker redis started p
      → p.exit ≡ some 0
      → (r : Event) × RestEnd r p
        × (p.events ≡ signalled ∷ r ∷ grpc_stopped ∷ log_synced ∷ deferred docker redis)
        × (p.grpc ≡ stopped)
        × (p.grpc_open ≡ 0)
        × (p.grpc_hanging ≡ 0)
        × (happened is_docker_closed p.events ≡ docker)
        × (happened is_redis_closed p.events ≡ redis)
  clean_exit p reach e =
      let h = Reach-IsOrderly reach started-IsOrderly in
      let (x, y, (r, f, z)) =
        finished-At p p.phase refl (subst (λ o. ExitAt o p.phase) e h.exits) h.place in
      let shut = closes r p f z in (r, f, z, x, omega (arith, y), omega (arith, y), shut.0, shut.1)
