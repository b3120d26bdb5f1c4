-- ===== src/Gateway/Ending.antt =====
-- How far the shutdown of cmd/gateway/main.go comes.
use mathlib.Core.Path.{subst}
use aquatiq_root.Common.{
  ℕ, zero, suc, ◌+◌, ◌≤◌, ◌<◌, ◌≡◌, ◌≢◌, ◌⊎◌, inl, inr, refl, sym, ap, Bool, Option, none, some,
  arith,
}
use aquatiq_root.Gateway.Lifecycle.{
  serving, Phase, waiting, shutting_rest, shutting_grpc, returning, finished, Process, started,
  Step, rest_takes, grpc_takes, rest_answers, grpc_answers, grpc_hangs, rest_fails, grpc_fails,
  panics, signal, rest_shuts, rest_times_out, grpc_shuts, returns, Reach, here, next,
}
use aquatiq_root.Gateway.Shutdown.{
  IsOrderly, At, ExitAt, Step-IsOrderly, Reach-IsOrderly, started-IsOrderly, finished-At,
}

-- The part of main behind the shutdown of the REST server, and the actions that are left of it.
abbrev pub IsEnding : Phase → Type 0
IsEnding waiting = 1 ≤ 0
IsEnding shutting_rest = 1 ≤ 0
IsEnding _ = Unit

abbrev actions : Phase → ℕ
actions shutting_grpc = 2
actions returning = 1
actions _ = 0

abbrev live : Option ℕ → ℕ
live none = 1
live (some code) = 0

-- The requests and the actions that are left.
abbrev left : Process → ℕ
left p = p.rest_open + p.grpc_open + actions p.phase + live p.exit

-- main stands in GracefulStop, and only calls that hang are left.
abbrev pub Waits : Process → Type 0
Waits p = (p.phase ≡ shutting_grpc) × (p.grpc_open ≡ 0) × (1 ≤ p.grpc_hanging)

module _ (docker redis : Bool) where
  -- How many steps a run has.
  unfoldable pub steps : {p q : Process} → Reach docker redis p q → ℕ
  steps here = 0
  steps (next r s) = suc (steps r)

  not_serving :
      (p : Process) (phase : Phase)
      → IsEnding phase
      → At docker redis phase p
      → (p.rest ≡ serving) ⊎ (p.grpc ≡ serving)
      → 1 ≤ 0
  not_serving p waiting e h s = e
  not_serving p shutting_rest e h s = e
  not_serving p shutting_grpc e (x, (r, inl (a, b, c), z)) (inl s) = cc (b, s)
  not_serving p shutting_grpc e (x, (r, inr (a, b), z)) (inl s) = cc (b, s)
  not_serving p shutting_grpc e (x, (r, f, z)) (inr s) = cc (x, s)
  not_serving p returning e (x, y, (r, inl (a, b, c), z)) (inl s) = cc (b, s)
  not_serving p returning e (x, y, (r, inr (a, b), z)) (inl s) = cc (b, s)
  not_serving p returning e (x, y, (r, f, z)) (inr s) = cc (x, s)
  not_serving p finished e (x, y, (r, inl (a, b, c), z)) (inl s) = cc (b, s)
  not_serving p finished e (x, y, (r, inr (a, b), z)) (inl s) = cc (b, s)
  not_serving p finished e (x, y, (r, f, z)) (inr s) = cc (x, s)

  -- Each step leaves fewer, and stays in the part.
  step-left :
      {p q : Process}
      → Step docker redis p q
      → IsOrderly docker redis p
      → IsEnding p.phase
      → (left q < left p) × IsEnding q.phase
  step-left {p} (rest_takes e s) h n =
      let no = not_serving p p.phase n h.place (inl s) in elim no [ ]
  step-left {p} (grpc_takes e s) h n =
      let no = not_serving p p.phase n h.place (inr s) in elim no [ ]
  step-left {p} (rest_answers e s) h n = (omega (arith, s), n)
  step-left {p} (grpc_answers e s) h n = (omega (arith, s), n)
  step-left {p} (grpc_hangs e s) h n = (omega (arith, s), n)
  step-left {p} (rest_fails e s) h n =
      let no = not_serving p p.phase n h.place (inl s) in elim no [ ]
  step-left {p} (grpc_fails e s) h n =
      let no = not_serving p p.phase n h.place (inr s) in elim no [ ]
  step-left {p} (panics e s) h n = (omega (arith, ap live e), n)
  step-left {p} (signal e s) h n = let no : 1 ≤ 0 = subst IsEnding s n in elim no [ ]
  step-left {p} (rest_shuts e s z) h n = let no : 1 ≤ 0 = subst IsEnding s n in elim no [ ]
  step-left {p} (rest_times_out e s) h n = let no : 1 ≤ 0 = subst IsEnding s n in elim no [ ]
  step-left {p} (grpc_shuts e s z k) h n = (omega (arith, ap actions s), tt)
  step-left {p} (returns e s) h n = (omega (arith, ap actions s, ap live e), tt)

  run-left :
      {p q : Process} (r : Reach docker redis p q)
      → IsOrderly docker redis p
      → IsEnding p.phase
      → (steps r + left q ≤ left p) × IsEnding q.phase × IsOrderly docker redis q
  unfolding steps
  run-left here h n = (omega arith, n, h)
  run-left (next r s) h n =
      let (fewer, still, orderly) = run-left r h n in
      let (less, then_still) = step-left s orderly still in
      (omega (arith, fewer, less), then_still, Step-IsOrderly docker redis s orderly)

  progress :
      (q : Process) (phase : Phase) (calls hanging : ℕ)
      → q.phase ≡ phase
      → q.grpc_open ≡ calls
      → q.grpc_hanging ≡ hanging
      → IsEnding phase
      → ExitAt q.exit phase
      → q.exit ≡ none
      → ((q' : Process) × Step docker redis q q') ⊎ Waits q
  progress q shutting_grpc zero zero s c k n x e = inl (_, grpc_shuts e s c k)
  progress q shutting_grpc zero (suc h) s c k n x e = inr (s, c, omega (arith, k))
  progress q shutting_grpc (suc m) h s c k n x e = inl (_, grpc_answers e c)
  progress q returning calls h s c k n x e = inl (_, returns e s)
  progress q finished calls h s c k n x e =
      let no : 1 ≤ 0 = subst (λ o. ExitAt o finished) e x in elim no [ ]
  progress q waiting calls h s c k n x e = elim n [ ]
  progress q shutting_rest calls h s c k n x e = elim n [ ]

  -- A call that hangs goes on hanging.
  step-hanging : {p q : Process} → Step docker redis p q → p.grpc_hanging ≤ q.grpc_hanging
  step-hanging (rest_takes e s) = omega arith
  step-hanging (grpc_takes e s) = omega arith
  step-hanging (rest_answers e s) = omega arith
  step-hanging (grpc_answers e s) = omega arith
  step-hanging (grpc_hangs e s) = omega arith
  step-hanging (rest_fails e s) = omega arith
  step-hanging (grpc_fails e s) = omega arith
  step-hanging (panics e s) = omega arith
  step-hanging (signal e s) = omega arith
  step-hanging (rest_shuts e s n) = omega arith
  step-hanging (rest_times_out e s) = omega arith
  step-hanging (grpc_shuts e s n k) = omega arith
  step-hanging (returns e s) = omega arith

  run-hanging : {p q : Process} → Reach docker redis p q → p.grpc_hanging ≤ q.grpc_hanging
  run-hanging here = omega arith
  run-hanging (next r s) = omega (arith, run-hanging r, step-hanging s)

  -- At exit code 0 no call hangs.
  zero-hanging : (q : Process) → IsOrderly docker redis q → q.exit ≡ some 0 → q.grpc_hanging ≡ 0
  zero-hanging q h e =
      let (_, y, _) =
        finished-At docker redis q q.phase refl (subst (λ o. ExitAt o q.phase) e h.exits) h.place in
      omega (arith, y)

  live-cases : (o : Option ℕ) → ((code : ℕ) × (o ≡ some code)) ⊎ (o ≡ none)
  live-cases none = inr refl
  live-cases (some code) = inl (code, refl)

  hanging-cases :
      (p q : Process)
      → IsOrderly docker redis q
      → Reach docker redis p q
      → (hanging : ℕ) → p.grpc_hanging ≡ hanging
      → (q.exit ≢ some 0) ⊎ (p.grpc_hanging ≡ 0)
  hanging-cases p q h run zero e = inr e
  hanging-cases p q h run (suc k) e =
      inl (λ ended. omega (arith, e, run-hanging run, zero-hanging q h ended))

  -- A run from where the REST server has been shut down has at most three steps more than there are requests. Where
  -- it can take no further step, the gateway has ended with an exit code, or waits, without a limit, for gRPC calls
  -- that hang; and where a call hangs at its start, it does not end with exit code 0.
  pub shutdown_terminates :
      (p q : Process)
      → Reach docker redis started p
      → p.phase ≡ shutting_grpc
      → (run : Reach docker redis p q)
      → (steps run ≤ p.rest_open + p.grpc_open + 3)
        × (((code : ℕ) × (q.exit ≡ some code))
            ⊎ (((q' : Process) × Step docker redis q q') ⊎ Waits q))
        × ((q.exit ≢ some 0) ⊎ (p.grpc_hanging ≡ 0))
  shutdown_terminates p q reach s run =
      let orderly = Reach-IsOrderly docker redis reach (started-IsOrderly docker redis) in
      let (fewer, still, then_orderly) = run-left run orderly (subst IsEnding (sym s) tt) in
      (
        omega (arith, fewer, ap actions s, live-le p.exit),
        elim (live-cases q.exit) [
          | inl ended ↦ inl ended
          | inr running ↦ inr (
              progress q q.phase q.grpc_open q.grpc_hanging refl refl refl still then_orderly.exits
                running)
        ],
        hanging-cases p q then_orderly run p.grpc_hanging refl,
      )
    where
      live-le : (o : Option ℕ) → live o ≤ 1
      live-le none = omega arith
      live-le (some code) = omega arith
