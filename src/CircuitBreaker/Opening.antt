-- ===== src/CircuitBreaker/Opening.antt =====
-- When a breaker of pkg/circuitbreaker/circuitbreaker.go opens, and what it does then.
use aquatiq_root.Common.{
  ℕ, suc, ◌+◌, ◌≤◌, ◌<◌, Text, ◌≡◌, refl, sym, ap, ◌∙◌, Option, none, some, List, [], ◌∷◌, ◌++◌,
  length, leb, All, arith,
}
use aquatiq_root.Common.Int.{pos}
use aquatiq_root.Common.Attempt.{Attempt, returned, failed}
use mathlib.Core.Path.{subst}
use aquatiq_root.CircuitBreaker.{
  closed, open_state, with_failure, IsWithin, Gobreaker, Config, settings_of, CircuitBreaker, new,
  execute,
}

module _ (gobreaker : Gobreaker) where
  -- The breaker is closed, with so many failures since the last success.
  pub record IsClosed (n : ℕ) (config : Config) (cb : CircuitBreaker gobreaker) : Type 0 where
    pub same_settings : gobreaker.settings cb.circuit ≡ settings_of config
    pub is_closed : (now : ℕ) → gobreaker.state now cb.circuit ≡ closed
    pub failures : (gobreaker.counts cb.circuit).consecutive_failures ≡ n

  pub new-IsClosed : (config : Config) → IsClosed 0 config (new gobreaker config)
  unfolding new
  new-IsClosed config = record {
    same_settings = gobreaker.new_settings (settings_of config);
    is_closed = λ now. gobreaker.new_closed now (settings_of config);
    failures = gobreaker.new_counts (settings_of config);
  }

  trips-leb :
      (n : ℕ) (config : Config) (cb : CircuitBreaker gobreaker)
      → IsClosed n config cb
      → (gobreaker.settings cb.circuit).ready_to_trip (with_failure (gobreaker.counts cb.circuit))
        ≡ leb config.failure_threshold (n + 1)
  unfolding settings_of
  trips-leb n config cb h =
      ap (λ s. s.ready_to_trip (with_failure (gobreaker.counts cb.circuit))) h.same_settings
      ∙ ap (λ k. leb config.failure_threshold (k + 1)) h.failures

  module _ {A W : Type 0} where
    -- Calls of Execute, one after the other, at their times.
    unfoldable pub run_all :
        List (ℕ × (W → Attempt A × W))
        → CircuitBreaker gobreaker
        → W
        → List (Attempt A) × CircuitBreaker gobreaker × W
    run_all [] cb w = ([], cb, w)
    run_all ((now, fn) ∷ calls) cb w =
        let (answer, cb', w') = execute gobreaker now fn cb w in
        let (answers, cb'', w'') = run_all calls cb' w' in (answer ∷ answers, cb'', w'')

    -- Run one after the other, each function gives an error.
    abbrev pub AllFail : List (ℕ × (W → Attempt A × W)) → W → Type 0
    AllFail [] w = Unit
    AllFail ((now, fn) ∷ calls) w = ((e : Text) × ((fn w).0 ≡ failed e)) × AllFail calls (fn w).1

    abbrev pub AllBy : ℕ → List (ℕ × (W → Attempt A × W)) → Type 0
    AllBy t = All (λ (c : ℕ × (W → Attempt A × W)). c.0 ≤ t)

    abbrev pub AllWithin : Option ℕ → List (ℕ × (W → Attempt A × W)) → Type 0
    AllWithin end = All (λ (c : ℕ × (W → Attempt A × W)). IsWithin c.0 end)

    -- A success starts the count again.
    success-IsClosed :
        {n : ℕ} (config : Config) (cb : CircuitBreaker gobreaker) (now : ℕ) (fn : W → Attempt A × W)
        (w : W) (a : A)
        → IsClosed n config cb
        → IsWithin now (gobreaker.period_end cb.circuit)
        → (fn w).0 ≡ returned a
        → IsClosed 0 config (execute gobreaker now fn cb w).1
    unfolding execute settings_of
    success-IsClosed config cb now fn w a h within ok =
        let counted = λ (later : ℕ).
          gobreaker.success_counted now later fn cb.circuit w a (h.is_closed now) within ok
            (ap (λ s. s.is_successful none) h.same_settings) in
        record {
          same_settings = gobreaker.execute_settings now fn cb.circuit w ∙ h.same_settings;
          is_closed = λ later. (counted later).2;
          failures = (counted 0).0;
        }

    -- A failure below the threshold is counted, and the function has run.
    failure-IsClosed :
        (n : ℕ) (config : Config) (cb : CircuitBreaker gobreaker) (now : ℕ) (fn : W → Attempt A × W)
        (w : W) (e : Text)
        → IsClosed n config cb
        → IsWithin now (gobreaker.period_end cb.circuit)
        → (fn w).0 ≡ failed e
        → n + 1 < config.failure_threshold
        → IsClosed (n + 1) config (execute gobreaker now fn cb w).1
          × (gobreaker.period_end (execute gobreaker now fn cb w).1.circuit
              ≡ gobreaker.period_end cb.circuit)
          × ((execute gobreaker now fn cb w).2 ≡ (fn w).1)
    unfolding execute settings_of
    failure-IsClosed n config cb now fn w e h within fails below =
        let calm = trips-leb n config cb h ∙ ground arith in
        let counted = λ (later : ℕ).
          gobreaker.failure_counted now later fn cb.circuit w e (h.is_closed now) within fails
            (ap (λ s. s.is_successful (some e)) h.same_settings) calm in
        (
          record {
            same_settings = gobreaker.execute_settings now fn cb.circuit w ∙ h.same_settings;
            is_closed = λ later. (counted later).2;
            failures = ap (λ c. c.consecutive_failures) (counted 0).0 ∙ ap (λ k. k + 1) h.failures;
          },
          (counted 0).1,
          (gobreaker.execute_accepted now fn cb.circuit w
              (gobreaker.closed_accepts now cb.circuit (h.is_closed now))).1,
        )

    -- Failures below the threshold leave the breaker closed, and all functions have run.
    run_all-IsClosed :
        (n : ℕ) (config : Config) (calls rest : List (ℕ × (W → Attempt A × W)))
        (cb : CircuitBreaker gobreaker) (w : W)
        → IsClosed n config cb
        → AllWithin (gobreaker.period_end cb.circuit) calls
        → AllFail (calls ++ rest) w
        → n + length calls < config.failure_threshold
        → let after = run_all calls cb w in
          IsClosed (n + length calls) config after.1
          × (gobreaker.period_end after.1.circuit ≡ gobreaker.period_end cb.circuit)
          × AllFail rest after.2
    unfolding run_all
    run_all-IsClosed n config [] rest cb w h within fails below =
        let same : n ≡ n + 0 = omega arith in
        (subst (λ k. IsClosed k config cb) same h, refl, fails)
    run_all-IsClosed n config ((now, fn) ∷ calls) rest cb w h within fails below =
        let (e, failed_now) = fails.0 in
        let (closed_still, period, ran) =
          failure-IsClosed n config cb now fn w e h within.0 failed_now (omega arith) in
        let (closed_then, period_then, fails_then) =
          run_all-IsClosed (n + 1) config calls rest (execute gobreaker now fn cb w).1
            (execute gobreaker now fn cb w).2 closed_still
            (subst (λ p. AllWithin p calls) (sym period) within.1)
            (subst (λ v. AllFail (calls ++ rest) v) (sym ran) fails.1) (omega arith) in
        let shift : (n + 1) + length calls ≡ n + suc (length calls) = omega arith in
        (
          subst (λ k. IsClosed k config (run_all ((now, fn) ∷ calls) cb w).1) shift closed_then,
          period_then ∙ period,
          fails_then,
        )

    -- While the breaker is open, calls are refused: no function runs.
    run_all-refused :
        (calls : List (ℕ × (W → Attempt A × W))) (cb : CircuitBreaker gobreaker) (w : W) (end : ℕ)
        → ((later : ℕ) → later ≤ end → gobreaker.state later cb.circuit ≡ open_state)
        → AllBy end calls
        → ((run_all calls cb w).2 ≡ w)
          × All (λ answer. (e : Text) × (answer ≡ failed e)) (run_all calls cb w).0
    unfolding run_all execute
    run_all-refused [] cb w end opened by = (refl, tt)
    run_all-refused ((now, fn) ∷ calls) cb w end opened by =
        let shut = opened now by.0 in
        let (e, refused) = gobreaker.open_refuses now cb.circuit shut in
        let (told, world) = gobreaker.execute_refused now fn cb.circuit w e refused in
        let circuit = gobreaker.open_same now fn cb.circuit w shut in
        let (still, answers) = run_all-refused calls cb w end opened by.1 in
        rw (circuit, world) (still, ((e, told), answers))

    -- A closed breaker opens with the failure that makes the failures in a row as many as the threshold, and
    -- not before: the call is still accepted, and after it, up to the end of the time-out, every call is
    -- refused with an error, and no function runs. The failures are in one period of the closed state.
    pub opens_at_threshold :
        (n : ℕ) (config : Config) (calls : List (ℕ × (W → Attempt A × W))) (now : ℕ)
        (fn : W → Attempt A × W) (later : List (ℕ × (W → Attempt A × W)))
        (cb : CircuitBreaker gobreaker) (w : W) (t : ℕ)
        → IsClosed n config cb
        → AllWithin (gobreaker.period_end cb.circuit) calls
        → IsWithin now (gobreaker.period_end cb.circuit)
        → AllFail (calls ++ (now, fn) ∷ []) w
        → n + length calls + 1 ≡ config.failure_threshold
        → config.timeout ≡ pos t
        → 1 ≤ t
        → AllBy (now + t) later
        → let before = run_all calls cb w in
          let (_, tripped, w') = execute gobreaker now fn before.1 before.2 in
          (gobreaker.refusal now before.1.circuit ≡ none)
          × ((run_all later tripped w').2 ≡ w')
          × All (λ answer. (e : Text) × (answer ≡ failed e)) (run_all later tripped w').0
    unfolding execute settings_of
    opens_at_threshold n config calls now fn later cb w t h within in_time fails full timeout one
          by =
        let (closed_still, period, last) =
          run_all-IsClosed n config calls ((now, fn) ∷ []) cb w h within fails (omega arith) in
        let before = (run_all calls cb w).1 in
        let v = (run_all calls cb w).2 in
        let (e, failed_now) = last.0 in
        let trips = trips-leb (n + length calls) config before closed_still ∙ ground arith in
        let opened = λ (at : ℕ) (soon : at ≤ now + t).
          gobreaker.failure_opens now at t fn before.circuit v e (closed_still.is_closed now)
            (subst (λ p. IsWithin now p) (sym period) in_time) failed_now
            (ap (λ s. s.is_successful (some e)) closed_still.same_settings) trips
            (ap (λ s. s.timeout) closed_still.same_settings ∙ timeout) one soon in
        let (untouched, refused) =
          run_all-refused later (execute gobreaker now fn before v).1
            (execute gobreaker now fn before v).2 (now + t) opened by in
        (
          gobreaker.closed_accepts now before.circuit (closed_still.is_closed now),
          untouched,
          refused,
        )
