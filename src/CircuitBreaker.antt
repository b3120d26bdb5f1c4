-- ===== src/CircuitBreaker.antt =====
-- pkg/circuitbreaker/circuitbreaker.go: the circuit breakers and their manager, over sony/gobreaker.
use aquatiq_root.Common.{
  ℕ, ◌+◌, ◌≤◌, Text, lit, ◌≡◌, refl, Bool, true, false, Option, none, some, List, [], ◌∷◌, leb,
  if◌then◌else◌, ◌⊎◌, inl, inr, Option-cases, arith, text_eq,
}
use aquatiq_root.Common.Attempt.{Attempt, returned, failed, panicked}
use aquatiq_root.Common.Int.{ℤ, pos}
use aquatiq_root.Common.Assoc.{lookup, insert, lookup-insert}
pub mod Calls
pub mod Opening
pub mod Simple
mod Tests

-- gobreaker.State, an int of which three values have names.
pub data State : Type 0 where
  closed half_open open_state : State
  unknown : ℕ → State

-- gobreaker.Counts
pub record Counts : Type 0 where
  pub requests : ℕ
  pub total_successes : ℕ
  pub total_failures : ℕ
  pub consecutive_successes : ℕ
  pub consecutive_failures : ℕ

-- gobreaker.Settings, but for OnStateChange.
pub record Settings : Type 0 where
  pub name : Text
  pub max_requests : ℕ
  pub interval : ℤ
  pub timeout : ℤ
  pub ready_to_trip : Counts → Bool
  pub is_successful : Option Text → Bool

-- The counts after one more failure.
abbrev pub with_failure : Counts → Counts
with_failure c = record {
  requests = c.requests + 1;
  total_successes = c.total_successes;
  total_failures = c.total_failures + 1;
  consecutive_successes = 0;
  consecutive_failures = c.consecutive_failures + 1;
}

-- A time in a period of the closed state, which need not end.
abbrev pub IsWithin : ℕ → Option ℕ → Type 0
IsWithin now none = Unit
IsWithin now (some t) = now ≤ t

-- What the code uses of gobreaker, and what its documentation says of it; a call is one instant. At a time a
-- breaker refuses a call with an error, or runs the function once and returns its answer. Closed, it accepts
-- calls and counts their failures, up to the end of a period, when the counts are cleared; a failure after
-- which ReadyToTrip holds opens it for the time-out, in which it refuses every call.
pub record Gobreaker : Type 1 where
  pub Circuit : Type 0
  pub new_circuit : Settings → Circuit
  pub settings : Circuit → Settings
  pub state : ℕ → Circuit → State
  pub counts : Circuit → Counts
  pub period_end : Circuit → Option ℕ
  pub refusal : ℕ → Circuit → Option Text
  pub execute : {A W : Type 0} → ℕ → (W → Attempt A × W) → Circuit → W → Attempt A × Circuit × W
  pub execute_accepted :
      {A W : Type 0} (now : ℕ) (fn : W → Attempt A × W) (c : Circuit) (w : W)
      → refusal now c ≡ none
      → ((execute now fn c w).0 ≡ (fn w).0) × ((execute now fn c w).2 ≡ (fn w).1)
  pub execute_refused :
      {A W : Type 0} (now : ℕ) (fn : W → Attempt A × W) (c : Circuit) (w : W) (e : Text)
      → refusal now c ≡ some e
      → ((execute now fn c w).0 ≡ failed e) × ((execute now fn c w).2 ≡ w)
  pub new_settings : (s : Settings) → settings (new_circuit s) ≡ s
  pub new_closed : (now : ℕ) (s : Settings) → state now (new_circuit s) ≡ closed
  pub new_counts : (s : Settings) → (counts (new_circuit s)).consecutive_failures ≡ 0
  pub closed_accepts : (now : ℕ) (c : Circuit) → state now c ≡ closed → refusal now c ≡ none
  pub open_refuses :
      (now : ℕ) (c : Circuit) → state now c ≡ open_state → (e : Text) × (refusal now c ≡ some e)
  pub open_same :
      {A W : Type 0} (now : ℕ) (fn : W → Attempt A × W) (c : Circuit) (w : W)
      → state now c ≡ open_state
      → (execute now fn c w).1 ≡ c
  pub execute_settings :
      {A W : Type 0} (now : ℕ) (fn : W → Attempt A × W) (c : Circuit) (w : W)
      → settings (execute now fn c w).1 ≡ settings c
  pub success_counted :
      {A W : Type 0} (now later : ℕ) (fn : W → Attempt A × W) (c : Circuit) (w : W) (a : A)
      → state now c ≡ closed
      → IsWithin now (period_end c)
      → (fn w).0 ≡ returned a
      → (settings c).is_successful none ≡ true
      → ((counts (execute now fn c w).1).consecutive_failures ≡ 0)
        × (period_end (execute now fn c w).1 ≡ period_end c)
        × (state later (execute now fn c w).1 ≡ closed)
  pub failure_counted :
      {A W : Type 0} (now later : ℕ) (fn : W → Attempt A × W) (c : Circuit) (w : W) (e : Text)
      → state now c ≡ closed
      → IsWithin now (period_end c)
      → (fn w).0 ≡ failed e
      → (settings c).is_successful (some e) ≡ false
      → (settings c).ready_to_trip (with_failure (counts c)) ≡ false
      → (counts (execute now fn c w).1 ≡ with_failure (counts c))
        × (period_end (execute now fn c w).1 ≡ period_end c)
        × (state later (execute now fn c w).1 ≡ closed)
  pub failure_opens :
      {A W : Type 0} (now later t : ℕ) (fn : W → Attempt A × W) (c : Circuit) (w : W) (e : Text)
      → state now c ≡ closed
      → IsWithin now (period_end c)
      → (fn w).0 ≡ failed e
      → (settings c).is_successful (some e) ≡ false
      → (settings c).ready_to_trip (with_failure (counts c)) ≡ true
      → (settings c).timeout ≡ pos t
      → 1 ≤ t
      → later ≤ now + t
      → state later (execute now fn c w).1 ≡ open_state

pub record Config : Type 0 where
  pub name : Text
  pub max_requests : ℕ
  pub interval : ℤ
  pub timeout : ℤ
  pub failure_threshold : ℕ

-- The IsSuccessful of New.
abbrev pub is_success : Option Text → Bool
is_success none = true
is_success (some _) = false

-- The settings of New.
unfoldable pub settings_of : Config → Settings
settings_of config = record {
  name = config.name;
  max_requests = config.max_requests;
  interval = config.interval;
  timeout = config.timeout;
  ready_to_trip = λ counts. leb config.failure_threshold counts.consecutive_failures;
  is_successful = is_success;
}

-- StateString
unfoldable pub state_string : State → Text
state_string closed = lit "closed"
state_string open_state = lit "open"
state_string half_open = lit "half-open"
state_string (unknown n) = lit "unknown"

pub record CircuitBreakerStats : Type 0 where
  pub name : Text
  pub state : Text
  pub total_requests : ℕ
  pub total_successes : ℕ
  pub total_failures : ℕ
  pub consecutive_successes : ℕ
  pub consecutive_failures : ℕ

module _ (gobreaker : Gobreaker) where
  open gobreaker use {Circuit, refusal}

  pub record CircuitBreaker : Type 0 where
    pub circuit : Circuit
    pub config : Config

  -- New
  unfoldable pub new : Config → CircuitBreaker
  new config = record { circuit = gobreaker.new_circuit (settings_of config); config = config }

  -- Execute
  unfoldable pub execute :
      {A W : Type 0} → ℕ → (W → Attempt A × W) → CircuitBreaker → W → Attempt A × CircuitBreaker × W
  execute now fn cb w =
      let (answer, c, w') = gobreaker.execute now fn cb.circuit w in
      (answer, record cb { circuit = c }, w')

  -- The `select`: the error of a context that was done first, or the answer. A panic in the goroutine
  -- ends the program in both cases.
  abbrev pub select : {A : Type 0} → Option Text → Attempt A → Attempt A
  select cancelled panicked = panicked
  select none answer = answer
  select (some e) (returned _) = failed e
  select (some e) (failed _) = failed e

  -- ExecuteContext: `done_before` is the context's error at the start, and `done_first` its error where the
  -- `select` takes that branch. The function runs to its end all the same.
  unfoldable pub execute_context :
      {A W : Type 0}
      → Option Text
      → Option Text
      → ℕ
      → (W → Attempt A × W)
      → CircuitBreaker
      → W
      → Attempt A × CircuitBreaker × W
  execute_context done_before done_first now fn cb w = elim done_before [
    | some e ↦ (failed e, cb, w)
    | none ↦ let (answer, cb', w') = execute now fn cb w in (select done_first answer, cb', w')
  ]

  -- State, Name and Counts
  abbrev pub state : ℕ → CircuitBreaker → State
  state now cb = gobreaker.state now cb.circuit

  abbrev pub name : CircuitBreaker → Text
  name cb = cb.config.name

  abbrev pub counts : CircuitBreaker → Counts
  counts cb = gobreaker.counts cb.circuit

  -- Manager: NewManager, Add, Get, GetAll
  abbrev pub Manager : Type 0
  Manager = List (Text × CircuitBreaker)

  abbrev pub new_manager : Manager
  new_manager = []

  unfoldable pub add : Text → CircuitBreaker → Manager → Manager
  add name cb m = insert name cb m

  unfoldable pub get : Text → Manager → Option CircuitBreaker
  get name m = lookup name m

  abbrev pub get_all : Manager → List (Text × CircuitBreaker)
  get_all m = m

  -- The value of GetStats for one breaker, at a time.
  unfoldable pub stats_of : ℕ → Text → CircuitBreaker → CircuitBreakerStats
  stats_of now name cb =
      let counts = gobreaker.counts cb.circuit in
      record {
        name = name;
        state = state_string (gobreaker.state now cb.circuit);
        total_requests = counts.requests;
        total_successes = counts.total_successes;
        total_failures = counts.total_failures;
        consecutive_successes = counts.consecutive_successes;
        consecutive_failures = counts.consecutive_failures;
      }

  -- GetStats
  unfoldable pub get_stats : ℕ → Manager → List (Text × CircuitBreakerStats)
  get_stats now [] = []
  get_stats now ((name, cb) ∷ m) = insert name (stats_of now name cb) (get_stats now m)
