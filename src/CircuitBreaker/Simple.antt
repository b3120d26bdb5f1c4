-- ===== src/CircuitBreaker/Simple.antt =====
-- A breaker that opens at its threshold for its time-out, which meets what is assumed of gobreaker. It clears its
-- counts on a success only, and closes again on the first success after the time-out.
use aquatiq_root.Common.{
  ℕ, ◌+◌, ◌≤◌, Text, lit, ◌≡◌, refl, true, false, Option, none, some, if◌then◌else◌, leb, arith,
}
use aquatiq_root.Common.Int.{pos, pos_part}
use aquatiq_root.Common.Attempt.{Attempt, returned, failed, panicked}
use aquatiq_root.CircuitBreaker.{
  State, closed, open_state, half_open, Counts, with_failure, Settings, Gobreaker, Config,
  CircuitBreaker, settings_of,
}

-- `until` is the time up to which the breaker is open.
pub record Simple : Type 0 where
  pub settings : Settings
  pub counts : Counts
  pub until : Option ℕ

abbrev pub no_counts : Counts
no_counts = record {
  requests = 0;
  total_successes = 0;
  total_failures = 0;
  consecutive_successes = 0;
  consecutive_failures = 0;
}

abbrev pub state_at : ℕ → Simple → State
state_at now c = elim c.until [
  | none ↦ closed
  | some t ↦ if leb now t then open_state else half_open
]

abbrev pub refuses : ℕ → Simple → Option Text
refuses now c = elim c.until [
  | none ↦ none
  | some t ↦ if leb now t then some (lit "circuit breaker is open") else none
]

abbrev pub failing : ℕ → Text → Simple → Simple
failing now e c = if c.settings.is_successful (some e) then c else record c {
  counts = with_failure c.counts;
  until =
      if c.settings.ready_to_trip (with_failure c.counts)
      then some (now + pos_part c.settings.timeout)
      else c.until;
}

abbrev pub after : {A : Type 0} → ℕ → Attempt A → Simple → Simple
after now (returned _) c = record c { counts = no_counts; until = none }
after now (failed e) c = failing now e c
after now panicked c = c

abbrev pub run :
    {A W : Type 0} → ℕ → Option Text → (W → Attempt A × W) → Simple → W → Attempt A × Simple × W
run now (some e) fn c w = (failed e, c, w)
run now none fn c w = let (answer, w') = fn w in (answer, after now answer c, w')

pub accepted :
    {A W : Type 0} (now : ℕ) (r : Option Text) (fn : W → Attempt A × W) (c : Simple) (w : W)
    → r ≡ none
    → ((run now r fn c w).0 ≡ (fn w).0) × ((run now r fn c w).2 ≡ (fn w).1)
accepted now r fn c w h = (ground (arith, h), ground (arith, h))

pub refused :
    {A W : Type 0} (now : ℕ) (r : Option Text) (fn : W → Attempt A × W) (c : Simple) (w : W)
    (e : Text)
    → r ≡ some e
    → ((run now r fn c w).0 ≡ failed e) × ((run now r fn c w).2 ≡ w)
refused now r fn c w e h = (ground (arith, h), ground (arith, h))

pub accepts : (now : ℕ) (c : Simple) → state_at now c ≡ closed → refuses now c ≡ none
accepts now c h = ground arith

pub shut :
    (now : ℕ) (c : Simple) → state_at now c ≡ open_state → (e : Text) × (refuses now c ≡ some e)
shut now c h = (lit "circuit breaker is open", ground arith)

pub same_while_open :
    {A W : Type 0} (now : ℕ) (fn : W → Attempt A × W) (c : Simple) (w : W)
    → state_at now c ≡ open_state
    → (run now (refuses now c) fn c w).1 ≡ c
same_while_open now fn c w h = ground (arith, h)

pub same_settings :
    {A W : Type 0} (now : ℕ) (fn : W → Attempt A × W) (c : Simple) (w : W)
    → (run now (refuses now c) fn c w).1.settings ≡ c.settings
same_settings now fn c w = ground arith

pub success_lem :
    {A W : Type 0} (now later : ℕ) (fn : W → Attempt A × W) (c : Simple) (w : W) (a : A)
    → state_at now c ≡ closed
    → (fn w).0 ≡ returned a
    → let c' = (run now (refuses now c) fn c w).1 in
      (c'.counts.consecutive_failures ≡ 0) × (state_at later c' ≡ closed)
success_lem now later fn c w a h e =
    (ground (arith, accepts now c h, e), ground (arith, accepts now c h, e))

run-failed :
    {A W : Type 0} (now : ℕ) (fn : W → Attempt A × W) (c : Simple) (w : W) (e : Text)
    → state_at now c ≡ closed
    → (fn w).0 ≡ failed e
    → (run now (refuses now c) fn c w).1 ≡ failing now e c
run-failed now fn c w e h f = ground (arith, accepts now c h, f)

closed_until : (now : ℕ) (c : Simple) → state_at now c ≡ closed → c.until ≡ none
closed_until now c h = ground arith

pub failure_lem :
    {A W : Type 0} (now later : ℕ) (fn : W → Attempt A × W) (c : Simple) (w : W) (e : Text)
    → state_at now c ≡ closed
    → (fn w).0 ≡ failed e
    → c.settings.is_successful (some e) ≡ false
    → c.settings.ready_to_trip (with_failure c.counts) ≡ false
    → let c' = (run now (refuses now c) fn c w).1 in
      (c'.counts ≡ with_failure c.counts) × (state_at later c' ≡ closed)
failure_lem now later fn c w e h f bad calm =
    let same = run-failed now fn c w e h f in
    (ground (arith, same, bad, calm), ground (arith, same, bad, calm, closed_until now c h))

pub opens_lem :
    {A W : Type 0} (now later t : ℕ) (fn : W → Attempt A × W) (c : Simple) (w : W) (e : Text)
    → state_at now c ≡ closed
    → (fn w).0 ≡ failed e
    → c.settings.is_successful (some e) ≡ false
    → c.settings.ready_to_trip (with_failure c.counts) ≡ true
    → c.settings.timeout ≡ pos t
    → later ≤ now + t
    → state_at later (run now (refuses now c) fn c w).1 ≡ open_state
opens_lem now later t fn c w e h f bad trips timeout soon =
    ground (arith, run-failed now fn c w e h f, bad, trips, timeout, soon)

abbrev pub simple : Gobreaker
simple = record {
  Circuit = Simple;
  new_circuit = λ s. record { settings = s; counts = no_counts; until = none };
  settings = λ c. c.settings;
  state = state_at;
  counts = λ c. c.counts;
  period_end = λ c. none;
  refusal = refuses;
  execute = λ now fn c w. run now (refuses now c) fn c w;
  execute_accepted = λ now fn c w h. accepted now (refuses now c) fn c w h;
  execute_refused = λ now fn c w e h. refused now (refuses now c) fn c w e h;
  new_settings = λ s. refl;
  new_closed = λ now s. refl;
  new_counts = λ s. refl;
  closed_accepts = accepts;
  open_refuses = shut;
  open_same = λ now fn c w h. same_while_open now fn c w h;
  execute_settings = λ now fn c w. same_settings now fn c w;
  success_counted = λ now later fn c w a h p e s.
      let (none_left, shut_no_more) = success_lem now later fn c w a h e in
      (none_left, refl, shut_no_more);
  failure_counted = λ now later fn c w e h p f bad calm.
      let (counted, stays) = failure_lem now later fn c w e h f bad calm in (counted, refl, stays);
  failure_opens = λ now later t fn c w e h p f bad trips timeout one soon.
      opens_lem now later t fn c w e h f bad trips timeout soon;
}

abbrev pub twice : Config
twice = record {
  name = lit "visma";
  max_requests = 1;
  interval = pos 0;
  timeout = pos 1;
  failure_threshold = 2;
}

abbrev pub breaker : CircuitBreaker simple
breaker = record {
  circuit = record { settings = settings_of twice; counts = no_counts; until = none };
  config = twice;
}
