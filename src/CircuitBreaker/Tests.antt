-- ===== src/CircuitBreaker/Tests.antt =====
-- Runs of a breaker that opens at its threshold, and the theorems on calls there.
use aquatiq_root.Common.{ℕ, suc, Text, lit, ◌≡◌, refl, Option, none}
use aquatiq_root.Common.Attempt.{Attempt, returned, failed}
use aquatiq_root.CircuitBreaker.{
  CircuitBreaker, settings_of, execute, execute_context, stats_of, state_string,
}
use aquatiq_root.CircuitBreaker.Simple.{simple, breaker}

abbrev fails : ℕ → Attempt Text × ℕ
fails n = (failed (lit "down"), suc n)

abbrev works : ℕ → Attempt Text × ℕ
works n = (returned (lit "up"), suc n)

abbrev after_failure : CircuitBreaker simple → CircuitBreaker simple
after_failure cb = (execute_context simple none none 0 fails cb 0).1

opens : (stats_of simple 1 (lit "visma") (after_failure (after_failure breaker))).state ≡ lit "open"
unfolding stats_of state_string execute_context execute settings_of
opens = refl

abbrev not_done : Option Text
not_done = none
