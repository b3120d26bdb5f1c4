-- ===== src/CircuitBreaker/Calls.antt =====
-- What a call through a breaker of pkg/circuitbreaker does, and what the manager's statistics show.
use aquatiq_root.Common.{
  ℕ, Text, text_eq, text_eq_iff, ◌≡◌, refl, sym, ◌∙◌, Option, none, some, [], ◌∷◌, if◌then◌else◌,
  inl, inr, Option-cases, arith,
}
use aquatiq_root.Common.Assoc.{lookup, lookup-insert}
use aquatiq_root.Common.Attempt.{Attempt, returned, failed, panicked}
use aquatiq_root.CircuitBreaker.{
  Gobreaker, CircuitBreaker, execute, select, execute_context, Manager, add, get, stats_of,
  get_stats,
}

module _ (gobreaker : Gobreaker) {A W : Type 0} (now : ℕ) (fn : W → Attempt A × W)
    (cb : CircuitBreaker gobreaker) (w : W) where
  select-returned :
      (cancelled : Option Text) (answer : Attempt A) (a : A)
      → select gobreaker cancelled answer ≡ returned a
      → (cancelled ≡ none) × (answer ≡ returned a)
  select-returned none (returned b) a h = (refl, h)
  select-returned none (failed e) a h = cc h
  select-returned none panicked a h = cc h
  select-returned (some e) (returned b) a h = cc h
  select-returned (some e) (failed e') a h = cc h
  select-returned (some e) panicked a h = cc h

  -- A value that ExecuteContext returns is the one that the function returned when it ran, once, on the
  -- world as it was; and the context was done neither before nor first.
  pub execute_context_sound :
      (done_before done_first : Option Text) (a : A)
      → (execute_context gobreaker done_before done_first now fn cb w).0 ≡ returned a
      → (done_before ≡ none)
        × (done_first ≡ none)
        × ((fn w).0 ≡ returned a)
        × ((execute_context gobreaker done_before done_first now fn cb w).2 ≡ (fn w).1)
  unfolding execute_context execute
  execute_context_sound (some e) done_first a h = cc h
  execute_context_sound none done_first a h =
      let (uncancelled, answer) = select-returned done_first _ a h in
      elim (Option-cases (gobreaker.refusal now cb.circuit)) [
        | inl accepted ↦
            let (same, ran) = gobreaker.execute_accepted now fn cb.circuit w accepted in
            (refl, uncancelled, sym same ∙ answer, ran)
        | inr (e, refused) ↦
            cc ((gobreaker.execute_refused now fn cb.circuit w e refused).0, answer)
      ]

  -- A call that the breaker accepts has the function's effect also where the context is done first and the
  -- caller is told of an error; one that is refused, or whose context was done before, has none.
  execute_context_effect :
      (done_before done_first : Option Text)
      → (execute_context gobreaker done_before done_first now fn cb w).2 ≡ elim done_before [
        | some _ ↦ w
        | none ↦ elim (gobreaker.refusal now cb.circuit) [ none ↦ (fn w).1 | some _ ↦ w ]
      ]
  unfolding execute_context execute
  execute_context_effect (some e) done_first = refl
  execute_context_effect none done_first = elim (Option-cases (gobreaker.refusal now cb.circuit)) [
    | inl accepted ↦ rw accepted (gobreaker.execute_accepted now fn cb.circuit w accepted).1
    | inr (e, refused) ↦ rw refused (gobreaker.execute_refused now fn cb.circuit w e refused).1
  ]

module _ (gobreaker : Gobreaker) where
  -- GetStats shows for a name the breaker that Get returns for it, and nothing where there is none. Get
  -- returns the breaker that Add put, and every other one as before.
  get_stats-add :
      (now : ℕ) (name j : Text) (cb : CircuitBreaker gobreaker) (m : Manager gobreaker)
      → (lookup j (get_stats gobreaker now m)
          ≡ elim (get gobreaker j m) [ none ↦ none | some b ↦ some (stats_of gobreaker now j b) ])
        × (get gobreaker j (add gobreaker name cb m)
            ≡ (if text_eq name j then some cb else get gobreaker j m))
  unfolding get_stats get add lookup
  get_stats-add now name j cb m = (shown m, lookup-insert name j cb m)
    where
      shown :
          (m : Manager gobreaker)
          → lookup j (get_stats gobreaker now m)
            ≡ elim (lookup j m) [ none ↦ none | some b ↦ some (stats_of gobreaker now j b) ]
      shown [] = refl
      shown ((k, b) ∷ m) = ground (
        arith,
        lookup-insert k j (stats_of gobreaker now k b) (get_stats gobreaker now m),
        shown m,
        text_eq_iff k j,
      )
