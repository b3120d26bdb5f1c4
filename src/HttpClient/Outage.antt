-- ===== src/HttpClient/Outage.antt =====
-- What the calls of pkg/httpclient/httpclient.go send while the other side is down: the client over its breaker.
use aquatiq_root.Common.{
  ℕ, suc, ◌+◌, ◌≤◌, Text, ◌≡◌, refl, sym, ap, ◌∙◌, Option, none, some, List, [], ◌∷◌, ◌++◌, length,
  All, arith,
}
use aquatiq_root.Common.Int.{pos}
use aquatiq_root.Common.Attempt.{Attempt, returned, failed, panicked}
use aquatiq_root.CircuitBreaker as CircuitBreaker
use aquatiq_root.CircuitBreaker.{Gobreaker, IsWithin, execute, execute_context}
use aquatiq_root.CircuitBreaker.Opening.{
  IsClosed, run_all, AllFail, AllBy, AllWithin, opens_at_threshold,
}
use aquatiq_root.HttpClient.Policy.{OutgoingRequest, RetrySettings, Transport}
use aquatiq_root.HttpClient.{Answer, Call, Client, fetch, finish, log_call, send_request}
use aquatiq_root.HttpClient.Calls.{fails-with, world-of}

abbrev pub AllFailed : {A : Type 0} → List (Attempt A) → Type 0
AllFailed {A} = All (λ (answer : Attempt A). (e : Text) × (answer ≡ failed e))

-- The contexts of the calls are not done at their starts.
abbrev pub AllUndone : List (Call × OutgoingRequest) → Type 0
AllUndone = All (λ (c : Call × OutgoingRequest). c.0.done_before ≡ none)

module _ (gobreaker : Gobreaker) (transport : Transport) where
  open transport use {World}

  -- Calls of Do, one after the other.
  unfoldable pub send_all :
      List (Call × OutgoingRequest)
      → Client gobreaker transport
      → World
      → List (Attempt Answer) × Client gobreaker transport × World
  send_all [] c w = ([], c, w)
  send_all ((call, req) ∷ calls) c w =
      let (answer, c', w') = send_request gobreaker transport call req c w in
      let (answers, c'', w'') = send_all calls c' w' in (answer ∷ answers, c'', w'')

  -- What Do runs in the breaker for each, and when.
  abbrev pub fetches :
      RetrySettings → List (Call × OutgoingRequest) → List (ℕ × (World → Attempt Text × World))
  fetches s [] = []
  fetches s ((call, req) ∷ calls) =
      (call.started, fetch gobreaker transport s req) ∷ fetches s calls

  length-fetches :
      (s : RetrySettings) (calls : List (Call × OutgoingRequest))
      → length (fetches s calls) ≡ length calls
  length-fetches s [] = refl
  length-fetches s (c ∷ calls) = ap suc (length-fetches s calls)

  log_call-same :
      (call : Call) (req : OutgoingRequest) (err : Option Text) (c : Client gobreaker transport)
      → ((log_call gobreaker transport call req err c).cb ≡ c.cb)
        × ((log_call gobreaker transport call req err c).client ≡ c.client)
  unfolding log_call
  log_call-same call req err c = (ground arith, ground arith)

  finish-same :
      (call : Call) (req : OutgoingRequest) (answer : Attempt Text) (c : Client gobreaker transport)
      → ((finish gobreaker transport call req answer c).1.cb ≡ c.cb)
        × ((finish gobreaker transport call req answer c).1.client ≡ c.client)
  unfolding finish
  finish-same call req (returned a) c = log_call-same call req none c
  finish-same call req (failed e) c = log_call-same call req (some e) c
  finish-same call req panicked c = (refl, refl)

  -- A call leaves the breaker as Execute does, and keeps the settings.
  breaker-of :
      (call : Call) (req : OutgoingRequest) (c : Client gobreaker transport) (w : World)
      → call.done_before ≡ none
      → ((send_request gobreaker transport call req c w).1.cb
          ≡ (execute gobreaker call.started (fetch gobreaker transport c.client req) c.cb w).1)
        × ((send_request gobreaker transport call req c w).1.client ≡ c.client)
  unfolding send_request execute_context
  breaker-of call req c w undone =
      let (answer, cb, _) =
        execute_context gobreaker call.done_before call.done_first call.started
          (fetch gobreaker transport c.client req) c.cb w in
      let (same, kept) = finish-same call req answer (record c { cb = cb }) in
      (same ∙ ground (arith, undone), kept)

  -- The calls leave the breaker and the world as their functions do, run one after the other, and they fail where those do.
  send_all-run_all :
      (s : RetrySettings) (calls : List (Call × OutgoingRequest)) (c : Client gobreaker transport)
      (cb : CircuitBreaker.CircuitBreaker gobreaker) (w v : World)
      → AllUndone calls
      → c.client ≡ s
      → c.cb ≡ cb
      → w ≡ v
      → let q = send_all calls c w in
        let r = run_all gobreaker (fetches s calls) cb v in
        (q.1.cb ≡ r.1) × (q.2 ≡ r.2) × (q.1.client ≡ s) × (AllFailed r.0 → AllFailed q.0)
  unfolding send_all run_all
  send_all-run_all s [] c cb w v undone a b d = (b, d, a, λ h. tt)
  send_all-run_all s ((call, req) ∷ calls) c cb w v undone a b d =
      let (left, kept) = breaker-of call req c w undone.0 in
      let world = world-of gobreaker transport call req c w undone.0 in
      let (q, x, y, z) =
        send_all-run_all s calls (send_request gobreaker transport call req c w).1
          (execute gobreaker call.started (fetch gobreaker transport s req) cb v).1
          (send_request gobreaker transport call req c w).2
          (execute gobreaker call.started (fetch gobreaker transport s req) cb v).2 undone.1
          (kept ∙ a) (cc (left, a, b, d)) (cc (world, a, b, d)) in
      (
        q,
        x,
        y,
        λ h. (
          fails-with gobreaker transport call req c w h.0.0 undone.0 (cc (h.0.1, a, b, d)),
          z h.1,
        ),
      )

  -- While the other side is down, the breaker shields it: where as many calls of Do as the threshold says
  -- fail one after the other, in one period of the closed breaker, then from the last of them to the end of the
  -- time-out every call returns an error and sends nothing. The contexts are not done when the calls start.
  pub outage_stops_requests :
      (n : ℕ) (config : CircuitBreaker.Config) (calls : List (Call × OutgoingRequest)) (call : Call)
      (req : OutgoingRequest) (later : List (Call × OutgoingRequest))
      (c : Client gobreaker transport) (w : World) (t : ℕ)
      → IsClosed gobreaker n config c.cb
      → AllUndone calls
      → call.done_before ≡ none
      → AllUndone later
      → AllWithin gobreaker (gobreaker.period_end c.cb.circuit) (fetches c.client calls)
      → IsWithin call.started (gobreaker.period_end c.cb.circuit)
      → AllFail gobreaker
          (fetches c.client calls ++ (call.started, fetch gobreaker transport c.client req) ∷ [])
          w
      → n + length calls + 1 ≡ config.failure_threshold
      → config.timeout ≡ pos t
      → 1 ≤ t
      → AllBy gobreaker (call.started + t) (fetches c.client later)
      → let before = send_all calls c w in
        let (_, c', w') = send_request gobreaker transport call req before.1 before.2 in
        let (answers, _, w'') = send_all later c' w' in (w'' ≡ w') × AllFailed answers
  outage_stops_requests n config calls call req later c w t h undone undone_now undone_later within
        in_time fails full timeout one by =
      let (same_cb, same_world, kept, _) =
        send_all-run_all c.client calls c c.cb w w undone refl refl refl in
      let before = send_all calls c w in
      let ran = run_all gobreaker (fetches c.client calls) c.cb w in
      let (left, kept_now) = breaker-of call req before.1 before.2 undone_now in
      let world = world-of gobreaker transport call req before.1 before.2 undone_now in
      let fn = fetch gobreaker transport c.client req in
      let tripped = execute gobreaker call.started fn ran.1 ran.2 in
      let after = send_request gobreaker transport call req before.1 before.2 in
      let (accepted, untouched, refused) =
        opens_at_threshold gobreaker n config (fetches c.client calls) call.started fn
          (fetches c.client later) c.cb w t h within in_time fails
          (ap (λ k. n + k + 1) (length-fetches c.client calls) ∙ full) timeout one by in
      let cb_now : after.1.cb ≡ tripped.1 = cc (left, kept, same_cb, same_world) in
      let w_now : after.2 ≡ tripped.2 = cc (world, kept, same_cb, same_world) in
      let (_, x, _, z) =
        send_all-run_all c.client later after.1 tripped.1 after.2 tripped.2 undone_later
          (kept_now ∙ kept) cb_now w_now in
      (x ∙ untouched ∙ sym w_now, z refused)
