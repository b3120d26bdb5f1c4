-- ===== src/HttpClient/Tries.antt =====
-- The tries of a call of the client of pkg/httpclient/httpclient.go.
use mathlib.Core.Path.{subst}
use aquatiq_root.Common.{
  ℕ, suc, ◌-◌, ◌≤◌, ◌<◌, Text, lit, ◌++◌, ◌≡◌, ◌⊎◌, inl, inr, refl, sym, ap, ◌∙◌, true, none, some,
  List, [], ◌∷◌, length, All, Option-cases, arith,
}
use aquatiq_root.Common.Int.{ℤ, pos, negsuc, pos_part, ltb_ℤ}
use aquatiq_root.Common.Attempt.{Attempt, returned, failed, panicked}
use aquatiq_root.CircuitBreaker.{Gobreaker, execute, execute_context}
use aquatiq_root.HttpClient.Policy.{
  Received, no_response, response, check_retry, resp_of, OutgoingRequest, RetrySettings, Wire,
  Tried, answered, stopped, not_answered, gave_up, interrupted, again, Transport,
}
use aquatiq_root.HttpClient.Retry.{IsRetryable, check_retry_iff}
use aquatiq_root.HttpClient.Calls.{IsAccepted, send_request_sound, fails-with, world-of}
use aquatiq_root.HttpClient.{Answer, Call, Config, Client, new, fetch, finish, send_request}

pub below-pos_part : (i : ℕ) (m : ℤ) → ltb_ℤ (pos i) m ≡ true → i < pos_part m
below-pos_part i (pos m) h = ground arith
below-pos_part i (negsuc m) h = ground arith

module _ (wire : Wire) (s : RetrySettings) (req : OutgoingRequest) where
  open wire use {World, round_trip, pause}

  abbrev pub wait_for : ℕ → Received → ℤ
  wait_for i received = s.backoff s.retry_wait_min s.retry_wait_max i (resp_of received)

  -- From try `i` on, these requests are sent: each earlier one is followed by the wait of Backoff, and the last one
  -- by nothing or by a wait that the context ends.
  pub data Sent (w' : World) : ℕ → List Received → Received → World → Type 0 where
    last :
        {i : ℕ} {w : World} (received : Received)
        → round_trip s.timeout req w ≡ (received, w')
        → Sent w' i [] received w
    cut :
        {i : ℕ} {w : World} (received : Received) (v : World) (e : Text)
        → round_trip s.timeout req w ≡ (received, v)
        → pause (wait_for i received) v ≡ (some e, w')
        → Sent w' i [] received w
    more :
        {i : ℕ} {w : World} {rs : List Received} {final : Received} (received : Received)
        (v v' : World)
        → round_trip s.timeout req w ≡ (received, v)
        → pause (wait_for i received) v ≡ (none, v')
        → Sent w' (suc i) rs final v'
        → Sent w' i (received ∷ rs) final w

  pub record Tries (i : ℕ) (w : World) (result : Received) (w' : World) : Type 0 where
    pub earlier : List Received
    pub final : Received
    pub sent : Sent w' i earlier final w
    pub retryable : All IsRetryable earlier
    pub bounded : length earlier ≤ pos_part s.retry_max - i
    pub outcome : (result ≡ final) ⊎ ((e : Text) × (result ≡ no_response e))

  Tried-Tries :
      (result : Received) (w' : World)
      → s.check_retry ≡ check_retry
      → {i : ℕ} {w : World} → Tried wire s req result w' i w
      → Tries i w result w'
  Tried-Tries result w' policy (answered resp came over is) = record {
    earlier = [];
    final = response resp;
    sent = last (response resp) came;
    retryable = tt;
    bounded = omega arith;
    outcome = inl is;
  }
  Tried-Tries result w' policy (stopped received e e' came over is) = record {
    earlier = [];
    final = received;
    sent = last received came;
    retryable = tt;
    bounded = omega arith;
    outcome = inr (e', is);
  }
  Tried-Tries result w' policy (not_answered e e' came over is) = record {
    earlier = [];
    final = no_response e;
    sent = last (no_response e) came;
    retryable = tt;
    bounded = omega arith;
    outcome = inr (e', is);
  }
  Tried-Tries result w' policy (gave_up received e came retry full is) = record {
    earlier = [];
    final = received;
    sent = last received came;
    retryable = tt;
    bounded = omega arith;
    outcome = inr (e, is);
  }
  Tried-Tries result w' policy (interrupted received v e came retry left cut_off is) = record {
    earlier = [];
    final = received;
    sent = cut received v e came cut_off;
    retryable = tt;
    bounded = omega arith;
    outcome = inr (e, is);
  }
  Tried-Tries result w' policy {i} (again received v v' came retry left waited rest) =
      let tries = Tried-Tries result w' policy rest in
      let retried = ap (λ f. (f (wire.context_error v) received).0) (sym policy) ∙ retry in
      record {
        earlier = received ∷ tries.earlier;
        final = tries.final;
        sent = more received v v' came waited tries.sent;
        retryable =
            (((check_retry_iff (wire.context_error v) received).0.0 retried).1, tries.retryable);
        bounded = omega (arith, below-pos_part i s.retry_max left, tries.bounded);
        outcome = tries.outcome;
      }

-- No response is returned.
abbrev pub NotReturned : Attempt Answer → Type 0
NotReturned (returned r) = 1 ≤ 0
NotReturned (failed e) = Unit
NotReturned panicked = Unit

final-IsAccepted :
    (answer : Attempt Answer) (received final : Received)
    → ((r : Answer) → answer ≡ returned r → IsAccepted received)
    → (received ≡ final) ⊎ ((e : Text) × (received ≡ no_response e))
    → IsAccepted final ⊎ NotReturned answer
final-IsAccepted (failed e) received final ok h = inr tt
final-IsAccepted panicked received final ok h = inr tt
final-IsAccepted (returned r) received final ok (inl same) = inl (subst IsAccepted same (ok r refl))
final-IsAccepted (returned r) received final ok (inr (e, is)) =
    let accepted = ok r refl in let no : 1 ≤ 0 = cc (is, accepted.is_response) in elim no [ ]

module _ (gobreaker : Gobreaker) (transport : Transport) where
  open transport use {World, from_request, send, wire}

  -- What a call has sent, and what it returned for it.
  pub record Exchange (s : RetrySettings) (req : OutgoingRequest) (answer : Attempt Answer)
      (w w' : World) : Type 0 where
    pub earlier : List Received
    pub final : Received
    pub sent : Sent wire s req w' 0 earlier final w
    pub retryable : All IsRetryable earlier
    pub bounded : length earlier ≤ pos_part s.retry_max
    pub outcome : IsAccepted final ⊎ NotReturned answer

  not_returned : (answer : Attempt Answer) (e : Text) → answer ≡ failed e → NotReturned answer
  not_returned answer e h = subst NotReturned (sym h) tt

  cancelled :
      (call : Call) (req : OutgoingRequest) (c : Client gobreaker transport) (w : World) (e : Text)
      → call.done_before ≡ some e
      → ((send_request gobreaker transport call req c w).2 ≡ w)
        × ((send_request gobreaker transport call req c w).0 ≡ failed e)
  unfolding send_request execute_context finish
  cancelled call req c w e h = (ground (arith, h), ground (arith, h))

  fetch-sent :
      (s : RetrySettings) (req : OutgoingRequest) (w : World)
      → from_request req ≡ none
      → (fetch gobreaker transport s req w).1 ≡ (send s req w).1
  unfolding fetch
  fetch-sent s req w h = ground (arith, h)

  fetch-unsent :
      (s : RetrySettings) (req : OutgoingRequest) (w : World) (e : Text)
      → from_request req ≡ some e
      → ((fetch gobreaker transport s req w).1 ≡ w)
        × ((e' : Text) × ((fetch gobreaker transport s req w).0 ≡ failed e'))
  unfolding fetch
  fetch-unsent s req w e h =
      (ground (arith, h), (lit "failed to create retryable request: " ++ e, ground (arith, h)))

  -- A call of Do of a client made by New either sends nothing and returns no response, or it sends the request at
  -- most once more than RetryMax says: each time but the last nothing came or the status was 408, 429 or at least
  -- 500, and Do waited for the time of Backoff; and where Do returns a response, the last answer had a status from 200
  -- to 299 and a body of known length that was read.
  pub send_request_tries :
      (config : Config gobreaker transport) (call : Call) (req : OutgoingRequest)
      (c : Client gobreaker transport) (w : World)
      → c.client ≡ (new gobreaker transport config).client
      → let (answer, _, w') = send_request gobreaker transport call req c w in
        ((w' ≡ w) × NotReturned answer) ⊎ Exchange c.client req answer w w'
  unfolding execute new
  send_request_tries config call req c w made = elim (Option-cases call.done_before) [
    | inr (e, done) ↦
        let (same, told) = cancelled call req c w e done in inl (same, not_returned _ e told)
    | inl undone ↦ elim (Option-cases (gobreaker.refusal call.started c.cb.circuit)) [
      | inr (e, shut) ↦
          let (told, same) =
            gobreaker.execute_refused call.started (fetch gobreaker transport c.client req)
              c.cb.circuit w e shut in
          let (e', answer) = fails-with gobreaker transport call req c w e undone (told) in
          inl (world-of gobreaker transport call req c w undone ∙ same, not_returned _ e' answer)
      | inl accepted ↦
          let (told, ran) =
            gobreaker.execute_accepted call.started (fetch gobreaker transport c.client req)
              c.cb.circuit w accepted in
          let world = world-of gobreaker transport call req c w undone ∙ ran in
          elim (Option-cases (from_request req)) [
            | inr (e, bad) ↦
                let (same, (e', failed_so)) = fetch-unsent c.client req w e bad in
                let (e'', answer) =
                  fails-with gobreaker transport call req c w e' undone (told ∙ failed_so) in
                inl (world ∙ same, not_returned _ e'' answer)
            | inl bodied ↦
                let policy = ap (λ s. s.check_retry) made ∙ refl in
                let tries =
                  Tried-Tries wire c.client req (send c.client req w).0 (send c.client req w).1
                    policy (transport.send_tried c.client req w) in
                inr (record {
                  earlier = tries.earlier;
                  final = tries.final;
                  sent =
                      subst (λ v. Sent wire c.client req v 0 tries.earlier tries.final w)
                        (sym (world ∙ fetch-sent c.client req w bodied)) tries.sent;
                  retryable = tries.retryable;
                  bounded = omega (arith, tries.bounded);
                  outcome =
                      final-IsAccepted _ _ tries.final
                        (λ r h. (send_request_sound gobreaker transport call req c w r h).1)
                        tries.outcome;
                })
          ]
    ]
  ]
