-- ===== src/HttpClient/Calls.antt =====
-- What a call of the client of pkg/httpclient/httpclient.go does.
use aquatiq_root.Common.{ℕ, ◌≤◌, Text, ◌≡◌, refl, ◌∙◌, Option-cases, inl, inr, none, arith}
use aquatiq_root.Common.Int.{ℤ, pos, negsuc}
use aquatiq_root.Common.Attempt.{Attempt, returned, failed, panicked}
use aquatiq_root.CircuitBreaker.{Gobreaker, execute, execute_context}
use aquatiq_root.CircuitBreaker.Calls.{execute_context_sound}
use aquatiq_root.HttpClient.Policy.{
  Response, Received, no_response, response, OutgoingRequest, RetrySettings, Transport,
}
use aquatiq_root.HttpClient.{
  read_body, checked, Answer, mock, Call, Client, fetch, finish, send_request,
}

-- A response is accepted with these bytes: its status is between 200 and 299, its length is known, and one
-- read of that length gave no error.
pub record IsAccepted (received : Received) : Type 0 where
  pub resp : Response
  pub n : ℕ
  pub is_response : received ≡ response resp
  pub success : (200 ≤ resp.status) × (resp.status ≤ 299)
  pub sized : resp.content_length ≡ pos n
  pub no_error : (resp.read n).1 ≡ none

read_body-returned :
    (max_alloc : ℕ) (resp : Response) (body : Text) (length : ℤ)
    → resp.content_length ≡ length
    → read_body max_alloc resp ≡ returned body
    → (n : ℕ) × (resp.content_length ≡ pos n) × ((resp.read n).1 ≡ none)
unfolding read_body
read_body-returned max_alloc resp body (pos n) e h = (n, e, ground (arith, e, h))
read_body-returned max_alloc resp body (negsuc n) e h = ground (arith, e, h)

checked-IsAccepted :
    (max_alloc : ℕ) (received : Received) (body : Text)
    → checked max_alloc received ≡ returned body
    → IsAccepted received
unfolding checked
checked-IsAccepted max_alloc (no_response e) body h = cc h
checked-IsAccepted max_alloc (response resp) body h =
    let (n, sized, quiet) =
      read_body-returned max_alloc resp body resp.content_length refl (ground (arith, h)) in
    record {
      resp = resp;
      n = n;
      is_response = refl;
      success = (ground (arith, h), ground (arith, h));
      sized = sized;
      no_error = quiet;
    }

module _ (gobreaker : Gobreaker) (transport : Transport) where
  open transport use {World, max_alloc, from_request, send}

  -- The finish of a call returns a response only for a value.
  finish-returned :
      (call : Call) (req : OutgoingRequest) (answer : Attempt Text) (c : Client gobreaker transport)
      (r : Answer)
      → (finish gobreaker transport call req answer c).0 ≡ returned r
      → (r ≡ mock) × (body : Text) × (answer ≡ returned body)
  unfolding finish
  finish-returned call req (returned body) c r h = (ground (arith, h), body, refl)
  finish-returned call req (failed e) c r h = cc h
  finish-returned call req panicked c r h = cc h

  -- The breaker's answer is an error: there is no response.
  pub fails-with :
      (call : Call) (req : OutgoingRequest) (c : Client gobreaker transport) (w : World) (e : Text)
      → call.done_before ≡ none
      → (execute gobreaker call.started (fetch gobreaker transport c.client req) c.cb w).0
        ≡ failed e
      → (e' : Text) × ((send_request gobreaker transport call req c w).0 ≡ failed e')
  unfolding send_request execute_context finish
  fails-with call req c w e undone h = elim (Option-cases call.done_first) [
    | inl first ↦ (e, ground (arith, undone, h, first))
    | inr (x, first) ↦ (x, ground (arith, undone, h, first))
  ]

  pub world-of :
      (call : Call) (req : OutgoingRequest) (c : Client gobreaker transport) (w : World)
      → call.done_before ≡ none
      → (send_request gobreaker transport call req c w).2
        ≡ (execute gobreaker call.started (fetch gobreaker transport c.client req) c.cb w).2
  unfolding send_request execute_context
  world-of call req c w undone = ground (arith, undone)

  fetch-accepted :
      (s : RetrySettings) (req : OutgoingRequest) (w : World) (body : Text)
      → (fetch gobreaker transport s req w).0 ≡ returned body
      → (from_request req ≡ none) × (checked max_alloc (send s req w).0 ≡ returned body)
  unfolding fetch
  fetch-accepted s req w body h = (ground (arith, h), ground (arith, h))

  panics :
      (s : RetrySettings) (req : OutgoingRequest) (w : World) (resp : Response) {n : ℕ}
      → from_request req ≡ none
      → (send s req w).0 ≡ response resp
      → 200 ≤ resp.status
      → resp.status ≤ 299
      → resp.content_length ≡ negsuc n
      → (fetch gobreaker transport s req w).0 ≡ panicked
  unfolding fetch checked read_body
  panics s req w resp bodied sent low high unknown =
      ground (arith, bodied, sent, low, high, unknown)

  -- Where Do returns a response, it is the fixed 200 OK without a body, whatever the server sent;
  -- and the server did answer the request, sent once to the retrying client, with a status from 200
  -- to 299 and a body of known length that was read without an error.
  pub send_request_sound :
      (call : Call) (req : OutgoingRequest) (c : Client gobreaker transport) (w : World)
      (r : Answer)
      → (send_request gobreaker transport call req c w).0 ≡ returned r
      → (r ≡ mock)
        × IsAccepted (send c.client req w).0
        × ((send_request gobreaker transport call req c w).2
            ≡ (fetch gobreaker transport c.client req w).1)
  unfolding send_request
  send_request_sound call req c w r h =
      let (fixed, body, got) = finish-returned call req _ _ r h in
      let (_, _, ran, world) =
        execute_context_sound gobreaker call.started (fetch gobreaker transport c.client req) c.cb w
          call.done_before call.done_first body got in
      (fixed, checked-IsAccepted max_alloc _ body (fetch-accepted c.client req w body ran).1, world)

  -- A successful response of unknown length, such as a chunked one, ends the program: where the breaker
  -- accepts the call, its context is not done before and FromRequest has no error, Do panics in a
  -- goroutine, also where the context is done first.
  pub send_request_unknown_length :
      (call : Call) (req : OutgoingRequest) (c : Client gobreaker transport) (w : World)
      (resp : Response) {n : ℕ}
      → call.done_before ≡ none
      → gobreaker.refusal call.started c.cb.circuit ≡ none
      → from_request req ≡ none
      → (send c.client req w).0 ≡ response resp
      → 200 ≤ resp.status
      → resp.status ≤ 299
      → resp.content_length ≡ negsuc n
      → (send_request gobreaker transport call req c w).0 ≡ panicked
  unfolding send_request execute_context execute finish
  send_request_unknown_length call req c w resp undone accepted bodied sent low high unknown =
      let crash : (fetch gobreaker transport c.client req w).0 ≡ panicked =
        panics c.client req w resp bodied sent low high unknown in
      let (same, _) =
        gobreaker.execute_accepted call.started (fetch gobreaker transport c.client req)
          c.cb.circuit w accepted in
      ground (arith, undone, same ∙ crash)
