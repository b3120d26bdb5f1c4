-- ===== src/HttpClient/Tests.antt =====
-- Runs of the HTTP client over a server that answers each request in one way, and its theorems there.
use aquatiq_root.Common.{
  ℕ, zero, suc, Text, lit, ◌≡◌, refl, Option, none, some, [], ◌∷◌, arith, ◌⊎◌,
}
use aquatiq_root.Common.Int.{ℤ, pos, negsuc}
use aquatiq_root.Common.Attempt.{returned, panicked}
use aquatiq_root.CircuitBreaker.Opening.{new-IsClosed}
use aquatiq_root.CircuitBreaker.Simple.{simple, breaker, twice}
use aquatiq_root.HttpClient.Policy.{
  Response, Received, check_retry, exponential, backoff, response, OutgoingRequest, Transport,
}
use aquatiq_root.HttpClient.{read_body, checked, Call, Config, Client, new, fetch, send_request}
use aquatiq_root.HttpClient.Simple.{try_from, transport}
use aquatiq_root.HttpClient.Tries.{NotReturned, Exchange, send_request_tries}
use aquatiq_root.HttpClient.Outage.{AllFailed, send_all, outage_stops_requests}
use aquatiq_root.HttpClient.Retry.{Names, backoff_exact}
use aquatiq_root.HttpClient.Calls.{send_request_unknown_length}

abbrev ok_response : Response
ok_response = record {
  status = 201;
  status_text = lit "201 Created";
  retry_after = [];
  content_length = pos 2;
  read = λ n. (lit "ab", none);
}

abbrev chunked : Response
chunked = record ok_response { content_length = negsuc 0 }

abbrev no_duration : Text → Option ℤ
no_duration _ = none

abbrev busy : Response
busy = record ok_response { status = 503; status_text = lit "503 Service Unavailable" }

-- Answers the first request with 503, and all others with one response.
abbrev trip : Response → ℕ → Received
trip resp zero = response busy
trip resp (suc n) = response resp

abbrev server : Response → Transport
server resp = transport (trip resp)

abbrev config : (resp : Response) → Config simple (server resp)
config resp = record {
  retry_max = pos 3;
  retry_wait_min = pos 1000;
  retry_wait_max = pos 30000;
  timeout = pos 5000;
  service_name = lit "visma";
  circuit_breaker = breaker;
  audit_logger = none;
}

abbrev client : (resp : Response) → Client simple (server resp)
client resp = record {
  client = record {
    retry_max = pos 3;
    retry_wait_min = pos 1000;
    retry_wait_max = pos 30000;
    timeout = pos 5000;
    check_retry = check_retry;
    backoff = backoff no_duration;
  };
  cb = breaker;
  audit = none;
  service_name = lit "visma";
}

abbrev call : Call
call = record { started = 1; ended = 3; logged = 4; done_before = none; done_first = none }

abbrev cancelled : Call
cancelled = record call { done_first = some (lit "context canceled") }

abbrev request : OutgoingRequest
request = record { method = lit "GET"; url = lit "/a"; path = lit "/a"; body = []; headers = [] }

abbrev no_error : Option Text
no_error = none

fetched :
    fetch simple (server ok_response) (client ok_response).client request 0
    ≡ (returned (lit "ab"), 2)
unfolding fetch checked read_body try_from check_retry lit
fetched = refl

waits : exponential (pos 1000000000) (pos 30000000000) 3 ≡ pos 8000000000
unfolding exponential
waits = refl

-- From the 34th doubling of a second on the product wraps around.
wraps : exponential (pos 1000000000) (pos 30000000000) 34 ≡ negsuc 1266874889709551615
unfolding exponential
wraps = refl

backoff_exact_example :
    let wait = backoff no_duration (pos 1000) (pos 30000) 5 (some ok_response) in
    ((named : Names no_duration (some ok_response)) × (wait ≡ named.duration))
    ⊎ ((¬ (Names no_duration (some ok_response))) × (wait ≡ pos 30000))
backoff_exact_example = backoff_exact no_duration 1000 30000 5 (some ok_response) (omega arith)

send_request_unknown_length_example :
    (send_request simple (server chunked) cancelled request (client chunked) 0).0 ≡ panicked
unfolding try_from check_retry
send_request_unknown_length_example =
    send_request_unknown_length simple (server chunked) cancelled request (client chunked) 0 chunked
      {n = 0} refl refl refl refl (omega arith) (omega arith) refl

send_request_tries_example :
    let (answer, _, w) =
      send_request simple (server ok_response) call request (client ok_response) 0 in
    ((w ≡ 0) × NotReturned answer)
    ⊎ Exchange simple (server ok_response) (client ok_response).client request answer 0 w
unfolding new
send_request_tries_example =
    send_request_tries simple (server ok_response) (config ok_response) call request
      (client ok_response) 0 refl

-- Answers every request with 503.
abbrev down : Transport
down = transport (λ _. response busy)

abbrev shielded : Client simple down
shielded = record {
  client = (client ok_response).client;
  cb = breaker;
  audit = none;
  service_name = lit "visma";
}

abbrev gone : Text
gone = lit "giving up"

outage_stops_requests_example :
    let before = send_all simple down ((call, request) ∷ []) shielded 0 in
    let (_, c, w) = send_request simple down call request before.1 before.2 in
    let (answers, _, w') = send_all simple down ((call, request) ∷ (call, request) ∷ []) c w in
    (w' ≡ w) × AllFailed answers
unfolding fetch checked read_body try_from check_retry aquatiq_root.CircuitBreaker.new
outage_stops_requests_example =
    outage_stops_requests simple down 0 twice ((call, request) ∷ []) call request
      ((call, request) ∷ (call, request) ∷ []) shielded 0 1 (new-IsClosed simple twice) (refl, tt)
      refl (refl, (refl, tt)) (tt, tt) tt ((gone, refl), ((gone, refl), tt)) refl refl (omega arith)
      (omega arith, (omega arith, tt))
