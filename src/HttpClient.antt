-- ===== src/HttpClient.antt =====
-- pkg/httpclient/httpclient.go: the HTTP client with retries and a circuit breaker, over hashicorp's
-- go-retryablehttp.
use aquatiq_root.Common.{
  ℕ, ◌+◌, ◌-◌, ◌*◌, ◌%◌, ◌^◌, Text, lit, ◌≡◌, Bool, true, false, ◌||◌, ◌&&◌, not, String, Option,
  none, some, List, [], ◌∷◌, ◌++◌, if◌then◌else◌, ltb, leb, ◌==◌, length, replicate, is_empty,
}
use aquatiq_root.Common.Int.{ℤ, pos, negsuc, ltb_ℤ, decimal}
use aquatiq_root.Common.Words.{bits_64, signed_64}
use aquatiq_root.Audit.{Logger, Log, log_integration_call}
use aquatiq_root.Common.Attempt.{Attempt, returned, failed, panicked}
use aquatiq_root.CircuitBreaker.{Gobreaker, CircuitBreaker, execute_context}
use aquatiq_root.HttpClient.Policy.{
  Response, Received, no_response, response, check_retry, backoff, OutgoingRequest, RetrySettings,
  Parsed, bad_url, with_path, Transport,
}
pub mod Policy
pub mod Retry
pub mod Tries
pub mod Outage
pub mod Simple
pub mod Calls
mod Tests

-- `body := make([]byte, resp.ContentLength)`, which panics for the length -1 of an unknown length and for a length that
-- is above the largest buffer `max_alloc`, and one Read, which may leave a rest of zeros.
unfoldable pub read_body : ℕ → Response → Attempt Text
read_body max_alloc resp = elim resp.content_length [
  | negsuc _ ↦ panicked
  | pos n ↦
      let (bytes, err) = resp.read n in
      if ltb max_alloc n then panicked else elim err [
        | some e ↦ failed (lit "failed to read response: " ++ e)
        | none ↦ returned (bytes ++ replicate (n - length bytes) 0)
      ]
]

-- The status check of Do.
unfoldable pub checked : ℕ → Received → Attempt Text
checked max_alloc (no_response e) = failed e
checked max_alloc (response resp) =
    if ltb resp.status 200 || leb 300 resp.status
    then failed (lit "HTTP error: " ++ (decimal resp.status ++ (lit " " ++ resp.status_text)))
    else read_body max_alloc resp

-- The response that Do returns: 200 OK, with http.NoBody.
pub record Answer : Type 0 where
  pub status : ℕ
  pub status_text : Text
  pub body : Text

abbrev pub mock : Answer
mock = record { status = 200; status_text = lit "200 OK"; body = [] }

-- When Do starts, ends and logs, and the errors of its context: before, and where it is done first.
pub record Call : Type 0 where
  pub started : ℕ
  pub ended : ℕ
  pub logged : ℕ
  pub done_before : Option Text
  pub done_first : Option Text

module _ (gobreaker : Gobreaker) (transport : Transport) where
  open transport use {World, parse_url, parse_duration, max_alloc, from_request, send}

  pub record Config : Type 0 where
    pub retry_max : ℤ
    pub retry_wait_min : ℤ
    pub retry_wait_max : ℤ
    pub timeout : ℤ
    pub service_name : Text
    pub circuit_breaker : CircuitBreaker gobreaker
    pub audit_logger : Logger

  -- The retrying client is its settings.
  pub record Client : Type 0 where
    pub client : RetrySettings
    pub cb : CircuitBreaker gobreaker
    pub audit : Logger
    pub service_name : Text

  -- New
  unfoldable pub new : Config → Client
  new config = record {
    client = record {
      retry_max = config.retry_max;
      retry_wait_min = config.retry_wait_min;
      retry_wait_max = config.retry_wait_max;
      timeout = config.timeout;
      check_retry = check_retry;
      backoff = backoff parse_duration;
    };
    cb = config.circuit_breaker;
    audit = config.audit_logger;
    service_name = config.service_name;
  }

  -- The function that Do runs in the breaker.
  unfoldable pub fetch : RetrySettings → OutgoingRequest → World → Attempt Text × World
  fetch settings req w = elim (from_request req) [
    | some e ↦ (failed (lit "failed to create retryable request: " ++ e), w)
    | none ↦ let (received, w') = send settings req w in (checked max_alloc received, w')
  ]

  -- The audit line of Do.
  unfoldable pub log_call : Call → OutgoingRequest → Option Text → Client → Client
  log_call call req err c = elim c.audit [
    | none ↦ c
    | some log ↦
        let success : Bool = elim err [ none ↦ true | some _ ↦ false ] in
        record c {
          audit = some (
              log_integration_call call.logged c.service_name (req.method ++ (lit " " ++ req.path))
                success err (call.ended - call.started) log);
        }
  ]

  -- What Do does with the breaker's answer. A panic ends the program.
  unfoldable pub finish : Call → OutgoingRequest → Attempt Text → Client → Attempt Answer × Client
  finish call req panicked c = (panicked, c)
  finish call req (returned _) c = (returned mock, log_call call req none c)
  finish call req (failed e) c = (failed e, log_call call req (some e) c)

  -- Do
  unfoldable pub send_request :
      Call → OutgoingRequest → Client → World → Attempt Answer × Client × World
  send_request call req c w =
      let (answer, cb, w') =
        execute_context gobreaker call.done_before call.done_first call.started (fetch c.client req)
          c.cb w in
      let (result, c') = finish call req answer (record c { cb = cb }) in (result, c', w')

  -- A request without a body: NewRequestWithContext is called with nil.
  unfoldable pub call_url :
      Text → List (String × Text) → Call → Text → Client → World → Attempt Answer × Client × World
  call_url method headers call url c w = elim (parse_url url) [
    | bad_url e ↦ (failed (lit "failed to create " ++ (method ++ (lit " request: " ++ e))), c, w)
    | with_path path ↦
        send_request call
          (record { method = method; url = url; path = path; body = []; headers = headers }) c w
  ]

  -- Get, Delete, Post and Put
  unfoldable pub get : Call → Text → Client → World → Attempt Answer × Client × World
  get = call_url (lit "GET") []

  unfoldable pub delete : Call → Text → Client → World → Attempt Answer × Client × World
  delete = call_url (lit "DELETE") []

  unfoldable pub post : Call → Text → Text → Text → Client → World → Attempt Answer × Client × World
  post call url body content_type =
      call_url (lit "POST") (("Content-Type", content_type) ∷ []) call url

  unfoldable pub put : Call → Text → Text → Text → Client → World → Attempt Answer × Client × World
  put call url body content_type =
      call_url (lit "PUT") (("Content-Type", content_type) ∷ []) call url
