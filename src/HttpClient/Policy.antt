-- ===== src/HttpClient/Policy.antt =====
-- The retries of pkg/httpclient/httpclient.go: what New sets in hashicorp's go-retryablehttp, and what that package
-- does with it.
use aquatiq_root.Common.{
  ℕ, suc, ◌*◌, ◌%◌, ◌^◌, Text, lit, ◌≡◌, Bool, true, false, ◌&&◌, not, String, Option, none, some,
  List, ◌++◌, if◌then◌else◌, leb, ◌==◌, is_empty,
}
use aquatiq_root.Common.Int.{ℤ, pos, ltb_ℤ}
use aquatiq_root.Common.Words.{bits_64, signed_64}

-- What the client reads of a response. `read n` is one call of `resp.Body.Read` on a buffer of `n`
-- bytes: what it read, and its error.
pub record Response : Type 0 where
  pub status : ℕ
  pub status_text : Text
  pub retry_after : Text
  pub content_length : ℤ
  pub read : ℕ → Text × Option Text

pub data Received : Type 0 where
  no_response : Text → Received
  response : Response → Received

-- The CheckRetry of New, for the error of the context and what came: whether to try again, and the error.
unfoldable pub check_retry : Option Text → Received → Bool × Option Text
check_retry (some ctx_err) received = (false, some ctx_err)
check_retry none (no_response err) = (true, none)
check_retry none (response resp) =
    if leb 500 resp.status
    then (true, none)
    else if resp.status == 429
    then (true, none)
    else if resp.status == 408
    then (true, none)
    else (false, none)

-- `min * time.Duration(1<<uint(attemptNum))`, capped.
unfoldable pub exponential : ℤ → ℤ → ℕ → ℤ
exponential low high attempt =
    let wait = signed_64 (bits_64 low * 2 ^ attempt % 2 ^ 64) in
    if ltb_ℤ high wait then high else wait

-- The Backoff of New, where `parse_duration` is time.ParseDuration.
unfoldable pub backoff : (Text → Option ℤ) → ℤ → ℤ → ℕ → Option Response → ℤ
backoff parse_duration low high attempt none = exponential low high attempt
backoff parse_duration low high attempt (some resp) =
    if resp.status == 429 && not (is_empty resp.retry_after)
    then elim (parse_duration (resp.retry_after ++ lit "s")) [
      | some duration ↦ duration
      | none ↦ exponential low high attempt
    ]
    else exponential low high attempt

pub record OutgoingRequest : Type 0 where
  pub method : Text
  pub url : Text
  pub path : Text
  pub body : Text
  pub headers : List (String × Text)

-- What New sets in the retrying client.
pub record RetrySettings : Type 0 where
  pub retry_max : ℤ
  pub retry_wait_min : ℤ
  pub retry_wait_max : ℤ
  pub timeout : ℤ
  pub check_retry : Option Text → Received → Bool × Option Text
  pub backoff : ℤ → ℤ → ℕ → Option Response → ℤ

-- The calls of net/http, time and retryablehttp: `parse_url` gives the path of a URL or an error of
-- NewRequestWithContext, `max_alloc` the length of
-- the longest buffer that make gives, `from_request` the error of FromRequest, `round_trip` is one request of the
-- standard client with its time-out, `context_error` the error of the request's context, and `pause` a wait that the
-- context may end with its error.
pub data Parsed : Type 0 where
  bad_url : Text → Parsed
  with_path : Text → Parsed

pub record Wire : Type 1 where
  pub World : Type 0
  pub parse_url : Text → Parsed
  pub parse_duration : Text → Option ℤ
  pub max_alloc : ℕ
  pub from_request : OutgoingRequest → Option Text
  pub round_trip : ℤ → OutgoingRequest → World → Received × World
  pub context_error : World → Option Text
  pub pause : ℤ → World → Option Text × World

abbrev pub resp_of : Received → Option Response
resp_of (no_response e) = none
resp_of (response resp) = some resp

module _ (wire : Wire) (s : RetrySettings) (req : OutgoingRequest) where
  open wire use {World, round_trip, context_error, pause}

  -- What the documentation says of the retrying client's `Do`, from try `i` on: it asks CheckRetry after each try; it
  -- returns the response where there is none to come and no error, gives an error where CheckRetry has one or RetryMax
  -- tries have followed the first, and else waits for the time of Backoff, which the context may end, and tries again.
  pub data Tried (result : Received) (w' : World) : ℕ → World → Type 0 where
    answered :
        {i : ℕ} {w : World} (resp : Response)
        → round_trip s.timeout req w ≡ (response resp, w')
        → s.check_retry (context_error w') (response resp) ≡ (false, none)
        → result ≡ response resp
        → Tried result w' i w
    stopped :
        {i : ℕ} {w : World} (received : Received) (e e' : Text)
        → round_trip s.timeout req w ≡ (received, w')
        → s.check_retry (context_error w') received ≡ (false, some e)
        → result ≡ no_response e'
        → Tried result w' i w
    not_answered :
        {i : ℕ} {w : World} (e e' : Text)
        → round_trip s.timeout req w ≡ (no_response e, w')
        → s.check_retry (context_error w') (no_response e) ≡ (false, none)
        → result ≡ no_response e'
        → Tried result w' i w
    gave_up :
        {i : ℕ} {w : World} (received : Received) (e : Text)
        → round_trip s.timeout req w ≡ (received, w')
        → (s.check_retry (context_error w') received).0 ≡ true
        → ltb_ℤ (pos i) s.retry_max ≡ false
        → result ≡ no_response e
        → Tried result w' i w
    interrupted :
        {i : ℕ} {w : World} (received : Received) (v : World) (e : Text)
        → round_trip s.timeout req w ≡ (received, v)
        → (s.check_retry (context_error v) received).0 ≡ true
        → ltb_ℤ (pos i) s.retry_max ≡ true
        → pause (s.backoff s.retry_wait_min s.retry_wait_max i (resp_of received)) v ≡ (some e, w')
        → result ≡ no_response e
        → Tried result w' i w
    again :
        {i : ℕ} {w : World} (received : Received) (v v' : World)
        → round_trip s.timeout req w ≡ (received, v)
        → (s.check_retry (context_error v) received).0 ≡ true
        → ltb_ℤ (pos i) s.retry_max ≡ true
        → pause (s.backoff s.retry_wait_min s.retry_wait_max i (resp_of received)) v ≡ (none, v')
        → Tried result w' (suc i) v'
        → Tried result w' i w

pub record Transport : Type 1 where
  pub wire : Wire
  pub open wire use {
    World, parse_url, parse_duration, max_alloc, from_request, round_trip, context_error, pause,
  }
  pub send : RetrySettings → OutgoingRequest → World → Received × World
  pub send_tried :
      (s : RetrySettings) (req : OutgoingRequest) (w : World)
      → Tried wire s req (send s req w).0 (send s req w).1 0 w
