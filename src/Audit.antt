-- ===== src/Audit.antt =====
-- internal/audit/logger.go: the audit logger. The zap logger that it calls is the list of the entries that it was
-- handed, and `written` is what zap writes of them for its level; `time.Now()` is an argument, `now`, in nanoseconds.
pub mod Masking
pub mod Shown
pub mod Lines
mod Tests
use aquatiq_root.Common.{
  ℕ, ◌<◌, String, Text, lit, is_empty, length, take, ◌≡◌, Bool, true, false, Option, none, some,
  List, [], ◌∷◌, ◌++◌, if◌then◌else◌, ltb, leb, text_eq, not,
}
use aquatiq_root.Http.{Request, user_agent}

pub record AuditEvent : Type 0 where
  pub timestamp : ℕ
  pub action : Text
  pub actor : Text
  pub resource : Text
  pub success : Bool
  pub error : Text
  pub details : List (String × Text)
  pub ip_address : Text
  pub user_agent : Text
  pub duration : ℕ
  pub request_id : Text

-- The zero value, whose fields a composite literal overwrites.
abbrev pub zero_event : AuditEvent
zero_event = record {
  timestamp = 0;
  action = [];
  actor = [];
  resource = [];
  success = false;
  error = [];
  details = [];
  ip_address = [];
  user_agent = [];
  duration = 0;
  request_id = [];
}

pub data Severity : Type 0 where
  debug_level info_level warn_level error_level : Severity

-- An entry of the log: the severity, and the event whose JSON and fields it carries.
pub record Line : Type 0 where
  pub severity : Severity
  pub event : AuditEvent

abbrev pub Log : Type 0
Log = List Line

-- A `*AuditLogger` field, which may be nil.
abbrev pub Logger : Type 0
Logger = Option Log

-- maskIP
unfoldable pub mask_ip : Text → Text
mask_ip ip =
    if is_empty ip
    then lit "unknown"
    else if ltb 7 (length ip)
    then take 7 ip ++ lit ".xxx.xxx"
    else lit "masked"

-- getIPAddress
unfoldable pub get_ip_address : Request → Text
get_ip_address r =
    if is_empty (r.header "X-Forwarded-For")
    then (if is_empty (r.header "X-Real-IP") then r.remote_addr else r.header "X-Real-IP")
    else r.header "X-Forwarded-For"

-- getActorFromRequest
unfoldable pub get_actor_from_request : Request → Text
get_actor_from_request r = elim r.actor [ some a ↦ a | none ↦ mask_ip (get_ip_address r) ]

-- getRequestID
unfoldable pub get_request_id : Request → Text
get_request_id r = elim r.request_id [
  | some a ↦ a
  | none ↦ if is_empty (r.header "X-Request-ID") then [] else r.header "X-Request-ID"
]

-- LogEvent: an entry for zap, which may drop it.
unfoldable pub log_event : AuditEvent → Log → Log
log_event e log =
    let masked = record e { ip_address = mask_ip e.ip_address } in
    if e.success
    then log ++ record { severity = info_level; event = masked } ∷ []
    else log ++ record { severity = error_level; event = masked } ∷ []

-- `if a.audit != nil { a.audit.LogEvent(e) }`
unfoldable pub log_if_set : AuditEvent → Logger → Logger
log_if_set e none = none
log_if_set e (some log) = some (log_event e log)

-- `if err != nil { event.Error = err.Error() }`
abbrev pub set_error : Option Text → AuditEvent → AuditEvent
set_error none e = e
set_error (some message) e = record e { error = message }

-- LogHTTPRequest
unfoldable pub log_http_request : ℕ → Request → Text → Bool → Option Text → ℕ → Log → Log
log_http_request now r action success err duration log =
    log_event
      (set_error err (record zero_event {
        timestamp = now;
        action = action;
        actor = get_actor_from_request r;
        resource = r.path;
        success = success;
        ip_address = get_ip_address r;
        user_agent = user_agent r;
        duration = duration;
        request_id = get_request_id r;
      }))
      log

-- LogIntegrationCall
unfoldable pub log_integration_call : ℕ → Text → Text → Bool → Option Text → ℕ → Log → Log
log_integration_call now service operation success err duration log =
    log_event
      (set_error err (record zero_event {
        timestamp = now;
        action = lit "integration_" ++ (service ++ (lit "_" ++ operation));
        actor = lit "gateway";
        resource = service;
        success = success;
        duration = duration;
      }))
      log

-- LogTokenRefresh
unfoldable pub log_token_refresh : ℕ → Text → Bool → Option Text → Log → Log
log_token_refresh now service success err log =
    log_event
      (set_error err (record zero_event {
        timestamp = now;
        action = lit "token_refresh";
        actor = lit "gateway";
        resource = service;
        success = success;
      }))
      log

-- LogCircuitBreakerStateChange
unfoldable pub log_circuit_breaker_state_change : ℕ → Text → Text → Text → Log → Log
log_circuit_breaker_state_change now name from to log =
    log_event
      (record zero_event {
        timestamp = now;
        action = lit "circuit_breaker_state_change";
        actor = lit "gateway";
        resource = name;
        success = true;
        details = ("from", from) ∷ ("to", to) ∷ [];
      })
      log

-- LogRateLimitExceeded
unfoldable pub log_rate_limit_exceeded : ℕ → Request → Text → Log → Log
log_rate_limit_exceeded now r limit log =
    log_event
      (record zero_event {
        timestamp = now;
        action = lit "rate_limit_exceeded";
        actor = get_actor_from_request r;
        resource = r.path;
        success = false;
        ip_address = get_ip_address r;
        user_agent = user_agent r;
        details = ("limit", limit) ∷ [];
      })
      log

-- LogAuthFailure
unfoldable pub log_auth_failure : ℕ → Request → Text → Log → Log
log_auth_failure now r reason log =
    log_event
      (record zero_event {
        timestamp = now;
        action = lit "auth_failure";
        actor = lit "unknown";
        resource = r.path;
        success = false;
        ip_address = get_ip_address r;
        user_agent = user_agent r;
        error = reason;
      })
      log

-- The zap configuration that NewAuditLogger builds: development or production, the encoding, the level.
pub record ZapConfig : Type 0 where
  pub development : Bool
  pub json_encoding : Bool
  pub level : Severity

-- The switch on the level.
unfoldable pub severity_of : Text → Severity
severity_of level =
    if text_eq level (lit "debug")
    then debug_level
    else if text_eq level (lit "info")
    then info_level
    else if text_eq level (lit "warn")
    then warn_level
    else if text_eq level (lit "error")
    then error_level
    else info_level

-- NewAuditLogger: the configuration for a level. `config.Build` is zap's, and is not modelled.
unfoldable pub zap_config : Text → ZapConfig
zap_config level =
    let dev = text_eq level (lit "development") in
    record { development = dev; json_encoding = not dev; level = severity_of level }

abbrev pub rank : Severity → ℕ
rank debug_level = 0
rank info_level = 1
rank warn_level = 2
rank error_level = 3

-- What a zap logger of a level writes of the entries that it is handed: those of its level and above.
unfoldable pub written : Severity → Log → Log
written level [] = []
written level (l ∷ log) =
    let rest = written level log in if leb (rank level) (rank l.severity) then l ∷ rest else rest
