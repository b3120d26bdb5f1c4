-- ===== src/Audit/Lines.antt =====
-- What the methods of the audit logger (internal/audit/logger.go) write, over any sequence of calls.
use aquatiq_root.Common.{
  leb, not, lit, text_eq, true, false, ◌||◌, ◌&&◌, ◌≤◌, ℕ, Text, ◌≡◌, refl, Bool, Option, List, [],
  ◌∷◌, ◌++◌, if◌then◌else◌, Bool-cases, inl, inr,
}
use aquatiq_root.Http.{Request}
use aquatiq_root.Audit.Shown.{Shows}
use aquatiq_root.Audit.{
  get_ip_address, rank, severity_of, AuditEvent, info_level, error_level, Line, Log, mask_ip,
  log_event, log_http_request, log_integration_call, log_token_refresh,
  log_circuit_breaker_state_change, log_rate_limit_exceeded, log_auth_failure,
}

-- A call of one of the exported methods, with its arguments and the time at which it is made.
pub data Call : Type 0 where
  event : AuditEvent → Call
  http_request : ℕ → Request → Text → Bool → Option Text → ℕ → Call
  integration_call : ℕ → Text → Text → Bool → Option Text → ℕ → Call
  token_refresh : ℕ → Text → Bool → Option Text → Call
  circuit_breaker_state_change : ℕ → Text → Text → Text → Call
  rate_limit_exceeded : ℕ → Request → Text → Call
  auth_failure : ℕ → Request → Text → Call

unfoldable pub perform : Call → Log → Log
perform (event e) = log_event e
perform (http_request now r a s e d) = log_http_request now r a s e d
perform (integration_call now v o s e d) = log_integration_call now v o s e d
perform (token_refresh now v s e) = log_token_refresh now v s e
perform (circuit_breaker_state_change now n f t) = log_circuit_breaker_state_change now n f t
perform (rate_limit_exceeded now r l) = log_rate_limit_exceeded now r l
perform (auth_failure now r m) = log_auth_failure now r m

unfoldable pub perform_all : List Call → Log → Log
perform_all [] log = log
perform_all (c ∷ cs) log = perform_all cs (perform c log)

-- What a call is about: whether it succeeded, and the address that it is made for, if any.
abbrev pub succeeds : Call → Bool
succeeds (event e) = e.success
succeeds (http_request now r a s e d) = s
succeeds (integration_call now v o s e d) = s
succeeds (token_refresh now v s e) = s
succeeds (circuit_breaker_state_change now n f t) = true
succeeds (rate_limit_exceeded now r l) = false
succeeds (auth_failure now r m) = false

abbrev pub origin : Call → Text
origin (event e) = e.ip_address
origin (http_request now r a s e d) = get_ip_address r
origin (rate_limit_exceeded now r l) = get_ip_address r
origin (auth_failure now r m) = get_ip_address r
origin _ = []

-- The line of a call: an Info line for a success and an Error line for a failure, with the masked address.
pub record IsSafeLine (c : Call) (l : Line) : Type 0 where
  pub severity : l.severity ≡ (if succeeds c then info_level else error_level)
  pub masked : Shows (origin c) l.event.ip_address

abbrev pub Each : List Call → Log → Type 0
Each [] [] = Unit
Each (c ∷ cs) (l ∷ log) = IsSafeLine c l × Each cs log
Each [] (l ∷ log) = 1 ≤ 0
Each (c ∷ cs) [] = 1 ≤ 0

-- The calls that a logger of a level is to write: the failures alone at "warn" and "error", and else all.
abbrev pub quiet : Text → Bool
quiet level = text_eq level (lit "warn") || text_eq level (lit "error")

abbrev pub heard : Text → List Call → List Call
heard level [] = []
heard level (c ∷ cs) = if quiet level && succeeds c then heard level cs else c ∷ heard level cs

unfoldable pub entry : AuditEvent → Line
entry e = record {
  severity = if e.success then info_level else error_level;
  event = record e { ip_address = mask_ip e.ip_address };
}

pub log_event-entry : (e : AuditEvent) (log : Log) → log_event e log ≡ log ++ entry e ∷ []
unfolding log_event entry
log_event-entry e log = elim (Bool-cases e.success) [ inl h ↦ rw h refl | inr h ↦ rw h refl ]

-- One entry more, and that is the line of the call.
abbrev Writes : Call → (Log → Log) → Type 0
Writes c m = (log : Log) → (l : Line) × (m log ≡ log ++ l ∷ []) × IsSafeLine c l

-- A logger of the level writes a line of a call exactly if the call is to be written.
abbrev IsHeard : Bool → Text → Type 0
IsHeard b level =
    leb (rank (severity_of level)) (rank (if b then info_level else error_level))
    ≡ not (quiet level && b)
