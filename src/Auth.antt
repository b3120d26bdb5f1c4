-- ===== src/Auth.antt =====
-- internal/auth/apikey.go: authentication by API key. The map of the keys is an association list in
-- the order of an iteration; the clock is the sequence of the readings of `time.Now()`.
pub mod Keys
pub mod Verdict
pub mod Scopes
mod Tests
use aquatiq_root.Common.{
  ℕ, zero, suc, ◌-◌, ◌+◌, String, Text, lit, text_eq, is_empty, has_prefix, trim_prefix, ◌≡◌, Bool,
  true, false, not, ◌||◌, Option, none, some, List, [], ◌∷◌, ◌++◌, if◌then◌else◌, ltb, leb, ◌==◌,
  ◌&&◌,
}
use aquatiq_root.Common.Assoc.{lookup, insert, delete}
use aquatiq_root.Http.{
  Request, user_agent, Writer, Body, json, set_header, write_header, write, Handler,
}
use aquatiq_root.Audit.{Logger, AuditEvent, zero_event, log_if_set, log_auth_failure}

pub record ApiKey : Type 0 where
  pub key : Text
  pub name : Text
  pub description : Text
  pub created_at : ℕ
  pub expires_at : Option ℕ
  pub scopes : List Text
  pub enabled : Bool

abbrev pub Keys : Type 0
Keys = List (Text × ApiKey)

-- The authenticator, and how often the clock was read.
pub record Authenticator : Type 0 where
  pub keys : Keys
  pub audit : Logger
  pub readings : ℕ

-- The loop of NewAPIKeyAuthenticator.
unfoldable pub index_keys : List ApiKey → Keys → Keys
index_keys [] m = m
index_keys (k ∷ ks) m = index_keys ks (if k.enabled then insert k.key k m else m)

-- NewAPIKeyAuthenticator
unfoldable pub new_api_key_authenticator : List ApiKey → Logger → Authenticator
new_api_key_authenticator ks audit = record { keys = index_keys ks []; audit = audit; readings = 0 }

-- AddKey
unfoldable pub add_key : ApiKey → Authenticator → Authenticator
add_key k a = if k.enabled then record a { keys = insert k.key k a.keys } else a

-- RemoveKey
unfoldable pub remove_key : Text → Authenticator → Authenticator
remove_key k a = record a { keys = delete k a.keys }

pub record ApiKeyInfo : Type 0 where
  pub name : Text
  pub description : Text
  pub created_at : ℕ
  pub expires_at : Option ℕ
  pub scopes : List Text
  pub enabled : Bool

abbrev pub info_of : ApiKey → ApiKeyInfo
info_of k = record {
  name = k.name;
  description = k.description;
  created_at = k.created_at;
  expires_at = k.expires_at;
  scopes = k.scopes;
  enabled = k.enabled;
}

-- GetKeys
unfoldable pub get_keys : Keys → List ApiKeyInfo
get_keys [] = []
get_keys ((_, k) ∷ m) = info_of k ∷ get_keys m

-- extractAPIKey
unfoldable pub extract_api_key : Request → Text
extract_api_key r =
    if not (is_empty (r.header "X-API-Key"))
    then r.header "X-API-Key"
    else if has_prefix (r.header "Authorization") (lit "Bearer ")
    then trim_prefix (r.header "Authorization") (lit "Bearer ")
    else r.query "api_key"

-- validateAPIKey: the first key of the iteration that is equal. `subtle.ConstantTimeCompare` returns 1
-- exactly on equal bytes.
unfoldable pub validate_api_key : Keys → Text → Option ApiKey
validate_api_key [] k = none
validate_api_key ((_, key) ∷ m) k = if text_eq k key.key then some key else validate_api_key m k

-- The map that hasScopes builds from the scopes of the key.
unfoldable pub scope_set : List Text → List (Text × Bool) → List (Text × Bool)
scope_set [] m = m
scope_set (s ∷ ss) m = scope_set ss (insert s true m)

-- `keyScopes[scope]`, which is false where the key is missing.
abbrev pub has : Text → List (Text × Bool) → Bool
has s m = elim (lookup s m) [ none ↦ false | some b ↦ b ]

-- The second loop of hasScopes.
unfoldable pub all_required : List (Text × Bool) → List Text → Bool
all_required m [] = true
all_required m (s ∷ ss) = if not (has s m) then false else all_required m ss

-- hasScopes
unfoldable pub has_scopes : ApiKey → List Text → Bool
has_scopes k required = all_required (scope_set k.scopes []) required

-- The spaces of `strings.TrimSpace` in UTF-8, of one, two and three bytes: `unicode.IsSpace`.
abbrev pub is_space : ℕ → Bool
is_space c = (leb 9 c && leb c 13) || c == 32

abbrev pub is_space_2 : ℕ → ℕ → Bool
is_space_2 c d = c == 194 && (d == 133 || d == 160)

abbrev pub is_space_3 : ℕ → ℕ → ℕ → Bool
is_space_3 c d e =
    (c == 225 && (d == 154 && e == 128))
    || ((c == 226
          && (d == 128 && ((leb 128 e && leb e 138) || (e == 168 || (e == 169 || e == 175)))))
        || ((c == 226 && (d == 129 && e == 159)) || (c == 227 && (d == 128 && e == 128))))

-- How many bytes the space at the front of a text has; 0 where there is none.
unfoldable pub space_length : Text → ℕ
space_length [] = 0
space_length (c ∷ []) = if is_space c then 1 else 0
space_length (c ∷ d ∷ []) = if is_space c then 1 else if is_space_2 c d then 2 else 0
space_length (c ∷ d ∷ e ∷ s) =
    if is_space c then 1 else if is_space_2 c d then 2 else if is_space_3 c d e then 3 else 0

-- The text without the spaces at its front, of which some bytes are still to be dropped.
unfoldable pub trim_from : ℕ → Text → Text
trim_from n [] = []
trim_from (suc n) (c ∷ s) = trim_from n s
trim_from zero (c ∷ s) = elim (space_length (c ∷ s)) [ zero ↦ c ∷ s | suc n ↦ trim_from n s ]

unfoldable pub trim_left : Text → Text
trim_left = trim_from 0

unfoldable pub trim_right : Text → Text
trim_right [] = []
trim_right (c ∷ s) =
    let rest = trim_right s in if is_empty (trim_left (c ∷ s)) then [] else c ∷ rest

-- `strings.Split(xff, ",")[0]`
unfoldable pub before_comma : Text → Text
before_comma [] = []
before_comma (c ∷ s) = if c == b',' then [] else c ∷ before_comma s

-- getIPAddress
unfoldable pub get_ip_address : Request → Text
get_ip_address r =
    if not (is_empty (r.header "X-Forwarded-For"))
    then trim_right (trim_left (before_comma (r.header "X-Forwarded-For")))
    else if not (is_empty (r.header "X-Real-IP"))
    then r.header "X-Real-IP"
    else r.remote_addr

-- respondUnauthorized
unfoldable pub respond_unauthorized : Text → Writer → Writer
respond_unauthorized message w =
    write (json (("error", lit "unauthorized") ∷ ("message", message) ∷ [])) (
      write_header 401 (
        set_header "WWW-Authenticate" (lit "Bearer realm=\"API\"")
          (set_header "Content-Type" (lit "application/json") w)))

-- respondForbidden
unfoldable pub respond_forbidden : Text → Writer → Writer
respond_forbidden message w =
    write (json (("error", lit "forbidden") ∷ ("message", message) ∷ []))
      (write_header 403 (set_header "Content-Type" (lit "application/json") w))

-- `clock n` is the n-th reading of `time.Now()`.
module _ (clock : ℕ → ℕ) where
  -- logAuthFailure, which reads the clock in LogAuthFailure
  unfoldable pub record_failure : Request → Text → Authenticator → Authenticator
  record_failure r reason a = elim a.audit [
    | none ↦ a
    | some log ↦ record a {
      audit = some (log_auth_failure (clock a.readings) r reason log);
      readings = suc a.readings;
    }
  ]

  -- The audit event of an accepted request.
  unfoldable pub log_authenticated : ApiKey → Request → Authenticator → Authenticator
  log_authenticated k r a = elim a.audit [
    | none ↦ a
    | some log ↦ record a {
      audit =
          log_if_set
            (record zero_event {
              timestamp = clock a.readings;
              action = lit "api_key_authenticated";
              actor = k.name;
              resource = r.path;
              success = true;
              ip_address = get_ip_address r;
              user_agent = user_agent r;
            })
            a.audit;
      readings = suc a.readings;
    }
  ]

  -- `key.ExpiresAt != nil && time.Now().After(*key.ExpiresAt)`: the clock is read only where the key
  -- has a time.
  unfoldable pub is_expired : Option ℕ → Authenticator → Bool × Authenticator
  is_expired none a = (false, a)
  is_expired (some t) a = (ltb t (clock a.readings), record a { readings = suc a.readings })

  unfoldable pub finish : Handler Authenticator → ApiKey → Handler Authenticator
  finish next k r w a =
      let (expired, a') = is_expired k.expires_at a in
      if expired
      then (
        respond_unauthorized (lit "API key has expired") w,
        record_failure r (lit "expired_api_key") a',
      )
      else next r w (log_authenticated k r a')

  -- Middleware
  unfoldable pub middleware : Handler Authenticator → Handler Authenticator
  middleware next r w a =
      if is_empty (extract_api_key r)
      then (
        respond_unauthorized (lit "API key is required") w,
        record_failure r (lit "missing_api_key") a,
      )
      else elim (validate_api_key a.keys (extract_api_key r)) [
        | none ↦ (
          respond_unauthorized (lit "Invalid API key") w,
          record_failure r (lit "invalid_api_key") a,
        )
        | some k ↦ finish next k r w a
      ]

  -- RequireScopes
  unfoldable pub require_scopes : List Text → Handler Authenticator → Handler Authenticator
  require_scopes scopes next r w a = elim (validate_api_key a.keys (extract_api_key r)) [
    | none ↦ (respond_forbidden (lit "Access denied") w, a)
    | some k ↦
        if not (has_scopes k scopes)
        then (
          respond_forbidden (lit "Insufficient permissions") w,
          record_failure r (lit "insufficient_scopes") a,
        )
        else next r w a
  ]
