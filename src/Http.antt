-- ===== src/Http.antt =====
-- What the gateway uses of net/http: the parts of a request that its code reads, the response writer
-- that its handlers write to, and handlers over a state `S`.
use aquatiq_root.Common.{ℕ, String, Text, Option, List, [], ◌∷◌, ◌++◌, if◌then◌else◌, ◌==◌}

-- `header n` is `r.Header.Get(n)` and `query n` is `r.URL.Query().Get(n)`: the first value of the
-- name, or "". The context holds at most a string under "actor" and under "request_id".
pub record Request : Type 0 where
  pub method : Text
  pub path : Text
  pub header : String → Text
  pub query : String → Text
  pub remote_addr : Text
  pub actor : Option Text
  pub request_id : Option Text

-- `r.UserAgent()`.
abbrev pub user_agent : Request → Text
user_agent r = r.header "User-Agent"

-- The bodies that the code writes: literal bytes, or the JSON of a map of strings.
pub data Body : Type 0 where
  raw : Text → Body
  json : List (String × Text) → Body

-- A response writer. `status` is what the first `WriteHeader` sent, and 0 before it.
pub record Writer : Type 0 where
  pub headers : List (String × Text)
  pub status : ℕ
  pub written : List Body

abbrev pub fresh : Writer
fresh = record { headers = []; status = 0; written = [] }

-- `w.Header().Set(name, v)`: the last value set for a name counts.
abbrev pub set_header : String → Text → Writer → Writer
set_header name v w = record w { headers = (name, v) ∷ w.headers }

-- `w.WriteHeader(code)`: only the first call counts.
abbrev pub write_header : ℕ → Writer → Writer
write_header code w = record w { status = if w.status == 0 then code else w.status }

-- `w.Write(b)`, which sends 200 where no status was sent.
abbrev pub write : Body → Writer → Writer
write b w = record w {
  status = if w.status == 0 then 200 else w.status;
  written = w.written ++ b ∷ [];
}

-- `next.ServeHTTP(w, r)`, over the state that the handlers share.
abbrev pub Handler : Type 0 → Type 0
Handler S = Request → Writer → S → Writer × S
