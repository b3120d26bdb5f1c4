-- ===== src/Auth/Verdict.antt =====
-- Who passes the middleware of internal/auth/apikey.go.
use aquatiq_root.Common.{
  is_over, ℕ, suc, Text, lit, is_empty, ◌≡◌, refl, ◌∙◌, ap, true, false, Option, none, some,
  if◌then◌else◌, ltb, arith, Bool-cases, Option-cases, inl, inr, ◌⊎◌,
}
use aquatiq_root.Common.Assoc.{lookup, IsIteration}
use aquatiq_root.Http.{Request, Writer, Handler}
use aquatiq_root.Auth.{
  ApiKey, Keys, Authenticator, extract_api_key, respond_unauthorized, record_failure,
  log_authenticated, is_expired, finish, middleware,
}
use aquatiq_root.Auth.Keys.{IsIndexed, validate_api_key-eq-lookup}

pub data Verdict : Type 0 where
  missing invalid expired : Verdict
  accepted : ApiKey → Verdict

abbrev judge_key : Option ApiKey → ℕ → Verdict
judge_key none now = invalid
judge_key (some k) now = if is_over k.expires_at now then expired else accepted k

-- What a presented key deserves, by the map and the time alone.
unfoldable pub judge : Keys → ℕ → Text → Verdict
judge m now presented = if is_empty presented then missing else judge_key (lookup presented m) now

-- The authenticator after the test of the expiry.
abbrev pub after_expiry : Option ℕ → Authenticator → Authenticator
after_expiry none a = a
after_expiry (some _) a = record a { readings = suc a.readings }

module _ (clock : ℕ → ℕ) where
  -- What the middleware does on a verdict.
  unfoldable pub answer : Verdict → Handler Authenticator → Handler Authenticator
  answer missing next r w a = (
    respond_unauthorized (lit "API key is required") w,
    record_failure clock r (lit "missing_api_key") a,
  )
  answer invalid next r w a = (
    respond_unauthorized (lit "Invalid API key") w,
    record_failure clock r (lit "invalid_api_key") a,
  )
  answer expired next r w a = (
    respond_unauthorized (lit "API key has expired") w,
    record_failure clock r (lit "expired_api_key") (record a { readings = suc a.readings }),
  )
  answer (accepted k) next r w a =
      next r w (log_authenticated clock k r (after_expiry k.expires_at a))

  finish-answer :
      (k : ApiKey) (next : Handler Authenticator) (r : Request) (w : Writer) (a : Authenticator)
      → finish clock next k r w a ≡ answer (judge_key (some k) (clock a.readings)) next r w a
  unfolding finish answer is_expired
  finish-answer k next r w a = elim (Option-cases k.expires_at) [
    | inl e ↦ simp e refl
    | inr (t, e) ↦ elim (Bool-cases (ltb t (clock a.readings))) [
      | inl h ↦ simp (e, h) refl
      | inr h ↦ simp (e, h) refl
    ]
  ]

  -- Whatever the order of the iteration over the map, the middleware answers a request by the verdict on
  -- the presented key: 401 with an audit line for the reason, or the next handler.
  pub middleware-answer :
      (m : Keys) (next : Handler Authenticator) (r : Request) (w : Writer) (a : Authenticator)
      → IsIndexed m
      → IsIteration a.keys m
      → middleware clock next r w a
        ≡ answer (judge m (clock a.readings) (extract_api_key r)) next r w a
  unfolding middleware judge
  middleware-answer m next r w a h it = elim (Bool-cases (is_empty (extract_api_key r))) [
    | inl e ↦ simp e (unfold answer in refl)
    | inr e ↦
        simp (e, validate_api_key-eq-lookup m a.keys (extract_api_key r) h it)
          (elim (Option-cases (lookup (extract_api_key r) m)) [
            | inl f ↦ simp f (unfold answer in refl)
            | inr (k, f) ↦ simp f (finish-answer k next r w a)
          ])
  ]

  keys-record_failure :
      (r : Request) (why : Text) (a : Authenticator) → (record_failure clock r why a).keys ≡ a.keys
  unfolding record_failure
  keys-record_failure r why a = ground arith

  keys-log_authenticated :
      (k : ApiKey) (r : Request) (a : Authenticator) → (log_authenticated clock k r a).keys ≡ a.keys
  unfolding log_authenticated
  keys-log_authenticated k r a = ground arith

  -- The next handler is called with the same writer, for a key that is in the map under the presented
  -- value, enabled and not over.
  abbrev pub Admits : Keys → Request → Writer → Authenticator → Type 0
  Admits m r w a =
      (k : ApiKey) × (a' : Authenticator) × (lookup (extract_api_key r) m ≡ some k)
      × (k.key ≡ extract_api_key r)
      × (k.enabled ≡ true)
      × (is_over k.expires_at (clock a.readings) ≡ false)
      × (a'.keys ≡ a.keys)
      × ((next : Handler Authenticator) → middleware clock next r w a ≡ next r w a')

  -- The answer is 401, and the next handler has no part in it.
  abbrev pub Blocks : Request → Writer → Authenticator → Type 0
  Blocks r w a =
      (w' : Writer) × (a' : Authenticator) × (w'.status ≡ 401)
      × (a'.keys ≡ a.keys)
      × ((next : Handler Authenticator) → middleware clock next r w a ≡ (w', a'))

  status-unauthorized :
      (message : Text) (w : Writer) → w.status ≡ 0 → (respond_unauthorized message w).status ≡ 401
  unfolding respond_unauthorized
  status-unauthorized message w e = ground arith

  keys-after_expiry : (e : Option ℕ) (a : Authenticator) → (after_expiry e a).keys ≡ a.keys
  keys-after_expiry none a = refl
  keys-after_expiry (some t) a = refl

  module _ (m : Keys) (r : Request) (w : Writer) (a : Authenticator) (h : IsIndexed m)
      (it : IsIteration a.keys m) (open_writer : w.status ≡ 0) where
    by_verdict :
        (v : Verdict)
        → judge m (clock a.readings) (extract_api_key r) ≡ v
        → Admits m r w a ⊎ Blocks r w a
    unfolding answer judge
    by_verdict missing e = inr (
      respond_unauthorized (lit "API key is required") w,
      record_failure clock r (lit "missing_api_key") a,
      status-unauthorized _ w open_writer,
      keys-record_failure r _ a,
      λ next. middleware-answer m next r w a h it ∙ ap (λ v. answer v next r w a) e,
    )
    by_verdict invalid e = inr (
      respond_unauthorized (lit "Invalid API key") w,
      record_failure clock r (lit "invalid_api_key") a,
      status-unauthorized _ w open_writer,
      keys-record_failure r _ a,
      λ next. middleware-answer m next r w a h it ∙ ap (λ v. answer v next r w a) e,
    )
    by_verdict expired e = inr (
      respond_unauthorized (lit "API key has expired") w,
      record_failure clock r (lit "expired_api_key") (record a { readings = suc a.readings }),
      status-unauthorized _ w open_writer,
      keys-record_failure r _ (record a { readings = suc a.readings }),
      λ next. middleware-answer m next r w a h it ∙ ap (λ v. answer v next r w a) e,
    )
    by_verdict (accepted k) e =
        let fact = accepted_key k e in
        inl (
          k,
          log_authenticated clock k r (after_expiry k.expires_at a),
          fact.0,
          (h.own (extract_api_key r) k fact.0).0,
          (h.own (extract_api_key r) k fact.0).1,
          fact.1,
          keys-log_authenticated k r (after_expiry k.expires_at a)
              ∙ keys-after_expiry k.expires_at a,
          λ next. middleware-answer m next r w a h it ∙ ap (λ v. answer v next r w a) e,
        )
      where
        accepted_key :
            (k : ApiKey)
            → judge m (clock a.readings) (extract_api_key r) ≡ accepted k
            → (lookup (extract_api_key r) m ≡ some k)
              × (is_over k.expires_at (clock a.readings) ≡ false)
        accepted_key k e = ground arith

    -- The middleware either calls the next handler, whatever handler that is, and then the presented
    -- value is in the map, enabled and not over by the clock; or it answers 401, whatever the next
    -- handler is, so that handler is not called. The keys stay as they were. `m` is the map, and the
    -- loop of the code may visit it in any order.
    pub middleware_decides : Admits m r w a ⊎ Blocks r w a
    middleware_decides = by_verdict (judge m (clock a.readings) (extract_api_key r)) refl
