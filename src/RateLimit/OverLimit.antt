-- ===== src/RateLimit/OverLimit.antt =====
-- What the middleware of internal/ratelimit/ratelimit.go does with a request, by the count in Redis.
use aquatiq_root.Common.{
  sym, ℕ, suc, ◌+◌, ◌≤◌, ◌<◌, Text, lit, ◌≡◌, ◌⊎◌, refl, ◌∙◌, ap, true, false, some, [], ◌∷◌, ◌++◌,
  arith, length, Bool-cases, inl, inr, leb, if◌then◌else◌,
}
use aquatiq_root.Common.Int.{decimal_ℤ}
use aquatiq_root.Http.{set_header, Request, Writer, Handler}
use aquatiq_root.Audit.{Log, Line, error_level, get_ip_address, log_rate_limit_exceeded}
use aquatiq_root.Audit.Shown.{Shows, mask_ip-Shows}
use aquatiq_root.Audit.Lines.{entry, log_event-entry}
use aquatiq_root.Redis.{Client, ok}
use aquatiq_root.RateLimit.Bucket.{Rate}
use aquatiq_root.RateLimit.Limiter.{window_key, minute_of, Limiter, middleware, get_limit}
use aquatiq_root.RateLimit.Window.{
  Tier, global_tier, admin_tier, name, ask, quota, ask-counted, same,
}
use aquatiq_root.RateLimit.Answers.{
  decide, decide-global, decide-admin, middleware_granted, middleware_refused,
  middleware-refused_once,
}

-- The line of a request that a tier refused.
pub record Tells (r : Request) (tier : Text) (line : Line) : Type 0 where
  pub severity : line.severity ≡ error_level
  pub action : line.event.action ≡ lit "rate_limit_exceeded"
  pub success : line.event.success ≡ false
  pub resource : line.event.resource ≡ r.path
  pub limit : line.event.details ≡ ("limit", tier) ∷ []
  pub masked : Shows (get_ip_address r) line.event.ip_address

log_rate_limit_exceeded-Tells :
    (now : ℕ) (r : Request) (tier : Text) (log : Log)
    → (line : Line) × (log_rate_limit_exceeded now r tier log ≡ log ++ line ∷ [])
      × Tells r tier line
unfolding log_rate_limit_exceeded entry
log_rate_limit_exceeded-Tells now r tier log = (
  _,
  log_event-entry _ log,
  record {
    severity = refl;
    action = refl;
    success = refl;
    resource = refl;
    limit = refl;
    masked = mask_ip-Shows (get_ip_address r);
  },
)

module _ (rate : Rate) (redis : Client) (clock : ℕ → ℕ) (minute : ℕ)
    (in_minute : (n : ℕ) → minute_of (clock n) ≡ minute)
    (works : (k : Text) (s : redis.Server) → (n : ℕ) × ((redis.incr k s).0 ≡ ok n)) where
  open redis use {Server, count}

  decide-ask :
      (t : Tier) (l : Limiter rate redis)
      → decide rate redis clock (name t) l ≡ ask rate redis clock t l
  decide-ask global_tier l = decide-global rate redis clock l
  decide-ask admin_tier l = decide-admin rate redis clock l

  -- How often the tier was asked in the minute.
  abbrev pub asked : Tier → Server → ℕ
  asked t s = count s (window_key (name t) minute)

  counted_itself : (t : Tier) (n m : ℕ) → (if same t t then n else m) ≡ n
  counted_itself global_tier n m = refl
  counted_itself admin_tier n m = refl

  -- A limiter over Redis whose increments do not fail, with a log and a fresh writer: where the tier was asked less
  -- often in this minute than sixty times its limit, the next handler has the request, with nothing logged before it;
  -- else that handler is not called, the answer is 429 with one body, and the log has one line more, which tells the path, the
  -- tier and the masked address. The request is counted either way, on the server that the limiter goes on with.
  pub middleware_over_limit :
      (t : Tier) (r : Request) (w : Writer) (s : Server) (l : Limiter rate redis) (log : Log)
      (next next' : Handler (Limiter rate redis))
      → l.distributed ≡ true
      → l.cache ≡ some s
      → l.audit ≡ some log
      → w.status ≡ 0
      → w.written ≡ []
      → let (w', l') = middleware rate redis clock (name t) next r w l in
        (after : Server) × (asked t after ≡ asked t s + 1)
        × (((asked t s < quota rate redis clock t l)
              × (given : Limiter rate redis) × (given.audit ≡ some log)
              × (given.cache ≡ some after)
              × ((w', l')
                  ≡ next r
                      (set_header "X-RateLimit-Limit"
                        (decimal_ℤ (get_limit rate redis (name t) given))
                        w)
                      given))
            ⊎ ((quota rate redis clock t l ≤ asked t s)
                × ((w', l') ≡ middleware rate redis clock (name t) next' r w l)
                × (w'.status ≡ 429)
                × (length w'.written ≡ 1)
                × (l'.cache ≡ some after)
                × (line : Line) × (l'.audit ≡ some (log ++ line ∷ []))
                × Tells r (name t) line))
  middleware_over_limit t r w s l log next next' d c a sent bare =
      let (after, e, counts, _) = ask-counted rate redis clock minute in_minute works t s l d c in
      let l' = record l { cache = some after; readings = suc l.readings } in
      let same_decision = decide-ask t l ∙ e in
      (
        after,
        counts t ∙ counted_itself t _ _,
        elim (Bool-cases (leb (asked t s + 1) (quota rate redis clock t l))) [
          | inl within ↦
              let yes_said = ap (λ p. p.0) same_decision ∙ within in
              inl (
                ground (arith, within),
                l',
                a,
                refl,
                middleware_granted rate redis clock (name t) next r w l yes_said
                    ∙ ap
                        (λ p.
                          next r
                            (set_header "X-RateLimit-Limit"
                              (decimal_ℤ (get_limit rate redis (name t) p.1)) w)
                            p.1)
                        same_decision,
              )
          | inr over ↦
              let no_said = ap (λ p. p.0) same_decision ∙ over in
              let left = ap (λ p. p.1) same_decision in
              let (status, once, logged, cached) =
                middleware-refused_once rate redis clock (name t) r w l log next no_said
                  (ap (λ (k : Limiter rate redis). k.audit) left ∙ a) sent bare in
              let (line, told, tells) =
                log_rate_limit_exceeded-Tells
                  (clock (decide rate redis clock (name t) l).1.readings) r (name t) log in
              inr (
                ground (arith, over),
                middleware_refused rate redis clock (name t) next r w l no_said
                    ∙ sym (middleware_refused rate redis clock (name t) next' r w l no_said),
                status,
                once,
                cached ∙ ap (λ (k : Limiter rate redis). k.cache) left,
                line,
                logged ∙ ap (λ t. some t) told,
                tells,
              )
        ],
      )
