-- ===== src/Gateway/Requests.antt =====
-- What one request to cmd/gateway/main.go leaves counted, behind both limiters.
use aquatiq_root.Common.{
  ℕ, suc, ◌+◌, ◌*◌, ◌≤◌, Text, ◌≡◌, refl, ap, ◌∙◌, Bool, true, false, not, ◌&&◌, some, ◌⊎◌, inl,
  inr, leb, ◌==◌, arith, Bool-cases, leb→le,
}
use aquatiq_root.Common.Int.{pos_part, decimal_ℤ}
use aquatiq_root.Http.{set_header, Request, Writer, fresh}
use aquatiq_root.Redis.{Client, ok}
use aquatiq_root.RateLimit.Bucket.{Rate}
use aquatiq_root.RateLimit.Limiter.{minute_of, Limiter, log_violation, reject, global, get_limit}
use aquatiq_root.RateLimit.Window.{global_tier, admin_tier, quota, counted, ask-counted}
use aquatiq_root.RateLimit.Answers.{decide-global, middleware_refused, middleware_granted}
use aquatiq_root.Gateway.Server.{Payload, Route, route_of, routed, serve}
use aquatiq_root.Gateway.Counted.{
  is_admin, Inner, log_violation-keeps, reject-status, dispatch-Inner,
}

module _ (rate : Rate) (redis : Client) (clock : ℕ → ℕ) (encode : Payload → Text)
    (unrouted : Request → Writer → Writer) where
  module _ (minute : ℕ) (in_minute : (n : ℕ) → minute_of (clock n) ≡ minute)
      (works : (k : Text) (s : redis.Server) → (n : ℕ) × ((redis.incr k s).0 ≡ ok n)) where
    abbrev quota_of_bucket : rate.Bucket → ℕ
    quota_of_bucket b = pos_part (rate.limit b) * 60

    -- What one request does to the limiter: it is still shared, its quotas are the same, and its
    -- counts go up by the requests that were let through at least, which stayed within the quotas.
    pub record Step (route : Route) (s : redis.Server) (l : Limiter rate redis)
        (answer : Writer × Limiter rate redis) : Type 0 where
      pub after : redis.Server
      pub shared : answer.1.distributed ≡ true
      pub cached : answer.1.cache ≡ some after
      pub same_global :
          quota rate redis clock global_tier answer.1 ≡ quota rate redis clock global_tier l
      pub same_admin :
          quota rate redis clock admin_tier answer.1 ≡ quota rate redis clock admin_tier l
      pub global_counted :
          counted rate redis clock minute in_minute works global_tier after
          ≡ counted rate redis clock minute in_minute works global_tier s + 1
      pub global_within :
          (answer.0.status == 429) ≡ true
          ⊎ (counted rate redis clock minute in_minute works global_tier s + 1
              ≤ quota rate redis clock global_tier l)
      pub admin_counted :
          counted rate redis clock minute in_minute works admin_tier s
          ≤ counted rate redis clock minute in_minute works admin_tier after
      pub admin_within :
          (is_admin route && not (answer.0.status == 429)) ≡ false
          ⊎ (counted rate redis clock minute in_minute works admin_tier s + 1
                ≤ counted rate redis clock minute in_minute works admin_tier after
              × (counted rate redis clock minute in_minute works admin_tier s + 1
                  ≤ quota rate redis clock admin_tier l))

    -- The global limiter and the handler together.
    Inner-Step :
        (route : Route) (s mid : redis.Server) (l asked : Limiter rate redis)
        (answer : Writer × Limiter rate redis)
        → Inner rate redis clock encode unrouted minute in_minute works route mid asked answer
        → asked.global_limiter ≡ l.global_limiter
        → asked.admin_limiter ≡ l.admin_limiter
        → counted rate redis clock minute in_minute works global_tier mid
          ≡ counted rate redis clock minute in_minute works global_tier s + 1
        → counted rate redis clock minute in_minute works admin_tier mid
          ≡ counted rate redis clock minute in_minute works admin_tier s
        → counted rate redis clock minute in_minute works global_tier s + 1
          ≤ quota rate redis clock global_tier l
        → Step route s l answer
    Inner-Step route s mid l asked answer inner g a cg ca within = record {
      after = inner.after;
      shared = inner.shared;
      cached = inner.cached;
      same_global = ap quota_of_bucket (inner.global_limiter ∙ g);
      same_admin = ap quota_of_bucket (inner.admin_limiter ∙ a);
      global_counted = inner.global_counted ∙ cg;
      global_within = inr within;
      admin_counted = omega (arith, inner.admin_counted, ca);
      admin_within = elim inner.admin_within [
        | inl quiet ↦ inl quiet
        | inr (more, bound) ↦
            inr (omega (arith, more, ca), omega (arith, bound, ca, ap quota_of_bucket a))
      ];
    }

    pub serve-Step :
        (r : Request) (s : redis.Server) (l : Limiter rate redis)
        → l.distributed ≡ true
        → l.cache ≡ some s
        → Step (route_of r) s l (serve rate redis clock encode unrouted r fresh l)
    unfolding serve routed
    serve-Step r s l d c =
        let (mid, e, counts, _) =
          ask-counted rate redis clock minute in_minute works global_tier s l d c in
        let decided = decide-global rate redis clock l ∙ e in
        let next = routed rate redis clock encode unrouted in
        let asked = record l { cache = some mid; readings = suc l.readings } in
        elim (Bool-cases (
          leb (counted rate redis clock minute in_minute works global_tier s + 1)
            (quota rate redis clock global_tier l))) [
              | inl within ↦
                  let granted =
                    middleware_granted rate redis clock global next r fresh l
                      (ap (λ (x : Bool × Limiter rate redis). x.0) decided ∙ within) in
                  let headed = λ (x : Limiter rate redis).
                    set_header "X-RateLimit-Limit" (decimal_ℤ (get_limit rate redis global x))
                      fresh in
                  rw
                    (granted
                      ∙ ap (λ (x : Bool × Limiter rate redis). next r (headed x.1) x.1) decided)
                    (Inner-Step (route_of r) s mid l asked _
                      (dispatch-Inner rate redis clock encode unrouted minute in_minute works
                        (route_of r) r (headed asked) mid asked refl d refl)
                      refl refl (counts global_tier) (counts admin_tier) (leb→le _ _ within))
              | inr over ↦
                  let refused =
                    middleware_refused rate redis clock global next r fresh l
                      (ap (λ (x : Bool × Limiter rate redis). x.0) decided ∙ over) in
                  let (cache, distributed, of_all, of_admin) =
                    log_violation-keeps rate redis clock encode unrouted minute in_minute works r
                      global asked in
                  let told =
                    reject-status rate redis clock encode unrouted minute in_minute works global
                      (log_violation rate redis clock r global asked) fresh refl in
                  rw
                    (refused
                      ∙ ap
                          (λ (x : Bool × Limiter rate redis). (
                            reject rate redis clock global
                                (log_violation rate redis clock r global x.1) fresh,
                            log_violation rate redis clock r global x.1,
                          ))
                          decided)
                    (record {
                      after = mid;
                      shared = distributed ∙ d;
                      cached = cache;
                      same_global = ap quota_of_bucket of_all;
                      same_admin = ap quota_of_bucket of_admin;
                      global_counted = counts global_tier;
                      global_within = inl (ground (arith, told));
                      admin_counted = omega (arith, counts admin_tier);
                      admin_within = inl (ground (arith, told));
                    })
            ]
