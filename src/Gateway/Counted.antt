-- ===== src/Gateway/Counted.antt =====
-- What the handlers of cmd/gateway/main.go leave counted, the admin routes behind their limiter.
use aquatiq_root.Common.{
  ℕ, suc, ◌+◌, ◌*◌, ◌≤◌, Text, ◌≡◌, refl, ap, ◌∙◌, Bool, true, false, not, ◌&&◌, some, ◌⊎◌, inl,
  inr, leb, ◌==◌, arith, Bool-cases, leb→le,
}
use aquatiq_root.Common.Int.{pos_part}
use aquatiq_root.Http.{Request, Writer, Handler}
use aquatiq_root.Redis.{Client, ok}
use aquatiq_root.RateLimit.Bucket.{Rate}
use aquatiq_root.RateLimit.Limiter.{minute_of, Limiter, log_violation, reject, middleware, admin}
use aquatiq_root.RateLimit.Window.{Tier, global_tier, admin_tier, quota, counted, ask-counted}
use aquatiq_root.RateLimit.Answers.{decide, decide-admin, middleware_refused, middleware_granted}
use aquatiq_root.Gateway.Server.{
  Payload, Route, health_route, limiter_route, cache_route, no_route, handle_health, handle_limiter,
  handle_cache, dispatch,
}

abbrev pub is_admin : Route → Bool
is_admin health_route = false
is_admin limiter_route = true
is_admin cache_route = true
is_admin no_route = false

module _ (rate : Rate) (redis : Client) (clock : ℕ → ℕ) (encode : Payload → Text)
    (unrouted : Request → Writer → Writer) where
  module _ (minute : ℕ) (in_minute : (n : ℕ) → minute_of (clock n) ≡ minute)
      (works : (k : Text) (s : redis.Server) → (n : ℕ) × ((redis.incr k s).0 ≡ ok n)) where
    abbrev count_of : Tier → redis.Server → ℕ
    count_of t s = counted rate redis clock minute in_minute works t s

    abbrev quota_of : Tier → Limiter rate redis → ℕ
    quota_of t l = quota rate redis clock t l

    abbrev quota_of_bucket : rate.Bucket → ℕ
    quota_of_bucket b = pos_part (rate.limit b) * 60

    pub log_violation-keeps :
        (r : Request) (tier : Text) (l : Limiter rate redis)
        → let l' = log_violation rate redis clock r tier l in
          (l'.cache ≡ l.cache)
          × (l'.distributed ≡ l.distributed)
          × (l'.global_limiter ≡ l.global_limiter)
          × (l'.admin_limiter ≡ l.admin_limiter)
    unfolding log_violation
    log_violation-keeps r tier l = (ground arith, ground arith, ground arith, ground arith)

    pub reject-status :
        (tier : Text) (l : Limiter rate redis) (w : Writer)
        → w.status ≡ 0
        → (reject rate redis clock tier l w).status ≡ 429
    unfolding reject
    reject-status tier l w h = ground (arith, h)

    -- What the handler of a route does, behind the limiter for all routes.
    pub record Inner (route : Route) (s : redis.Server) (l : Limiter rate redis)
        (answer : Writer × Limiter rate redis) : Type 0 where
      pub after : redis.Server
      pub shared : answer.1.distributed ≡ true
      pub cached : answer.1.cache ≡ some after
      pub global_limiter : answer.1.global_limiter ≡ l.global_limiter
      pub admin_limiter : answer.1.admin_limiter ≡ l.admin_limiter
      pub global_counted : count_of global_tier after ≡ count_of global_tier s
      pub admin_counted : count_of admin_tier s ≤ count_of admin_tier after
      pub admin_within :
          (is_admin route && not (answer.0.status == 429)) ≡ false
          ⊎ (count_of admin_tier s + 1 ≤ count_of admin_tier after
              × (count_of admin_tier s + 1 ≤ quota_of admin_tier l))

    -- Any handler that leaves the limiter alone, behind the limiter for the admin routes.
    admin-Inner :
        (route : Route) (next : Handler (Limiter rate redis)) (r : Request) (w : Writer)
        (s : redis.Server) (l : Limiter rate redis)
        → ((w' : Writer) (l' : Limiter rate redis) → (next r w' l').1 ≡ l')
        → w.status ≡ 0
        → l.distributed ≡ true
        → l.cache ≡ some s
        → Inner route s l (middleware rate redis clock admin next r w l)
    admin-Inner route next r w s l passive unsent d c =
        let (after, e, counts, _) =
          ask-counted rate redis clock minute in_minute works admin_tier s l d c in
        let decided = decide-admin rate redis clock l ∙ e in
        elim (Bool-cases (leb (count_of admin_tier s + 1) (quota_of admin_tier l))) [
          | inl within ↦
              let granted =
                middleware_granted rate redis clock admin next r w l
                  (ap (λ (x : Bool × Limiter rate redis). x.0) decided ∙ within) in
              let state =
                ap (λ (x : Writer × Limiter rate redis). x.1) granted
                ∙ passive _ _
                ∙ ap (λ (x : Bool × Limiter rate redis). x.1) decided in
              record {
                after = after;
                shared = ap (λ (x : Limiter rate redis). x.distributed) state ∙ d;
                cached = ap (λ (x : Limiter rate redis). x.cache) state;
                global_limiter = ap (λ (x : Limiter rate redis). x.global_limiter) state;
                admin_limiter = ap (λ (x : Limiter rate redis). x.admin_limiter) state;
                global_counted = counts global_tier;
                admin_counted = omega (arith, counts admin_tier);
                admin_within = inr (omega (arith, counts admin_tier), leb→le _ _ within);
              }
          | inr over ↦
              let refused =
                middleware_refused rate redis clock admin next r w l
                  (ap (λ (x : Bool × Limiter rate redis). x.0) decided ∙ over) in
              let (cache, distributed, of_all, of_admin) =
                log_violation-keeps r admin
                  (record l { cache = some after; readings = suc l.readings }) in
              let state =
                ap (λ (x : Writer × Limiter rate redis). x.1) refused
                ∙ ap (λ (x : Bool × Limiter rate redis). log_violation rate redis clock r admin x.1)
                    decided in
              record {
                after = after;
                shared = ap (λ (x : Limiter rate redis). x.distributed) state ∙ distributed ∙ d;
                cached = ap (λ (x : Limiter rate redis). x.cache) state ∙ cache;
                global_limiter = ap (λ (x : Limiter rate redis). x.global_limiter) state ∙ of_all;
                admin_limiter = ap (λ (x : Limiter rate redis). x.admin_limiter) state ∙ of_admin;
                global_counted = counts global_tier;
                admin_counted = omega (arith, counts admin_tier);
                admin_within = inl (
                    ground (
                      arith,
                      ap (λ (x : Writer × Limiter rate redis). x.0.status) refused,
                      reject-status admin
                          (log_violation rate redis clock r admin
                            (decide rate redis clock admin l).1)
                          w unsent,
                    ));
              }
        ]

    pub dispatch-Inner :
        (route : Route) (r : Request) (w : Writer) (s : redis.Server) (l : Limiter rate redis)
        → w.status ≡ 0
        → l.distributed ≡ true
        → l.cache ≡ some s
        → Inner route s l (dispatch rate redis clock encode unrouted route r w l)
    unfolding dispatch handle_health handle_limiter handle_cache
    dispatch-Inner health_route r w s l unsent d c = record {
      after = (redis.ping s).1;
      shared = ground (arith, d, c);
      cached = ground (arith, d, c);
      global_limiter = ground (arith, c);
      admin_limiter = ground (arith, c);
      global_counted = redis.ping_count _ s;
      admin_counted = omega (arith, redis.ping_count _ s);
      admin_within = inl refl;
    }
    dispatch-Inner no_route r w s l unsent d c = record {
      after = s;
      shared = d;
      cached = c;
      global_limiter = refl;
      admin_limiter = refl;
      global_counted = refl;
      admin_counted = omega arith;
      admin_within = inl refl;
    }
    dispatch-Inner limiter_route r w s l unsent d c =
        admin-Inner limiter_route (handle_limiter rate redis clock encode unrouted) r w s l
          (λ w' l'. refl) unsent d c
    dispatch-Inner cache_route r w s l unsent d c =
        admin-Inner cache_route (handle_cache rate redis clock encode unrouted) r w s l
          (λ w' l'. ground arith) unsent d c
