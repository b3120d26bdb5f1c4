-- ===== src/Gateway/Bounds.antt =====
-- How many requests the gateway of cmd/gateway/main.go lets through in one minute over Redis: each
-- request is counted for all routes, and one to an admin route that passes there is counted for the
-- admin routes as well.
use aquatiq_root.Common.{
  ℕ, ◌+◌, ◌-◌, ◌≤◌, Text, ◌≡◌, Bool, true, not, ◌&&◌, some, List, [], ◌∷◌, if◌then◌else◌, ◌==◌,
  arith,
}
use aquatiq_root.Http.{Request, Writer, fresh}
use aquatiq_root.Redis.{Client, ok}
use aquatiq_root.RateLimit.Bucket.{Rate}
use aquatiq_root.RateLimit.Limiter.{minute_of, Limiter}
use aquatiq_root.RateLimit.Window.{global_tier, admin_tier, quota, counted}
use aquatiq_root.Gateway.Server.{Payload, Route, route_of, serve}
use aquatiq_root.Gateway.Counted.{is_admin}
use aquatiq_root.Gateway.Requests.{serve-Step}

module _ (rate : Rate) (redis : Client) (clock : ℕ → ℕ) (encode : Payload → Text)
    (unrouted : Request → Writer → Writer) where
  -- The requests to admin routes that are answered otherwise than by 429, and all requests that are.
  unfoldable pub passed : (Route → Bool) → List Request → Limiter rate redis → ℕ
  passed counts [] l = 0
  passed counts (r ∷ rs) l =
      let (w, l') = serve rate redis clock encode unrouted r fresh l in
      (if counts (route_of r) && not (w.status == 429) then 1 else 0) + passed counts rs l'

  module _ (minute : ℕ) (in_minute : (n : ℕ) → minute_of (clock n) ≡ minute)
      (works : (k : Text) (s : redis.Server) → (n : ℕ) × ((redis.incr k s).0 ≡ ok n)) where
    -- In a minute in which no increment fails, the gateway answers no more requests otherwise than
    -- by 429 than sixty times the global limit, less what was counted before, and no more requests
    -- to the admin routes than sixty times the admin limit, less what was counted before.
    pub passed_bounded :
        (rs : List Request) (s : redis.Server) (l : Limiter rate redis)
        → l.distributed ≡ true
        → l.cache ≡ some s
        → (passed (λ _. true) rs l
            ≤ quota rate redis clock global_tier l
              - counted rate redis clock minute in_minute works global_tier s)
          × (passed is_admin rs l
              ≤ quota rate redis clock admin_tier l
                - counted rate redis clock minute in_minute works admin_tier s)
    unfolding passed
    passed_bounded [] s l d c = (omega arith, omega arith)
    passed_bounded (r ∷ rs) s l d c =
        let step = serve-Step rate redis clock encode unrouted minute in_minute works r s l d c in
        let (all, admins) =
          passed_bounded rs step.after (serve rate redis clock encode unrouted r fresh l).1
            step.shared step.cached in
        (
          ground (arith, all, step.same_global, step.global_counted, step.global_within),
          ground (arith, admins, step.same_admin, step.admin_counted, step.admin_within),
        )
