-- ===== src/RateLimit/Minutes.antt =====
-- The limiter of internal/ratelimit/ratelimit.go from one minute to another.
use aquatiq_root.Common.{
  ℕ, suc, ◌-◌, min, Text, lit, text_eq, text_eq_ne, ◌≡◌, ◌≢◌, refl, ap₂, ◌∙◌, true, false, some,
  List, [], ◌∷◌,
}
use aquatiq_root.Common.Int.{decimal, decimal_injective}
use aquatiq_root.Redis.{Client, ok}
use aquatiq_root.RateLimit.Bucket.{Rate}
use aquatiq_root.RateLimit.Limiter.{window_key, minute_of, Limiter}
use aquatiq_root.RateLimit.Window.{
  Tier, global_tier, admin_tier, name, requests, ask, granted, quota, quota-after, ask-counted,
  granted_exact,
}

-- The keys of different minutes are different, of one tier and of both.
minutes_differ :
    (t u : Tier) (m n : ℕ) → m ≢ n → text_eq (window_key (name u) m) (window_key (name t) n) ≡ false
unfolding window_key lit text_eq
minutes_differ global_tier global_tier m n h =
    text_eq_ne (decimal m) (decimal n) (λ e. h (decimal_injective m n e))
minutes_differ admin_tier admin_tier m n h =
    text_eq_ne (decimal m) (decimal n) (λ e. h (decimal_injective m n e))
minutes_differ global_tier admin_tier m n h = refl
minutes_differ admin_tier global_tier m n h = refl

module _ (rate : Rate) (redis : Client)
    (works : (k : Text) (s : redis.Server) → (n : ℕ) × ((redis.incr k s).0 ≡ ok n)) where
  -- The limiter after requests.
  unfoldable pub after : (ℕ → ℕ) → List Tier → Limiter rate redis → Limiter rate redis
  after clock [] l = l
  after clock (t ∷ ts) l = after clock ts (ask rate redis clock t l).1

  module _ (now later : ℕ → ℕ) (m n : ℕ) (in_m : (k : ℕ) → minute_of (now k) ≡ m)
      (in_n : (k : ℕ) → minute_of (later k) ≡ n) (apart : m ≢ n) where
    -- A limiter that is distributed and has a Redis cache, whose increments never fail and whose keys nobody else
    -- changes: what one minute refuses, another grants again. After any requests in one minute, the requests of another
    -- minute are granted as if there had been none, each tier up to sixty times its limit, less what was counted for it
    -- in that minute before. The local limiter, and that of a failing server, may refuse in every minute.
    pub granted-after :
        (t : Tier) (ts us : List Tier) (s : redis.Server) (l : Limiter rate redis)
        → l.distributed ≡ true
        → l.cache ≡ some s
        → granted rate redis later t us (after now ts l)
          ≡ min (requests t us) (quota rate redis later t l - redis.count s (window_key (name t) n))
    unfolding after
    granted-after t [] us s l d c = granted_exact rate redis later n in_n works t us s l d c
    granted-after t (u ∷ ts) us s l d c =
        let (s', e, _, elsewhere) = ask-counted rate redis now m in_m works u s l d c in
        let l' = record l { cache = some s'; readings = suc l.readings } in
        rw e (
          granted-after t ts us s' l' d refl
          ∙ ap₂ (λ q c. min (requests t us) (q - c))
              (quota-after rate redis later t (some s') (suc l.readings) l)
              (elsewhere (window_key (name t) n) (minutes_differ t u m n apart)))
