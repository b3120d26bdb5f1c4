-- ===== src/RateLimit/Answers.antt =====
-- The local decisions and the answers of the limiter of internal/ratelimit/ratelimit.go.
use aquatiq_root.Common.{
  ℕ, suc, Text, lit, text_eq, ◌≡◌, refl, ◌∙◌, ap, Bool, true, false, none, some, List, [], ◌∷◌,
  if◌then◌else◌, arith, length,
}
use aquatiq_root.Common.Int.{pos, half, decimal_ℤ}
use aquatiq_root.Http.{set_header, Request, Writer, Handler}
use aquatiq_root.Audit.{Logger, Log, log_rate_limit_exceeded}
use aquatiq_root.Redis.{Client, Fault, err}
use aquatiq_root.RateLimit.Bucket.{Rate}
use aquatiq_root.RateLimit.Limiter.{
  Config, window_key, minute_of, admin, Limiter, new, allow_local_global, allow_local_admin,
  on_count, allow_distributed, allow_global, allow_admin, log_violation, reject, middleware,
  get_limit, global,
}
use aquatiq_root.RateLimit.Window.{Tier, global_tier, admin_tier, name, ask, granted, ask-shared}

module _ (rate : Rate) (redis : Client) (clock : ℕ → ℕ) where
  open rate use {Bucket, allow, burst, burst_new, burst_allow, no_burst}
  open redis use {Server, incr}

  abbrev pub bucket : Tier → Limiter rate redis → Bucket
  bucket global_tier l = l.global_limiter
  bucket admin_tier l = l.admin_limiter

  -- Where the cache is shared and the increment fails, the decision is that of the tier's own local
  -- limiter, at the next reading of the clock, and the limiter is left as that decision leaves it.
  ask_fallback :
      (u : Tier) (s : Server) (l : Limiter rate redis) {e : Fault}
      → l.distributed ≡ true
      → l.cache ≡ some s
      → (incr (window_key (name u) (minute_of (clock l.readings))) s).0 ≡ err e
      → ((ask rate redis clock u l).0 ≡ (allow (clock (suc l.readings)) (bucket u l)).0)
        × (bucket u (ask rate redis clock u l).1 ≡ (allow (clock (suc l.readings)) (bucket u l)).1)
  unfolding allow_distributed on_count allow_local_global allow_local_admin text_eq lit
  ask_fallback global_tier s l d c e =
      rw (ask-shared rate redis clock global_tier s l d c) (ground arith)
  ask_fallback admin_tier s l d c e =
      rw (ask-shared rate redis clock admin_tier s l d c) (ground arith)

  -- No cache, and no burst in either limiter.
  pub record IsStarved (l : Limiter rate redis) : Type 0 where
    pub no_cache : l.cache ≡ none
    pub global_burst : burst l.global_limiter ≡ pos 0
    pub admin_burst : burst l.admin_limiter ≡ pos 0

  pub ask-IsStarved :
      (u : Tier) (l : Limiter rate redis)
      → IsStarved l
      → ((ask rate redis clock u l).0 ≡ false) × IsStarved (ask rate redis clock u l).1
  unfolding allow_global allow_admin allow_local_global allow_local_admin
  ask-IsStarved global_tier l h = ground (
    arith,
    no_burst (clock l.readings) l.global_limiter h.global_burst,
    burst_allow (clock l.readings) l.global_limiter,
    h.no_cache,
    h.global_burst,
    h.admin_burst,
  )
  ask-IsStarved admin_tier l h = ground (
    arith,
    no_burst (clock l.readings) l.admin_limiter h.admin_burst,
    burst_allow (clock l.readings) l.admin_limiter,
    h.no_cache,
    h.global_burst,
    h.admin_burst,
  )

  pub new-IsStarved :
      (cfg : Config) (audit : Logger)
      → cfg.burst_size ≡ pos 0
      → IsStarved (new rate redis cfg none audit)
  unfolding new
  new-IsStarved cfg audit h = record {
    no_cache = refl;
    global_burst = burst_new cfg.global_rps cfg.burst_size ∙ h;
    admin_burst = burst_new cfg.admin_rps (half cfg.burst_size) ∙ ap half h;
  }

  pub log_violation-IsStarved :
      (r : Request) (tier : Text) (l : Limiter rate redis)
      → IsStarved l
      → IsStarved (log_violation rate redis clock r tier l)
  unfolding log_violation
  log_violation-IsStarved r tier l h = record {
    no_cache = ground (arith, h.no_cache);
    global_burst = ground (arith, h.global_burst);
    admin_burst = ground (arith, h.admin_burst);
  }

  granted-IsStarved :
      (t : Tier) (ts : List Tier) (l : Limiter rate redis)
      → IsStarved l
      → granted rate redis clock t ts l ≡ 0
  unfolding granted
  granted-IsStarved t [] l h = refl
  granted-IsStarved t (u ∷ us) l h =
      let (refused, h') = ask-IsStarved u l h in
      ground (arith, refused, granted-IsStarved t us (ask rate redis clock u l).1 h')

  -- A limiter that is created with a burst of 0 and without a cache never grants a request of either
  -- tier, whatever its limits are.
  new_no_burst :
      (cfg : Config) (audit : Logger) (t : Tier) (ts : List Tier)
      → cfg.burst_size ≡ pos 0
      → granted rate redis clock t ts (new rate redis cfg none audit) ≡ 0
  new_no_burst cfg audit t ts h = granted-IsStarved t ts _ (new-IsStarved cfg audit h)

  -- The decision for a tier's name, as the middleware takes it.
  abbrev pub decide : Text → Limiter rate redis → Bool × Limiter rate redis
  decide tier l =
      if text_eq tier admin then allow_admin rate redis clock l else allow_global rate redis clock l

  -- A refused request is answered and logged.
  pub middleware_refused :
      (tier : Text) (next : Handler (Limiter rate redis)) (r : Request) (w : Writer)
      (l : Limiter rate redis)
      → (decide tier l).0 ≡ false
      → middleware rate redis clock tier next r w l ≡ (
        reject rate redis clock tier (log_violation rate redis clock r tier (decide tier l).1) w,
        log_violation rate redis clock r tier (decide tier l).1,
      )
  unfolding middleware
  middleware_refused tier next r w l h = ground (arith, h)

  -- A granted one is handled, with the limit in a header.
  pub middleware_granted :
      (tier : Text) (next : Handler (Limiter rate redis)) (r : Request) (w : Writer)
      (l : Limiter rate redis)
      → (decide tier l).0 ≡ true
      → middleware rate redis clock tier next r w l
        ≡ next r
            (set_header "X-RateLimit-Limit"
              (decimal_ℤ (get_limit rate redis tier (decide tier l).1))
              w)
            (decide tier l).1
  unfolding middleware
  middleware_granted tier next r w l h = ground (arith, h)

  pub decide-global : (l : Limiter rate redis) → decide global l ≡ allow_global rate redis clock l
  unfolding text_eq lit
  decide-global l = refl

  pub decide-admin : (l : Limiter rate redis) → decide admin l ≡ allow_admin rate redis clock l
  unfolding text_eq lit
  decide-admin l = refl

  -- With a log and a fresh writer a refused request has one answer and one entry in the log.
  pub middleware-refused_once :
      (tier : Text) (r : Request) (w : Writer) (l : Limiter rate redis) (log : Log)
      (next : Handler (Limiter rate redis))
      → (decide tier l).0 ≡ false
      → (decide tier l).1.audit ≡ some log
      → w.status ≡ 0
      → w.written ≡ []
      → let (w', l') = middleware rate redis clock tier next r w l in
        (w'.status ≡ 429)
        × (length w'.written ≡ 1)
        × (l'.audit ≡ some (log_rate_limit_exceeded (clock (decide tier l).1.readings) r tier log))
        × (l'.cache ≡ (decide tier l).1.cache)
  unfolding middleware reject log_violation
  middleware-refused_once tier r w l log next refused logged sent bare = ground arith
