-- ===== src/RateLimit/Limiter.antt =====
-- The Limiter of internal/ratelimit/ratelimit.go.
use aquatiq_root.Common.{
  ℕ, suc, ◌*◌, ◌/◌, Text, lit, text_eq, Bool, false, Option, none, some, ◌++◌, if◌then◌else◌, leb,
  ◌==◌,
}
use aquatiq_root.Common.Int.{ℤ, pos, negsuc, half, decimal, decimal_ℤ}
use aquatiq_root.Http.{Request, Writer, Handler, raw, set_header, write_header, write}
use aquatiq_root.Audit.{Logger, log_rate_limit_exceeded}
use aquatiq_root.Redis.{Client, Reply, ok, err}
use aquatiq_root.RateLimit.Bucket.{Rate}

pub record Config : Type 0 where
  pub global_rps : ℤ
  pub admin_rps : ℤ
  pub burst_size : ℤ
  pub distributed : Bool

-- `count <= int64(limit)*60`. The product does not overflow for a limit of at most 53 bits.
abbrev pub within : ℕ → ℤ → Bool
within count (pos limit) = leb count (limit * 60)
within count (negsuc limit) = false

-- The key of a tier in a minute.
unfoldable pub window_key : Text → ℕ → Text
window_key tier minute = lit "ratelimit:" ++ (tier ++ (lit ":" ++ decimal minute))

-- `time.Now().Unix()/60`, for a time in nanoseconds.
abbrev pub minute_of : ℕ → ℕ
minute_of now = now / 1000000000 / 60

abbrev pub admin : Text
admin = lit "admin"

abbrev pub global : Text
global = lit "global"

-- The Stats of GetStats.
pub record Stats : Type 0 where
  pub global_limit : ℤ
  pub admin_limit : ℤ
  pub distributed : Bool
  pub backend : Text

module _ (rate : Rate) (redis : Client) where
  open rate use {Bucket, new_limiter, limit, allow}
  open redis use {Server, incr, expire}

  -- The limiter, its Redis server unless the cache is nil, and how often the clock was read.
  pub record Limiter : Type 0 where
    pub global_limiter : Bucket
    pub admin_limiter : Bucket
    pub cache : Option Server
    pub audit : Logger
    pub distributed : Bool
    pub readings : ℕ

  -- New
  unfoldable pub new : Config → Option Server → Logger → Limiter
  new cfg cache audit = record {
    global_limiter = new_limiter cfg.global_rps cfg.burst_size;
    admin_limiter = new_limiter cfg.admin_rps (half cfg.burst_size);
    cache = cache;
    audit = audit;
    distributed = cfg.distributed;
    readings = 0;
  }

  -- getLimit
  unfoldable pub get_limit : Text → Limiter → ℤ
  get_limit tier l = if text_eq tier admin then limit l.admin_limiter else limit l.global_limiter

  -- GetStats
  unfoldable pub get_stats : Limiter → Stats
  get_stats l = record {
    global_limit = limit l.global_limiter;
    admin_limit = limit l.admin_limiter;
    distributed = l.distributed;
    backend =
        if l.distributed
        then elim l.cache [ none ↦ lit "local" | some _ ↦ lit "redis" ]
        else lit "local";
  }

  module _ (clock : ℕ → ℕ) where
    -- The local limiters; `Allow` reads the clock.
    unfoldable pub allow_local_global : Limiter → Bool × Limiter
    allow_local_global l =
        let (granted, b) = allow (clock l.readings) l.global_limiter in
        (granted, record l { global_limiter = b; readings = suc l.readings })

    unfoldable pub allow_local_admin : Limiter → Bool × Limiter
    allow_local_admin l =
        let (granted, b) = allow (clock l.readings) l.admin_limiter in
        (granted, record l { admin_limiter = b; readings = suc l.readings })

    -- What allowDistributed does on the reply to the increment. The result of Expire is dropped.
    unfoldable pub on_count : Text → Text → ℤ → Reply ℕ → Server → Limiter → Bool × Limiter
    on_count tier key bound (err e) server l =
        let l' = record l { cache = some server } in
        if text_eq tier admin then allow_local_admin l' else allow_local_global l'
    on_count tier key bound (ok count) server l =
        let server' = if count == 1 then (expire key (pos 120000000000) server).1 else server in
        (within count bound, record l { cache = some server' })

    -- allowDistributed
    unfoldable pub allow_distributed : Text → ℤ → Server → Limiter → Bool × Limiter
    allow_distributed tier bound server l =
        let key = window_key tier (minute_of (clock l.readings)) in
        let (reply, server') = incr key server in
        on_count tier key bound reply server' (record l { readings = suc l.readings })

    -- `l.distributed && l.cache != nil`
    abbrev pub shared : Limiter → Option Server
    shared l = if l.distributed then l.cache else none

    -- AllowGlobal
    unfoldable pub allow_global : Limiter → Bool × Limiter
    allow_global l = elim (shared l) [
      | some server ↦ allow_distributed global (limit l.global_limiter) server l
      | none ↦ allow_local_global l
    ]

    -- AllowAdmin
    unfoldable pub allow_admin : Limiter → Bool × Limiter
    allow_admin l = elim (shared l) [
      | some server ↦ allow_distributed admin (limit l.admin_limiter) server l
      | none ↦ allow_local_admin l
    ]

    -- `if l.audit != nil { l.audit.LogRateLimitExceeded(r, tier) }`
    unfoldable pub log_violation : Request → Text → Limiter → Limiter
    log_violation r tier l = elim l.audit [
      | none ↦ l
      | some log ↦ record l {
        audit = some (log_rate_limit_exceeded (clock l.readings) r tier log);
        readings = suc l.readings;
      }
    ]

    -- The answer to a request over the limit.
    unfoldable pub reject : Text → Limiter → Writer → Writer
    reject tier l w =
        write (raw (lit "{\"error\":\"rate_limit_exceeded\",\"message\":\"Too many requests\"}")) (
          write_header 429 (
            set_header "Retry-After" (lit "60") (
              set_header "X-RateLimit-Remaining" (lit "0")
                (set_header "X-RateLimit-Limit" (decimal_ℤ (get_limit tier l)) w))))

    -- Middleware
    unfoldable pub middleware : Text → Handler Limiter → Handler Limiter
    middleware tier next r w l =
        let (allowed, l') = if text_eq tier admin then allow_admin l else allow_global l in
        if allowed
        then next r (set_header "X-RateLimit-Limit" (decimal_ℤ (get_limit tier l')) w) l'
        else (reject tier (log_violation r tier l') w, log_violation r tier l')
