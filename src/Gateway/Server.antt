-- ===== src/Gateway/Server.antt =====
-- The routes of cmd/gateway/main.go and their handlers. The limiter for all routes stands outside
-- of that of the admin routes. A request is what the middleware of chi, which stands outside of
-- both, passes on.
use aquatiq_root.Common.{ℕ, suc, Text, lit, text_eq, ◌&&◌, none, some, if◌then◌else◌}
use aquatiq_root.Http.{Request, Writer, Handler, raw, set_header, write_header, write}
use aquatiq_root.Redis.{Client, PoolStats, Reply, Fault, ok, err}
use aquatiq_root.Cache.Store.{pool_stats}
use aquatiq_root.RateLimit.Bucket.{Rate}
use aquatiq_root.RateLimit.Limiter.{Limiter, Stats, get_stats, middleware, global, admin}

-- The "redis" of the health report.
pub data RedisReport : Type 0 where
  not_configured : RedisReport
  disconnected : Fault → RedisReport
  connected : PoolStats → RedisReport

-- What the handlers encode as JSON.
pub data Payload : Type 0 where
  health : ℕ → RedisReport → Payload
  limiter_stats : Stats → Payload
  cache_missing : Payload
  cache_stats : PoolStats → Payload

pub data Route : Type 0 where
  health_route limiter_route cache_route no_route : Route

-- The route of a request: chi's answer where there is none.
unfoldable pub route_of : Request → Route
route_of r =
    if text_eq r.method (lit "GET") && text_eq r.path (lit "/health")
    then health_route
    else if text_eq r.method (lit "GET") && text_eq r.path (lit "/rate-limiter")
    then limiter_route
    else if text_eq r.method (lit "GET") && text_eq r.path (lit "/cache/stats")
    then cache_route
    else no_route

-- `encode` is the JSON encoder, and `unrouted` chi's answer to a request without a route.
module _ (rate : Rate) (redis : Client) (clock : ℕ → ℕ) (encode : Payload → Text)
    (unrouted : Request → Writer → Writer) where
  abbrev pub State : Type 0
  State = Limiter rate redis

  abbrev pub send : Payload → Writer → Writer
  send p w = write (raw (encode p)) w

  abbrev pub send_json : Payload → Writer → Writer
  send_json p w = send p (set_header "Content-Type" (lit "application/json") w)

  abbrev pub report : Reply (Unit {0}) → redis.Server → RedisReport
  report (ok _) s = connected (pool_stats redis s)
  report (err e) s = disconnected e

  -- The handler of /health, which reads the clock and pings Redis.
  unfoldable pub handle_health : Handler State
  handle_health r w l =
      let now = clock l.readings in
      elim l.cache [
        | none ↦ (send_json (health now not_configured) w, record l { readings = suc l.readings })
        | some s ↦
            let (reply, s') = redis.ping s in
            (
              send_json (health now (report reply s')) w,
              record l { readings = suc l.readings; cache = some s' },
            )
      ]

  -- The handler of /rate-limiter.
  unfoldable pub handle_limiter : Handler State
  handle_limiter r w l = (send_json (limiter_stats (get_stats rate redis l)) w, l)

  -- The handler of /cache/stats.
  unfoldable pub handle_cache : Handler State
  handle_cache r w l = elim l.cache [
    | none ↦ (send cache_missing (write_header 503 w), l)
    | some s ↦ (send_json (cache_stats (pool_stats redis s)) w, l)
  ]

  abbrev pub limited : Text → Handler State → Handler State
  limited tier next = middleware rate redis clock tier next

  -- The routes behind the limiter for all of them.
  unfoldable pub dispatch : Route → Handler State
  dispatch health_route r w l = handle_health r w l
  dispatch limiter_route r w l = limited admin handle_limiter r w l
  dispatch cache_route r w l = limited admin handle_cache r w l
  dispatch no_route r w l = (unrouted r w, l)

  unfoldable pub routed : Handler State
  routed r w l = dispatch (route_of r) r w l

  -- A request.
  unfoldable pub serve : Handler State
  serve r w l = limited global routed r w l
