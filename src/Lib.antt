-- ===== src/Lib.antt =====
-- The Aquatiq integration gateway (aquatiq-gateway/), a Go program that stands behind Traefik.
--
-- The program. A request passes a rate limiter for all routes and a stricter one for the admin routes
-- (internal/ratelimit), which count in Redis or, without it, in the process. Handlers can be guarded by API
-- keys with scopes (internal/auth). An IP whitelist with temporary entries and a blacklist is kept in memory
-- and written to a Traefik configuration (internal/whitelist). Values, OAuth2 tokens and query results are
-- cached in Redis (internal/cache). Calls of other services go through an HTTP client with retries
-- (pkg/httpclient) and a circuit breaker (pkg/circuitbreaker). What these parts decide goes to one audit log
-- with masked addresses (internal/audit); internal/config loads and validates the configuration,
-- internal/health tells whether the databases are up, and internal/docker shows and controls containers.
-- internal/grpc serves the managers over gRPC. cmd/gateway makes the parts of the configuration and serves the
-- routes behind both limiters.
--
-- The files, with the code that they model:
--   Common: lists, bytes, Go maps as association lists, and Go integers, over the native numbers
--   Http: what the handlers use of net/http
--   Audit: internal/audit/logger.go, the log as the list of the entries that zap was handed; `written` is what zap
--     writes of them for the level of the logger
--   Auth: internal/auth/apikey.go; Auth.Verdict and Auth.Scopes give what the handlers decide
--   Net: what internal/whitelist uses of the net package (ParseIP, ParseCIDR, Contains)
--   Whitelist: internal/whitelist/manager.go; Types has the state, Traefik the file, Operations the methods,
--     Abstract what they promise on tables of addresses, Refinement that they keep it, and the other files the theorems
--   Redis: what the gateway uses of go-redis, as a record of commands with their laws; Redis.Memory meets it
--   RateLimit: internal/ratelimit/ratelimit.go; Limiter has both tiers, PerIp the limiter of each address, Window
--     and Minutes what is granted within a minute and from one to another, OverLimit what the middleware does, and
--     Fleet several gateways on one Redis server
--   Cache: Connect, Store and Token are internal/cache/redis.go, Query is internal/cache/query_cache.go; Steps has
--     the calls of the query cache and the writes of its goroutines as steps in any order, Answers and Stale what
--     follows of them, and Lock is about SetNX
--   CircuitBreaker: pkg/circuitbreaker/circuitbreaker.go; Opening tells when a breaker opens
--   HttpClient: pkg/httpclient/httpclient.go; Policy has what New sets in the retrying client and the retries that
--     follow, Tries what a call sends, and Outage the calls over the breaker while the other side is down
--   Config: internal/config/config.go
--   Health: internal/health/checker.go
--   Docker: internal/docker/manager.go; Daemon is the client of Docker, Containers the views, Lifecycle starting,
--     stopping and logs, Statistics the resources of a container
--   Grpc: internal/grpc, with a module for each service over the manager that it serves; Promise and Refinement of
--     the whitelist service carry the tables of the manager over to its calls
--   Gateway: cmd/gateway/main.go; Startup makes the parts, Run tells which failures end the
--     program, those of either server included, Server has the routes and their handlers, Lifecycle the servers and the shutdown as steps, and
--     Shutdown and Ending what follows of them
-- A definition has the name of the Go function in snake case. A method takes the state of its receiver and
-- returns the new one; a clock is a function of how often it was read. A pointer that may be nil is an
-- Option, and an error is a constructor or a message.
--
-- Parameters. Other people's packages are records of operations with the documented behaviour that the
-- theorems need: RateLimit.Bucket.Rate (golang.org/x/time/rate), Redis.Client (go-redis),
-- Cache.Store.Codec (encoding/json), CircuitBreaker.Gobreaker (sony/gobreaker), HttpClient.Policy.Transport
-- (go-retryablehttp and net/http), Config.Viper, Docker.Daemon.Docker (the Docker client) and, for what
-- PostgreSQL answers, Health.Postgres; a float64 of the statistics is Docker.Statistics.Float, and YAML is
-- a parameter of the whitelist. Each is met by a concrete value in the tests. The laws of Redis speak of a
-- server that nothing but the commands of a theorem changes, which may be those of several clients.
--
-- Bounds. Loops are recursion on lists. Common.Int.digits_of has fuel for the digits of a number, one more
-- than the number itself, which has no more digits than that. Durations of the backoff and the totals of
-- Docker wrap around at 64 bits, the numbers of the gRPC answers at 32 or 64; limits are taken to be less
-- than 2^53, where a float64 is exact.
--
-- Not modelled: of cmd/gateway what is printed, the middleware of chi and the options of the gRPC server; the code
-- that protoc generates in api/proto; mutexes, since a method is one step here; the JSON of a log line; and
-- the scripts and container files of the repository.
pub mod Audit
pub mod Auth
pub mod Cache
pub mod CircuitBreaker
pub mod Common
pub mod Config
pub mod Docker
pub mod Gateway
pub mod Grpc
pub mod Health
pub mod Http
pub mod HttpClient
pub mod Net
pub mod RateLimit
pub mod Redis
pub mod Whitelist
