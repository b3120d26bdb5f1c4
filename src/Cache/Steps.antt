-- ===== src/Cache/Steps.antt =====
-- The query cache of internal/cache/query_cache.go with the goroutines that CacheWrapper starts, as
-- steps in any order: calls, the writes that they left, invalidations, and keys that expire.
use aquatiq_root.Common.{Text, ◌≡◌, Bool, Option, none, some, List, [], ◌∷◌, ◌++◌}
use aquatiq_root.Common.Int.{ℤ}
use aquatiq_root.Redis.{Client}
use aquatiq_root.Cache.Store.{Codec}
use aquatiq_root.Cache.Query.{QueryCache, Outcome, store_query, invalidate, cache_wrapper}
use aquatiq_root.Cache.Changes.{IsPart}

module _ (redis : Client) (hex : Text → Text) {A : Type 0} (json : Codec A) (D E : Type 0)
    (is_nil : A → Bool) where
  open redis use {Server, value}

  -- What a goroutine still has to store.
  pub record Write : Type 0 where
    pub query : Text
    pub result : A
    pub ttl : ℤ

  -- The cache, the database, the writes of the goroutines that have not run yet, and all results
  -- that a query has given so far, newest first.
  pub record System : Type 0 where
    pub cache : QueryCache redis
    pub database : D
    pub pending : List Write
    pub results : List (Text × A)

  abbrev pub call_of :
      Text → (D → Outcome A E × D) → System → Outcome A E × Option A × QueryCache redis × D
  call_of query fn s = cache_wrapper redis hex json is_nil query fn s.cache s.database

  abbrev pub push_write : Text → ℤ → Option A → List Write → List Write
  push_write query ttl none ws = ws
  push_write query ttl (some a) ws = record { query = query; result = a; ttl = ttl } ∷ ws

  abbrev pub push_result : Text → Option A → List (Text × A) → List (Text × A)
  push_result query none rs = rs
  push_result query (some a) rs = (query, a) ∷ rs

  pub data Step : System → System → Type 0 where
    -- A call of CacheWrapper, up to its return.
    call :
        (query : Text) (fn : D → Outcome A E × D) (ttl : ℤ) (s : System)
        → Step s (record {
          cache = (call_of query fn s).2;
          database = (call_of query fn s).3;
          pending = push_write query ttl (call_of query fn s).1 s.pending;
          results = push_result query (call_of query fn s).1 s.results;
        })
    -- Any goroutine that is left stores its result.
    finish :
        (s : System) (before behind : List Write) (w : Write)
        → s.pending ≡ before ++ w ∷ behind
        → Step s (record s {
          cache = (store_query redis hex json w.query w.result (w.ttl ∷ []) s.cache).1;
          pending = before ++ behind;
        })
    -- A call of Invalidate.
    clear :
        (query : Text) (s : System)
        → Step s (record s { cache = (invalidate redis hex query s.cache).1 })
    -- Some keys expire.
    lapse :
        (s : System) (old new : Server)
        → s.cache.server ≡ some old
        → IsPart redis hex json new old
        → Step s (record s { cache = record s.cache { server = some new } })

  pub data Reach (s : System) : System → Type 0 where
    here : Reach s s
    next : {t u : System} → Reach s t → Step t u → Reach s u
