-- ===== src/Cache/Query.antt =====
-- internal/cache/query_cache.go: query results under the hash of the query.
use aquatiq_root.Common.{
  ℕ, Text, lit, ◌++◌, List, [], ◌∷◌, Bool, false, Option, none, some, if◌then◌else◌, ltb, ◌==◌,
  is_empty,
}
use aquatiq_root.Common.Int.{ℤ, pos, negsuc, pos_part}
use aquatiq_root.Redis.{Client}
use aquatiq_root.Cache.Store.{
  Codec, Error, Result, done, fail, not_configured, not_implemented, set, get, delete, pool_stats,
}

abbrev pub is_zero : ℤ → Bool
is_zero (pos n) = n == 0
is_zero (negsuc n) = false

-- What a query gives: a value, or an error.
pub data Outcome (A E : Type 0) : Type 0 where
  returned : A → Outcome A E
  failed : E → Outcome A E

-- What GetStats returns: the lifetime that is printed, the prefix, and a part of the statistics of the client.
pub record PoolReport : Type 0 where
  pub total_conns : ℕ
  pub idle_conns : ℕ
  pub hits : ℕ
  pub misses : ℕ

pub data QueryStats : Type 0 where
  disabled : QueryStats
  enabled : Text → Text → PoolReport → QueryStats

module _ (redis : Client) where
  open redis use {Server}

  -- The Redis server is none where the cache is nil. Durations are in nanoseconds.
  pub record QueryCache : Type 0 where
    pub server : Option Server
    pub default_ttl : ℤ
    pub prefix : Text

  pub record QueryCacheConfig : Type 0 where
    pub redis_cache : Option Server
    pub default_ttl : ℤ
    pub prefix : Text

  -- NewQueryCache
  unfoldable pub new_query_cache : QueryCacheConfig → QueryCache
  new_query_cache cfg = record {
    server = cfg.redis_cache;
    default_ttl = if is_zero cfg.default_ttl then pos 300000000000 else cfg.default_ttl;
    prefix = if is_empty cfg.prefix then lit "query" else cfg.prefix;
  }

  -- GetStats, where `show` prints a duration.
  unfoldable pub get_stats : (ℤ → Text) → QueryCache → QueryStats
  get_stats show qc = elim qc.server [
    | none ↦ disabled
    | some s ↦
        let stats = pool_stats redis s in
        enabled (show qc.default_ttl) qc.prefix (record {
          total_conns = stats.total_conns;
          idle_conns = stats.idle_conns;
          hits = stats.hits;
          misses = stats.misses;
        })
  ]

  -- `hex` is the SHA-256 of a text in hexadecimal digits.
  module _ (hex : Text → Text) where
    -- generateKey
    unfoldable pub generate_key : Text → QueryCache → Text
    generate_key query qc = qc.prefix ++ (lit ":" ++ hex query)

    -- Invalidate
    unfoldable pub invalidate : Text → QueryCache → Result ℕ × QueryCache
    invalidate query qc = elim qc.server [
      | none ↦ (fail not_configured, qc)
      | some s ↦
          let (answer, s') = delete redis (generate_key query qc) s in
          (answer, record qc { server = some s' })
    ]

    -- InvalidatePattern
    unfoldable pub invalidate_pattern : Text → QueryCache → Error
    invalidate_pattern pattern qc = elim qc.server [
      | none ↦ not_configured
      | some s ↦ not_implemented
    ]

    -- `len(ttl) > 0 && ttl[0] > 0`
    abbrev pub chosen_ttl : List ℤ → ℤ → ℤ
    chosen_ttl [] default_ttl = default_ttl
    chosen_ttl (ttl ∷ _) default_ttl = if ltb 0 (pos_part ttl) then ttl else default_ttl

    module _ {A : Type 0} (json : Codec A) where
      -- A hit with its value, a miss, or the one error that is reported.
      abbrev pub hit : Result A → Result (Option A)
      hit (done a) = done (some a)
      hit (fail _) = done none

      -- Get
      unfoldable pub lookup_query : Text → QueryCache → Result (Option A) × QueryCache
      lookup_query query qc = elim qc.server [
        | none ↦ (fail not_configured, qc)
        | some s ↦
            let (answer, s') = get redis json (generate_key query qc) s in
            (hit answer, record qc { server = some s' })
      ]

      -- Set
      unfoldable pub store_query : Text → A → List ℤ → QueryCache → Result (Unit {0}) × QueryCache
      store_query query v ttl qc = elim qc.server [
        | none ↦ (fail not_configured, qc)
        | some s ↦
            let (answer, s') =
              set redis json (generate_key query qc) v (chosen_ttl ttl qc.default_ttl) s in
            (answer, record qc { server = some s' })
      ]

      -- `hit && result != nil`, where `is_nil` is the test for nil.
      abbrev pub usable : (A → Bool) → Result (Option A) → Option A
      usable is_nil (done (some a)) = if is_nil a then none else some a
      usable is_nil (done none) = none
      usable is_nil (fail _) = none

      -- CacheWrapper runs the query on a database `D`, which may fail with an `E`. The second component is
      -- what the goroutine will store.
      module _ {D E : Type 0} (is_nil : A → Bool) where
        -- What CacheWrapper does on a miss.
        abbrev pub on_miss : Outcome A E × D → QueryCache → Outcome A E × Option A × QueryCache × D
        on_miss (returned a, d) qc = (returned a, some a, qc, d)
        on_miss (failed e, d) qc = (failed e, none, qc, d)

        unfoldable pub cache_wrapper :
            Text → (D → Outcome A E × D) → QueryCache → D → Outcome A E × Option A × QueryCache × D
        cache_wrapper query fn qc d =
            let (answer, qc') = lookup_query query qc in
            elim (usable is_nil answer) [
              | some a ↦ (returned a, none, qc', d)
              | none ↦ on_miss (fn d) qc'
            ]
