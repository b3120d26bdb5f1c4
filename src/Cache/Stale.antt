-- ===== src/Cache/Stale.antt =====
-- Invalidate of internal/cache/query_cache.go against the goroutine of an earlier CacheWrapper.
use aquatiq_root.Common.{
  ℕ, Text, text_eq_refl, ◌≡◌, ◌≢◌, inl, inr, refl, ap, ◌∙◌, Bool, true, Option, none, some, List,
  [], ◌∷◌, ◌++◌, if◌then◌else◌, arith,
}
use aquatiq_root.Common.Int.{ℤ}
use aquatiq_root.Redis.{Client}
use aquatiq_root.Cache.Store.{
  Codec, done, fail, get_failed, set, get, delete, stored, get-stored, delete_removes,
}
use aquatiq_root.Cache.Results.{get-set}
use aquatiq_root.Cache.Query.{
  QueryCache, generate_key, lookup_query, store_query, invalidate, chosen_ttl,
}
use aquatiq_root.Cache.Steps.{Write, System, Reach, finish, clear, here, next}

module _ (redis : Client) (hex : Text → Text) {A : Type 0} (json : Codec A) where
  open redis use {Server, value}

  -- The cache after Invalidate, and after a result is stored then.
  abbrev pub cleared : Text → QueryCache redis → QueryCache redis
  cleared query qc = (invalidate redis hex query qc).1

  abbrev pub stored_after : Text → A → ℤ → QueryCache redis → QueryCache redis
  stored_after query a ttl qc = (store_query redis hex json query a (ttl ∷ []) (cleared query qc)).1

  lookup-cleared :
      (query : Text) (n : ℕ) (qc : QueryCache redis) (server : Option Server)
      → qc.server ≡ server
      → (invalidate redis hex query qc).0 ≡ done n
      → (lookup_query redis hex json query (cleared query qc)).0 ≡ done none
  unfolding invalidate lookup_query generate_key
  lookup-cleared query n qc none e deleted = ground (arith, e, deleted)
  lookup-cleared query n qc (some s) e deleted =
      let key = generate_key redis hex query qc in
      let gone =
        delete_removes redis key key n s (ground (arith, e, deleted))
        ∙ ap (λ b. if b then none else value s key) (text_eq_refl key) in
      elim (get-stored redis json key (delete redis key s).1) [
        | inl down ↦ ground (arith, e, down)
        | inr read ↦ ground (arith, e, read ∙ ap (stored redis json) gone)
      ]

  lookup-stored_after :
      (query : Text) (a : A) (ttl : ℤ) (qc : QueryCache redis) (server : Option Server)
      → qc.server ≡ server
      → (store_query redis hex json query a (ttl ∷ []) (cleared query qc)).0 ≡ done tt
      → json.valid a ≡ true
      → ((key : Text) (s : Server) → (get redis json key s).0 ≢ fail get_failed)
      → (lookup_query redis hex json query (stored_after query a ttl qc)).0 ≡ done (some a)
  unfolding invalidate lookup_query store_query generate_key
  lookup-stored_after query a ttl qc none e kept ok up = ground (arith, e, kept)
  lookup-stored_after query a ttl qc (some s) e kept ok up =
      let key = generate_key redis hex query qc in
      let t = chosen_ttl redis hex (ttl ∷ []) qc.default_ttl in
      let s' = (delete redis key s).1 in
      let read =
        get-set redis json key a t s' ok (ground (arith, e, kept))
          (up key (set redis json key a t s').1) in
      ground (arith, e, read)

  module _ (D E : Type 0) (is_nil : A → Bool) where
    -- An Invalidate that succeeds while the goroutine of an earlier call has not stored its result is undone: the cache
    -- has nothing for the query right after it, and the old result again once the goroutine has stored it. This is
    -- for results that JSON keeps, and where no read fails.
    pub invalidate_undone :
        (query : Text) (a : A) (ttl : ℤ) (n : ℕ) (s : System redis hex json D E is_nil)
        (before behind : List (Write redis hex json D E is_nil))
        → s.pending ≡ before ++ record { query = query; result = a; ttl = ttl } ∷ behind
        → (invalidate redis hex query s.cache).0 ≡ done n
        → (store_query redis hex json query a (ttl ∷ []) (cleared query s.cache)).0 ≡ done tt
        → json.valid a ≡ true
        → ((key : Text) (r : Server) → (get redis json key r).0 ≢ fail get_failed)
        → Reach redis hex json D E is_nil s
            (record s { cache = stored_after query a ttl s.cache; pending = before ++ behind })
          × ((lookup_query redis hex json query (cleared query s.cache)).0 ≡ done none)
          × ((lookup_query redis hex json query (stored_after query a ttl s.cache)).0
              ≡ done (some a))
    invalidate_undone query a ttl n s before behind owed deleted kept ok up = (
      next (next here (clear query s))
          (finish (record s { cache = cleared query s.cache }) before behind _ owed),
      lookup-cleared query n s.cache s.cache.server refl deleted,
      lookup-stored_after query a ttl s.cache s.cache.server refl kept ok up,
    )
