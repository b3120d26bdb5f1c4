-- ===== src/Cache/Results.antt =====
-- What is read back from the caches of internal/cache.
use aquatiq_root.Common.{
  ℕ, Text, text_eq, text_eq_refl, ◌≡◌, ◌≢◌, inl, inr, refl, ◌∙◌, ap, Bool, true, false, Option,
  none, some, List, [], ◌∷◌, ◌++◌, if◌then◌else◌, ltb, arith,
}
use aquatiq_root.Common.Int.{ℤ}
use aquatiq_root.Redis.{Client}
use aquatiq_root.Cache.Store.{
  Codec, done, fail, get_failed, set, get, delete, stored, get-stored, set_writes, delete_removes,
}
use aquatiq_root.Cache.Token.{
  Token, until, TokenCache, set_token, get_token, delete_token, is_token_valid,
}
use aquatiq_root.Cache.Query.{
  QueryCache, Outcome, returned, chosen_ttl, generate_key, store_query, lookup_query, cache_wrapper,
}

pub text_eq-append : (p a b : Text) → text_eq (p ++ a) (p ++ b) ≡ text_eq a b
unfolding text_eq
text_eq-append [] a b = refl
text_eq-append (c ∷ p) a b = ground (arith, text_eq-append p a b)

module _ (redis : Client) {A : Type 0} (json : Codec A) where
  open redis use {Server, value}

  -- A value that was set is read back.
  pub get-set :
      (key : Text) (v : A) (t : ℤ) (s : Server)
      → json.valid v ≡ true
      → (set redis json key v t s).0 ≡ done tt
      → (get redis json key (set redis json key v t s).1).0 ≢ fail get_failed
      → (get redis json key (set redis json key v t s).1).0 ≡ done v
  get-set key v t s ok done_set up =
      let (bytes, e, w) = set_writes redis json key key v t s done_set in
      let there = w ∙ ap (λ b. if b then some bytes else value s key) (text_eq_refl key) in
      elim (get-stored redis json key (set redis json key v t s).1) [
        | inl down ↦ elim (up down) [ ]
        | inr read ↦
            read ∙ ap (stored redis json) there ∙ rw (json.unmarshal-marshal v bytes ok e) refl
      ]

module _ (redis : Client) (json : Codec Token) where
  open redis use {Server, value}

  -- After a successful SetToken of a token that JSON keeps, GetToken returns the token, and IsTokenValid
  -- tells whether its time of expiry is still to come, unless the client fails to read.
  pub set_token-IsRead :
      (now later : ℕ) (service : Text) (token : Token) (t : TokenCache redis json)
      → json.valid token ≡ true
      → (set_token redis json now service token t).0 ≡ done tt
      → (get_token redis json service (set_token redis json now service token t).1).0
        ≢ fail get_failed
      → ((get_token redis json service (set_token redis json now service token t).1).0 ≡ done token)
        × ((is_token_valid redis json later service (set_token redis json now service token t).1).0
            ≡ ltb later token.expires_at)
  unfolding set_token get_token is_token_valid
  set_token-IsRead now later service token t ok set up =
      let e =
        get-set redis json (t.prefix ++ service) token (until token.expires_at now) t.server ok set
          up in
      (e, rw e refl)

  -- After a successful DeleteToken the service's token is not valid at any time, and what is stored
  -- for any other service is what was stored before.
  delete_token_forgets :
      (later n : ℕ) (service other : Text) (t : TokenCache redis json)
      → (delete_token redis json service t).0 ≡ done n
      → text_eq service other ≡ false
      → ((is_token_valid redis json later service (delete_token redis json service t).1).0 ≡ false)
        × (value (delete_token redis json service t).1.server (t.prefix ++ other)
            ≡ value t.server (t.prefix ++ other))
  unfolding delete_token is_token_valid get_token
  delete_token_forgets later n service other t deleted differ =
      let gone =
        delete_removes redis (t.prefix ++ service) (t.prefix ++ service) n t.server deleted
        ∙ ap (λ b. if b then none else value t.server (t.prefix ++ service))
            (text_eq_refl (t.prefix ++ service)) in
      let kept =
        delete_removes redis (t.prefix ++ service) (t.prefix ++ other) n t.server deleted in
      (
        elim (get-stored redis json (t.prefix ++ service)
            (delete redis (t.prefix ++ service) t.server).1) [
              | inl down ↦ rw down refl
              | inr read ↦ rw (read ∙ ap (stored redis json) gone) refl
            ],
        kept
            ∙ ap (λ b. if b then none else value t.server (t.prefix ++ other))
                (text_eq-append t.prefix service other ∙ differ),
      )

module _ (redis : Client) (hex : Text → Text) {A : Type 0} (json : Codec A) {D E : Type 0}
    (is_nil : A → Bool) where
  -- What was stored for a query, CacheWrapper returns.
  wrapper-store :
      (query : Text) (fn : D → Outcome A E × D) (d : D) (ttl : List ℤ) (a : A)
      (qc : QueryCache redis) (server : Option redis.Server)
      → qc.server ≡ server
      → json.valid a ≡ true
      → is_nil a ≡ false
      → (store_query redis hex json query a ttl qc).0 ≡ done tt
      → ((key : Text) (s : redis.Server) → (get redis json key s).0 ≢ fail get_failed)
      → let again =
          cache_wrapper redis hex json is_nil query fn
            (store_query redis hex json query a ttl qc).1
            d in
        (again.0 ≡ returned a) × (again.1 ≡ none) × (again.3 ≡ d)
  unfolding cache_wrapper lookup_query store_query generate_key
  wrapper-store query fn d ttl a qc none e ok solid kept up = ground (arith, e, kept)
  wrapper-store query fn d ttl a qc (some s) e ok solid kept up =
      let key = generate_key redis hex query qc in
      let t = chosen_ttl redis hex ttl qc.default_ttl in
      let read =
        get-set redis json key a t s ok (ground (arith, e, kept))
          (up key (set redis json key a t s).1) in
      (
        ground (arith, e, read, solid),
        ground (arith, e, read, solid),
        ground (arith, e, read, solid),
      )

  -- What the goroutine of a CacheWrapper call stored, the next call for the query returns without running a
  -- query and without storing anything, provided that JSON keeps the value, that it is not nil, that the cache
  -- has stored it, and that no read fails.
  pub cache_wrapper_reuses :
      (query : Text) (fn fn' : D → Outcome A E × D) (qc : QueryCache redis) (d d' : D) (ttl : ℤ)
      (a : A)
      → (cache_wrapper redis hex json is_nil query fn qc d).1 ≡ some a
      → json.valid a ≡ true
      → is_nil a ≡ false
      → (store_query redis hex json query a
          (ttl ∷ [])
          (cache_wrapper redis hex json is_nil query fn qc d).2).0
        ≡ done tt
      → ((key : Text) (s : redis.Server) → (get redis json key s).0 ≢ fail get_failed)
      → let qc' = (cache_wrapper redis hex json is_nil query fn qc d).2 in
        let again =
          cache_wrapper redis hex json is_nil query fn'
            (store_query redis hex json query a (ttl ∷ []) qc').1
            d' in
        ((cache_wrapper redis hex json is_nil query fn qc d).0 ≡ returned a)
        × (again.0 ≡ returned a)
        × (again.1 ≡ none)
        × (again.3 ≡ d')
  unfolding cache_wrapper
  cache_wrapper_reuses query fn fn' qc d d' ttl a pending ok solid kept up =
      let qc' = (cache_wrapper redis hex json is_nil query fn qc d).2 in
      let (same, nothing, untouched) =
        wrapper-store query fn' d' (ttl ∷ []) a qc' qc'.server refl ok solid kept up in
      (ground (arith, pending), same, nothing, untouched)
