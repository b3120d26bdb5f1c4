-- ===== src/Cache/Store.antt =====
-- The RedisCache of internal/cache/redis.go: values as JSON under a key, over the Redis client.
use aquatiq_root.Common.{
  ℕ, Text, text_eq, ◌≡◌, refl, sym, ap, Bool, true, false, Option, none, some, List, if◌then◌else◌,
  ltb, arith, inl, inr, ◌⊎◌,
}
use aquatiq_root.Common.Int.{ℤ}
use aquatiq_root.Redis.{Client, PoolStats, Reply, ok, err, nil, failed}

-- What the cache uses of encoding/json for the values of a type. JSON keeps a `valid` value: one whose
-- strings are UTF-8 and which is of the type that decoding makes.
pub record Codec (A : Type 0) : Type 0 where
  pub marshal : A → Option Text
  pub unmarshal : Text → Option A
  pub valid : A → Bool
  pub unmarshal-marshal :
      (a : A) (d : Text) → valid a ≡ true → marshal a ≡ some d → unmarshal d ≡ some a

pub data Error : Type 0 where
  not_marshalled key_not_found get_failed not_unmarshalled command_failed not_configured
        not_implemented :
      Error

pub data Result (A : Type 0) : Type 0 where
  done : A → Result A
  fail : Error → Result A

-- `.Err()` and `.Result()` of a command.
abbrev pub result : {A : Type 0} → Reply A → Result A
result (ok a) = done a
result (err _) = fail command_failed

module _ (redis : Client) where
  open redis use {Server, value}

  -- Delete, Expire, Increment, IncrementBy, FlushDB, Ping
  unfoldable pub delete : Text → Server → Result ℕ × Server
  delete key s = let (reply, s') = redis.del key s in (result reply, s')

  unfoldable pub expire : Text → ℤ → Server → Result Bool × Server
  expire key t s = let (reply, s') = redis.expire key t s in (result reply, s')

  unfoldable pub increment : Text → Server → Result ℕ × Server
  increment key s = let (reply, s') = redis.incr key s in (result reply, s')

  unfoldable pub increment_by : Text → ℤ → Server → Result ℤ × Server
  increment_by key n s = let (reply, s') = redis.incr_by key n s in (result reply, s')

  unfoldable pub flush_db : Server → Result (Unit {0}) × Server
  flush_db s = let (reply, s') = redis.flush_db s in (result reply, s')

  unfoldable pub ping : Server → Result (Unit {0}) × Server
  ping s = let (reply, s') = redis.ping s in (result reply, s')

  -- GetTTL, Keys and Close
  unfoldable pub get_ttl : Text → Server → Result ℤ × Server
  get_ttl key s = let (reply, s') = redis.ttl key s in (result reply, s')

  unfoldable pub keys : Text → Server → Result (List Text) × Server
  keys pattern s = let (reply, s') = redis.keys pattern s in (result reply, s')

  unfoldable pub close : Server → Result (Unit {0}) × Server
  close s = let (reply, s') = redis.close s in (result reply, s')

  -- PoolStats
  abbrev pub pool_stats : Server → PoolStats
  pool_stats s = redis.pool_stats s

  -- Exists: on an error the count is 0.
  unfoldable pub exists : Text → Server → (Bool × Option Error) × Server
  exists key s =
      let (reply, s') = redis.exists key s in
      (elim reply [ ok n ↦ (ltb 0 n, none) | err _ ↦ (false, some command_failed) ], s')

  module _ {A : Type 0} (json : Codec A) where
    open json use {marshal, unmarshal}

    -- Set
    unfoldable pub set : Text → A → ℤ → Server → Result (Unit {0}) × Server
    set key v t s = elim (marshal v) [
      | none ↦ (fail not_marshalled, s)
      | some bytes ↦ let (reply, s') = redis.set key bytes t s in (result reply, s')
    ]

    -- SetNX
    unfoldable pub set_nx : Text → A → ℤ → Server → Result Bool × Server
    set_nx key v t s = elim (marshal v) [
      | none ↦ (fail not_marshalled, s)
      | some bytes ↦ let (reply, s') = redis.set_nx key bytes t s in (result reply, s')
    ]

    abbrev decoded : Option A → Result A
    decoded none = fail not_unmarshalled
    decoded (some a) = done a

    -- What Get returns for a reply.
    abbrev pub read : Reply Text → Result A
    read (ok bytes) = decoded (unmarshal bytes)
    read (err nil) = fail key_not_found
    read (err failed) = fail get_failed

    -- Get
    unfoldable pub get : Text → Server → Result A × Server
    get key s = let (reply, s') = redis.get key s in (read reply, s')

    -- What is read for the string at a key, where no command fails.
    abbrev pub stored : Option Text → Result A
    stored none = fail key_not_found
    stored (some bytes) = decoded (unmarshal bytes)

    read-stored :
        (key : Text) (s : Server) (reply : Reply Text)
        → (redis.get key s).0 ≡ reply
        → read reply ≡ fail get_failed ⊎ read reply ≡ stored (value s key)
    read-stored key s (ok bytes) e = inr (ap stored (sym (redis.get_found key bytes s e)))
    read-stored key s (err nil) e = inr (ap stored (sym (redis.get_missing key s e)))
    read-stored key s (err failed) e = inl refl

    -- Get reads the string at the key, or the client failed.
    pub get-stored :
        (key : Text) (s : Server)
        → ((get key s).0 ≡ fail get_failed) ⊎ ((get key s).0 ≡ stored (value s key))
    unfolding get
    get-stored key s = read-stored key s (redis.get key s).0 refl

    pub get_keeps : (key j : Text) (s : Server) → value (get key s).1 j ≡ value s j
    unfolding get
    get_keeps key j s = redis.get_same key j s

    result-ok : (r : Reply (Unit {0})) → result r ≡ done tt → r ≡ ok tt
    result-ok (ok tt) h = refl
    result-ok (err e) h = cc h

    -- A successful Set writes the key alone.
    pub set_writes :
        (key j : Text) (v : A) (t : ℤ) (s : Server)
        → (set key v t s).0 ≡ done tt
        → (bytes : Text) × (marshal v ≡ some bytes)
          × (value (set key v t s).1 j ≡ (if text_eq key j then some bytes else value s j))
    unfolding set
    set_writes key j v t s h = go (marshal v) refl
      where
        go :
            (m : Option Text)
            → marshal v ≡ m
            → (bytes : Text) × (marshal v ≡ some bytes)
              × (value (set key v t s).1 j ≡ (if text_eq key j then some bytes else value s j))
        go none e = ground (arith, e, h)
        go (some bytes) e = (
          bytes,
          e,
          rw (e, set)
              (redis.set_value key bytes j t s
                (result-ok (redis.set key bytes t s).0 (ground (arith, e, h)))),
        )

  result-count : (r : Reply ℕ) (n : ℕ) → result r ≡ done n → r ≡ ok n
  result-count (ok m) n h = cc h
  result-count (err e) n h = cc h

  -- A successful Delete takes the key away, and no other.
  pub delete_removes :
      (key j : Text) (n : ℕ) (s : Server)
      → (delete key s).0 ≡ done n
      → value (delete key s).1 j ≡ (if text_eq key j then none else value s j)
  unfolding delete
  delete_removes key j n s h = redis.del_value key j n s (result-count (redis.del key s).0 n h)
