-- ===== src/Redis.antt =====
-- What internal/cache/redis.go and internal/ratelimit/ratelimit.go use of the go-redis client: commands on a
-- server that may fail, with the laws of the Redis commands on success.
pub mod Memory
use aquatiq_root.Common.{
  ℕ, ◌+◌, ◌≤◌, Text, text_eq, ◌≡◌, ◌⊎◌, Bool, true, false, Option, none, some, List, if◌then◌else◌,
}
use aquatiq_root.Common.Int.{ℤ, pos}

-- `redis.Nil`, or any other error of a command.
pub data Fault : Type 0 where
  nil failed : Fault

pub data Reply (A : Type 0) : Type 0 where
  ok : A → Reply A
  err : Fault → Reply A

-- redis.PoolStats, numbers of 32 bits.
pub record PoolStats : Type 0 where
  pub hits : ℕ
  pub misses : ℕ
  pub timeouts : ℕ
  pub total_conns : ℕ
  pub idle_conns : ℕ
  pub stale_conns : ℕ

-- `value s k` is the string at a key, and `count s k` the number that INCR goes on from, 0 at a key
-- that is not there. A key is set, read, deleted and counted one at a time; where a set or a delete
-- gives an error, it was done or not done. The server is one that nothing but the
-- commands of a theorem changes: clients that share it take turns, and no key expires between them. Durations are in nanoseconds. The laws
-- speak of the state right after a command.
pub record Client : Type 1 where
  pub Server : Type 0
  pub get : Text → Server → Reply Text × Server
  pub set : Text → Text → ℤ → Server → Reply (Unit {0}) × Server
  pub set_nx : Text → Text → ℤ → Server → Reply Bool × Server
  pub del : Text → Server → Reply ℕ × Server
  pub exists : Text → Server → Reply ℕ × Server
  pub expire : Text → ℤ → Server → Reply Bool × Server
  pub incr : Text → Server → Reply ℕ × Server
  pub incr_by : Text → ℤ → Server → Reply ℤ × Server
  pub flush_db : Server → Reply (Unit {0}) × Server
  pub ping : Server → Reply (Unit {0}) × Server
  pub ttl : Text → Server → Reply ℤ × Server
  pub keys : Text → Server → Reply (List Text) × Server
  pub close : Server → Reply (Unit {0}) × Server
  pub pool_stats : Server → PoolStats
  pub value : Server → Text → Option Text
  pub count : Server → Text → ℕ
  pub get_found : (k v : Text) (s : Server) → (get k s).0 ≡ ok v → value s k ≡ some v
  pub get_missing : (k : Text) (s : Server) → (get k s).0 ≡ err nil → value s k ≡ none
  pub get_same : (k j : Text) (s : Server) → value (get k s).1 j ≡ value s j
  pub set_value :
      (k v j : Text) (t : ℤ) (s : Server)
      → (set k v t s).0 ≡ ok tt
      → value (set k v t s).1 j ≡ (if text_eq k j then some v else value s j)
  pub del_value :
      (k j : Text) (n : ℕ) (s : Server)
      → (del k s).0 ≡ ok n
      → value (del k s).1 j ≡ (if text_eq k j then none else value s j)
  pub incr_reply : (k : Text) (n : ℕ) (s : Server) → (incr k s).0 ≡ ok n → n ≡ count s k + 1
  pub incr_count :
      (k j : Text) (n : ℕ) (s : Server)
      → (incr k s).0 ≡ ok n
      → count (incr k s).1 j ≡ (if text_eq k j then n else count s j)
  pub expire_count :
      (k j : Text) (t : ℕ) (s : Server) → 1 ≤ t → count (expire k (pos t) s).1 j ≡ count s j
  pub ping_count : (j : Text) (s : Server) → count (ping s).1 j ≡ count s j
  pub set_either :
      (k v j : Text) (t : ℤ) (s : Server)
      → (value (set k v t s).1 j ≡ value s j)
        ⊎ ((text_eq k j ≡ true) × (value (set k v t s).1 j ≡ some v))
  pub del_either :
      (k j : Text) (s : Server) → (value (del k s).1 j ≡ value s j) ⊎ (value (del k s).1 j ≡ none)
  pub del_other : (k j : Text) (s : Server) → text_eq k j ≡ false → value (del k s).1 j ≡ value s j
  pub set_nx_true :
      (k v : Text) (t : ℤ) (s : Server)
      → (set_nx k v t s).0 ≡ ok true
      → (value s k ≡ none) × (value (set_nx k v t s).1 k ≡ some v)
  pub set_nx_either :
      (k v j : Text) (t : ℤ) (s : Server)
      → (value (set_nx k v t s).1 j ≡ value s j)
        ⊎ ((text_eq k j ≡ true) × (value s j ≡ none) × (value (set_nx k v t s).1 j ≡ some v))
