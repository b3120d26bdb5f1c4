-- ===== src/Redis/Memory.antt =====
-- A server in memory, which meets what is assumed of the Redis client. Its keys do not expire, and a pattern is a key.
use aquatiq_root.Common.{
  ℕ, ◌+◌, ◌≤◌, Text, text_eq, text_eq_refl, text_eq_iff, ◌≡◌, ◌⊎◌, Bool, true, false, ◌||◌, Option,
  none, some, List, [], ◌∷◌, if◌then◌else◌, arith,
}
use aquatiq_root.Common.Int.{ℤ, pos, negsuc}
use aquatiq_root.Common.Assoc.{lookup, insert, delete, lookup-insert, lookup-delete}
use aquatiq_root.Redis.{Client, PoolStats, Reply, ok, err, nil, failed}

-- The strings and the counters, and whether the server can be reached.
pub record Memory : Type 0 where
  pub strings : List (Text × Text)
  pub counts : List (Text × ℕ)
  pub up : Bool

abbrev pub empty : Memory
empty = record { strings = []; counts = []; up = true }

abbrev pub broken : Memory
broken = record empty { up = false }

abbrev no_stats : PoolStats
no_stats = record {
  hits = 0;
  misses = 0;
  timeouts = 0;
  total_conns = 0;
  idle_conns = 0;
  stale_conns = 0;
}

-- `sure` for a server that can always be reached.
module _ (sure : Bool) where
  abbrev pub guarded : {A : Type 0} → (Memory → Reply A × Memory) → Memory → Reply A × Memory
  guarded run s = if sure || s.up then run s else (err failed, s)

  abbrev pub found : Option Text → Reply Text
  found none = err nil
  found (some v) = ok v

  abbrev pub counted : Text → Memory → ℕ
  counted k s = elim (lookup k s.counts) [ none ↦ 0 | some n ↦ n ]

  abbrev pub is_there : Text → Memory → Bool
  is_there k s = elim (lookup k s.strings) [ none ↦ false | some _ ↦ true ]

  abbrev pub read_at : Text → Memory → Reply Text × Memory
  read_at k = guarded (λ s. (found (lookup k s.strings), s))

  abbrev pub set_at : Text → Text → ℤ → Memory → Reply (Unit {0}) × Memory
  set_at k v t = guarded (λ s. (ok tt, record s { strings = insert k v s.strings }))

  abbrev pub set_new : Text → Text → ℤ → Memory → Reply Bool × Memory
  set_new k v t = guarded (λ s.
      if is_there k s
      then (ok false, s)
      else (ok true, record s { strings = insert k v s.strings }))

  abbrev pub delete_at : Text → Memory → Reply ℕ × Memory
  delete_at k =
      guarded (λ s. (ok (if is_there k s then 1 else 0), record s { strings = delete k s.strings }))

  abbrev pub exists_at : Text → Memory → Reply ℕ × Memory
  exists_at k = guarded (λ s. (ok (if is_there k s then 1 else 0), s))

  abbrev pub expire_at : Text → ℤ → Memory → Reply Bool × Memory
  expire_at k t = guarded (λ s. (ok true, s))

  abbrev pub count_at : Text → Memory → Reply ℕ × Memory
  count_at k =
      guarded
        (λ s. (ok (counted k s + 1), record s { counts = insert k (counted k s + 1) s.counts }))

  pub get_found_lem :
      (k v : Text) (s : Memory) → (read_at k s).0 ≡ ok v → lookup k s.strings ≡ some v
  get_found_lem k v s h = ground arith

  pub get_missing_lem :
      (k : Text) (s : Memory) → (read_at k s).0 ≡ err nil → lookup k s.strings ≡ none
  get_missing_lem k s h = ground arith

  pub get_same_lem :
      (k j : Text) (s : Memory) → lookup j (read_at k s).1.strings ≡ lookup j s.strings
  get_same_lem k j s = ground arith

  pub set_value_lem :
      (k v j : Text) (t : ℤ) (s : Memory)
      → (set_at k v t s).0 ≡ ok tt
      → lookup j (set_at k v t s).1.strings ≡ (if text_eq k j then some v else lookup j s.strings)
  set_value_lem k v j t s h = ground (arith, lookup-insert k j v s.strings)

  pub del_value_lem :
      (k j : Text) (n : ℕ) (s : Memory)
      → (delete_at k s).0 ≡ ok n
      → lookup j (delete_at k s).1.strings ≡ (if text_eq k j then none else lookup j s.strings)
  del_value_lem k j n s h = ground (arith, lookup-delete k j s.strings)

  pub incr_reply_lem :
      (k : Text) (n : ℕ) (s : Memory) → (count_at k s).0 ≡ ok n → n ≡ counted k s + 1
  incr_reply_lem k n s h = ground arith

  pub incr_count_lem :
      (k j : Text) (n : ℕ) (s : Memory)
      → (count_at k s).0 ≡ ok n
      → counted j (count_at k s).1 ≡ (if text_eq k j then n else counted j s)
  incr_count_lem k j n s h = ground (arith, lookup-insert k j (counted k s + 1) s.counts)

  pub expire_count_lem :
      (k j : Text) (t : ℕ) (s : Memory) → 1 ≤ t → counted j (expire_at k (pos t) s).1 ≡ counted j s
  expire_count_lem k j t s h = ground arith

  abbrev pub ping_server : Memory → Reply (Unit {0}) × Memory
  ping_server = guarded λ s. (ok tt, s)

  pub ping_count_lem : (j : Text) (s : Memory) → counted j (ping_server s).1 ≡ counted j s
  ping_count_lem j s = ground arith

  pub set_either_lem :
      (k v j : Text) (t : ℤ) (s : Memory)
      → (lookup j (set_at k v t s).1.strings ≡ lookup j s.strings)
        ⊎ ((text_eq k j ≡ true) × (lookup j (set_at k v t s).1.strings ≡ some v))
  set_either_lem k v j t s = ground (arith, lookup-insert k j v s.strings)

  pub del_either_lem :
      (k j : Text) (s : Memory)
      → (lookup j (delete_at k s).1.strings ≡ lookup j s.strings)
        ⊎ (lookup j (delete_at k s).1.strings ≡ none)
  del_either_lem k j s = ground (arith, lookup-delete k j s.strings)

  pub del_other_lem :
      (k j : Text) (s : Memory)
      → text_eq k j ≡ false
      → lookup j (delete_at k s).1.strings ≡ lookup j s.strings
  del_other_lem k j s h = ground (arith, lookup-delete k j s.strings)

  pub set_nx_true_lem :
      (k v : Text) (t : ℤ) (s : Memory)
      → (set_new k v t s).0 ≡ ok true
      → (lookup k s.strings ≡ none) × (lookup k (set_new k v t s).1.strings ≡ some v)
  set_nx_true_lem k v t s h =
      (ground arith, ground (arith, h, lookup-insert k k v s.strings, text_eq_refl k))

  pub set_nx_either_lem :
      (k v j : Text) (t : ℤ) (s : Memory)
      → (lookup j (set_new k v t s).1.strings ≡ lookup j s.strings)
        ⊎ ((text_eq k j ≡ true)
            × (lookup j s.strings ≡ none)
            × (lookup j (set_new k v t s).1.strings ≡ some v))
  set_nx_either_lem k v j t s = ground (arith, lookup-insert k j v s.strings, text_eq_iff k j)

  abbrev pub memory : Client
  memory = record {
    Server = Memory;
    get = read_at;
    set = set_at;
    set_nx = set_new;
    del = delete_at;
    exists = exists_at;
    expire = expire_at;
    incr = count_at;
    incr_by = λ k t. guarded (λ s. (ok t, s));
    flush_db = guarded (λ s. (ok tt, record s { strings = []; counts = [] }));
    ping = guarded (λ s. (ok tt, s));
    ttl = λ k. guarded (λ s. (ok (if is_there k s then negsuc 0 else negsuc 1), s));
    keys = λ pattern. guarded (λ s. (ok (if is_there pattern s then pattern ∷ [] else []), s));
    close = λ s. (ok tt, record s { up = false });
    pool_stats = λ s. no_stats;
    value = λ s k. lookup k s.strings;
    count = λ s k. counted k s;
    get_found = get_found_lem;
    get_missing = get_missing_lem;
    get_same = get_same_lem;
    set_value = set_value_lem;
    del_value = del_value_lem;
    incr_reply = incr_reply_lem;
    incr_count = incr_count_lem;
    expire_count = expire_count_lem;
    ping_count = ping_count_lem;
    set_either = set_either_lem;
    del_either = del_either_lem;
    del_other = del_other_lem;
    set_nx_true = set_nx_true_lem;
    set_nx_either = set_nx_either_lem;
  }
