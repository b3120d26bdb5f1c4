-- ===== src/RateLimit/Tests.antt =====
-- Runs of the rate limiter on a limiter of tokens and a server in memory, and its theorems there.
use aquatiq_root.Common.{
  ℕ, ◌+◌, Text, lit, text_eq, ◌≡◌, ◌≢◌, ◌<◌, ◌≤◌, ◌⊎◌, length, refl, true, false, none, some, List,
  [], ◌∷◌, arith,
}
use aquatiq_root.Common.Int.{decimal_ℤ, pos, decimal, digits_of}
use aquatiq_root.Common.Assoc.{lookup, insert}
use aquatiq_root.Http.{set_header, Request, Handler, fresh}
use aquatiq_root.Redis.{ok}
use aquatiq_root.Redis.Memory.{Memory, memory, empty, broken}
use aquatiq_root.RateLimit.Tokens.{tokens}
use aquatiq_root.RateLimit.Limiter.{
  Config, Limiter, new, allow_global, allow_admin, allow_local_global, allow_local_admin,
  middleware, window_key, get_limit,
}
use aquatiq_root.RateLimit.Minutes.{granted-after, after}
use aquatiq_root.RateLimit.Fleet.{Fleet, granted_by_all, fleet_granted_exact}
use aquatiq_root.RateLimit.Window.{global_tier, admin_tier, granted, name}
use aquatiq_root.RateLimit.OverLimit.{asked, Tells, middleware_over_limit}
use aquatiq_root.Audit.{Line}
use aquatiq_root.RateLimit.PerIp.{
  PerIpLimiter, answers-alone, answers, bucket_answers, bucket_of, times, get_ip, allow_ip,
  get_limiter,
}

abbrev one_per_second : Config
one_per_second = record {
  global_rps = pos 1;
  admin_rps = pos 2;
  burst_size = pos 3;
  distributed = true;
}

abbrev clock : ℕ → ℕ
clock n = 1000000000 + n

abbrev over_redis : Limiter tokens (memory false)
over_redis = record {
  global_limiter = record { limit = pos 1; burst = pos 3; left = 3 };
  admin_limiter = record { limit = pos 2; burst = pos 1; left = 1 };
  cache = some empty;
  audit = some [];
  distributed = true;
  readings = 0;
}

abbrev no_redis : Limiter tokens (memory false)
no_redis = record over_redis { cache = some broken }

new-over_redis : new tokens (memory false) one_per_second (some empty) (some []) ≡ over_redis
unfolding new
new-over_redis = refl

first_key : window_key (lit "admin") 7 ≡ lit "ratelimit:admin:7"
unfolding window_key decimal digits_of lit
first_key = refl

local_limit :
    granted tokens
      (memory false)
      clock
      global_tier
      (global_tier ∷ global_tier ∷ admin_tier ∷ global_tier ∷ global_tier ∷ [])
      (record over_redis { distributed = false })
    ≡ 3
unfolding granted allow_global allow_admin allow_local_global allow_local_admin
local_limit = refl

abbrev from : Text → Request
from ip = record {
  method = lit "GET";
  path = lit "/docker";
  header = λ _. ip;
  query = λ _. [];
  remote_addr = lit "10.0.0.7:4000";
  actor = none;
  request_id = none;
}

forwarded : get_ip (from (lit "a")) ≡ lit "a"
unfolding get_ip lit
forwarded = refl

abbrev two_addresses : List (Text × ℕ)
two_addresses = (b'a' ∷ [], 1) ∷ (b'b' ∷ [], 2) ∷ (b'a' ∷ [], 3) ∷ (b'a' ∷ [], 4) ∷ []

abbrev one_token : PerIpLimiter tokens
one_token = record { limiters = []; limit = pos 5; burst = pos 1 }

alone : answers tokens (b'a' ∷ []) two_addresses one_token ≡ true ∷ false ∷ false ∷ []
unfolding answers allow_ip get_limiter lookup insert text_eq
alone = refl

answers-alone_example :
    answers tokens (b'a' ∷ []) two_addresses one_token
    ≡ bucket_answers tokens
        (times tokens (b'a' ∷ []) two_addresses)
        (bucket_of tokens (b'a' ∷ []) one_token)
answers-alone_example = answers-alone tokens (b'a' ∷ []) two_addresses one_token

abbrev always : Limiter tokens (memory true)
always = record {
  global_limiter = record { limit = pos 1; burst = pos 3; left = 3 };
  admin_limiter = record { limit = pos 2; burst = pos 1; left = 1 };
  cache = some empty;
  audit = some [];
  distributed = true;
  readings = 0;
}

abbrev still : ℕ → ℕ
still n = 60000000000

works : (k : Text) (s : Memory) → (n : ℕ) × (((memory true).incr k s).0 ≡ ok n)
works k s = (_, refl)

-- Two gateways on one server.
abbrev two_gateways : Fleet tokens (memory true) (λ _. still)
two_gateways = record { gateways = λ _. always; server = empty }

fleet_granted_exact_example :
    granted_by_all tokens
      (memory true)
      (λ _. still)
      global_tier
      ((1, global_tier) ∷ (2, admin_tier) ∷ (2, global_tier) ∷ [])
      two_gateways
    ≡ 2
unfolding lookup
fleet_granted_exact_example =
    fleet_granted_exact tokens (memory true) (λ _. still) 1 (λ i n. refl) works global_tier 60
      ((1, global_tier) ∷ (2, admin_tier) ∷ (2, global_tier) ∷ []) two_gateways
      (λ j. record { shares = refl; cached = (empty, refl); share = refl })

-- A limiter over Redis that grants nothing to the global tier.
abbrev none_for_global : Limiter tokens (memory true)
none_for_global = record always {
  global_limiter = record { limit = pos 0; burst = pos 0; left = 0 };
}

pass : Handler (Limiter tokens (memory true))
pass r w l = (w, l)

block : Handler (Limiter tokens (memory true))
block r w l = (fresh, record l { cache = none })

middleware_over_limit_example :
    let (w', l') =
      middleware tokens
        (memory true)
        still
        (name global_tier)
        pass
        (from (lit "a"))
        fresh
        none_for_global in
    (after : Memory) × (asked tokens (memory true) still 1 (λ n. refl) works global_tier after ≡ 1)
    × (((0 < 0)
          × (given : Limiter tokens (memory true)) × (given.audit ≡ some [])
          × (given.cache ≡ some after)
          × ((w', l')
              ≡ pass
                  (from (lit "a"))
                  (set_header "X-RateLimit-Limit"
                    (decimal_ℤ (get_limit tokens (memory true) (name global_tier) given))
                    fresh)
                  given))
        ⊎ ((0 ≤ 0)
            × ((w', l')
                ≡ middleware tokens
                    (memory true)
                    still
                    (name global_tier)
                    block
                    (from (lit "a"))
                    fresh
                    none_for_global)
            × (w'.status ≡ 429)
            × (length w'.written ≡ 1)
            × (l'.cache ≡ some after)
            × (line : Line) × (l'.audit ≡ some (line ∷ []))
            × Tells (from (lit "a")) (name global_tier) line))
unfolding lookup
middleware_over_limit_example =
    middleware_over_limit tokens (memory true) still 1 (λ n. refl) works global_tier
      (from (lit "a")) fresh empty none_for_global [] pass block refl refl refl refl refl

abbrev later_still : ℕ → ℕ
later_still n = 120000000000

minutes_apart : ◌≢◌ {A = ℕ} 1 2
minutes_apart e = omega (arith, e)

granted-after_example :
    granted tokens
      (memory true)
      later_still
      global_tier
      (global_tier ∷ [])
      (after tokens (memory true) works still (global_tier ∷ admin_tier ∷ []) always)
    ≡ 1
unfolding lookup
granted-after_example =
    granted-after tokens (memory true) works still later_still 1 2 (λ n. refl) (λ n. refl)
      minutes_apart global_tier (global_tier ∷ admin_tier ∷ []) (global_tier ∷ []) empty always refl
      refl
