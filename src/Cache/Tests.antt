-- ===== src/Cache/Tests.antt =====
-- The caches over a server in memory, and their theorems there.
use aquatiq_root.Common.{
  ℕ, suc, Text, lit, text_eq, ◌≡◌, ◌≢◌, ◌⊎◌, refl, Bool, true, false, ◌&&◌, Option, none, some, [],
  ◌∷◌, is_empty, arith,
}
use aquatiq_root.Common.Int.{pos}
use aquatiq_root.Common.Assoc.{lookup, insert}
use aquatiq_root.Redis.{Client}
use aquatiq_root.Redis.Memory.{Memory, memory, empty}
use aquatiq_root.Cache.Store.{Codec, done, fail, get_failed, set, set_nx, get, delete}
use aquatiq_root.Cache.Token.{
  Token, TokenCache, new_token_cache, set_token, get_token, is_token_valid,
}
use aquatiq_root.Cache.Query.{
  QueryCache, Outcome, returned, new_query_cache, store_query, lookup_query, cache_wrapper,
  generate_key, invalidate,
}
use aquatiq_root.Cache.Results.{set_token-IsRead, cache_wrapper_reuses}
use aquatiq_root.Cache.Steps.{System, Step, call, finish, here, next, Reach}
use aquatiq_root.Cache.Stale.{cleared, stored_after, invalidate_undone}
use aquatiq_root.Cache.Answers.{Answered, hit-Answered}
use aquatiq_root.Cache.Lock.{attempt, write, contend, lock_exclusive}

abbrev bare : ℕ → Token
bare t = record {
  access_token = [];
  refresh_token = [];
  token_type = [];
  expires_at = t;
  scope = [];
}

abbrev is_bare : Token → Bool
is_bare t =
    is_empty t.access_token
    && (is_empty t.refresh_token && (is_empty t.token_type && is_empty t.scope))

abbrev to_bare : Text → Option Token
to_bare (n ∷ []) = some (bare n)
to_bare _ = none

bare_again :
    (t : Token) (d : Text)
    → is_bare t ≡ true
    → some (t.expires_at ∷ []) ≡ some d
    → to_bare d ≡ some t
bare_again t d h e = ground (arith, h, e)

-- Keeps the time of expiry of a token that has nothing else.
abbrev token_codec : Codec Token
token_codec = record {
  marshal = λ t. some (t.expires_at ∷ []);
  unmarshal = to_bare;
  valid = is_bare;
  unmarshal-marshal = bare_again;
}

abbrev redis : Client
redis = memory true

abbrev visma : Text
visma = lit "visma"

abbrev tokens : TokenCache redis token_codec
tokens = record { prefix = lit "token:"; server = empty }

new_tokens : new_token_cache redis token_codec empty ≡ tokens
unfolding new_token_cache
new_tokens = refl

set_token-IsRead_example :
    ((get_token redis token_codec visma (set_token redis token_codec 10 visma (bare 70) tokens).1).0
      ≡ done (bare 70))
    × ((is_token_valid redis token_codec 70 visma
          (set_token redis token_codec 10 visma (bare 70) tokens).1).0
        ≡ false)
unfolding set_token get_token set get lookup insert text_eq lit
set_token-IsRead_example =
    set_token-IsRead redis token_codec 10 70 visma (bare 70) tokens refl refl
      (λ h. ground (arith, h))

abbrev holding : TokenCache redis token_codec
holding = record tokens { server = record empty { strings = (lit "token:visma", 70 ∷ []) ∷ [] } }

held : (is_token_valid redis token_codec 69 visma holding).0 ≡ true
unfolding is_token_valid get_token get lookup text_eq lit
held = refl

bytes_again : (a d : Text) → true ≡ true → some a ≡ some d → some d ≡ some a
bytes_again a d _ e = cc e

abbrev bytes_codec : Codec Text
bytes_codec = record {
  marshal = λ a. some a;
  unmarshal = λ d. some d;
  valid = λ _. true;
  unmarshal-marshal = bytes_again;
}

abbrev first_letters : Text → Text
first_letters q = q

abbrev queries : QueryCache redis
queries = record { server = some empty; default_ttl = pos 300000000000; prefix = lit "query" }

new_queries :
    new_query_cache redis (record { redis_cache = some empty; default_ttl = pos 0; prefix = [] })
    ≡ queries
unfolding new_query_cache lit
new_queries = refl

-- A database that counts its queries.
abbrev run_query : ℕ → Outcome Text Text × ℕ
run_query n = (returned (n ∷ []), suc n)

never_down : (key : Text) (s : Memory) → (get redis bytes_codec key s).0 ≢ fail get_failed
unfolding get
never_down key s h = ground (arith, h)

cache_wrapper_reuses_example :
    let qc =
      (cache_wrapper redis first_letters bytes_codec is_empty (lit "q") run_query queries 7).2 in
    let again =
      cache_wrapper redis first_letters bytes_codec is_empty
        (lit "q")
        run_query
        (store_query redis first_letters bytes_codec (lit "q") (7 ∷ []) (pos 60 ∷ []) qc).1
        8 in
    ((cache_wrapper redis first_letters bytes_codec is_empty (lit "q") run_query queries 7).0
      ≡ returned (7 ∷ []))
    × (again.0 ≡ returned (7 ∷ []))
    × (again.1 ≡ none)
    × (again.3 ≡ 8)
unfolding cache_wrapper lookup_query store_query get set lookup
cache_wrapper_reuses_example =
    cache_wrapper_reuses redis first_letters bytes_codec is_empty (lit "q") run_query run_query
      queries 7 8 (pos 60) (7 ∷ []) refl refl refl refl never_down

abbrev start : System redis first_letters bytes_codec ℕ Text is_empty
start = record { cache = queries; database = 7; pending = []; results = [] }

none_stored : (j : Text) → redis.value empty j ≡ none
unfolding lookup
none_stored j = refl

called : Step redis first_letters bytes_codec ℕ Text is_empty start (record {
  cache = queries;
  database = 8;
  pending = record { query = lit "q"; result = 7 ∷ []; ttl = pos 60 } ∷ [];
  results = (lit "q", 7 ∷ []) ∷ [];
})
unfolding cache_wrapper lookup_query store_query get set lookup
called = call (lit "q") run_query (pos 60) start

hit-Answered_example :
    Answered redis first_letters bytes_codec ℕ Text is_empty
      (lit "q")
      (7 ∷ [])
      ((lit "q", 7 ∷ []) ∷ [])
unfolding lookup_query store_query generate_key get set lookup insert text_eq lit
hit-Answered_example =
    hit-Answered redis first_letters bytes_codec ℕ Text is_empty empty (lit "q") (7 ∷ []) refl
      none_stored refl (λ v. refl) (next (next here called) (finish _ [] [] _ refl)) refl

abbrev waiting : System redis first_letters bytes_codec ℕ Text is_empty
waiting = record start { pending = record { query = lit "q"; result = 7 ∷ []; ttl = pos 60 } ∷ [] }

invalidate_undone_example :
    Reach redis first_letters bytes_codec ℕ Text is_empty waiting (record waiting {
      cache = stored_after redis first_letters bytes_codec (lit "q") (7 ∷ []) (pos 60) queries;
      pending = [];
    })
    × ((lookup_query redis first_letters bytes_codec
          (lit "q")
          (cleared redis first_letters bytes_codec (lit "q") queries)).0
        ≡ done none)
    × ((lookup_query redis first_letters bytes_codec
          (lit "q")
          (stored_after redis first_letters bytes_codec (lit "q") (7 ∷ []) (pos 60) queries)).0
        ≡ done (some (7 ∷ [])))
unfolding invalidate store_query generate_key delete set insert lookup text_eq lit
invalidate_undone_example =
    invalidate_undone redis first_letters bytes_codec ℕ Text is_empty (lit "q") (7 ∷ []) (pos 60) 0
      waiting [] [] refl refl refl refl never_down

-- Two attempts with a write of another key between them.
lock_exclusive_example :
    let commands =
      attempt (lit "a") (pos 60)
      ∷ write (lit "k") (lit "b") (pos 60)
      ∷ attempt (lit "c") (pos 60)
      ∷ [] in
    ((contend redis bytes_codec (lit "lock") commands empty).0 ≡ [])
    ⊎ ((a : Text) × (bytes : Text) × ((contend redis bytes_codec (lit "lock") commands empty).0
          ≡ a ∷ [])
        × (some a ≡ some bytes)
        × (redis.value (contend redis bytes_codec (lit "lock") commands empty).1 (lit "lock")
            ≡ some bytes))
unfolding text_eq lit
lock_exclusive_example =
    lock_exclusive redis bytes_codec (lit "lock")
      (attempt (lit "a") (pos 60)
        ∷ write (lit "k") (lit "b") (pos 60)
        ∷ attempt (lit "c") (pos 60)
        ∷ [])
      empty (tt, (refl, (tt, tt)))

first_wins :
    (contend redis bytes_codec
      (lit "lock")
      (attempt (lit "a") (pos 60)
        ∷ write (lit "k") (lit "b") (pos 60)
        ∷ attempt (lit "c") (pos 60)
        ∷ [])
      empty).0
    ≡ lit "a" ∷ []
unfolding contend set_nx set lookup insert text_eq lit
first_wins = refl
