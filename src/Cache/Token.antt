-- ===== src/Cache/Token.antt =====
-- The TokenCache of internal/cache/redis.go.
use aquatiq_root.Common.{ℕ, ◌-◌, ◌^◌, Text, lit, ◌++◌, Bool, false, if◌then◌else◌, ltb, leb, min}
use aquatiq_root.Common.Int.{ℤ, pos, negsuc}
use aquatiq_root.Redis.{Client}
use aquatiq_root.Cache.Store.{Codec, Result, done, fail, set, get, delete}

-- Times are in nanoseconds.
pub record Token : Type 0 where
  pub access_token : Text
  pub refresh_token : Text
  pub token_type : Text
  pub expires_at : ℕ
  pub scope : Text

-- `time.Until(t)`, which stays within the durations that 64 bits hold.
abbrev pub until : ℕ → ℕ → ℤ
until t now =
    if leb now t then pos (min (t - now) (2 ^ 63 - 1)) else negsuc (min (now - t - 1) (2 ^ 63 - 1))

module _ (redis : Client) (json : Codec Token) where
  open redis use {Server}

  -- A TokenCache: its prefix, and the server of its cache.
  pub record TokenCache : Type 0 where
    pub prefix : Text
    pub server : Server

  -- NewTokenCache
  unfoldable pub new_token_cache : Server → TokenCache
  new_token_cache s = record { prefix = lit "token:"; server = s }

  -- SetToken, at a time.
  unfoldable pub set_token : ℕ → Text → Token → TokenCache → Result (Unit {0}) × TokenCache
  set_token now service token t =
      let (answer, s) =
        set redis json (t.prefix ++ service) token (until token.expires_at now) t.server in
      (answer, record t { server = s })

  -- GetToken
  unfoldable pub get_token : Text → TokenCache → Result Token × TokenCache
  get_token service t =
      let (answer, s) = get redis json (t.prefix ++ service) t.server in
      (answer, record t { server = s })

  -- DeleteToken
  unfoldable pub delete_token : Text → TokenCache → Result ℕ × TokenCache
  delete_token service t =
      let (answer, s) = delete redis (t.prefix ++ service) t.server in
      (answer, record t { server = s })

  -- `time.Now().Before(token.ExpiresAt)` for a token that was found.
  abbrev pub is_current : ℕ → Result Token → Bool
  is_current now (done token) = ltb now token.expires_at
  is_current now (fail _) = false

  -- IsTokenValid, whose clock is read after the token: its error is always nil.
  unfoldable pub is_token_valid : ℕ → Text → TokenCache → Bool × TokenCache
  is_token_valid now service t =
      let (answer, t') = get_token service t in (is_current now answer, t')
