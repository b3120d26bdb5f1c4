-- ===== src/RateLimit/Bucket.antt =====
-- What internal/ratelimit/ratelimit.go uses of golang.org/x/time/rate.
use aquatiq_root.Common.{ℕ, ◌≡◌, Bool, false}
use aquatiq_root.Common.Int.{ℤ, pos}

-- `new_limiter r b` is `rate.NewLimiter(rate.Limit(r), b)`, and `allow now` is `Allow` at a time. A
-- `rate.Limit` is a float64; the code makes it of an int of at most 53 bits, which it holds exactly.
-- A limiter keeps its limit and its burst, and a burst of 0 allows no event.
pub record Rate : Type 1 where
  pub Bucket : Type 0
  pub new_limiter : ℤ → ℤ → Bucket
  pub limit : Bucket → ℤ
  pub burst : Bucket → ℤ
  pub allow : ℕ → Bucket → Bool × Bucket
  pub limit_new : (r b : ℤ) → limit (new_limiter r b) ≡ r
  pub burst_new : (r b : ℤ) → burst (new_limiter r b) ≡ b
  pub limit_allow : (t : ℕ) (b : Bucket) → limit (allow t b).1 ≡ limit b
  pub burst_allow : (t : ℕ) (b : Bucket) → burst (allow t b).1 ≡ burst b
  pub no_burst : (t : ℕ) (b : Bucket) → burst b ≡ pos 0 → (allow t b).0 ≡ false
