-- ===== src/RateLimit/Tokens.antt =====
-- A limiter of tokens, which meets what is assumed of golang.org/x/time/rate.
use aquatiq_root.Common.{ℕ, ◌-◌, ◌≡◌, refl, Bool, false, arith, leb, ◌&&◌}
use aquatiq_root.Common.Int.{ℤ, pos, pos_part}
use aquatiq_root.RateLimit.Bucket.{Rate}

-- A limiter that is never filled up again.
pub record Tokens : Type 0 where
  pub limit : ℤ
  pub burst : ℤ
  pub left : ℕ

abbrev pub take_token : ℕ → Tokens → Bool × Tokens
take_token now t = (leb 1 (pos_part t.burst) && leb 1 t.left, record t { left = t.left - 1 })

pub none_left : (now : ℕ) (t : Tokens) → t.burst ≡ pos 0 → (take_token now t).0 ≡ false
none_left now t h = ground arith

abbrev pub tokens : Rate
tokens = record {
  Bucket = Tokens;
  new_limiter = λ r b. record { limit = r; burst = b; left = pos_part b };
  limit = λ t. t.limit;
  burst = λ t. t.burst;
  allow = take_token;
  limit_new = λ r b. refl;
  burst_new = λ r b. refl;
  limit_allow = λ _ t. refl;
  burst_allow = λ _ t. refl;
  no_burst = none_left;
}
