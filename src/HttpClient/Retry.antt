-- ===== src/HttpClient/Retry.antt =====
-- The retry policy of pkg/httpclient/httpclient.go.
use mathlib.Core.Path.{subst}
use aquatiq_root.Common.{
  ℕ, ◌*◌, ◌%◌, ◌^◌, ◌≤◌, ◌<◌, min, Text, ◌≡◌, ◌↔◌, ◌⊎◌, refl, true, Option, none, some, arith,
  if◌then◌else◌, suc, zero, lit, [], ◌∷◌, ◌++◌, length, ap, sym, ◌∙◌, Bool-cases, Option-cases, inl,
  inr, false, ◌&&◌, not, is_empty, ◌==◌,
}
use native.Mathlib.Nat.{one-le-pow, mul-le-mul_left}
use aquatiq_root.Common.Int.{ℤ, pos, ltb_ℤ}
use aquatiq_root.Common.Words.{signed_64}
use aquatiq_root.HttpClient.Policy.{
  Response, Received, no_response, response, check_retry, exponential, backoff,
}

-- What is tried again: nothing that came, or a status of 408, 429 or at least 500.
abbrev pub IsRetryable : Received → Type 0
IsRetryable (no_response e) = Unit
IsRetryable (response resp) = (resp.status ≡ 408) ⊎ ((resp.status ≡ 429) ⊎ (500 ≤ resp.status))

-- A request is tried again exactly if its context is not done and either no response came, or its status is
-- 408, 429 or at least 500; and the policy has an error of its own exactly if the context is done.
pub check_retry_iff :
    (ctx_err : Option Text) (received : Received)
    → (((check_retry ctx_err received).0 ≡ true) ↔ ((ctx_err ≡ none) × IsRetryable received))
      × ((check_retry ctx_err received).1 ≡ ctx_err)
unfolding check_retry
check_retry_iff (some c) received = ((ground arith, ground arith), refl)
check_retry_iff none (no_response e) = ((ground arith, ground arith), refl)
check_retry_iff none (response resp) = ((ground arith, ground arith), ground arith)

-- The cap, for a product without a wrap-around.
capped :
    (product high : ℕ)
    → product < 2 ^ 63
    → (let wait = signed_64 (product % 2 ^ 64) in if ltb_ℤ (pos high) wait then pos high else wait)
      ≡ pos (min product high)
capped product high h = ground arith

small_factor : (low p : ℕ) → 1 ≤ p → low * p < 2 ^ 63 → low % 2 ^ 64 ≡ low
small_factor low p h k = omega (arith, mul-le-mul_left low h, k)

-- The lowest wait, doubled for each attempt and never above the highest one.
abbrev pub doubled : ℕ → ℕ → ℕ → ℕ
doubled low high zero = min low high
doubled low high (suc attempt) = min (2 * doubled low high attempt) high

-- An answer 429 that names a time to wait in its Retry-After, in seconds.
pub record Names (parse_duration : Text → Option ℤ) (received : Option Response) : Type 0 where
  pub resp : Response
  pub came : received ≡ some resp
  pub too_many : resp.status ≡ 429
  pub header : 1 ≤ length resp.retry_after
  pub duration : ℤ
  pub parsed : parse_duration (resp.retry_after ++ lit "s") ≡ some duration

doubled-min : (low high attempt : ℕ) → doubled low high attempt ≡ min (low * 2 ^ attempt) high
doubled-min low high zero = omega arith
doubled-min low high (suc attempt) =
    let before = doubled-min low high attempt in
    let twice : low * 2 ^ (suc attempt) ≡ 2 * (low * 2 ^ attempt) = grind arith in
    rw (before, twice) (omega arith)

exponential-doubled :
    (low high attempt : ℕ)
    → low * 2 ^ attempt < 2 ^ 63
    → exponential (pos low) (pos high) attempt ≡ pos (doubled low high attempt)
unfolding exponential
exponential-doubled low high attempt h =
    rw (small_factor low (2 ^ attempt) (one-le-pow attempt 2 (omega arith)) h)
      (capped (low * 2 ^ attempt) high h ∙ ap pos (sym (doubled-min low high attempt)))

is_empty-length : (t : Text) → is_empty t ≡ false → 1 ≤ length t
is_empty-length [] h = cc h
is_empty-length (x ∷ t) h = omega arith

length-is_empty : (t : Text) → 1 ≤ length t → is_empty t ≡ false
length-is_empty [] h = ground (arith, h)
length-is_empty (x ∷ t) h = refl

not_named :
    (resp named : Response)
    → resp.status == 429 && not (is_empty resp.retry_after) ≡ false
    → ◌≡◌ {A = Option Response} (some named) (some resp)
    → named.status ≡ 429
    → 1 ≤ length named.retry_after
    → ⊥
not_named resp named other came too_many header =
    let same : named ≡ resp = cc came in
    ground (
      arith,
      other,
      ap (λ (r : Response). r.status) (sym same) ∙ too_many,
      subst (λ (r : Response). 1 ≤ length r.retry_after) same header,
      length-is_empty resp.retry_after
          (subst (λ (r : Response). 1 ≤ length r.retry_after) same header),
    )

-- The wait after an attempt, whatever came of it and as long as the product of the lowest wait and the power of two
-- fits into 63 bits: for an answer 429 whose Retry-After names a time, that time, even above the highest wait; and for
-- every other answer, and for none, the lowest wait, doubled for each attempt and held at the highest. So no wait has
-- a random part.
pub backoff_exact :
    (parse_duration : Text → Option ℤ) (low high attempt : ℕ) (received : Option Response)
    → low * 2 ^ attempt < 2 ^ 63
    → ((named : Names parse_duration received) × (backoff parse_duration
            (pos low)
            (pos high)
            attempt
            received
          ≡ named.duration))
      ⊎ ((¬ (Names parse_duration received))
          × (backoff parse_duration (pos low) (pos high) attempt received
              ≡ pos (doubled low high attempt)))
unfolding backoff
backoff_exact parse_duration low high attempt none h =
    inr (λ n. cc n.came, exponential-doubled low high attempt h)
backoff_exact parse_duration low high attempt (some resp) h =
    elim (Bool-cases (resp.status == 429 && not (is_empty resp.retry_after))) [
      | inl asked ↦ elim (Option-cases (parse_duration (resp.retry_after ++ lit "s"))) [
        | inl unread ↦ inr (
          λ n. cc (n.came, n.parsed, unread),
          ground (arith, asked, unread, exponential-doubled low high attempt h),
        )
        | inr (duration, read) ↦ inl (
          record {
            resp = resp;
            came = refl;
            too_many = ground (arith, asked);
            header = is_empty-length resp.retry_after (ground (arith, asked));
            duration = duration;
            parsed = read;
          },
          ground (arith, asked, read),
        )
      ]
      | inr other ↦ inr (
        λ n. not_named resp n.resp other (sym n.came) n.too_many n.header,
        ground (arith, other, exponential-doubled low high attempt h),
      )
    ]
