-- ===== src/RateLimit/PerIp.antt =====
-- The PerIPLimiter of internal/ratelimit/ratelimit.go. The map holds pointers, so what `Allow` changes in a
-- limiter is changed in the map: the bucket is put back.
use aquatiq_root.Common.{
  ℕ, suc, Text, lit, text_eq, text_eq_iff, is_empty, ◌≡◌, refl, ◌∙◌, ap, ap₂, Bool, not, none, some,
  List, [], ◌∷◌, ◌++◌, if◌then◌else◌, ltb, length, arith, Bool-cases, Option-cases, inl, inr,
}
use aquatiq_root.Common.Int.{ℤ, decimal_ℤ}
use aquatiq_root.Common.Assoc.{lookup, insert, lookup-insert}
use aquatiq_root.Http.{Request, Writer, Handler, raw, set_header, write_header, write}
use aquatiq_root.Audit.{Logger, log_rate_limit_exceeded}
use aquatiq_root.RateLimit.Bucket.{Rate}

-- getIP
unfoldable pub get_ip : Request → Text
get_ip r =
    if not (is_empty (r.header "X-Forwarded-For"))
    then r.header "X-Forwarded-For"
    else if not (is_empty (r.header "X-Real-IP"))
    then r.header "X-Real-IP"
    else r.remote_addr

module _ (rate : Rate) where
  open rate use {Bucket, new_limiter, allow}

  pub record PerIpLimiter : Type 0 where
    pub limiters : List (Text × Bucket)
    pub limit : ℤ
    pub burst : ℤ

  -- NewPerIPLimiter
  unfoldable pub new_per_ip : ℤ → ℤ → PerIpLimiter
  new_per_ip rps burst = record { limiters = []; limit = rps; burst = burst }

  -- GetLimiter
  unfoldable pub get_limiter : Text → PerIpLimiter → Bucket × PerIpLimiter
  get_limiter ip pl = elim (lookup ip pl.limiters) [
    | some b ↦ (b, pl)
    | none ↦ (
      new_limiter pl.limit pl.burst,
      record pl { limiters = insert ip (new_limiter pl.limit pl.burst) pl.limiters },
    )
  ]

  -- `pl.GetLimiter(ip).Allow()` at a time.
  unfoldable pub allow_ip : ℕ → Text → PerIpLimiter → Bool × PerIpLimiter
  allow_ip now ip pl =
      let (b, pl') = get_limiter ip pl in
      let (granted, b') = allow now b in
      (granted, record pl' { limiters = insert ip b' pl'.limiters })

  -- CleanupStale
  unfoldable pub cleanup_stale : PerIpLimiter → PerIpLimiter
  cleanup_stale pl = if ltb 10000 (length pl.limiters) then record pl { limiters = [] } else pl

  -- `fmt.Sprintf("%d", pl.limit)`: the limit is a float64, for which fmt has no `%d` and says so.
  unfoldable pub shown_limit : ℤ → Text
  shown_limit limit = lit "%!d(rate.Limit=" ++ (decimal_ℤ limit ++ lit ")")

  -- The answer to an address over its limit.
  unfoldable pub reject_ip : PerIpLimiter → Writer → Writer
  reject_ip pl w =
      write
        (raw (
          lit "{\"error\":\"rate_limit_exceeded\",\"message\":\"Too many requests from your IP\"}"))
        (write_header 429 (
          set_header "Retry-After" (lit "60") (
            set_header "X-RateLimit-Remaining" (lit "0")
              (set_header "X-RateLimit-Limit" (shown_limit pl.limit) w))))

  -- What the handlers share: the limiter, the audit logger that Middleware was given, and the clock.
  pub record Shared : Type 0 where
    pub limiter : PerIpLimiter
    pub audit : Logger
    pub readings : ℕ

  -- Middleware: `Allow` reads the clock, and so does the audit line.
  unfoldable pub middleware : (ℕ → ℕ) → Handler Shared → Handler Shared
  middleware clock next r w s =
      let (granted, pl) = allow_ip (clock s.readings) (get_ip r) s.limiter in
      if not granted
      then (
        reject_ip pl w,
        elim s.audit [
          | none ↦ record s { limiter = pl; readings = suc s.readings }
          | some log ↦ record {
            limiter = pl;
            audit = some (log_rate_limit_exceeded (clock (suc s.readings)) r (lit "per-ip") log);
            readings = suc (suc s.readings);
          }
        ],
      )
      else next r w (record s { limiter = pl; readings = suc s.readings })

  -- The limiter of an address: the one in the map, or a new one.
  abbrev pub bucket_of : Text → PerIpLimiter → Bucket
  bucket_of ip pl = elim (lookup ip pl.limiters) [
    | some b ↦ b
    | none ↦ new_limiter pl.limit pl.burst
  ]

  -- A decision is that of the address's own bucket, which alone changes.
  allow_ip-bucket_of :
      (now : ℕ) (ip j : Text) (pl : PerIpLimiter)
      → ((allow_ip now ip pl).0 ≡ (allow now (bucket_of ip pl)).0)
        × (bucket_of j (allow_ip now ip pl).1
            ≡ (if text_eq ip j then (allow now (bucket_of ip pl)).1 else bucket_of j pl))
        × ((allow_ip now ip pl).1.limit ≡ pl.limit)
        × ((allow_ip now ip pl).1.burst ≡ pl.burst)
  unfolding allow_ip get_limiter
  allow_ip-bucket_of now ip j pl = elim (Option-cases (lookup ip pl.limiters)) [
    | inl new ↦ (
      ground (arith, new),
      ground (
        arith,
        new,
        lookup-insert ip j (allow now (new_limiter pl.limit pl.burst)).1
            (insert ip (new_limiter pl.limit pl.burst) pl.limiters),
        lookup-insert ip j (new_limiter pl.limit pl.burst) pl.limiters,
      ),
      ground (arith, new),
      ground (arith, new),
    )
    | inr (b, old) ↦ (
      ground (arith, old),
      ground (arith, old, lookup-insert ip j (allow now b).1 pl.limiters),
      ground (arith, old),
      ground (arith, old),
    )
  ]

  -- The answers to the requests of one address among requests of many, each at its time.
  unfoldable pub answers : Text → List (Text × ℕ) → PerIpLimiter → List Bool
  answers ip [] pl = []
  answers ip ((j, now) ∷ rs) pl =
      let rest = answers ip rs (allow_ip now j pl).1 in
      if text_eq j ip then (allow_ip now j pl).0 ∷ rest else rest

  -- The answers of a bucket to requests at these times.
  unfoldable pub bucket_answers : List ℕ → Bucket → List Bool
  bucket_answers [] b = []
  bucket_answers (now ∷ ts) b = (allow now b).0 ∷ bucket_answers ts (allow now b).1

  -- The times of the requests of one address.
  abbrev pub times : Text → List (Text × ℕ) → List ℕ
  times ip [] = []
  times ip ((j, now) ∷ rs) = if text_eq j ip then now ∷ times ip rs else times ip rs

  -- Addresses do not disturb one another: in any interleaving the answers to an address are those that
  -- its own bucket, or a new one, gives to its own requests alone.
  pub answers-alone :
      (ip : Text) (rs : List (Text × ℕ)) (pl : PerIpLimiter)
      → answers ip rs pl ≡ bucket_answers (times ip rs) (bucket_of ip pl)
  unfolding answers bucket_answers
  answers-alone ip [] pl = refl
  answers-alone ip ((j, now) ∷ rs) pl =
      let (granted, kept, _, _) = allow_ip-bucket_of now j ip pl in
      elim (Bool-cases (text_eq j ip)) [
        | inl mine ↦
            let own : j ≡ ip = (text_eq_iff j ip).0 mine in
            let b' = kept ∙ rw mine (ap (λ k. (allow now (bucket_of k pl)).1) own) in
            let rest =
              answers-alone ip rs (allow_ip now j pl).1 ∙ ap (bucket_answers (times ip rs)) b' in
            simp mine
              (ap₂ (λ b bs. b ∷ bs) (granted ∙ ap (λ k. (allow now (bucket_of k pl)).0) own) rest)
        | inr other ↦ simp other (
            answers-alone ip rs (allow_ip now j pl).1
            ∙ ap (bucket_answers (times ip rs)) (kept ∙ rw other))
      ]
