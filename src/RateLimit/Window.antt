-- ===== src/RateLimit/Window.antt =====
-- How many requests the limiter of internal/ratelimit/ratelimit.go grants over Redis in one minute, in any
-- interleaving of the two tiers.
use aquatiq_root.Common.{
  ℕ, suc, ◌+◌, ◌-◌, ◌*◌, ◌≤◌, min, Text, lit, text_eq, text_eq_refl, ◌≡◌, refl, ◌∙◌, ap, ap₂, Bool,
  true, false, ◌&&◌, Option, some, List, [], ◌∷◌, if◌then◌else◌, leb, ◌==◌, arith, Bool-cases, inl,
  inr,
}
use aquatiq_root.Common.Int.{ℤ, pos, negsuc, pos_part}
use aquatiq_root.Redis.{Client, ok}
use aquatiq_root.RateLimit.Bucket.{Rate}
use aquatiq_root.RateLimit.Limiter.{
  within, window_key, minute_of, admin, global, Limiter, on_count, allow_distributed, allow_global,
  allow_admin,
}

pub data Tier : Type 0 where
  global_tier admin_tier : Tier

abbrev pub name : Tier → Text
name global_tier = global
name admin_tier = admin

abbrev pub same : Tier → Tier → Bool
same global_tier global_tier = true
same admin_tier admin_tier = true
same _ _ = false

-- How often a tier stands in a list of requests.
abbrev pub requests : Tier → List Tier → ℕ
requests t [] = 0
requests t (u ∷ us) = (if same t u then 1 else 0) + requests t us

-- A count of at least one is within the limit exactly if it is at most sixty times its positive part.
within-quota : (n : ℕ) (b : ℤ) → 1 ≤ n → within n b ≡ leb n (pos_part b * 60)
within-quota n (pos limit) h = refl
within-quota n (negsuc limit) h = ground arith

pub same_name : (t u : Tier) → same t u ≡ true → name u ≡ name t
same_name global_tier global_tier h = refl
same_name admin_tier admin_tier h = refl
same_name global_tier admin_tier h = cc
same_name admin_tier global_tier h = cc

keys_differ :
    (t u : Tier) (minute : ℕ)
    → text_eq (window_key (name u) minute) (window_key (name t) minute) ≡ same t u
unfolding window_key lit
keys_differ global_tier global_tier minute = text_eq_refl _
keys_differ global_tier admin_tier minute = unfold text_eq in refl
keys_differ admin_tier global_tier minute = unfold text_eq in refl
keys_differ admin_tier admin_tier minute = text_eq_refl _

module _ (rate : Rate) (redis : Client) (clock : ℕ → ℕ) where
  open rate use {limit}
  open redis use {Server, incr, expire, count, incr_reply, incr_count, expire_count}

  -- A request of a tier.
  abbrev pub ask : Tier → Limiter rate redis → Bool × Limiter rate redis
  ask global_tier = allow_global rate redis clock
  ask admin_tier = allow_admin rate redis clock

  -- How many requests of the tier `t` are granted among these.
  unfoldable pub granted : Tier → List Tier → Limiter rate redis → ℕ
  granted t [] l = 0
  granted t (u ∷ us) l = (if same t u && (ask u l).0 then 1 else 0) + granted t us (ask u l).1

  abbrev pub bound : Tier → Limiter rate redis → ℤ
  bound global_tier l = limit l.global_limiter
  bound admin_tier l = limit l.admin_limiter

  -- What the tier may have granted in a minute.
  abbrev pub quota : Tier → Limiter rate redis → ℕ
  quota t l = pos_part (bound t l) * 60

  after_count :
      (tier : Text) (b : ℤ) (s : Server) (l : Limiter rate redis) (n minute : ℕ)
      → minute_of (clock l.readings) ≡ minute
      → (incr (window_key tier minute) s).0 ≡ ok n
      → let key = window_key tier minute in
        allow_distributed rate redis clock tier b s l ≡ (
          within n b,
          record l {
            cache = some (
                if n == 1
                then (expire key (pos 120000000000) (incr key s).1).1
                else (incr key s).1);
            readings = suc l.readings;
          },
        )
  unfolding allow_distributed on_count
  after_count tier b s l n minute m e = simp m (rw (e, on_count) refl)

  pub ask-shared :
      (u : Tier) (s : Server) (l : Limiter rate redis)
      → l.distributed ≡ true
      → l.cache ≡ some s
      → ask u l ≡ allow_distributed rate redis clock (name u) (bound u l) s l
  unfolding allow_global allow_admin
  ask-shared global_tier s l d c = ground arith
  ask-shared admin_tier s l d c = ground arith

  -- The server after a count of `n` and, for the first one, an expiry.
  abbrev after_incr : Text → ℕ → Server → Server
  after_incr key n s =
      if n == 1 then (expire key (pos 120000000000) (incr key s).1).1 else (incr key s).1

  count-after_incr :
      (key j : Text) (n : ℕ) (s : Server)
      → (incr key s).0 ≡ ok n
      → count (after_incr key n s) j ≡ (if text_eq key j then n else count s j)
  count-after_incr key j n s e = elim (Bool-cases (n == 1)) [
    | inl first ↦
        rw first
          (expire_count key j 120000000000 (incr key s).1 (omega arith) ∙ incr_count key j n s e)
    | inr later ↦ rw later (incr_count key j n s e)
  ]

  pub quota-after :
      (t : Tier) (c : Option Server) (n : ℕ) (l : Limiter rate redis)
      → quota t (record l { cache = c; readings = n }) ≡ quota t l
  quota-after global_tier c n l = refl
  quota-after admin_tier c n l = refl

  -- One request more: the arithmetic of the step.
  one_more :
      (mine : Bool) (n c q q' r rest : ℕ)
      → (mine ≡ true → q' ≡ q)
      → (mine ≡ true → n ≡ c + 1)
      → rest ≡ min r (q - (if mine then n else c))
      → (if mine && leb n q' then 1 else 0) + rest ≡ min ((if mine then 1 else 0) + r) (q - c)
  one_more true n c q q' r rest eq e h = ground (arith, e refl, eq refl)
  one_more false n c q q' r rest eq e h = omega arith

  pub same_quota : (t u : Tier) (l : Limiter rate redis) → same t u ≡ true → quota u l ≡ quota t l
  same_quota global_tier global_tier l h = refl
  same_quota admin_tier admin_tier l h = refl
  same_quota global_tier admin_tier l h = cc
  same_quota admin_tier global_tier l h = cc

  module _ (minute : ℕ) (in_minute : (n : ℕ) → minute_of (clock n) ≡ minute)
      (works : (k : Text) (s : Server) → (n : ℕ) × ((incr k s).0 ≡ ok n)) where
    step_answer :
        (u : Tier) (s : Server) (l : Limiter rate redis)
        → l.distributed ≡ true
        → l.cache ≡ some s
        → let key = window_key (name u) minute in
          ask u l ≡ (
            leb (works key s).0 (quota u l),
            record l { cache = some (after_incr key (works key s).0 s); readings = suc l.readings },
          )
    step_answer u s l d c =
        let (n, e) = works (window_key (name u) minute) s in
        let first : 1 ≤ n = omega (arith, incr_reply (window_key (name u) minute) n s e) in
        ask-shared u s l d c
        ∙ after_count (name u) (bound u l) s l n minute (in_minute l.readings) e
        ∙ rw (within-quota n (bound u l) first)

    -- What was counted for a tier in the minute.
    abbrev pub counted : Tier → Server → ℕ
    counted t s = count s (window_key (name t) minute)

    -- A request is granted if the count with it is within the quota, and it is counted for its tier alone.
    pub ask-counted :
        (u : Tier) (s : Server) (l : Limiter rate redis)
        → l.distributed ≡ true
        → l.cache ≡ some s
        → (after : Server) × (ask u l ≡ (
          leb (counted u s + 1) (quota u l),
          record l { cache = some after; readings = suc l.readings },
        ))
          × ((t : Tier) → counted t after ≡ (if same t u then counted u s + 1 else counted t s))
          × ((j : Text)
              → text_eq (window_key (name u) minute) j ≡ false
              → count after j ≡ count s j)
    ask-counted u s l d c =
        let key = window_key (name u) minute in
        let (n, e) = works key s in
        let next = incr_reply key n s e in
        (
          after_incr key n s,
          step_answer u s l d c
              ∙ ap
                  (λ k. (
                    leb k (quota u l),
                    record l { cache = some (after_incr key n s); readings = suc l.readings },
                  ))
                  next,
          λ t.
              count-after_incr key (window_key (name t) minute) n s e
              ∙ ap₂ (λ b k. if b then k else counted t s) (keys_differ t u minute) next,
          λ j other. count-after_incr key j n s e ∙ ap (λ b. if b then n else count s j) other,
        )

    -- Where the cache is shared and no increment fails: of the requests of a minute, in any interleaving
    -- of the two tiers, each tier is granted sixty times its limit (0 for a negative limit), less what was
    -- counted for it before, and all of its requests where there are fewer.
    pub granted_exact :
        (t : Tier) (ts : List Tier) (s : Server) (l : Limiter rate redis)
        → l.distributed ≡ true
        → l.cache ≡ some s
        → granted t ts l ≡ min (requests t ts) (quota t l - count s (window_key (name t) minute))
    unfolding granted
    granted_exact t [] s l d c = omega arith
    granted_exact t (u ∷ us) s l d c =
        let (s', e, counts, _) = ask-counted u s l d c in
        let l' = record l { cache = some s'; readings = suc l.readings } in
        let rest = granted_exact t us s' l' d refl in
        rw e (
          one_more (same t u) (counted u s + 1) (counted t s) (quota t l) (quota u l)
            (requests t us) _ (same_quota t u l)
            (λ h. ap (λ k. count s (window_key k minute) + 1) (same_name t u h))
            (rest
              ∙ ap₂ (λ q c. min (requests t us) (q - c))
                  (quota-after t (some s') (suc l.readings) l) (counts t)))
