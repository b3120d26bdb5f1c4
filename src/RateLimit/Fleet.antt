-- ===== src/RateLimit/Fleet.antt =====
-- Several gateways whose limiters of internal/ratelimit/ratelimit.go count on one Redis server. A request is one step;
-- the Expire behind an Incr changes no count, so it does not matter what stands between the two.
use aquatiq_root.Common.{
  ℕ, suc, ◌+◌, ◌-◌, min, Text, ◌≡◌, refl, ◌∙◌, ap, ap₂, Bool, true, false, ◌&&◌, Option, none, some,
  List, [], ◌∷◌, if◌then◌else◌, leb, ◌==◌, arith, map,
}
use aquatiq_root.Redis.{Client, ok}
use aquatiq_root.RateLimit.Bucket.{Rate}
use aquatiq_root.RateLimit.Limiter.{minute_of, window_key, Limiter}
use aquatiq_root.RateLimit.Window.{
  Tier, global_tier, admin_tier, name, same, requests, ask, quota, ask-counted, same_quota,
  same_name,
}

-- One request more: the arithmetic of the step.
one_granted :
    (mine answer : Bool) (c c' q r rest : ℕ)
    → (mine ≡ true → answer ≡ leb (c + 1) q)
    → c' ≡ (if mine then c + 1 else c)
    → rest ≡ min r (q - c')
    → (if mine && answer then 1 else 0) + rest ≡ min ((if mine then 1 else 0) + r) (q - c)
one_granted true answer c c' q r rest a e h = ground (arith, a refl, e)
one_granted false answer c c' q r rest a e h = omega (arith, e)

module _ (rate : Rate) (redis : Client) (clock : ℕ → ℕ → ℕ) where
  open redis use {Server, incr, count}

  -- The gateways by number, each with a clock of its own, and the server that all are connected to.
  pub record Fleet : Type 0 where
    pub gateways : ℕ → Limiter rate redis
    pub server : Server

  -- The limiter of a gateway sees the server, unless its cache is nil.
  abbrev connected : Server → Option Server → Option Server
  connected s none = none
  connected s (some _) = some s

  abbrev server_of : Server → Option Server → Server
  server_of s none = s
  server_of s (some s') = s'

  abbrev pub view : ℕ → Fleet → Limiter rate redis
  view i f = record (f.gateways i) { cache = connected f.server (f.gateways i).cache }

  -- A request of a tier at a gateway.
  unfoldable pub ask_at : ℕ → Tier → Fleet → Bool × Fleet
  ask_at i u f =
      let (answer, l) = ask rate redis (clock i) u (view i f) in
      (
        answer,
        record {
          gateways = λ j. if i == j then l else f.gateways j;
          server = server_of f.server l.cache;
        },
      )

  -- How many requests of the tier `t` all gateways together grant among these.
  unfoldable pub granted_by_all : Tier → List (ℕ × Tier) → Fleet → ℕ
  granted_by_all t [] f = 0
  granted_by_all t ((i, u) ∷ asks) f =
      let (answer, f') = ask_at i u f in
      (if same t u && answer then 1 else 0) + granted_by_all t asks f'

  -- The limiter counts on the server, with this quota for the tier.
  pub record IsMember (t : Tier) (q i : ℕ) (l : Limiter rate redis) : Type 0 where
    pub shares : l.distributed ≡ true
    pub cached : (s : Server) × (l.cache ≡ some s)
    pub share : quota rate redis (clock i) t l ≡ q

  module _ (minute : ℕ) (in_minute : (i n : ℕ) → minute_of (clock i n) ≡ minute)
      (works : (k : Text) (s : Server) → (n : ℕ) × ((incr k s).0 ≡ ok n)) where
    -- What one request does to the fleet.
    pub record IsCounted (t u : Tier) (q i : ℕ) (f : Fleet) : Type 0 where
      pub answer :
          same t u ≡ true
          → (ask_at i u f).0 ≡ leb (count f.server (window_key (name t) minute) + 1) q
      pub count_now : count (ask_at i u f).1.server (window_key (name t) minute) ≡ (
          if same t u
          then count f.server (window_key (name t) minute) + 1
          else count f.server (window_key (name t) minute))
      pub members : (j : ℕ) → IsMember t q j ((ask_at i u f).1.gateways j)

    quota-view :
        (t : Tier) (i j : ℕ) (c : Option Server) (n : ℕ) (f : Fleet)
        → quota rate redis (clock j) t (record (view i f) { cache = c; readings = n })
          ≡ quota rate redis (clock i) t (f.gateways i)
    quota-view global_tier i j c n f = refl
    quota-view admin_tier i j c n f = refl

    own_count :
        (t u : Tier) (s : Server)
        → (if same t u
            then count s (window_key (name u) minute) + 1
            else count s (window_key (name t) minute))
          ≡ (if same t u
              then count s (window_key (name t) minute) + 1
              else count s (window_key (name t) minute))
    own_count global_tier global_tier s = refl
    own_count global_tier admin_tier s = refl
    own_count admin_tier global_tier s = refl
    own_count admin_tier admin_tier s = refl

    pick :
        (t : Tier) (q j : ℕ) (b : Bool) (l l' : Limiter rate redis)
        → IsMember t q j l
        → IsMember t q j l'
        → IsMember t q j (if b then l else l')
    pick t q j true l l' h h' = h
    pick t q j false l l' h h' = h'

    ask_at-IsCounted :
        (t u : Tier) (q i : ℕ) (f : Fleet)
        → ((j : ℕ) → IsMember t q j (f.gateways j))
        → IsCounted t u q i f
    unfolding ask_at
    ask_at-IsCounted t u q i f all =
        let (s, held) = (all i).cached in
        let seen : (view i f).cache ≡ some f.server = ap (connected f.server) held in
        let (after, e, counts, _) =
          ask-counted rate redis (clock i) minute (in_minute i) works u f.server (view i f)
            (all i).shares seen in
        let l : Limiter rate redis = record (view i f) {
          cache = some after;
          readings = suc (f.gateways i).readings;
        } in
        let mine : quota rate redis (clock i) t (view i f) ≡ q =
          quota-view t i i (connected f.server (f.gateways i).cache) (f.gateways i).readings f
          ∙ (all i).share in
        let joined : (j : ℕ) → IsMember t q j l = λ j. record {
          shares = (all i).shares;
          cached = (after, refl);
          share = quota-view t i j (some after) (suc (f.gateways i).readings) f ∙ (all i).share;
        } in
        record {
          answer = λ h.
              ap (λ r. r.0) e
              ∙ ap₂ (λ m b. leb (count f.server (window_key m minute) + 1) b) (same_name t u h)
                  (same_quota rate redis (clock i) t u (view i f) h ∙ mine);
          count_now = rw e (counts t ∙ own_count t u f.server);
          members = λ j. rw e (pick t q j (i == j) l (f.gateways j) (joined j) (all j));
        }

    -- However many gateways share the server, and however their requests and the two tiers are mixed, in one minute in
    -- which no increment fails they together grant a tier exactly the quota of a single gateway, sixty times the
    -- limit, less what was counted before, or all of its requests where there are fewer. All have the same quota.
    pub fleet_granted_exact :
        (t : Tier) (q : ℕ) (asks : List (ℕ × Tier)) (f : Fleet)
        → ((j : ℕ) → IsMember t q j (f.gateways j))
        → granted_by_all t asks f
          ≡ min
              (requests t (map (λ ask. ask.1) asks))
              (q - count f.server (window_key (name t) minute))
    unfolding granted_by_all
    fleet_granted_exact t q [] f all = omega arith
    fleet_granted_exact t q ((i, u) ∷ asks) f all =
        let step = ask_at-IsCounted t u q i f all in
        let rest = fleet_granted_exact t q asks (ask_at i u f).1 step.members in
        one_granted (same t u) (ask_at i u f).0 (count f.server (window_key (name t) minute)) _ q _
          _ step.answer step.count_now rest
