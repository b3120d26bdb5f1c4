-- ===== src/Whitelist/Expiry.antt =====
-- Expiry in internal/whitelist/manager.go: CleanupExpired, and what a restart makes of a time of expiry.
use mathlib.Core.List.{Memᴰ}
use aquatiq_root.Common.{
  is_over, ℕ, suc, ◌+◌, ◌≤◌, Text, ◌≡◌, refl, sym, ◌∙◌, ap, ap₂, Bool, true, false, Option, none,
  some, List, [], ◌∷◌, ◌++◌, if◌then◌else◌, arith, Bool-cases, Option-cases, inl, inr, All, length,
}
use aquatiq_root.Audit.{Logger, log_if_set}
use aquatiq_root.Net.{Ip, parse_ip}
use aquatiq_root.Whitelist.Types.{
  IpEntry, WriteOutcome, Manager, Error, ip_matches, is_blacklisted, Yaml,
}
use aquatiq_root.Whitelist.Traefik.{is_past, new_manager}
use aquatiq_root.Whitelist.Operations.{
  add_to_whitelist, is_whitelisted, is_allowed, expired_event, sweep, cleanup_expired,
}
use aquatiq_root.Whitelist.Update.{active, update_traefik_config-SameLists}
use aquatiq_root.Whitelist.Reload.{ips, IsLoaded}
use aquatiq_root.Whitelist.Contract.{add_to_whitelist-IsAdded}

-- The entries that are not over.
abbrev pub live : ℕ → List IpEntry → List IpEntry
live now [] = []
live now (e ∷ es) = if is_over e.expires_at now then live now es else e ∷ live now es

sweep-live :
    (now : ℕ) (es : List IpEntry) (log : Logger)
    → ((sweep now es log).0 ≡ live now es)
      × ((sweep now es log).1 + length (live now es) ≡ length es)
unfolding sweep
sweep-live now [] log = (refl, omega arith)
sweep-live now (e ∷ es) log = elim (Bool-cases (is_over e.expires_at now)) [
  | inl over ↦ simp over (
      let (kept, count) = sweep-live now es (log_if_set (expired_event now e) log) in
      (kept, omega (arith, count)))
  | inr fresh ↦ simp fresh (
      let (kept, count) = sweep-live now es log in
      (ap (λ (t : List IpEntry). e ∷ t) kept, omega (arith, count)))
]

live-all : (now : ℕ) (es : List IpEntry) → length (live now es) ≡ length es → live now es ≡ es
live-all now [] h = refl
live-all now (e ∷ es) h = elim (Bool-cases (is_over e.expires_at now)) [
  | inl over ↦ absurd (omega (arith, live-le now es, drop_head over h))
  | inr fresh ↦ simp fresh (ap (λ (t : List IpEntry). e ∷ t) (live-all now es (keep_head fresh h)))
]
  where
    live-le : (now : ℕ) (es : List IpEntry) → length (live now es) ≤ length es
    live-le now [] = omega arith
    live-le now (x ∷ xs) = ground (arith, live-le now xs)

    drop_head :
        is_over e.expires_at now ≡ true
        → length (live now (e ∷ es)) ≡ suc (length es)
        → length (live now es) ≡ suc (length es)
    drop_head over h = ground arith

    keep_head :
        is_over e.expires_at now ≡ false
        → length (live now (e ∷ es)) ≡ suc (length es)
        → length (live now es) ≡ length es
    keep_head fresh h = ground arith

module _ (yaml : Yaml) (clock : ℕ → ℕ) (disk : ℕ → WriteOutcome) where
  -- Whatever becomes of the file, CleanupExpired leaves exactly the entries that are not over at the
  -- time that it read, in their order, and returns how many it removed; the blacklist is as before.
  pub cleanup_expired-live :
      (m : Manager)
      → ((cleanup_expired yaml clock disk m).1.whitelist ≡ live (clock m.readings) m.whitelist)
        × ((cleanup_expired yaml clock disk m).0 + length (live (clock m.readings) m.whitelist)
            ≡ length m.whitelist)
        × ((cleanup_expired yaml clock disk m).1.blacklist ≡ m.blacklist)
  unfolding cleanup_expired
  cleanup_expired-live m =
      let now = clock m.readings in
      let (kept, count) = sweep-live now m.whitelist m.audit in
      let swept = record m {
        whitelist = (sweep now m.whitelist m.audit).0;
        audit = (sweep now m.whitelist m.audit).2;
        readings = suc m.readings;
      } in
      let s = update_traefik_config-SameLists yaml clock disk swept in
      ground (arith, kept, count, s.whitelist, s.blacklist, live-all now m.whitelist)

-- Whether an entry that is not over matches.
covered : Ip → ℕ → List IpEntry → Bool
covered ip now [] = false
covered ip now (e ∷ es) =
    let rest = covered ip now es in
    if is_over e.expires_at now then rest else if ip_matches ip e.ip then true else rest

covered-live :
    (ip : Ip) (now : ℕ) (es : List IpEntry) → covered ip now (live now es) ≡ covered ip now es
unfolding covered
covered-live ip now [] = refl
covered-live ip now (e ∷ es) = ground (arith, covered-live ip now es)

-- The answer of IsAllowed at a time, by the lists alone.
decided : Text → ℕ → List IpEntry → List IpEntry → Bool
decided address now white black = elim (parse_ip address) [
  | none ↦ false
  | some ip ↦ if is_blacklisted ip black then false else covered ip now white
]

decided-live :
    (address : Text) (now : ℕ) (white black : List IpEntry)
    → decided address now (live now white) black ≡ decided address now white black
unfolding decided
decided-live address now white black = elim (Option-cases (parse_ip address)) [
  | inl bad ↦ ground (arith, bad)
  | inr (ip, parsed) ↦ ground (arith, parsed, covered-live ip now white)
]

module _ (clock : ℕ → ℕ) (now : ℕ) (steady : (k : ℕ) → clock k ≡ now) where
  past-over : (t : Option ℕ) (n : ℕ) → (is_past clock t n).0 ≡ is_over t now
  unfolding is_past
  past-over none n = refl
  past-over (some t) n = rw steady

  is_whitelisted-covered :
      (ip : Ip) (es : List IpEntry) (n : ℕ) → (is_whitelisted clock ip es n).0 ≡ covered ip now es
  unfolding is_whitelisted covered
  is_whitelisted-covered ip [] n = refl
  is_whitelisted-covered ip (e ∷ es) n = ground (
    arith,
    past-over e.expires_at n,
    is_whitelisted-covered ip es (is_past clock e.expires_at n).1,
  )

  is_allowed-decided :
      (address : Text) (m : Manager)
      → (is_allowed clock address m).0 ≡ decided address now m.whitelist m.blacklist
  unfolding is_allowed decided
  is_allowed-decided address m = elim (Option-cases (parse_ip address)) [
    | inl bad ↦ ground (arith, bad)
    | inr (ip, parsed) ↦ ground (arith, parsed, is_whitelisted-covered ip m.whitelist m.readings)
  ]

  -- While the clock reads `now`, CleanupExpired changes the answer of IsAllowed for no address.
  pub is_allowed-cleanup_expired :
      (yaml : Yaml) (disk : ℕ → WriteOutcome) (address : Text) (m : Manager)
      → (is_allowed clock address (cleanup_expired yaml clock disk m).1).0
        ≡ (is_allowed clock address m).0
  is_allowed-cleanup_expired yaml disk address m =
      let m' = (cleanup_expired yaml clock disk m).1 in
      let (whites, count, blacks) = cleanup_expired-live yaml clock disk m in
      is_allowed-decided address m'
      ∙ ap₂ (decided address now) (whites ∙ ap (λ t. live t m.whitelist) (steady m.readings)) blacks
      ∙ decided-live address now m.whitelist m.blacklist
      ∙ sym (is_allowed-decided address m)

permanent_whitelisted :
    (clock : ℕ → ℕ) (ip : Ip) (range : Text) (es : List IpEntry) (n : ℕ)
    → All (λ e. e.expires_at ≡ none) es
    → Memᴰ range (ips es)
    → ip_matches ip range ≡ true
    → (is_whitelisted clock ip es n).0 ≡ true
unfolding is_whitelisted is_past
permanent_whitelisted clock ip range [] n p m hit = elim m [ ]
permanent_whitelisted clock ip range (e ∷ es) n p (Memᴰ.head h) hit =
    let own : ip_matches ip e.ip ≡ true = rw (← h) hit in ground (arith, p.0)
permanent_whitelisted clock ip range (e ∷ es) n p (Memᴰ.tail m) hit =
    ground (arith, p.0, permanent_whitelisted clock ip range es n p.1 m hit)

-- A manager that was loaded from a file says yes, whatever the clock reads, to an address that one of
-- the ranges in the file matches: what it loads is never over.
pub reloaded_allows :
    (clock : ℕ → ℕ) (address range : Text) (ranges : List Text) (r : Option Error × Manager)
    (ip : Ip)
    → IsLoaded ranges r
    → parse_ip address ≡ some ip
    → Memᴰ range ranges
    → ip_matches ip range ≡ true
    → (is_allowed clock address r.1).0 ≡ true
unfolding is_allowed is_blacklisted
reloaded_allows clock address range ranges r ip l parsed mem hit = ground (
  arith,
  parsed,
  l.no_blacklist,
  permanent_whitelisted clock ip range r.1.whitelist r.1.readings l.permanent (rw l.listed mem) hit,
)

active_last :
    (now : ℕ) (es : List IpEntry) (e : IpEntry)
    → is_over e.expires_at now ≡ false
    → Memᴰ e.ip (active now (es ++ e ∷ []))
active_last now [] e fresh = simp fresh (Memᴰ.head refl)
active_last now (x ∷ es) e fresh = elim (Bool-cases (is_over x.expires_at now)) [
  | inl over ↦ simp over (active_last now es e fresh)
  | inr kept ↦ simp kept (Memᴰ.tail (active_last now es e fresh))
]

-- A restart makes a temporary entry permanent: where AddToWhitelist reported no error at `now` for a
-- range that is over only later, a manager created from the file allows every address of the range
-- whatever its clock `later` reads, also after the time of expiry.
pub restart_forgets_expiry :
    (yaml : Yaml) (clock : ℕ → ℕ) (disk : ℕ → WriteOutcome) (now : ℕ)
    (steady : (n : ℕ) → clock n ≡ now) (range d by address : Text) (expiry : ℕ) (m : Manager)
    (ip : Ip) (later : ℕ → ℕ) (audit : Logger)
    → (add_to_whitelist yaml clock disk range d by (some expiry) m).0 ≡ none
    → now ≤ expiry
    → parse_ip address ≡ some ip
    → ip_matches ip range ≡ true
    → (is_allowed later address
        (new_manager yaml later audit
          (add_to_whitelist yaml clock disk range d by (some expiry) m).1.file
          0
          0).1).0
      ≡ true
restart_forgets_expiry yaml clock disk now steady range d by address expiry m ip later audit done h
      parsed hit =
    let entry : IpEntry = record {
      ip = range;
      description = d;
      added_at = now;
      added_by = by;
      expires_at = some expiry;
    } in
    let added =
      add_to_whitelist-IsAdded yaml clock disk now steady range d by (some expiry) m done in
    reloaded_allows later address range (active now (m.whitelist ++ entry ∷ [])) _ ip
      (added.reloads later audit 0 0) parsed (active_last now m.whitelist entry (ground arith)) hit
