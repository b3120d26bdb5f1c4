-- ===== src/Whitelist/Listed.antt =====
-- What the lists of internal/whitelist/manager.go hold, after any methods: each address or range once,
-- and each one valid.
use aquatiq_root.Common.{
  is_over, ℕ, String, Text, lit, text_eq, text_eq_iff, ◌≡◌, refl, true, false, ◌||◌, Option, none,
  some, List, [], ◌∷◌, ◌++◌, if◌then◌else◌, take-append_one, arith, Bool-cases, inl, inr,
}
use aquatiq_root.Audit.{Logger, log_if_set}
use aquatiq_root.Whitelist.Types.{
  IpEntry, WriteOutcome, Manager, validate_ip_or_cidr, is_listed, remove_ip, Yaml,
}
use aquatiq_root.Whitelist.Traefik.{update_traefik_config}
use aquatiq_root.Whitelist.Operations.{
  log_action, commit_add, add_to_whitelist, remove_from_whitelist, add_to_blacklist,
  remove_from_blacklist, is_allowed, expired_event, sweep, cleanup_expired,
}
use aquatiq_root.Whitelist.Update.{update_traefik_config-SameLists}

-- Each address once, and each one valid.
abbrev pub IsListing : List IpEntry → Type 0
IsListing [] = Unit
IsListing (e ∷ es) = (is_listed e.ip es ≡ false) × (validate_ip_or_cidr e.ip ≡ true) × IsListing es

pub record IsWellFormed (m : Manager) : Type 0 where
  pub white : IsListing m.whitelist
  pub black : IsListing m.blacklist

pub is_listed-append :
    (ip : Text) (es : List IpEntry) (e : IpEntry)
    → is_listed ip (es ++ e ∷ []) ≡ (is_listed ip es || text_eq e.ip ip)
unfolding is_listed
is_listed-append ip [] e = ground arith
is_listed-append ip (x ∷ es) e = ground (arith, is_listed-append ip es e)

pub IsListing-append :
    (es : List IpEntry) (e : IpEntry)
    → IsListing es
    → is_listed e.ip es ≡ false
    → validate_ip_or_cidr e.ip ≡ true
    → IsListing (es ++ e ∷ [])
unfolding is_listed
IsListing-append [] e l new valid = (refl, valid, tt)
IsListing-append (x ∷ es) e l new valid = (
  ground (arith, is_listed-append x.ip es e, text_eq_iff x.ip e.ip, text_eq_iff e.ip x.ip),
  l.1,
  IsListing-append es e l.2 (ground arith) valid,
)

pub remove_ip-found : (ip : Text) (es : List IpEntry) → (remove_ip ip es).1 ≡ is_listed ip es
unfolding remove_ip is_listed
remove_ip-found ip [] = refl
remove_ip-found ip (e ∷ es) = ground (arith, remove_ip-found ip es)

pub is_listed-remove_ip :
    (ip j : Text) (es : List IpEntry)
    → is_listed j (remove_ip ip es).0 ≡ (if text_eq ip j then false else is_listed j es)
unfolding remove_ip is_listed
is_listed-remove_ip ip j [] = ground arith
is_listed-remove_ip ip j (e ∷ es) =
    ground (
      arith,
      is_listed-remove_ip ip j es,
      text_eq_iff ip j,
      text_eq_iff e.ip ip,
      text_eq_iff e.ip j,
    )

pub IsListing-remove_ip :
    (ip : Text) (es : List IpEntry) → IsListing es → IsListing (remove_ip ip es).0
unfolding remove_ip
IsListing-remove_ip ip [] l = tt
IsListing-remove_ip ip (e ∷ es) l = elim (Bool-cases (text_eq e.ip ip)) [
  | inl same ↦ simp same (IsListing-remove_ip ip es l.2)
  | inr other ↦
      simp other
        (ground (arith, is_listed-remove_ip ip e.ip es, l.0), l.1, IsListing-remove_ip ip es l.2)
]

not_listed-sweep :
    (now : ℕ) (ip : Text) (es : List IpEntry) (log : Logger)
    → is_listed ip es ≡ false
    → is_listed ip (sweep now es log).0 ≡ false
unfolding sweep is_listed
not_listed-sweep now ip [] log h = refl
not_listed-sweep now ip (e ∷ es) log h = elim (Bool-cases (is_over e.expires_at now)) [
  | inl over ↦
      simp over (not_listed-sweep now ip es (log_if_set (expired_event now e) log) (ground arith))
  | inr live ↦ simp live (ground (arith, not_listed-sweep now ip es log))
]

pub IsListing-sweep :
    (now : ℕ) (es : List IpEntry) (log : Logger) → IsListing es → IsListing (sweep now es log).0
unfolding sweep
IsListing-sweep now [] log l = tt
IsListing-sweep now (e ∷ es) log l = elim (Bool-cases (is_over e.expires_at now)) [
  | inl over ↦ simp over (IsListing-sweep now es (log_if_set (expired_event now e) log) l.2)
  | inr live ↦ simp live (not_listed-sweep now e.ip es log l.0, l.1, IsListing-sweep now es log l.2)
]

-- A call of an exported method that may change the manager.
pub data Op : Type 0 where
  add_white : Text → Text → Text → Option ℕ → Op
  remove_white : Text → Text → Op
  add_black : Text → Text → Text → Op
  remove_black : Text → Text → Op
  ask : Text → Op
  cleanup : Op

pub log_action-SameLists :
    (clock : ℕ → ℕ) (action actor resource : Text) (details : List (String × Text)) (m : Manager)
    → ((log_action clock action actor resource details m).whitelist ≡ m.whitelist)
      × ((log_action clock action actor resource details m).blacklist ≡ m.blacklist)
unfolding log_action
log_action-SameLists clock action actor resource details m = ground arith

module _ (yaml : Yaml) (clock : ℕ → ℕ) (disk : ℕ → WriteOutcome) where
  unfoldable pub step : Op → Manager → Manager
  step (add_white ip d by t) m = (add_to_whitelist yaml clock disk ip d by t m).1
  step (remove_white ip by) m = (remove_from_whitelist yaml clock disk ip by m).1
  step (add_black ip d by) m = (add_to_blacklist clock ip d by m).1
  step (remove_black ip by) m = (remove_from_blacklist clock ip by m).1
  step (ask ip) m = (is_allowed clock ip m).1
  step cleanup m = (cleanup_expired yaml clock disk m).1

  unfoldable pub run : List Op → Manager → Manager
  run [] m = m
  run (o ∷ os) m = run os (step o m)

  -- The list that AddToWhitelist goes on from is kept, or put back where the update fails.
  pub commit_add-whitelist :
      (ip d by : Text) (m : Manager) (es : List IpEntry) (e : IpEntry)
      → m.whitelist ≡ es ++ e ∷ []
      → ((commit_add yaml clock disk ip d by m).1.whitelist
          ≡ (elim ((commit_add yaml clock disk ip d by m).0) [ none ↦ es ++ e ∷ [] | some _ ↦ es ]))
        × ((commit_add yaml clock disk ip d by m).1.blacklist ≡ m.blacklist)
  unfolding commit_add
  commit_add-whitelist ip d by m es e h =
      let s = update_traefik_config-SameLists yaml clock disk m in
      let (failed, m') = update_traefik_config yaml clock disk m in
      ground (
        arith,
        s.whitelist,
        s.blacklist,
        take-append_one es e,
        log_action-SameLists clock (lit "whitelist_add") by ip (("description", d) ∷ []) m',
      )
