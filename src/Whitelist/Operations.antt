-- ===== src/Whitelist/Operations.antt =====
-- The exported methods of internal/whitelist/manager.go. Each runs under the mutex of the manager, so it
-- is one step; it returns its result and the manager.
use aquatiq_root.Common.{
  is_over, ℕ, suc, ◌-◌, String, Text, lit, Bool, true, false, not, Option, none, some, List, [],
  ◌∷◌, ◌++◌, if◌then◌else◌, ltb, length, take,
}
use aquatiq_root.Audit.{Logger, AuditEvent, zero_event, log_if_set}
use aquatiq_root.Net.{Ip, parse_ip}
use aquatiq_root.Whitelist.Types.{
  IpEntry, WriteOutcome, Manager, Error, invalid_ip, already_listed, not_listed,
  validate_ip_or_cidr, ip_matches, is_listed, remove_ip, is_blacklisted, Yaml,
}
use aquatiq_root.Whitelist.Traefik.{is_past, update_traefik_config}

module _ (clock : ℕ → ℕ) where
  -- `m.audit.LogEvent` behind its nil test; the event is made after a reading of the clock.
  unfoldable pub log_action : Text → Text → Text → List (String × Text) → Manager → Manager
  log_action action actor resource details m = elim m.audit [
    | none ↦ m
    | some log ↦ record m {
      audit =
          log_if_set
            (record zero_event {
              timestamp = clock m.readings;
              action = action;
              actor = actor;
              resource = resource;
              success = true;
              details = details;
            })
            m.audit;
      readings = suc m.readings;
    }
  ]

  -- AddToBlacklist
  unfoldable pub add_to_blacklist : Text → Text → Text → Manager → Option Error × Manager
  add_to_blacklist ip description added_by m =
      if not (validate_ip_or_cidr ip)
      then (some invalid_ip, m)
      else if is_listed ip m.blacklist
      then (some already_listed, m)
      else (
        none,
        log_action (lit "blacklist_add") added_by ip (("description", description) ∷ []) (record m {
          blacklist =
              m.blacklist
              ++ record {
                ip = ip;
                description = description;
                added_at = clock m.readings;
                added_by = added_by;
                expires_at = none;
              }
                ∷ [];
          readings = suc m.readings;
        }),
      )

  -- RemoveFromBlacklist
  unfoldable pub remove_from_blacklist : Text → Text → Manager → Option Error × Manager
  remove_from_blacklist ip removed_by m =
      let (kept, found) = remove_ip ip m.blacklist in
      if not found then (some not_listed, m) else (
        none,
        log_action (lit "blacklist_remove") removed_by ip [] (record m { blacklist = kept }),
      )

  -- The loop of IsAllowed over the whitelist.
  unfoldable pub is_whitelisted : Ip → List IpEntry → ℕ → Bool × ℕ
  is_whitelisted ip [] n = (false, n)
  is_whitelisted ip (e ∷ es) n =
      let (past, n') = is_past clock e.expires_at n in
      let rest = is_whitelisted ip es n' in
      if past then rest else if ip_matches ip e.ip then (true, n') else rest

  -- IsAllowed
  unfoldable pub is_allowed : Text → Manager → Bool × Manager
  is_allowed address m = elim (parse_ip address) [
    | none ↦ (false, m)
    | some ip ↦
        if is_blacklisted ip m.blacklist
        then (false, m)
        else let (found, n) = is_whitelisted ip m.whitelist m.readings in
          (found, record m { readings = n })
  ]

-- The event of an entry that CleanupExpired removes.
abbrev pub expired_event : ℕ → IpEntry → AuditEvent
expired_event now e = record zero_event {
  timestamp = now;
  action = lit "whitelist_expired";
  actor = lit "system";
  resource = e.ip;
  success = true;
}

-- The loop of CleanupExpired: the entries kept, how many were removed, and the log.
unfoldable pub sweep : ℕ → List IpEntry → Logger → List IpEntry × ℕ × Logger
sweep now [] log = ([], 0, log)
sweep now (e ∷ es) log =
    let over = is_over e.expires_at now in
    let (kept, removed, log') =
      sweep now es (if over then log_if_set (expired_event now e) log else log) in
    if over then (kept, suc removed, log') else (e ∷ kept, removed, log')

module _ (yaml : Yaml) (clock : ℕ → ℕ) (disk : ℕ → WriteOutcome) where
  -- AddToWhitelist from the update on, with the new entry at the end of the list.
  unfoldable pub commit_add : Text → Text → Text → Manager → Option Error × Manager
  commit_add ip description added_by m =
      let (failed, m') = update_traefik_config yaml clock disk m in
      elim failed [
        | some e ↦ (some e, record m' { whitelist = take (length m'.whitelist - 1) m'.whitelist })
        | none ↦ (
          none,
          log_action clock (lit "whitelist_add") added_by ip (("description", description) ∷ []) m',
        )
      ]

  -- AddToWhitelist
  unfoldable pub add_to_whitelist : Text → Text → Text → Option ℕ → Manager → Option Error × Manager
  add_to_whitelist ip description added_by expires_at m =
      if not (validate_ip_or_cidr ip)
      then (some invalid_ip, m)
      else if is_listed ip m.whitelist
      then (some already_listed, m)
      else commit_add ip description added_by (record m {
        whitelist =
            m.whitelist
            ++ record {
              ip = ip;
              description = description;
              added_at = clock m.readings;
              added_by = added_by;
              expires_at = expires_at;
            }
              ∷ [];
        readings = suc m.readings;
      })

  -- RemoveFromWhitelist from the update on.
  unfoldable pub commit_remove : Text → Text → Manager → Option Error × Manager
  commit_remove ip removed_by m =
      let (failed, m') = update_traefik_config yaml clock disk m in
      elim failed [
        | some e ↦ (some e, m')
        | none ↦ (none, log_action clock (lit "whitelist_remove") removed_by ip [] m')
      ]

  -- RemoveFromWhitelist
  unfoldable pub remove_from_whitelist : Text → Text → Manager → Option Error × Manager
  remove_from_whitelist ip removed_by m =
      let (kept, found) = remove_ip ip m.whitelist in
      if not found
      then (some not_listed, m)
      else commit_remove ip removed_by (record m { whitelist = kept })

  -- CleanupExpired
  unfoldable pub cleanup_expired : Manager → ℕ × Manager
  cleanup_expired m =
      let (kept, removed, log) = sweep (clock m.readings) m.whitelist m.audit in
      let swept = record m { audit = log; readings = suc m.readings } in
      if ltb 0 removed
      then (removed, (update_traefik_config yaml clock disk (record swept { whitelist = kept })).1)
      else (removed, swept)
