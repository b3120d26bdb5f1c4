-- ===== src/Whitelist/Invariant.antt =====
-- The invariant of the manager of internal/whitelist/manager.go under every sequence of its methods.
use aquatiq_root.Common.{
  ℕ, suc, Text, lit, ◌≡◌, refl, Option, none, some, List, [], ◌∷◌, ◌++◌, arith, Bool-cases, inl,
  inr, ltb,
}
use aquatiq_root.Whitelist.Types.{
  IpEntry, WriteOutcome, Manager, Error, validate_ip_or_cidr, is_listed, remove_ip, Yaml,
}
use aquatiq_root.Whitelist.Traefik.{update_traefik_config}
use aquatiq_root.Whitelist.Operations.{
  add_to_whitelist, commit_remove, remove_from_whitelist, add_to_blacklist, remove_from_blacklist,
  is_allowed, sweep, cleanup_expired,
}
use aquatiq_root.Whitelist.Update.{update_traefik_config-SameLists}
use aquatiq_root.Whitelist.Listed.{
  IsListing, IsWellFormed, IsListing-append, IsListing-remove_ip, IsListing-sweep,
  log_action-SameLists, Op, add_white, remove_white, add_black, remove_black, ask, cleanup, step,
  run, commit_add-whitelist,
}

module _ (yaml : Yaml) (clock : ℕ → ℕ) (disk : ℕ → WriteOutcome) where
  -- A list that is a listing, whatever path it came by.
  to_listing : {xs ys : List IpEntry} → xs ≡ ys → IsListing ys → IsListing xs
  to_listing e l = rw e l

  new_entry : Text → Text → Text → Option ℕ → ℕ → IpEntry
  new_entry ip d by t at = record {
    ip = ip;
    description = d;
    added_at = at;
    added_by = by;
    expires_at = t;
  }

  committed :
      (r : Option Error) (es : List IpEntry) (e : IpEntry)
      → IsListing es
      → IsListing (es ++ e ∷ [])
      → IsListing (elim r [ none ↦ es ++ e ∷ [] | some _ ↦ es ])
  committed none es e l l' = l'
  committed (some x) es e l l' = l

  add_white-IsWellFormed :
      (ip d by : Text) (t : Option ℕ) (m : Manager)
      → IsWellFormed m
      → IsWellFormed (add_to_whitelist yaml clock disk ip d by t m).1
  unfolding add_to_whitelist new_entry
  add_white-IsWellFormed ip d by t m w = elim (Bool-cases (validate_ip_or_cidr ip)) [
    | inr bad ↦ simp bad w
    | inl valid ↦ elim (Bool-cases (is_listed ip m.whitelist)) [
      | inl old ↦ simp (valid, old) w
      | inr new ↦
          let e = new_entry ip d by t (clock m.readings) in
          let m' = record m { whitelist = m.whitelist ++ e ∷ []; readings = suc m.readings } in
          let (whites, blacks) =
            commit_add-whitelist yaml clock disk ip d by m' m.whitelist e refl in
          simp (valid, new)
            (record {
              white = to_listing whites (
                  committed _ m.whitelist e w.white
                    (IsListing-append m.whitelist e w.white new valid));
              black = to_listing blacks w.black;
            })
    ]
  ]

  -- Unlike `commit_add` this keeps the changed list also where the update fails.
  pub commit_remove-lists :
      (ip by : Text) (m : Manager)
      → ((commit_remove yaml clock disk ip by m).1.whitelist ≡ m.whitelist)
        × ((commit_remove yaml clock disk ip by m).1.blacklist ≡ m.blacklist)
  unfolding commit_remove
  commit_remove-lists ip by m =
      let s = update_traefik_config-SameLists yaml clock disk m in
      let m' = (update_traefik_config yaml clock disk m).1 in
      ground (
        arith,
        s.whitelist,
        s.blacklist,
        log_action-SameLists clock (lit "whitelist_remove") by ip [] m',
      )

  remove_white-IsWellFormed :
      (ip by : Text) (m : Manager)
      → IsWellFormed m
      → IsWellFormed (remove_from_whitelist yaml clock disk ip by m).1
  unfolding remove_from_whitelist
  remove_white-IsWellFormed ip by m w =
      let kept = record m { whitelist = (remove_ip ip m.whitelist).0 } in
      let (whites, blacks) = commit_remove-lists ip by kept in
      elim (Bool-cases (remove_ip ip m.whitelist).1) [
        | inr absent ↦ simp absent w
        | inl found ↦ simp found (record {
          white = to_listing whites (IsListing-remove_ip ip m.whitelist w.white);
          black = to_listing blacks w.black;
        })
      ]

  add_black-IsWellFormed :
      (ip d by : Text) (m : Manager)
      → IsWellFormed m
      → IsWellFormed (add_to_blacklist clock ip d by m).1
  unfolding add_to_blacklist new_entry
  add_black-IsWellFormed ip d by m w = elim (Bool-cases (validate_ip_or_cidr ip)) [
    | inr bad ↦ simp bad w
    | inl valid ↦ elim (Bool-cases (is_listed ip m.blacklist)) [
      | inl old ↦ simp (valid, old) w
      | inr new ↦
          let e = new_entry ip d by none (clock m.readings) in
          let m' = record m { blacklist = m.blacklist ++ e ∷ []; readings = suc m.readings } in
          let (whites, blacks) =
            log_action-SameLists clock (lit "blacklist_add") by ip (("description", d) ∷ []) m' in
          simp (valid, new)
            (record {
              white = to_listing whites w.white;
              black = to_listing blacks (IsListing-append m.blacklist e w.black new valid);
            })
    ]
  ]

  remove_black-IsWellFormed :
      (ip by : Text) (m : Manager)
      → IsWellFormed m
      → IsWellFormed (remove_from_blacklist clock ip by m).1
  unfolding remove_from_blacklist
  remove_black-IsWellFormed ip by m w =
      let kept = record m { blacklist = (remove_ip ip m.blacklist).0 } in
      let (whites, blacks) = log_action-SameLists clock (lit "blacklist_remove") by ip [] kept in
      elim (Bool-cases (remove_ip ip m.blacklist).1) [
        | inr absent ↦ simp absent w
        | inl found ↦ simp found (record {
          white = to_listing whites w.white;
          black = to_listing blacks (IsListing-remove_ip ip m.blacklist w.black);
        })
      ]

  pub ask-SameLists :
      (ip : Text) (m : Manager)
      → ((is_allowed clock ip m).1.whitelist ≡ m.whitelist)
        × ((is_allowed clock ip m).1.blacklist ≡ m.blacklist)
  unfolding is_allowed
  ask-SameLists ip m = ground arith

  cleanup-IsWellFormed :
      (m : Manager) → IsWellFormed m → IsWellFormed (cleanup_expired yaml clock disk m).1
  unfolding cleanup_expired
  cleanup-IsWellFormed m w =
      let now = clock m.readings in
      let swept = record m {
        whitelist = (sweep now m.whitelist m.audit).0;
        audit = (sweep now m.whitelist m.audit).2;
        readings = suc m.readings;
      } in
      let s = update_traefik_config-SameLists yaml clock disk swept in
      elim (Bool-cases (ltb 0 (sweep now m.whitelist m.audit).1)) [
        | inl some_removed ↦ simp some_removed (record {
          white = to_listing s.whitelist (IsListing-sweep now m.whitelist m.audit w.white);
          black = to_listing s.blacklist w.black;
        })
        | inr none_removed ↦ simp none_removed (record { white = w.white; black = w.black })
      ]

  pub step-IsWellFormed :
      (o : Op) (m : Manager) → IsWellFormed m → IsWellFormed (step yaml clock disk o m)
  unfolding step
  step-IsWellFormed (add_white ip d by t) m w = add_white-IsWellFormed ip d by t m w
  step-IsWellFormed (remove_white ip by) m w = remove_white-IsWellFormed ip by m w
  step-IsWellFormed (add_black ip d by) m w = add_black-IsWellFormed ip d by m w
  step-IsWellFormed (remove_black ip by) m w = remove_black-IsWellFormed ip by m w
  step-IsWellFormed (ask ip) m w = record {
    white = to_listing (ask-SameLists ip m).0 w.white;
    black = to_listing (ask-SameLists ip m).1 w.black;
  }
  step-IsWellFormed cleanup m w = cleanup-IsWellFormed m w

  -- Any sequence of methods keeps both lists well formed, each address or range in them once and valid,
  -- whatever the writes of the file and the clock do.
  pub run-IsWellFormed :
      (os : List Op) (m : Manager) → IsWellFormed m → IsWellFormed (run yaml clock disk os m)
  unfolding run
  run-IsWellFormed [] m w = w
  run-IsWellFormed (o ∷ os) m w =
      run-IsWellFormed os (step yaml clock disk o m) (step-IsWellFormed o m w)
