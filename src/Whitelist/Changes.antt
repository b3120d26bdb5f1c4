-- ===== src/Whitelist/Changes.antt =====
-- What the methods of internal/whitelist/manager.go that change a list do to its table.
use mathlib.Core.Path.{subst}
use aquatiq_root.Common.{
  String, List, ◌==◌, if◌then◌else◌, arith, ℕ, suc, Text, lit, ◌≡◌, inl, inr, refl, sym, ◌∙◌,
  Option, none, some, [], ◌∷◌, ◌++◌, Bool-cases,
}
use aquatiq_root.Whitelist.Types.{
  IpEntry, WriteOutcome, Manager, Error, invalid_ip, already_listed, not_listed,
  validate_ip_or_cidr, is_listed, remove_ip, Yaml,
}
use aquatiq_root.Whitelist.Operations.{
  log_action, commit_add, add_to_whitelist, commit_remove, remove_from_whitelist, add_to_blacklist,
  remove_from_blacklist,
}
use aquatiq_root.Whitelist.Listed.{remove_ip-found, log_action-SameLists, commit_add-whitelist}
use aquatiq_root.Whitelist.Invariant.{commit_remove-lists}
use aquatiq_root.Whitelist.Table.{table}
use aquatiq_root.Whitelist.Abstract.{Saving, unsaved, attempted, error_of, Same}
use aquatiq_root.Whitelist.Traefik.{write_file, update_traefik_config}
use aquatiq_root.Whitelist.Edits.{
  table-of, Added, Dropped, invalid-Added, listed-Added, new-Added, absent-Dropped, there-Dropped,
}

-- A result that is what was to be reported.
told-Added :
    (ip : Text) (t : Option ℕ) (es es' : List IpEntry) {r r' : Option Error}
    → r ≡ r'
    → Added ip t r es r es'
    → Added ip t r' es r es'
told-Added ip t es es' {r} e h = subst (λ x. Added ip t x es r es') e h

told-Dropped :
    (ip : Text) (es es' : List IpEntry) {r r' : Option Error}
    → r ≡ r'
    → Dropped ip r es r es'
    → Dropped ip r' es r es'
told-Dropped ip es es' {r} e h = subst (λ x. Dropped ip x es r es') e h

module _ (yaml : Yaml) (clock : ℕ → ℕ) (disk : ℕ → WriteOutcome) where
  new_entry : Text → Text → Text → Option ℕ → ℕ → IpEntry
  new_entry ip d by t at = record {
    ip = ip;
    description = d;
    added_at = at;
    added_by = by;
    expires_at = t;
  }

  -- What became of the file from one manager to another.
  abbrev pub saving : Manager → Manager → Saving
  saving m m' = if m'.writes == m.writes then unsaved else attempted (disk m.writes)

  update-saving :
      (m : Manager)
      → (update_traefik_config yaml clock disk m).0
        ≡ error_of (saving m (update_traefik_config yaml clock disk m).1)
  unfolding update_traefik_config write_file
  update-saving m = ground arith

  writes-log_action :
      (action actor resource : Text) (details : List (String × Text)) (m : Manager)
      → (log_action clock action actor resource details m).writes ≡ m.writes
  unfolding log_action
  writes-log_action action actor resource details m = ground arith

  commit_add-saving :
      (ip d by : Text) (m : Manager)
      → (commit_add yaml clock disk ip d by m).0
        ≡ error_of (saving m (commit_add yaml clock disk ip d by m).1)
  unfolding commit_add
  commit_add-saving ip d by m =
      let m' = (update_traefik_config yaml clock disk m).1 in
      ground (
        arith,
        update-saving m,
        writes-log_action (lit "whitelist_add") by ip (("description", d) ∷ []) m',
      )

  commit_remove-saving :
      (ip by : Text) (m : Manager)
      → (commit_remove yaml clock disk ip by m).0
        ≡ error_of (saving m (commit_remove yaml clock disk ip by m).1)
  unfolding commit_remove
  commit_remove-saving ip by m =
      let m' = (update_traefik_config yaml clock disk m).1 in
      ground (arith, update-saving m, writes-log_action (lit "whitelist_remove") by ip [] m')

  -- The result and the manager of an addition to the whitelist, and of a removal.
  abbrev WhiteAdded : Text → Option ℕ → Manager → Option Error × Manager → Type 0
  WhiteAdded ip t m r =
      Added ip t (error_of (saving m r.1)) m.whitelist r.0 r.1.whitelist
      × Same (table r.1.blacklist) (table m.blacklist)

  abbrev WhiteDropped : Text → Manager → Option Error × Manager → Type 0
  WhiteDropped ip m r =
      Dropped ip (error_of (saving m r.1)) m.whitelist r.0 r.1.whitelist
      × Same (table r.1.blacklist) (table m.blacklist)

  pub add_white-WhiteAdded :
      (ip d by : Text) (t : Option ℕ) (m : Manager)
      → WhiteAdded ip t m (add_to_whitelist yaml clock disk ip d by t m)
  unfolding add_to_whitelist new_entry
  add_white-WhiteAdded ip d by t m = elim (Bool-cases (validate_ip_or_cidr ip)) [
    | inr bad ↦
        let is : add_to_whitelist yaml clock disk ip d by t m ≡ (some invalid_ip, m) =
          simp bad refl in
        subst (WhiteAdded ip t m) (sym is) (invalid-Added ip t _ m.whitelist bad, λ j. refl)
    | inl valid ↦ elim (Bool-cases (is_listed ip m.whitelist)) [
      | inl old ↦
          let is : add_to_whitelist yaml clock disk ip d by t m ≡ (some already_listed, m) =
            simp (valid, old) refl in
          subst (WhiteAdded ip t m) (sym is) (listed-Added ip t _ m.whitelist valid old, λ j. refl)
      | inr new ↦
          let e : IpEntry = new_entry ip d by t (clock m.readings) in
          let m' : Manager = record m {
            whitelist = m.whitelist ++ e ∷ [];
            readings = suc m.readings;
          } in
          let is : add_to_whitelist yaml clock disk ip d by t m
              ≡ commit_add yaml clock disk ip d by m' =
            simp (valid, new) refl in
          let (whites, blacks) =
            commit_add-whitelist yaml clock disk ip d by m' m.whitelist e refl in
          subst (WhiteAdded ip t m) (sym is) (
            told-Added ip t m.whitelist _ (commit_add-saving ip d by m')
                (new-Added e _ m.whitelist _ valid new whites),
            table-of blacks,
          )
    ]
  ]

  pub remove_white-WhiteDropped :
      (ip by : Text) (m : Manager)
      → WhiteDropped ip m (remove_from_whitelist yaml clock disk ip by m)
  unfolding remove_from_whitelist
  remove_white-WhiteDropped ip by m =
      let kept : Manager = record m { whitelist = (remove_ip ip m.whitelist).0 } in
      let (whites, blacks) = commit_remove-lists yaml clock disk ip by kept in
      let found = remove_ip-found ip m.whitelist in
      elim (Bool-cases (is_listed ip m.whitelist)) [
        | inr absent ↦
            let is : remove_from_whitelist yaml clock disk ip by m ≡ (some not_listed, m) =
              simp (found ∙ absent) refl in
            subst (WhiteDropped ip m) (sym is) (absent-Dropped ip _ m.whitelist absent, λ j. refl)
        | inl there ↦
            let is : remove_from_whitelist yaml clock disk ip by m
                ≡ commit_remove yaml clock disk ip by kept =
              simp (found ∙ there) refl in
            subst (WhiteDropped ip m) (sym is) (
              told-Dropped ip m.whitelist _ (commit_remove-saving ip by kept)
                  (there-Dropped ip _ m.whitelist _ there whites),
              table-of blacks,
            )
      ]

  abbrev BlackAdded : Text → Manager → Option Error × Manager → Type 0
  BlackAdded ip m r =
      (Same (table r.1.whitelist) (table m.whitelist))
      × Added ip none none m.blacklist r.0 r.1.blacklist

  abbrev BlackDropped : Text → Manager → Option Error × Manager → Type 0
  BlackDropped ip m r =
      (Same (table r.1.whitelist) (table m.whitelist))
      × Dropped ip none m.blacklist r.0 r.1.blacklist

  pub add_black-BlackAdded :
      (ip d by : Text) (m : Manager) → BlackAdded ip m (add_to_blacklist clock ip d by m)
  unfolding add_to_blacklist new_entry
  add_black-BlackAdded ip d by m = elim (Bool-cases (validate_ip_or_cidr ip)) [
    | inr bad ↦
        let is : add_to_blacklist clock ip d by m ≡ (some invalid_ip, m) = simp bad refl in
        subst (BlackAdded ip m) (sym is) ((λ j. refl), invalid-Added ip none none m.blacklist bad)
    | inl valid ↦ elim (Bool-cases (is_listed ip m.blacklist)) [
      | inl old ↦
          let is : add_to_blacklist clock ip d by m ≡ (some already_listed, m) =
            simp (valid, old) refl in
          subst (BlackAdded ip m) (sym is)
            ((λ j. refl), listed-Added ip none none m.blacklist valid old)
      | inr new ↦
          let e : IpEntry = new_entry ip d by none (clock m.readings) in
          let m' : Manager = record m {
            blacklist = m.blacklist ++ e ∷ [];
            readings = suc m.readings;
          } in
          let logged : Manager =
            log_action clock (lit "blacklist_add") by ip (("description", d) ∷ []) m' in
          let is : add_to_blacklist clock ip d by m ≡ (none, logged) = simp (valid, new) refl in
          let (whites, blacks) =
            log_action-SameLists clock (lit "blacklist_add") by ip (("description", d) ∷ []) m' in
          subst (BlackAdded ip m) (sym is)
            (table-of whites, new-Added e none m.blacklist _ valid new blacks)
    ]
  ]

  pub remove_black-BlackDropped :
      (ip by : Text) (m : Manager) → BlackDropped ip m (remove_from_blacklist clock ip by m)
  unfolding remove_from_blacklist
  remove_black-BlackDropped ip by m =
      let kept : Manager = record m { blacklist = (remove_ip ip m.blacklist).0 } in
      let logged : Manager = log_action clock (lit "blacklist_remove") by ip [] kept in
      let (whites, blacks) = log_action-SameLists clock (lit "blacklist_remove") by ip [] kept in
      let found = remove_ip-found ip m.blacklist in
      elim (Bool-cases (is_listed ip m.blacklist)) [
        | inr absent ↦
            let is : remove_from_blacklist clock ip by m ≡ (some not_listed, m) =
              simp (found ∙ absent) refl in
            subst (BlackDropped ip m) (sym is)
              ((λ j. refl), absent-Dropped ip none m.blacklist absent)
        | inl there ↦
            let is : remove_from_blacklist clock ip by m ≡ (none, logged) =
              simp (found ∙ there) refl in
            subst (BlackDropped ip m) (sym is)
              (table-of whites, there-Dropped ip none m.blacklist _ there blacks)
      ]
