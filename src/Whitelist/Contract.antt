-- ===== src/Whitelist/Contract.antt =====
-- What AddToWhitelist and RemoveFromWhitelist of internal/whitelist/manager.go leave behind, on success
-- and on error.
use aquatiq_root.Common.{
  ℕ, suc, String, Text, lit, text_eq_refl, ◌≡◌, refl, ◌∙◌, true, false, Option, none, some, List,
  [], ◌∷◌, ◌++◌, arith, take-append_one,
}
use aquatiq_root.Audit.{Logger}
use aquatiq_root.Whitelist.Types.{
  IpEntry, File, WriteOutcome, Manager, Error, validate_ip_or_cidr, is_listed, remove_ip, Yaml,
}
use aquatiq_root.Whitelist.Traefik.{update_traefik_config, new_manager}
use aquatiq_root.Whitelist.Operations.{
  log_action, commit_add, add_to_whitelist, commit_remove, remove_from_whitelist,
}
use aquatiq_root.Whitelist.Update.{
  SameLists, active, source_range-active, update_traefik_config-SameLists,
}
use aquatiq_root.Whitelist.Listed.{remove_ip-found, is_listed-remove_ip, log_action-SameLists}
use aquatiq_root.Whitelist.Invariant.{commit_remove-lists}
use aquatiq_root.Whitelist.Reload.{IsLoaded, update_traefik_config-IsWritten, new_manager-IsWritten}

module _ (yaml : Yaml) (clock : ℕ → ℕ) (disk : ℕ → WriteOutcome) where
  file-log_action :
      (action actor resource : Text) (details : List (String × Text)) (m : Manager)
      → (log_action clock action actor resource details m).file ≡ m.file
  unfolding log_action
  file-log_action action actor resource details m = ground arith

  commit_add_error :
      (ip d by : Text) (m : Manager) (es : List IpEntry) (e : IpEntry) (x : Error)
      → m.whitelist ≡ es ++ e ∷ []
      → (commit_add yaml clock disk ip d by m).0 ≡ some x
      → ((commit_add yaml clock disk ip d by m).1.whitelist ≡ es)
        × ((commit_add yaml clock disk ip d by m).1.blacklist ≡ m.blacklist)
        × ((commit_add yaml clock disk ip d by m).1.audit ≡ m.audit)
  unfolding commit_add
  commit_add_error ip d by m es e x h failed =
      let s = update_traefik_config-SameLists yaml clock disk m in
      ground (arith, s.whitelist, s.blacklist, s.audit, take-append_one es e)

  -- Where AddToWhitelist reports an error, whichever it is and whatever became of the file, both lists
  -- and the audit log are what they were before the call.
  pub add_to_whitelist_error_unchanged :
      (ip d by : Text) (t : Option ℕ) (m : Manager) {x : Error}
      → (add_to_whitelist yaml clock disk ip d by t m).0 ≡ some x
      → SameLists m (add_to_whitelist yaml clock disk ip d by t m).1
  unfolding add_to_whitelist
  add_to_whitelist_error_unchanged ip d by t m {x} h =
      let e : IpEntry = record {
        ip = ip;
        description = d;
        added_at = clock m.readings;
        added_by = by;
        expires_at = t;
      } in
      let m' = record m { whitelist = m.whitelist ++ e ∷ []; readings = suc m.readings } in
      ground (arith, commit_add_error ip d by m' m.whitelist e x refl)

  commit_add_success :
      (ip d by : Text) (m : Manager)
      → (commit_add yaml clock disk ip d by m).0 ≡ none
      → ((update_traefik_config yaml clock disk m).0 ≡ none)
        × ((commit_add yaml clock disk ip d by m).1.file
            ≡ (update_traefik_config yaml clock disk m).1.file)
        × ((commit_add yaml clock disk ip d by m).1.whitelist ≡ m.whitelist)
        × ((commit_add yaml clock disk ip d by m).1.blacklist ≡ m.blacklist)
  unfolding commit_add
  commit_add_success ip d by m done =
      let s = update_traefik_config-SameLists yaml clock disk m in
      let m' = (update_traefik_config yaml clock disk m).1 in
      ground (
        arith,
        s.whitelist,
        s.blacklist,
        file-log_action (lit "whitelist_add") by ip (("description", d) ∷ []) m',
        log_action-SameLists clock (lit "whitelist_add") by ip (("description", d) ∷ []) m',
      )

  commit_remove_success :
      (ip by : Text) (m : Manager)
      → (commit_remove yaml clock disk ip by m).0 ≡ none
      → ((update_traefik_config yaml clock disk m).0 ≡ none)
        × ((commit_remove yaml clock disk ip by m).1.file
            ≡ (update_traefik_config yaml clock disk m).1.file)
  unfolding commit_remove
  commit_remove_success ip by m done = ground (
    arith,
    file-log_action (lit "whitelist_remove") by ip [] (update_traefik_config yaml clock disk m).1,
  )

module _ (yaml : Yaml) (clock : ℕ → ℕ) (disk : ℕ → WriteOutcome) (now : ℕ)
    (steady : (n : ℕ) → clock n ≡ now) where
  -- A manager that is created from the file, by whatever clock, lists the entries of `es` that are
  -- not over at `now`.
  abbrev pub Reloads : List IpEntry → File → Type 0
  Reloads es file =
      (later : ℕ → ℕ) (audit : Logger) (readings writes : ℕ)
      → IsLoaded (active now es) (new_manager yaml later audit file readings writes)

  Reloads-update :
      (m : Manager)
      → (update_traefik_config yaml clock disk m).0 ≡ none
      → Reloads m.whitelist (update_traefik_config yaml clock disk m).1.file
  Reloads-update m done later audit readings writes =
      new_manager-IsWritten yaml later (active now m.whitelist) audit _ readings writes (
        rw (source_range-active clock now steady m.whitelist m.readings) at
          (update_traefik_config-IsWritten yaml clock disk m done))

  -- A successful AddToWhitelist: the address is valid and was not listed, its entry is at the end of the
  -- whitelist, the blacklist is as before, and a restart lists what is not over.
  pub record IsAdded (e : IpEntry) (m m' : Manager) : Type 0 where
    pub valid : validate_ip_or_cidr e.ip ≡ true
    pub was_new : is_listed e.ip m.whitelist ≡ false
    pub whitelist : m'.whitelist ≡ m.whitelist ++ e ∷ []
    pub blacklist : m'.blacklist ≡ m.blacklist
    pub reloads : Reloads (m.whitelist ++ e ∷ []) m'.file

  add_tests :
      (ip d by : Text) (t : Option ℕ) (m : Manager)
      → (add_to_whitelist yaml clock disk ip d by t m).0 ≡ none
      → (validate_ip_or_cidr ip ≡ true) × (is_listed ip m.whitelist ≡ false)
  unfolding add_to_whitelist
  add_tests ip d by t m done = ground arith

  abbrev with_entry : Text → Text → Text → Option ℕ → Manager → Manager
  with_entry ip d by t m = record m {
    whitelist =
        m.whitelist
        ++ record { ip = ip; description = d; added_at = now; added_by = by; expires_at = t } ∷ [];
    readings = suc m.readings;
  }

  add_to_whitelist-commit :
      (ip d by : Text) (t : Option ℕ) (m : Manager)
      → validate_ip_or_cidr ip ≡ true
      → is_listed ip m.whitelist ≡ false
      → add_to_whitelist yaml clock disk ip d by t m
        ≡ commit_add yaml clock disk ip d by (with_entry ip d by t m)
  unfolding add_to_whitelist
  add_to_whitelist-commit ip d by t m valid new = simp (valid, new, steady m.readings) refl

  -- While the clock reads `now`, a call of AddToWhitelist that reports no error has added the entry, and
  -- has written a file from which a restart lists exactly the addresses of the entries not over, the new
  -- one among them.
  pub add_to_whitelist-IsAdded :
      (ip d by : Text) (t : Option ℕ) (m : Manager)
      → (add_to_whitelist yaml clock disk ip d by t m).0 ≡ none
      → IsAdded
          (record { ip = ip; description = d; added_at = now; added_by = by; expires_at = t })
          m
          (add_to_whitelist yaml clock disk ip d by t m).1
  add_to_whitelist-IsAdded ip d by t m done =
      let (valid, new) = add_tests ip d by t m done in
      let m' = with_entry ip d by t m in
      let same = add_to_whitelist-commit ip d by t m valid new in
      let done' = rw same at done in
      let (updated, file, whites, blacks) = commit_add_success yaml clock disk ip d by m' done' in
      rw same (record {
        valid = valid;
        was_new = new;
        whitelist = whites;
        blacklist = blacks;
        reloads = λ later audit readings writes.
            rw file (Reloads-update m' updated later audit readings writes);
      })

  -- A successful RemoveFromWhitelist: the address was listed, every entry of it is gone and the others
  -- stay, and a restart lists what is left and not over.
  pub record IsRemoved (ip : Text) (m m' : Manager) : Type 0 where
    pub was_listed : is_listed ip m.whitelist ≡ true
    pub whitelist : m'.whitelist ≡ (remove_ip ip m.whitelist).0
    pub gone : is_listed ip m'.whitelist ≡ false
    pub blacklist : m'.blacklist ≡ m.blacklist
    pub reloads : Reloads (remove_ip ip m.whitelist).0 m'.file

  remove_from_whitelist-commit :
      (ip by : Text) (m : Manager)
      → (remove_from_whitelist yaml clock disk ip by m).0 ≡ none
      → (is_listed ip m.whitelist ≡ true)
        × (remove_from_whitelist yaml clock disk ip by m
            ≡ commit_remove yaml clock disk ip by
                (record m { whitelist = (remove_ip ip m.whitelist).0 }))
  unfolding remove_from_whitelist
  remove_from_whitelist-commit ip by m done = ground (arith, remove_ip-found ip m.whitelist)

  -- While the clock reads `now`, a call of RemoveFromWhitelist that reports no error has removed the
  -- address, and has written a file from which a restart lists exactly the addresses that are left and
  -- not over.
  pub remove_from_whitelist-IsRemoved :
      (ip by : Text) (m : Manager)
      → (remove_from_whitelist yaml clock disk ip by m).0 ≡ none
      → IsRemoved ip m (remove_from_whitelist yaml clock disk ip by m).1
  remove_from_whitelist-IsRemoved ip by m done =
      let (listed, same) = remove_from_whitelist-commit ip by m done in
      let m' = record m { whitelist = (remove_ip ip m.whitelist).0 } in
      let (updated, file) = commit_remove_success yaml clock disk ip by m' (rw same at done) in
      let (whites, blacks) = commit_remove-lists yaml clock disk ip by m' in
      rw same (record {
        was_listed = listed;
        whitelist = whites;
        gone = rw whites (is_listed-remove_ip ip ip m.whitelist ∙ rw text_eq_refl);
        blacklist = blacks;
        reloads = λ later audit readings writes.
            rw file (Reloads-update m' updated later audit readings writes);
      })
