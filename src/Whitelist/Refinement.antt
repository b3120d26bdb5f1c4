-- ===== src/Whitelist/Refinement.antt =====
-- The manager of internal/whitelist/manager.go refines its two tables.
use mathlib.Core.Path.{subst}
use aquatiq_root.Common.{
  ℕ, suc, ◌≤◌, Text, ◌≡◌, inl, inr, refl, sym, ap, ◌∙◌, Bool, true, false, some, List, [], ◌∷◌,
  arith, Bool-cases, Option-cases,
}
use aquatiq_root.Net.{Ip, parse_ip}
use aquatiq_root.Whitelist.Types.{WriteOutcome, Manager, is_blacklisted, Yaml}
use aquatiq_root.Whitelist.Operations.{
  add_to_whitelist, remove_from_whitelist, add_to_blacklist, remove_from_blacklist, is_whitelisted,
  is_allowed, cleanup_expired,
}
use aquatiq_root.Whitelist.Listed.{
  IsListing, IsWellFormed, Op, add_white, remove_white, add_black, remove_black, ask, cleanup, step,
  run,
}
use aquatiq_root.Whitelist.Invariant.{ask-SameLists, step-IsWellFormed}
use aquatiq_root.Whitelist.Decision.{whitelisted_sound}
use aquatiq_root.Whitelist.Expiry.{cleanup_expired-live}
use aquatiq_root.Whitelist.Table.{
  table, covers, table-live, none-matches, one-matches, Covers-table, none-covers,
}
use aquatiq_root.Whitelist.Abstract.{
  Answer, reported, allowed, counted, Called, Decides, Spec, Runs, done, next, lists,
}
use aquatiq_root.Whitelist.Edits.{table-of}
use aquatiq_root.Whitelist.Gone.{live-IsCount}
use aquatiq_root.Whitelist.Changes.{
  saving, add_white-WhiteAdded, remove_white-WhiteDropped, add_black-BlackAdded,
  remove_black-BlackDropped,
}

module _ (yaml : Yaml) (clock : ℕ → ℕ) (disk : ℕ → WriteOutcome) where
  unfoldable pub answer_of : Op → Manager → Answer
  answer_of (add_white ip d by t) m = reported (add_to_whitelist yaml clock disk ip d by t m).0
  answer_of (remove_white ip by) m = reported (remove_from_whitelist yaml clock disk ip by m).0
  answer_of (add_black ip d by) m = reported (add_to_blacklist clock ip d by m).0
  answer_of (remove_black ip by) m = reported (remove_from_blacklist clock ip by m).0
  answer_of (ask ip) m = allowed (is_allowed clock ip m).0
  answer_of cleanup m = counted (cleanup_expired yaml clock disk m).0

  -- The calls of the methods, one after the other.
  unfoldable pub calls : List Op → Manager → List Called
  calls [] m = []
  calls (o ∷ os) m =
      let m' = step yaml clock disk o m in
      record {
        op = o;
        answer = answer_of o m;
        saving = saving yaml clock disk m m';
        from = clock m.readings;
        to = clock m'.readings;
      }
      ∷ calls os m'

  abbrev pub Refines : Op → Manager → Type 0
  Refines o m =
      Spec (clock m.readings) (clock (step yaml clock disk o m).readings)
        (saving yaml clock disk m (step yaml clock disk o m)) o (answer_of o m) (lists m)
        (lists (step yaml clock disk o m))

  module _ (mono : (k : ℕ) → clock k ≤ clock (suc k)) where
    abbrev Decided : Text → Manager → Bool × Manager → Type 0
    Decided address m r = Decides (clock m.readings) (clock r.1.readings) address r.0 (lists m)

    searched :
        (address : Text) (ip : Ip) (m : Manager) (r : Bool × ℕ)
        → parse_ip address ≡ some ip
        → is_blacklisted ip m.blacklist ≡ false
        → IsListing m.whitelist
        → is_whitelisted clock ip m.whitelist m.readings ≡ r
        → Decided address m (r.0, record m { readings = r.1 })
    searched address ip m (true, n) parsed free l e = (
      ip,
      parsed,
      none-matches ip m.blacklist free,
      Covers-table ip (clock m.readings) m.whitelist l (
          whitelisted_sound clock (clock m.readings) mono ip m.whitelist m.readings (omega arith)
            (ap (λ r. r.0) e)),
    )
    searched address ip m (false, n) parsed free l e = inr (
      ip,
      parsed,
      inr (
          subst (λ (k : ℕ). (j : Text) → covers (clock k) ip j (table m.whitelist j) ≡ false)
            (ap (λ r. r.1) e) (none-covers clock mono ip m.whitelist m.readings (ap (λ r. r.0) e))),
    )

    ask-Decided :
        (address : Text) (m : Manager)
        → IsWellFormed m
        → Decided address m (is_allowed clock address m)
    unfolding is_allowed
    ask-Decided address m w = elim (Option-cases (parse_ip address)) [
      | inl bad ↦
          let is : is_allowed clock address m ≡ (false, m) = ground (arith, bad) in
          subst (Decided address m) (sym is) (inl bad)
      | inr (ip, parsed) ↦ elim (Bool-cases (is_blacklisted ip m.blacklist)) [
        | inl hit ↦
            let is : is_allowed clock address m ≡ (false, m) = ground (arith, parsed, hit) in
            subst (Decided address m) (sym is)
              (inr (ip, parsed, inl (one-matches ip m.blacklist hit)))
        | inr free ↦
            let r = is_whitelisted clock ip m.whitelist m.readings in
            let is : is_allowed clock address m ≡ (r.0, record m { readings = r.1 }) =
              ground (arith, parsed, free) in
            subst (Decided address m) (sym is) (searched address ip m r parsed free w.white refl)
      ]
    ]

    pub step-Refines : (o : Op) (m : Manager) → IsWellFormed m → Refines o m
    unfolding step answer_of
    step-Refines (add_white ip d by t) m w =
        let ((is, white), black) = add_white-WhiteAdded yaml clock disk ip d by t m in
        (is, white, black)
    step-Refines (remove_white ip by) m w =
        let ((is, white), black) = remove_white-WhiteDropped yaml clock disk ip by m in
        (is, white, black)
    step-Refines (add_black ip d by) m w =
        let (white, (is, black)) = add_black-BlackAdded yaml clock disk ip d by m in
        (is, white, black)
    step-Refines (remove_black ip by) m w =
        let (white, (is, black)) = remove_black-BlackDropped yaml clock disk ip by m in
        (is, white, black)
    step-Refines (ask address) m w =
        let (white, black) = ask-SameLists yaml clock disk address m in
        (ask-Decided address m w, table-of white, table-of black)
    step-Refines cleanup m w =
        let (white, count, black) = cleanup_expired-live yaml clock disk m in
        (
          live-IsCount (clock m.readings) _ m.whitelist w.white count,
          (λ j. table-of white j ∙ table-live (clock m.readings) j m.whitelist w.white),
          table-of black,
        )

    -- From lists in which each address stands once and is valid, and with a clock that does not go back, the manager
    -- refines two tables of addresses with their times of expiry: each call of any sequence answers and changes the
    -- lists as the tables say for what became of the file. A change of the whitelist reports success exactly where
    -- the write was done, an addition that is not written changes nothing, and a removal that is not written is
    -- kept; a clean-up leaves what is not over and answers how many places were; and IsAllowed says yes only to an
    -- address that is covered when the call starts and matched by no entry of the blacklist, and no only to one that
    -- does not parse, that is matched, or that is not covered when it ends.
    pub calls-Runs :
        (os : List Op) (m : Manager)
        → IsWellFormed m
        → Runs (calls os m) (lists m) (lists (run yaml clock disk os m))
    unfolding calls run
    calls-Runs [] m w = done
    calls-Runs (o ∷ os) m w =
        next (step-Refines o m w)
          (calls-Runs os (step yaml clock disk o m) (step-IsWellFormed yaml clock disk o m w))
