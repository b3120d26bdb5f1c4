-- ===== src/Grpc/WhitelistService/Refinement.antt =====
-- The service of internal/grpc/whitelist_service.go keeps its promise over any calls.
use mathlib.Core.Path.{subst}
use aquatiq_root.Common.{
  ◌==◌, ℕ, ◌≤◌, suc, Text, text_eq, ◌≡◌, refl, sym, ap, ap₂, Option, some, Option-cases, inl, inr,
  List, [], ◌∷◌, if◌then◌else◌, arith,
}
use aquatiq_root.Whitelist.Types.{
  IpEntry, WriteOutcome, Manager, Error, Yaml, get_whitelist, get_blacklist,
}
use aquatiq_root.Whitelist.Operations.{
  add_to_whitelist, remove_from_whitelist, add_to_blacklist, remove_from_blacklist,
}
use aquatiq_root.Whitelist.Table.{table}
use aquatiq_root.Whitelist.Listed.{IsListing, IsWellFormed, Op, step}
use aquatiq_root.Whitelist.Listed as Listed
use aquatiq_root.Whitelist.Invariant.{step-IsWellFormed}
use aquatiq_root.Whitelist.Abstract.{unsaved, attempted, Same, Spec, lists}
use aquatiq_root.Whitelist.Changes.{saving}
use aquatiq_root.Whitelist.Refinement.{answer_of, step-Refines}
use aquatiq_root.Grpc.WhitelistService.{
  Response, convert_to_proto_ip_entry, convert_all, serve_add_to_whitelist,
  serve_remove_from_whitelist, serve_add_to_blacklist, serve_remove_from_blacklist,
  serve_get_whitelist, serve_get_blacklist, serve_is_allowed, serve_cleanup_expired,
}
use aquatiq_root.Grpc.WhitelistService.Promise.{
  Request, add_white, remove_white, add_black, remove_black, get_white, get_black, cleanup, ask,
  Reply, responded, listed, decided, cleaned, Told, shown, grpc_api, Promised, Exchange, Serves,
  done, next,
}

convert_all-shown :
    (clock : ℕ → ℕ) (n : ℕ) (es : List IpEntry) → Same (shown (convert_all clock n es).0) (table es)
unfolding convert_all convert_to_proto_ip_entry
convert_all-shown clock n [] j = refl
convert_all-shown clock n (e ∷ es) j =
    ap (λ o. if text_eq e.ip j then some e.expires_at else o) (convert_all-shown clock _ es j)

-- The manager has the lists and the writes of another.
abbrev HasLists : Manager → Manager → Type 0
HasLists m m' = (m'.whitelist ≡ m.whitelist) × (m'.blacklist ≡ m.blacklist) × (m'.writes ≡ m.writes)

lists-of : (m m' : Manager) → HasLists m m' → lists m ≡ lists m'
lists-of m m' (w, b, _) = ap₂ (λ x y. record { white = table x; black = table y }) (sym w) (sym b)

module _ (yaml : Yaml) (clock : ℕ → ℕ) (disk : ℕ → WriteOutcome) where
  unfoldable pub serve : Request → Manager → Reply × Manager
  serve (add_white ip d by t) m =
      let (r, m') = serve_add_to_whitelist yaml clock disk ip d by t m in (responded r, m')
  serve (remove_white ip) m =
      let (r, m') = serve_remove_from_whitelist yaml clock disk ip m in (responded r, m')
  serve (add_black ip d by) m =
      let (r, m') = serve_add_to_blacklist yaml clock disk ip d by m in (responded r, m')
  serve (remove_black ip) m =
      let (r, m') = serve_remove_from_blacklist yaml clock disk ip m in (responded r, m')
  serve get_white m = let (ps, m') = serve_get_whitelist yaml clock disk m in (listed ps, m')
  serve get_black m = let (ps, m') = serve_get_blacklist yaml clock disk m in (listed ps, m')
  serve cleanup m = let (r, m') = serve_cleanup_expired yaml clock disk m in (cleaned r, m')
  serve (ask ip) m = let (r, m') = serve_is_allowed yaml clock disk ip m in (decided r, m')

  -- Calls of the service, one after the other.
  unfoldable pub serve_all : List Request → Manager → List Exchange × Manager
  serve_all [] m = ([], m)
  serve_all (q ∷ qs) m =
      let (reply, m') = serve q m in
      let (xs, m'') = serve_all qs m' in
      (
        record {
          request = q;
          reply = reply;
          saving = saving yaml clock disk m m';
          from = clock m.readings;
          to = clock m'.readings;
        }
            ∷ xs,
        m'',
      )

  -- A response and a manager that stand for the result and the manager of a method.
  abbrev StandsFor : Option Error × Manager → Response × Manager → Type 0
  StandsFor q r = Told q.0 r.0 × HasLists q.1 r.1

  add_white-StandsFor :
      (ip d by : Text) (t : Option ℕ) (m : Manager)
      → StandsFor
          (add_to_whitelist yaml clock disk ip d by t m)
          (serve_add_to_whitelist yaml clock disk ip d by t m)
  unfolding serve_add_to_whitelist
  add_white-StandsFor ip d by t m =
      elim (Option-cases (add_to_whitelist yaml clock disk ip d by t m).0) [
        | inl ok ↦
            rw ok (ground (arith, ok), (ground (arith, ok), ground (arith, ok), ground (arith, ok)))
        | inr (e, bad) ↦ rw bad (
          (ground (arith, bad), ground (arith, bad)),
          (ground (arith, bad), ground (arith, bad), ground (arith, bad)),
        )
      ]

  remove_white-StandsFor :
      (ip : Text) (m : Manager)
      → StandsFor
          (remove_from_whitelist yaml clock disk ip grpc_api m)
          (serve_remove_from_whitelist yaml clock disk ip m)
  unfolding serve_remove_from_whitelist
  remove_white-StandsFor ip m =
      elim (Option-cases (remove_from_whitelist yaml clock disk ip grpc_api m).0) [
        | inl ok ↦
            rw ok (ground (arith, ok), (ground (arith, ok), ground (arith, ok), ground (arith, ok)))
        | inr (e, bad) ↦ rw bad (
          (ground (arith, bad), ground (arith, bad)),
          (ground (arith, bad), ground (arith, bad), ground (arith, bad)),
        )
      ]

  add_black-StandsFor :
      (ip d by : Text) (m : Manager)
      → StandsFor
          (add_to_blacklist clock ip d by m)
          (serve_add_to_blacklist yaml clock disk ip d by m)
  unfolding serve_add_to_blacklist
  add_black-StandsFor ip d by m = elim (Option-cases (add_to_blacklist clock ip d by m).0) [
    | inl ok ↦
        rw ok (ground (arith, ok), (ground (arith, ok), ground (arith, ok), ground (arith, ok)))
    | inr (e, bad) ↦ rw bad (
      (ground (arith, bad), ground (arith, bad)),
      (ground (arith, bad), ground (arith, bad), ground (arith, bad)),
    )
  ]

  remove_black-StandsFor :
      (ip : Text) (m : Manager)
      → StandsFor
          (remove_from_blacklist clock ip grpc_api m)
          (serve_remove_from_blacklist yaml clock disk ip m)
  unfolding serve_remove_from_blacklist
  remove_black-StandsFor ip m = elim (Option-cases (remove_from_blacklist clock ip grpc_api m).0) [
    | inl ok ↦
        rw ok (ground (arith, ok), (ground (arith, ok), ground (arith, ok), ground (arith, ok)))
    | inr (e, bad) ↦ rw bad (
      (ground (arith, bad), ground (arith, bad)),
      (ground (arith, bad), ground (arith, bad), ground (arith, bad)),
    )
  ]

  has-IsWellFormed : (m m' : Manager) → HasLists m m' → IsWellFormed m → IsWellFormed m'
  has-IsWellFormed m m' (w, b, _) h = record {
    white = subst IsListing (sym w) h.white;
    black = subst IsListing (sym b) h.black;
  }

  module _ (mono : (k : ℕ) → clock k ≤ clock (suc k)) where
    abbrev IsKept : Request → Manager → Type 0
    IsKept q m =
        Promised (clock m.readings) (clock (serve q m).1.readings)
          (saving yaml clock disk m (serve q m).1) q (serve q m).0 (lists m) (lists (serve q m).1)
        × IsWellFormed (serve q m).1

    -- A method of the manager behind a call of the service.
    behind :
        (o : Op) (m m' : Manager)
        → IsWellFormed m
        → HasLists (step yaml clock disk o m) m'
        → Spec
            (clock m.readings)
            (clock (step yaml clock disk o m).readings)
            (saving yaml clock disk m m')
            o
            (answer_of yaml clock disk o m)
            (lists m)
            (lists m')
          × IsWellFormed m'
    behind o m m' w same =
        let after = step yaml clock disk o m in
        let answer = answer_of yaml clock disk o m in
        (
          subst
              (λ (k : ℕ).
                Spec (clock m.readings) (clock after.readings)
                  (if k == m.writes then unsaved else attempted (disk m.writes)) o answer (lists m)
                  (lists m'))
              (sym same.2)
              (subst
                (λ l.
                  Spec (clock m.readings) (clock after.readings) (saving yaml clock disk m after) o
                    answer (lists m) l)
                (lists-of after m' same) (step-Refines yaml clock disk mono o m w)),
          has-IsWellFormed after m' same (step-IsWellFormed yaml clock disk o m w),
        )

    serve-IsKept : (q : Request) (m : Manager) → IsWellFormed m → IsKept q m
    unfolding serve step answer_of serve_get_whitelist serve_get_blacklist serve_is_allowed
        serve_cleanup_expired get_whitelist get_blacklist
    serve-IsKept (add_white ip d by t) m w =
        let (told, same) = add_white-StandsFor ip d by t m in
        let ((is, white, black), formed) = behind (Listed.add_white ip d by t) m _ w same in
        (
          (
            subst (λ x. Told x (serve_add_to_whitelist yaml clock disk ip d by t m).0) is told,
            white,
            black,
          ),
          formed,
        )
    serve-IsKept (remove_white ip) m w =
        let (told, same) = remove_white-StandsFor ip m in
        let ((is, white, black), formed) = behind (Listed.remove_white ip grpc_api) m _ w same in
        (
          (
            subst (λ x. Told x (serve_remove_from_whitelist yaml clock disk ip m).0) is told,
            white,
            black,
          ),
          formed,
        )
    serve-IsKept (add_black ip d by) m w =
        let (told, same) = add_black-StandsFor ip d by m in
        let ((is, white, black), formed) = behind (Listed.add_black ip d by) m _ w same in
        (
          (
            subst (λ x. Told x (serve_add_to_blacklist yaml clock disk ip d by m).0) is told,
            white,
            black,
          ),
          formed,
        )
    serve-IsKept (remove_black ip) m w =
        let (told, same) = remove_black-StandsFor ip m in
        let ((is, white, black), formed) = behind (Listed.remove_black ip grpc_api) m _ w same in
        (
          (
            subst (λ x. Told x (serve_remove_from_blacklist yaml clock disk ip m).0) is told,
            white,
            black,
          ),
          formed,
        )
    serve-IsKept get_white m w = (
      (convert_all-shown clock m.readings m.whitelist, ((λ j. refl), (λ j. refl))),
      has-IsWellFormed m _ (refl, refl, refl) w,
    )
    serve-IsKept get_black m w = (
      (convert_all-shown clock m.readings m.blacklist, ((λ j. refl), (λ j. refl))),
      has-IsWellFormed m _ (refl, refl, refl) w,
    )
    serve-IsKept (ask ip) m w =
        let ((granted, white, black), formed) = behind (Listed.ask ip) m _ w (refl, refl, refl) in
        ((granted, (white, black)), formed)
    serve-IsKept cleanup m w =
        let ((count, white, black), formed) = behind Listed.cleanup m _ w (refl, refl, refl) in
        ((count, refl, white, black), formed)

    -- From lists in which each address stands once and is valid, and with a clock that does not go back, the service
    -- keeps, over any sequence of its calls, the promise of two tables of addresses with their times of expiry: a
    -- change of the whitelist is answered with success exactly where it is allowed and its write was done, and else
    -- with the error; the lists that are shown are the tables; and what is added, removed, allowed, cleaned up and
    -- counted is what the tables say.
    pub serve_all-Serves :
        (qs : List Request) (m : Manager)
        → IsWellFormed m
        → Serves (serve_all qs m).0 (lists m) (lists (serve_all qs m).1)
    unfolding serve_all
    serve_all-Serves [] m w = done
    serve_all-Serves (q ∷ qs) m w =
        let (promised, formed) = serve-IsKept q m w in
        next promised (serve_all-Serves qs (serve q m).1 formed)
