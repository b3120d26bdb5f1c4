-- ===== src/Whitelist/Abstract.antt =====
-- What internal/whitelist/manager.go promises, on two tables without order, file, log or authors.
use aquatiq_root.Common.{
  is_over, length, ℕ, ◌≤◌, Text, text_eq, ◌≡◌, ◌⊎◌, Bool, true, false, Option, none, some, List, [],
  ◌∷◌, if◌then◌else◌,
}
use aquatiq_root.Net.{Ip, parse_ip}
use aquatiq_root.Whitelist.Types.{
  WriteOutcome, written, refused, torn, Manager, Error, invalid_ip, already_listed, not_listed,
  marshal_failed, write_failed, validate_ip_or_cidr,
}
use aquatiq_root.Whitelist.Listed.{
  Op, add_white, remove_white, add_black, remove_black, ask, cleanup,
}
use aquatiq_root.Whitelist.Table.{Table, table, is_in, matches, covers, left_at}

-- Both lists, and what a call answers.
pub record Lists : Type 0 where
  pub white : Table
  pub black : Table

pub data Answer : Type 0 where
  reported : Option Error → Answer
  allowed : Bool → Answer
  counted : ℕ → Answer

-- What became of the file in a call: it was not written, or its one write had an outcome.
pub data Saving : Type 0 where
  unsaved : Saving
  attempted : WriteOutcome → Saving

-- A call with its answer, what became of the file, and the clock when it starts and after it.
pub record Called : Type 0 where
  pub op : Op
  pub answer : Answer
  pub saving : Saving
  pub from : ℕ
  pub to : ℕ

-- The error that a change of the whitelist has to report: where no write was attempted the configuration could not
-- be marshalled, and else only a write that was done has none.
abbrev pub error_of : Saving → Option Error
error_of unsaved = some marshal_failed
error_of (attempted written) = none
error_of (attempted refused) = some write_failed
error_of (attempted (torn part)) = some write_failed

abbrev pub put : Text → Option ℕ → Table → Table
put ip t f j = if text_eq ip j then some t else f j

abbrev pub drop : Text → Table → Table
drop ip f j = if text_eq ip j then none else f j

abbrev pub saved_or : Option Error → Table → Table → Option Error × Table
saved_or none f g = (none, f)
saved_or (some e) f g = (some e, g)

-- An addition and a removal, where `saved` is the error of saving the new list, if any. A failed addition
-- changes nothing, and a failed removal is kept.
abbrev pub spec_add : Text → Option ℕ → Option Error → Table → Option Error × Table
spec_add ip t saved f =
    if validate_ip_or_cidr ip
    then (if is_in (f ip) then (some already_listed, f) else saved_or saved (put ip t f) f)
    else (some invalid_ip, f)

abbrev pub spec_remove : Text → Option Error → Table → Option Error × Table
spec_remove ip saved f = if is_in (f ip) then (saved, drop ip f) else (some not_listed, f)

abbrev pub Same : Table → Table → Type 0
Same f g = (j : Text) → f j ≡ g j

-- IsAllowed: yes for an address that the blacklist does not match and that the whitelist covers at the start, no for
-- one that the blacklist matches or that the whitelist does not cover at the end.
abbrev pub Decides : ℕ → ℕ → Text → Bool → Lists → Type 0
Decides from to address true a =
    (ip : Ip) × (parse_ip address ≡ some ip)
    × ((j : Text) → matches ip j (a.black j) ≡ false)
    × ((j : Text) × (covers from ip j (a.white j) ≡ true))
Decides from to address false a =
    (parse_ip address ≡ none)
    ⊎ ((ip : Ip) × (parse_ip address ≡ some ip)
        × (((j : Text) × (matches ip j (a.black j) ≡ true))
            ⊎ ((j : Text) → covers to ip j (a.white j) ≡ false)))

-- A place that is over at `now`.
abbrev pub is_gone : ℕ → Option (Option ℕ) → Bool
is_gone now none = false
is_gone now (some t) = is_over t now

abbrev pub has : Text → List Text → Bool
has j [] = false
has j (x ∷ xs) = if text_eq x j then true else has j xs

abbrev pub Distinct : List Text → Type 0
Distinct [] = Unit
Distinct (x ∷ xs) = (has x xs ≡ false) × Distinct xs

-- The number of places of a table that are over at `now`.
pub record IsCount (now : ℕ) (f : Table) (n : ℕ) : Type 0 where
  pub gone : List Text
  pub distinct : Distinct gone
  pub exact : (j : Text) → has j gone ≡ is_gone now (f j)
  pub number : n ≡ length gone

-- What a call answers, and what it makes of the tables.
abbrev pub Spec : ℕ → ℕ → Saving → Op → Answer → Lists → Lists → Type 0
Spec from to s (add_white ip d by t) (reported r) a b =
    (r ≡ (spec_add ip t (error_of s) a.white).0)
    × Same b.white (spec_add ip t (error_of s) a.white).1
    × Same b.black a.black
Spec from to s (remove_white ip by) (reported r) a b =
    (r ≡ (spec_remove ip (error_of s) a.white).0)
    × Same b.white (spec_remove ip (error_of s) a.white).1
    × Same b.black a.black
Spec from to s (add_black ip d by) (reported r) a b =
    (r ≡ (spec_add ip none none a.black).0)
    × Same b.white a.white
    × Same b.black (spec_add ip none none a.black).1
Spec from to s (remove_black ip by) (reported r) a b =
    (r ≡ (spec_remove ip none a.black).0)
    × Same b.white a.white
    × Same b.black (spec_remove ip none a.black).1
Spec from to s (ask address) (allowed granted) a b =
    Decides from to address granted a × Same b.white a.white × Same b.black a.black
Spec from to s cleanup (counted n) a b =
    IsCount from a.white n × Same b.white (λ j. left_at from (a.white j)) × Same b.black a.black
Spec from to s _ _ a b = 1 ≤ 0

pub data Runs : List Called → Lists → Lists → Type 0 where
  done : {a : Lists} → Runs [] a a
  next :
      {c : Called} {cs : List Called} {a b d : Lists}
      → Spec c.from c.to c.saving c.op c.answer a b
      → Runs cs b d
      → Runs (c ∷ cs) a d

abbrev pub lists : Manager → Lists
lists m = record { white = table m.whitelist; black = table m.blacklist }
