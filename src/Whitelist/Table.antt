-- ===== src/Whitelist/Table.antt =====
-- The lists of internal/whitelist/manager.go as tables: for each address or range that is listed, its time of expiry.
use mathlib.Core.List.{Memᴰ}
use aquatiq_root.Common.{
  is_over, ℕ, suc, ◌≤◌, Text, text_eq, text_eq_iff, text_eq_refl, ◌≡◌, refl, sym, ◌∙◌, ap, Bool,
  true, false, not, ◌&&◌, Option, none, some, List, [], ◌∷◌, ◌++◌, if◌then◌else◌, arith, Bool-cases,
  inl, inr,
}
use aquatiq_root.Net.{Ip}
use aquatiq_root.Whitelist.Types.{IpEntry, ip_matches, is_listed, remove_ip, is_blacklisted}
use aquatiq_root.Whitelist.Traefik.{is_past}
use aquatiq_root.Whitelist.Operations.{is_whitelisted}
use aquatiq_root.Whitelist.Listed.{IsListing}
use aquatiq_root.Whitelist.Decision.{Covers, is_past-later}
use aquatiq_root.Whitelist.Expiry.{live}

abbrev pub Table : Type 0
Table = Text → Option (Option ℕ)

abbrev pub table : List IpEntry → Table
table [] j = none
table (e ∷ es) j = if text_eq e.ip j then some e.expires_at else table es j

abbrev pub is_in : Option (Option ℕ) → Bool
is_in none = false
is_in (some t) = true

-- A place of the table matches the address, and is not over at `now`.
abbrev pub matches : Ip → Text → Option (Option ℕ) → Bool
matches ip j none = false
matches ip j (some t) = ip_matches ip j

abbrev pub covers : ℕ → Ip → Text → Option (Option ℕ) → Bool
covers now ip j none = false
covers now ip j (some t) = not (is_over t now) && ip_matches ip j

-- What is left of a place at `now`.
abbrev pub left_at : ℕ → Option (Option ℕ) → Option (Option ℕ)
left_at now none = none
left_at now (some t) = if is_over t now then none else some t

pub is_listed-table : (j : Text) (es : List IpEntry) → is_listed j es ≡ is_in (table es j)
unfolding is_listed
is_listed-table j [] = refl
is_listed-table j (e ∷ es) = ground (arith, is_listed-table j es)

pub table-append :
    (j : Text) (es : List IpEntry) (e : IpEntry)
    → is_listed e.ip es ≡ false
    → table (es ++ e ∷ []) j ≡ (if text_eq e.ip j then some e.expires_at else table es j)
unfolding is_listed
table-append j [] e new = refl
table-append j (x ∷ es) e new =
    ground
      (arith, table-append j es e, text_eq_iff e.ip j, text_eq_iff x.ip j, text_eq_iff x.ip e.ip)

pub table-remove_ip :
    (ip j : Text) (es : List IpEntry)
    → table (remove_ip ip es).0 j ≡ (if text_eq ip j then none else table es j)
unfolding remove_ip
table-remove_ip ip j [] = ground arith
table-remove_ip ip j (e ∷ es) =
    ground
      (arith, table-remove_ip ip j es, text_eq_iff ip j, text_eq_iff e.ip ip, text_eq_iff e.ip j)

pub not_in : (j : Text) (es : List IpEntry) → is_listed j es ≡ false → table es j ≡ none
unfolding is_listed
not_in j [] h = refl
not_in j (e ∷ es) h = ground (arith, not_in j es)

pub table-live :
    (now : ℕ) (j : Text) (es : List IpEntry)
    → IsListing es
    → table (live now es) j ≡ left_at now (table es j)
table-live now j [] l = refl
table-live now j (e ∷ es) l = elim (Bool-cases (text_eq e.ip j)) [
  | inr other ↦ ground (arith, other, table-live now j es l.2)
  | inl same ↦
      let out : table es j ≡ none =
        not_in j es (ap (λ x. is_listed x es) (sym ((text_eq_iff e.ip j).0 same)) ∙ l.0) in
      ground (arith, same, table-live now j es l.2, out)
]

table-Mem :
    (e : IpEntry) (es : List IpEntry) → IsListing es → Memᴰ e es → table es e.ip ≡ some e.expires_at
table-Mem e [] l m = elim m [ ]
table-Mem e (x ∷ es) l (Memᴰ.head p) = rw (← p, text_eq_refl e.ip) refl
table-Mem e (x ∷ es) l (Memᴰ.tail m) = elim (Bool-cases (text_eq x.ip e.ip)) [
  | inr other ↦ ground (arith, other, table-Mem e es l.2 m)
  | inl same ↦
      let out : table es e.ip ≡ none =
        not_in e.ip es (ap (λ j. is_listed j es) (sym ((text_eq_iff x.ip e.ip).0 same)) ∙ l.0) in
      let no : 1 ≤ 0 = cc (out, table-Mem e es l.2 m) in elim no [ ]
]

-- Where IsAllowed finds no entry of the blacklist no place of its table matches, and else one does.
pub none-matches :
    (ip : Ip) (es : List IpEntry)
    → is_blacklisted ip es ≡ false
    → (j : Text) → matches ip j (table es j) ≡ false
unfolding is_blacklisted
none-matches ip [] h j = refl
none-matches ip (e ∷ es) h j =
    ground (arith, none-matches ip es (ground arith) j, text_eq_iff e.ip j)

matched :
    (ip : Ip) (j : Text) (o : Option (Option ℕ)) → matches ip j o ≡ true → ip_matches ip j ≡ true
matched ip j none h = cc
matched ip j (some t) h = h

pub one-matches :
    (ip : Ip) (es : List IpEntry)
    → is_blacklisted ip es ≡ true
    → (j : Text) × (matches ip j (table es j) ≡ true)
unfolding is_blacklisted
one-matches ip [] h = cc
one-matches ip (e ∷ es) h = elim (Bool-cases (ip_matches ip e.ip)) [
  | inl hit ↦ (e.ip, ground (arith, text_eq_refl e.ip, hit))
  | inr miss ↦
      let (j, found) = one-matches ip es (ground arith) in
      (j, ground (arith, found, matched ip j (table es j) found))
]

-- An entry that covers an address is a place of the table that does.
pub Covers-table :
    (ip : Ip) (now : ℕ) (es : List IpEntry)
    → IsListing es
    → Covers ip now es
    → (j : Text) × (covers now ip j (table es j) ≡ true)
Covers-table ip now es l (e, m, live, hit) =
    (e.ip, rw (table-Mem e es l m) (ground (arith, live, hit)))

module _ (clock : ℕ → ℕ) (mono : (k : ℕ) → clock k ≤ clock (suc k)) where
  -- The reading after the loop of IsAllowed is not before the one at its start.
  loop-later :
      (lo : ℕ) (ip : Ip) (es : List IpEntry) (n : ℕ)
      → lo ≤ clock n
      → lo ≤ clock (is_whitelisted clock ip es n).1
  unfolding is_whitelisted
  loop-later lo ip [] n h = h
  loop-later lo ip (e ∷ es) n h =
      let (next, _) = is_past-later clock lo mono e.expires_at n h in
      ground (arith, next, loop-later lo ip es (is_past clock e.expires_at n).1 next)

  past-over :
      (t : Option ℕ) (n hi : ℕ) → clock n ≤ hi → (is_past clock t n).0 ≡ true → is_over t hi ≡ true
  unfolding is_past
  past-over none n hi b h = cc
  past-over (some t) n hi b h = ground arith

  pub none-covers :
      (ip : Ip) (es : List IpEntry) (n : ℕ)
      → (is_whitelisted clock ip es n).0 ≡ false
      → (j : Text) → covers (clock (is_whitelisted clock ip es n).1) ip j (table es j) ≡ false
  unfolding is_whitelisted
  none-covers ip [] n h j = refl
  none-covers ip (e ∷ es) n h j =
      let next = (is_past clock e.expires_at n).1 in
      let rest = none-covers ip es next in
      let (soon, _) = is_past-later clock (clock n) mono e.expires_at n (omega arith) in
      let late = loop-later (clock n) ip es next soon in
      elim (Bool-cases (is_past clock e.expires_at n).0) [
        | inl past ↦
            let over =
              past-over e.expires_at n (clock (is_whitelisted clock ip es next).1) late past in
            simp past (ground (arith, over, rest (ground arith) j))
        | inr live ↦ elim (Bool-cases (ip_matches ip e.ip)) [
          | inl hit ↦ let no : 1 ≤ 0 = ground (arith, h, live, hit) in elim no [ ]
          | inr miss ↦
              simp (live, miss) (ground (arith, rest (ground arith) j, miss, text_eq_iff e.ip j))
        ]
      ]
