-- ===== src/Whitelist/Edits.antt =====
-- Additions to the lists of internal/whitelist/manager.go and removals, on their tables.
use aquatiq_root.Common.{
  ℕ, Text, ◌≡◌, refl, sym, ap, ◌∙◌, true, false, Option, none, some, List, [], ◌∷◌, ◌++◌,
}
use aquatiq_root.Whitelist.Types.{
  IpEntry, Error, invalid_ip, already_listed, not_listed, validate_ip_or_cidr, is_listed, remove_ip,
}
use aquatiq_root.Whitelist.Table.{Table, table, is_listed-table, table-append, table-remove_ip}
use aquatiq_root.Whitelist.Abstract.{put, saved_or, spec_add, spec_remove, Same}

-- The place of a list in the table, through an equation of lists.
pub table-of : {es es' : List IpEntry} → es ≡ es' → Same (table es) (table es')
table-of e j = ap (λ l. table l j) e

after_add :
    (saved : Option Error) (es : List IpEntry) (e : IpEntry)
    → is_listed e.ip es ≡ false
    → Same
        (table (elim saved as (λ _. List IpEntry) [ none ↦ es ++ e ∷ [] | some _ ↦ es ]))
        (saved_or saved (put e.ip e.expires_at (table es)) (table es)).1
after_add none es e new j = table-append j es e new
after_add (some x) es e new j = refl

saved-or : (saved : Option Error) (f g : Table) → saved ≡ (saved_or saved f g).0
saved-or none f g = refl
saved-or (some x) f g = refl

-- A result and a manager that are those of an addition or a removal, in one of the lists.
abbrev pub Added :
    Text → Option ℕ → Option Error → List IpEntry → Option Error → List IpEntry → Type 0
Added ip t saved es r es' =
    (r ≡ (spec_add ip t saved (table es)).0) × Same (table es') (spec_add ip t saved (table es)).1

abbrev pub Dropped : Text → Option Error → List IpEntry → Option Error → List IpEntry → Type 0
Dropped ip saved es r es' =
    (r ≡ (spec_remove ip saved (table es)).0) × Same (table es') (spec_remove ip saved (table es)).1

pub invalid-Added :
    (ip : Text) (t : Option ℕ) (saved : Option Error) (es : List IpEntry)
    → validate_ip_or_cidr ip ≡ false
    → Added ip t saved es (some invalid_ip) es
invalid-Added ip t saved es bad = simp bad (refl, λ j. refl)

pub listed-Added :
    (ip : Text) (t : Option ℕ) (saved : Option Error) (es : List IpEntry)
    → validate_ip_or_cidr ip ≡ true
    → is_listed ip es ≡ true
    → Added ip t saved es (some already_listed) es
listed-Added ip t saved es valid old =
    simp (valid, sym (is_listed-table ip es) ∙ old) (refl, λ j. refl)

pub new-Added :
    (e : IpEntry) (saved : Option Error) (es es' : List IpEntry)
    → validate_ip_or_cidr e.ip ≡ true
    → is_listed e.ip es ≡ false
    → es' ≡ (elim saved as (λ _. List IpEntry) [ none ↦ es ++ e ∷ [] | some _ ↦ es ])
    → Added e.ip e.expires_at saved es saved es'
new-Added e saved es es' valid new same =
    simp (valid, sym (is_listed-table e.ip es) ∙ new)
      (saved-or saved _ _, λ j. table-of same j ∙ after_add saved es e new j)

pub absent-Dropped :
    (ip : Text) (saved : Option Error) (es : List IpEntry)
    → is_listed ip es ≡ false
    → Dropped ip saved es (some not_listed) es
absent-Dropped ip saved es absent = simp (sym (is_listed-table ip es) ∙ absent) (refl, λ j. refl)

pub there-Dropped :
    (ip : Text) (saved : Option Error) (es es' : List IpEntry)
    → is_listed ip es ≡ true
    → es' ≡ (remove_ip ip es).0
    → Dropped ip saved es saved es'
there-Dropped ip saved es es' there same =
    simp (sym (is_listed-table ip es) ∙ there)
      (refl, λ j. table-of same j ∙ table-remove_ip ip j es)
