-- ===== src/Whitelist/Gone.antt =====
-- What CleanupExpired of internal/whitelist/manager.go counts, on the table of the whitelist.
use aquatiq_root.Common.{
  is_over, ℕ, ◌+◌, Text, text_eq, text_eq_iff, ◌≡◌, inl, inr, refl, sym, ap, ◌∙◌, none, List, [],
  ◌∷◌, if◌then◌else◌, length, arith, Bool-cases,
}
use aquatiq_root.Whitelist.Types.{IpEntry, is_listed}
use aquatiq_root.Whitelist.Listed.{IsListing}
use aquatiq_root.Whitelist.Expiry.{live}
use aquatiq_root.Whitelist.Table.{table, not_in}
use aquatiq_root.Whitelist.Abstract.{has, Distinct, is_gone, IsCount}

-- The addresses of the entries that are over.
abbrev dead : ℕ → List IpEntry → List Text
dead now [] = []
dead now (e ∷ es) = if is_over e.expires_at now then e.ip ∷ dead now es else dead now es

length-dead :
    (now : ℕ) (es : List IpEntry) → length (dead now es) + length (live now es) ≡ length es
length-dead now [] = refl
length-dead now (e ∷ es) = ground (arith, length-dead now es)

has-dead :
    (now : ℕ) (j : Text) (es : List IpEntry)
    → IsListing es
    → has j (dead now es) ≡ is_gone now (table es j)
has-dead now j [] l = refl
has-dead now j (e ∷ es) l = elim (Bool-cases (text_eq e.ip j)) [
  | inr other ↦ ground (arith, other, has-dead now j es l.2)
  | inl same ↦
      let out : table es j ≡ none =
        not_in j es (ap (λ x. is_listed x es) (sym ((text_eq_iff e.ip j).0 same)) ∙ l.0) in
      ground (arith, same, has-dead now j es l.2, out)
]

dead-Distinct : (now : ℕ) (es : List IpEntry) → IsListing es → Distinct (dead now es)
dead-Distinct now [] l = tt
dead-Distinct now (e ∷ es) l = elim (Bool-cases (is_over e.expires_at now)) [
  | inr fresh ↦ simp fresh (dead-Distinct now es l.2)
  | inl over ↦
      simp over
        (has-dead now e.ip es l.2 ∙ ap (is_gone now) (not_in e.ip es l.0), dead-Distinct now es l.2)
]

pub live-IsCount :
    (now n : ℕ) (es : List IpEntry)
    → IsListing es
    → n + length (live now es) ≡ length es
    → IsCount now (table es) n
live-IsCount now n es l h = record {
  gone = dead now es;
  distinct = dead-Distinct now es l;
  exact = λ j. has-dead now j es l;
  number = omega (arith, h, length-dead now es);
}
