-- ===== src/Audit/Shown.antt =====
-- What is seen of an address behind `maskIP` (internal/audit/logger.go).
use aquatiq_root.Common.{
  ℕ, zero, suc, ◌≤◌, ◌<◌, Text, lit, ◌≡◌, ◌⊎◌, inl, inr, refl, ap, true, false, Bool-cases, [], ◌∷◌,
  ◌++◌, is_empty, length, take, ltb, arith,
}
use aquatiq_root.Audit.{mask_ip}

-- What may be seen of an address: that there is none, or that there is one, of which nothing is seen where it has at
-- most seven bytes, and else its first seven.
abbrev pub Shows : Text → Text → Type 0
Shows ip s =
    ((ip ≡ []) × (s ≡ lit "unknown"))
    ⊎ (((1 ≤ length ip) × (length ip ≤ 7) × (s ≡ lit "masked"))
        ⊎ ((head : Text) × (tail : Text) × (ip ≡ head ++ tail)
            × (length head ≡ 7)
            × (1 ≤ length tail)
            × (s ≡ head ++ lit ".xxx.xxx")))

split_at :
    (n : ℕ) (ip : Text)
    → n < length ip
    → (tail : Text) × (ip ≡ take n ip ++ tail) × (length (take n ip) ≡ n) × (1 ≤ length tail)
split_at zero ip h = (ip, refl, refl, h)
split_at (suc n) [] h = elim h [ ]
split_at (suc n) (x ∷ ip) h =
    let (tail, same, size, more) = split_at n ip (omega (arith, h)) in
    (tail, ap (λ (t : Text). x ∷ t) same, ap suc size, more)

empty-nil : (ip : Text) → is_empty ip ≡ true → ip ≡ []
empty-nil [] h = refl
empty-nil (x ∷ ip) h = cc h

not_empty-length : (ip : Text) → is_empty ip ≡ false → 1 ≤ length ip
not_empty-length [] h = cc h
not_empty-length (x ∷ ip) h = omega arith

pub mask_ip-Shows : (ip : Text) → Shows ip (mask_ip ip)
unfolding mask_ip
mask_ip-Shows ip = elim (Bool-cases (is_empty ip)) [
  | inl blank ↦ inl (empty-nil ip blank, ground (arith, blank))
  | inr there ↦ elim (Bool-cases (ltb 7 (length ip))) [
    | inr short ↦
        inr (inl (not_empty-length ip there, ground (arith, short), ground (arith, there, short)))
    | inl long ↦
        let (tail, same, size, more) = split_at 7 ip (ground (arith, long)) in
        inr (inr (take 7 ip, tail, same, size, more, ground (arith, there, long)))
  ]
]
