-- ===== src/Audit/Masking.antt =====
-- What `mask_ip` (internal/audit/logger.go) hides, and what it does not.
use aquatiq_root.Common.{
  ℕ, ◌≤◌, ◌<◌, Text, lit, is_empty, length, take, ◌≡◌, refl, false, [], ◌∷◌, ◌++◌, ltb, arith,
  ltb-of_lt, ap, sym, ◌∙◌, length-append, length-take, Bool-cases, inl, inr,
}
use aquatiq_root.Audit.{mask_ip}

is_empty-false : (s : Text) → 0 < length s → is_empty s ≡ false
is_empty-false [] h = elim h [ ]
is_empty-false (x ∷ s) h = refl

-- The mask of a long address: its first seven bytes.
pub mask_ip_long : (s : Text) → 7 < length s → mask_ip s ≡ take 7 s ++ lit ".xxx.xxx"
unfolding mask_ip
mask_ip_long s h = simp (is_empty-false s (omega arith), ltb-of_lt 7 (length s) h)

-- Two addresses of more than seven bytes that agree on the first seven have the same mask, so the
-- bytes after the seventh do not reach the log.
mask_ip_forgets :
    (head tail tail' : Text)
    → length head ≡ 7
    → 0 < length tail
    → 0 < length tail'
    → mask_ip (head ++ tail) ≡ mask_ip (head ++ tail')
mask_ip_forgets head tail tail' h p q =
    mask_ip_long (head ++ tail) (omega (arith, length-append head tail))
    ∙ ap (λ t. t ++ lit ".xxx.xxx") (same head 7 h)
    ∙ sym (mask_ip_long (head ++ tail') (omega (arith, length-append head tail')))
  where
    same : (head : Text) (n : ℕ) → length head ≡ n → take n (head ++ tail) ≡ take n (head ++ tail')
    same [] n e = rw (← e) refl
    same (x ∷ head) n e = rw (← e) (ap (λ t. x ∷ t) (same head (length head) refl))

-- A mask has at most fifteen bytes, whatever the address is.
length-mask_ip : (s : Text) → length (mask_ip s) ≤ 15
unfolding mask_ip lit
length-mask_ip s = elim (Bool-cases (is_empty s)) [
  | inl e ↦ rw e (omega arith)
  | inr e ↦ rw e (elim (Bool-cases (ltb 7 (length s))) [
    | inl long ↦ rw long (omega (arith, length-append (take 7 s) (lit ".xxx.xxx"), length-take 7 s))
    | inr short ↦ rw short (omega arith)
  ])
]

-- The comment of `maskIP` says that the first two octets of an IPv4 address are kept. Where the first
-- three octets have one digit, the mask shows all three and the first digit of the fourth.
mask_ip_shows_three_octets :
    (a b c d e : ℕ) (rest : Text)
    → mask_ip (a ∷ b'.' ∷ b ∷ b'.' ∷ c ∷ b'.' ∷ d ∷ e ∷ rest)
      ≡ a ∷ b'.' ∷ b ∷ b'.' ∷ c ∷ b'.' ∷ d ∷ lit ".xxx.xxx"
mask_ip_shows_three_octets a b c d e rest = mask_ip_long _ (omega arith)
