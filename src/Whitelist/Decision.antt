-- ===== src/Whitelist/Decision.antt =====
-- What IsAllowed of internal/whitelist/manager.go decides.
use mathlib.Core.List.{Memᴰ}
use aquatiq_root.Common.{
  is_over, ℕ, suc, ◌≤◌, Text, ◌≡◌, refl, true, false, Option, none, some, List, [], ◌∷◌, arith,
  Bool-cases, Option-cases, inl, inr, ◌⊎◌, ◌↔◌,
}
use aquatiq_root.Net.{Ip, parse_ip}
use aquatiq_root.Whitelist.Types.{IpEntry, Manager, ip_matches, is_blacklisted}
use aquatiq_root.Whitelist.Traefik.{is_past}
use aquatiq_root.Whitelist.Operations.{is_whitelisted, is_allowed}

-- An entry that is not over at `now` and matches the address.
abbrev pub Covers : Ip → ℕ → List IpEntry → Type 0
Covers ip now es =
    (e : IpEntry) × Memᴰ e es × (is_over e.expires_at now ≡ false) × (ip_matches ip e.ip ≡ true)

-- No entry matches the address.
abbrev pub Avoids : Ip → List IpEntry → Type 0
Avoids ip es = (e : IpEntry) → Memᴰ e es → ip_matches ip e.ip ≡ false

abbrev pub Admissible : Text → ℕ → Manager → Type 0
Admissible address now m =
    (ip : Ip) × (parse_ip address ≡ some ip) × Avoids ip m.blacklist × Covers ip now m.whitelist

is_blacklisted-Avoids : (ip : Ip) (es : List IpEntry) → is_blacklisted ip es ≡ false → Avoids ip es
unfolding is_blacklisted
is_blacklisted-Avoids ip [] h e m = elim m [ ]
is_blacklisted-Avoids ip (x ∷ es) h e (Memᴰ.head p) = rw p (ground arith)
is_blacklisted-Avoids ip (x ∷ es) h e (Memᴰ.tail m) = is_blacklisted-Avoids ip es (ground arith) e m

Avoids-is_blacklisted : (ip : Ip) (es : List IpEntry) → Avoids ip es → is_blacklisted ip es ≡ false
unfolding is_blacklisted
Avoids-is_blacklisted ip [] h = refl
Avoids-is_blacklisted ip (x ∷ es) h =
    ground (arith, h x (Memᴰ.head refl), Avoids-is_blacklisted ip es (λ e m. h e (Memᴰ.tail m)))

Covers-tail :
    (ip : Ip) (now : ℕ) (x : IpEntry) (es : List IpEntry)
    → Covers ip now es
    → Covers ip now (x ∷ es)
Covers-tail ip now x es c = (c.0, Memᴰ.tail c.1, c.2, c.3)

module _ (clock : ℕ → ℕ) where
  -- The reading of one entry's test is not before `lo`, and neither is the next one.
  pub is_past-later :
      (lo : ℕ) (mono : (k : ℕ) → clock k ≤ clock (suc k)) (t : Option ℕ) (n : ℕ)
      → lo ≤ clock n
      → (lo ≤ clock (is_past clock t n).1)
        × ((is_over t lo ≡ false) ⊎ ((is_past clock t n).0 ≡ true))
  unfolding is_past
  is_past-later lo mono none n h = (h, inl refl)
  is_past-later lo mono (some t) n h = (omega (arith, mono n), ground (arith, mono n))

  pub whitelisted_sound :
      (lo : ℕ) (mono : (k : ℕ) → clock k ≤ clock (suc k)) (ip : Ip) (es : List IpEntry) (n : ℕ)
      → lo ≤ clock n
      → (is_whitelisted clock ip es n).0 ≡ true
      → Covers ip lo es
  unfolding is_whitelisted
  whitelisted_sound lo mono ip [] n b h = cc
  whitelisted_sound lo mono ip (e ∷ es) n b h =
      let (b', over) = is_past-later lo mono e.expires_at n b in
      let rest = whitelisted_sound lo mono ip es (is_past clock e.expires_at n).1 b' in
      elim (Bool-cases (is_past clock e.expires_at n).0) [
        | inl past ↦ Covers-tail ip lo e es (rest (ground arith))
        | inr live ↦ elim (Bool-cases (ip_matches ip e.ip)) [
          | inl hit ↦ (e, Memᴰ.head refl, elim over [ inl o ↦ o | inr p ↦ cc ], hit)
          | inr miss ↦ Covers-tail ip lo e es (rest (ground arith))
        ]
      ]

  -- With a clock that does not go back: an address is allowed only if it parses, no entry of the
  -- blacklist matches it, and an entry of the whitelist matches it that was not over when the call began.
  is_allowed_sound :
      (mono : (k : ℕ) → clock k ≤ clock (suc k)) (address : Text) (m : Manager)
      → (is_allowed clock address m).0 ≡ true
      → Admissible address (clock m.readings) m
  unfolding is_allowed
  is_allowed_sound mono address m h = elim (Option-cases (parse_ip address)) [
    | inl bad ↦ cc (rejects bad)
    | inr (ip, parsed) ↦
        let (black, white) = facts ip parsed in
        (
          ip,
          parsed,
          is_blacklisted-Avoids ip m.blacklist black,
          whitelisted_sound (clock m.readings) mono ip m.whitelist m.readings (omega arith) white,
        )
  ]
    where
      rejects : parse_ip address ≡ none → (is_allowed clock address m).0 ≡ false
      rejects bad = ground arith

      facts :
          (ip : Ip)
          → parse_ip address ≡ some ip
          → (is_blacklisted ip m.blacklist ≡ false)
            × ((is_whitelisted clock ip m.whitelist m.readings).0 ≡ true)
      facts ip parsed = ground arith

module _ (clock : ℕ → ℕ) (now : ℕ) (steady : (k : ℕ) → clock k ≡ now) where
  is_past-now : (t : Option ℕ) (n : ℕ) → (is_past clock t n).0 ≡ is_over t now
  unfolding is_past
  is_past-now none n = refl
  is_past-now (some t) n = rw steady

  whitelisted_complete :
      (ip : Ip) (es : List IpEntry) (n : ℕ) (e : IpEntry)
      → Memᴰ e es
      → is_over e.expires_at now ≡ false
      → ip_matches ip e.ip ≡ true
      → (is_whitelisted clock ip es n).0 ≡ true
  unfolding is_whitelisted
  whitelisted_complete ip [] n e m live hit = elim m [ ]
  whitelisted_complete ip (x ∷ es) n e (Memᴰ.head p) live hit =
      rw (← p) (ground (arith, is_past-now e.expires_at n))
  whitelisted_complete ip (x ∷ es) n e (Memᴰ.tail m) live hit =
      ground (arith, whitelisted_complete ip es (is_past clock x.expires_at n).1 e m live hit)

  is_allowed_complete :
      (address : Text) (m : Manager)
      → Admissible address now m
      → (is_allowed clock address m).0 ≡ true
  unfolding is_allowed
  is_allowed_complete address m (ip, parsed, avoids, (e, mem, live, hit)) = ground (
    arith,
    parsed,
    Avoids-is_blacklisted ip m.blacklist avoids,
    whitelisted_complete ip m.whitelist m.readings e mem live hit,
  )

  -- While the clock reads `now`, IsAllowed says yes exactly if the address parses, no entry of the
  -- blacklist matches it, and some entry of the whitelist that is not over matches it.
  pub is_allowed_iff :
      (address : Text) (m : Manager)
      → ((is_allowed clock address m).0 ≡ true) ↔ Admissible address now m
  is_allowed_iff address m = (
    (λ h. rw (steady m.readings) at (is_allowed_sound clock mono address m h)),
    is_allowed_complete address m,
  )
    where
      mono : (k : ℕ) → clock k ≤ clock (suc k)
      mono k = omega (arith, steady k, steady (suc k))
