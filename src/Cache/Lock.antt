-- ===== src/Cache/Lock.antt =====
-- The SetNX of internal/cache/redis.go as a lock.
use aquatiq_root.Common.{
  Text, text_eq, ◌≡◌, ◌≤◌, ◌⊎◌, inl, inr, refl, ap, ◌∙◌, Bool, true, false, none, some, List, [],
  ◌∷◌, Option-cases, arith,
}
use aquatiq_root.Common.Int.{ℤ}
use aquatiq_root.Redis.{Client, Reply, ok, err}
use aquatiq_root.Cache.Store.{Codec, Result, done, fail, result, set, set_nx, delete}

module _ (redis : Client) {A : Type 0} (json : Codec A) where
  open redis use {Server, value}
  open json use {marshal}

  -- An attempt on the key with a value and a time, or a command on another key.
  pub data Command : Type 0 where
    attempt : A → ℤ → Command
    write : Text → A → ℤ → Command
    remove : Text → Command

  abbrev pub IsElsewhere : Text → Command → Type 0
  IsElsewhere key (attempt a t) = Unit
  IsElsewhere key (write j a t) = text_eq j key ≡ false
  IsElsewhere key (remove j) = text_eq j key ≡ false

  abbrev pub AllElsewhere : Text → List Command → Type 0
  AllElsewhere key [] = Unit
  AllElsewhere key (c ∷ cs) = IsElsewhere key c × AllElsewhere key cs

  abbrev pub winner : A → Result Bool → List A → List A
  winner a (done true) vs = a ∷ vs
  winner a (done false) vs = vs
  winner a (fail e) vs = vs

  -- The values of the attempts that SetNX answers with true, and the server, after the commands.
  unfoldable pub contend : Text → List Command → Server → List A × Server
  contend key [] s = ([], s)
  contend key (attempt a t ∷ cs) s =
      let (answer, s') = set_nx redis json key a t s in
      let (vs, end) = contend key cs s' in (winner a answer vs, end)
  contend key (write j a t ∷ cs) s = contend key cs (set redis json j a t s).1
  contend key (remove j ∷ cs) s = contend key cs (delete redis j s).1

  set-elsewhere :
      (key j : Text) (a : A) (t : ℤ) (s : Server)
      → text_eq j key ≡ false
      → value (set redis json j a t s).1 key ≡ value s key
  unfolding set
  set-elsewhere key j a t s h = elim (Option-cases (marshal a)) [
    | inl e ↦ ground (arith, e)
    | inr (bytes, e) ↦ elim (redis.set_either j bytes key t s) [
      | inl kept ↦ ground (arith, e, kept)
      | inr (same, put) ↦ cc (h, same)
    ]
  ]

  delete-elsewhere :
      (key j : Text) (s : Server)
      → text_eq j key ≡ false
      → value (delete redis j s).1 key ≡ value s key
  unfolding delete
  delete-elsewhere key j s h = redis.del_other j key s h

  result-true : (r : Reply Bool) → result r ≡ done true → r ≡ ok true
  result-true (ok b) h = cc h
  result-true (err e) h = cc h

  set_nx-true :
      (key : Text) (a : A) (t : ℤ) (s : Server)
      → (set_nx redis json key a t s).0 ≡ done true
      → (value s key ≡ none)
        × ((bytes : Text) × (marshal a ≡ some bytes)
            × (value (set_nx redis json key a t s).1 key ≡ some bytes))
  unfolding set_nx
  set_nx-true key a t s h = elim (Option-cases (marshal a)) [
    | inl e ↦ ground (arith, e, h)
    | inr (bytes, e) ↦
        let (free, put) =
          redis.set_nx_true key bytes t s
            (result-true (redis.set_nx key bytes t s).0 (ground (arith, e, h))) in
        (free, (bytes, e, ground (arith, e, put)))
  ]

  -- A held key keeps its value.
  set_nx-held :
      (key : Text) (a : A) (t : ℤ) (s : Server) (bytes : Text)
      → value s key ≡ some bytes
      → value (set_nx redis json key a t s).1 key ≡ some bytes
  unfolding set_nx
  set_nx-held key a t s bytes held = elim (Option-cases (marshal a)) [
    | inl e ↦ ground (arith, e, held)
    | inr (b, e) ↦ elim (redis.set_nx_either key b key t s) [
      | inl kept ↦ ground (arith, e, kept, held)
      | inr (same, free, put) ↦ cc (free, held)
    ]
  ]

  answer-cases : (r : Result Bool) → (r ≡ done true) ⊎ ((a : A) (vs : List A) → winner a r vs ≡ vs)
  answer-cases (done true) = inl refl
  answer-cases (done false) = inr (λ a vs. refl)
  answer-cases (fail e) = inr (λ a vs. refl)

  -- While the key is held, no attempt wins, and the key keeps its value.
  contend-held :
      (key : Text) (cs : List Command) (s : Server) (bytes : Text)
      → AllElsewhere key cs
      → value s key ≡ some bytes
      → ((contend key cs s).0 ≡ []) × (value (contend key cs s).1 key ≡ some bytes)
  unfolding contend
  contend-held key [] s bytes away held = (refl, held)
  contend-held key (write j a t ∷ cs) s bytes away held =
      contend-held key cs (set redis json j a t s).1 bytes away.1
        (set-elsewhere key j a t s away.0 ∙ held)
  contend-held key (remove j ∷ cs) s bytes away held =
      contend-held key cs (delete redis j s).1 bytes away.1 (delete-elsewhere key j s away.0 ∙ held)
  contend-held key (attempt a t ∷ cs) s bytes away held =
      let (lost, kept) =
        contend-held key cs (set_nx redis json key a t s).1 bytes away.1
          (set_nx-held key a t s bytes held) in
      elim (answer-cases (set_nx redis json key a t s).0) [
        | inl won ↦ let no : 1 ≤ 0 = cc ((set_nx-true key a t s won).0, held) in elim no [ ]
        | inr no_win ↦ (no_win a (contend key cs (set_nx redis json key a t s).1).0 ∙ lost, kept)
      ]

  -- Of any attempts to take a lock by SetNX on one key at most one succeeds, and then the key holds its value;
  -- commands on other keys may stand between them. The key is not deleted and does not expire meanwhile.
  pub lock_exclusive :
      (key : Text) (cs : List Command) (s : Server)
      → AllElsewhere key cs
      → ((contend key cs s).0 ≡ [])
        ⊎ ((a : A) × (bytes : Text) × ((contend key cs s).0 ≡ a ∷ [])
            × (marshal a ≡ some bytes)
            × (value (contend key cs s).1 key ≡ some bytes))
  unfolding contend
  lock_exclusive key [] s away = inl refl
  lock_exclusive key (write j a t ∷ cs) s away =
      lock_exclusive key cs (set redis json j a t s).1 away.1
  lock_exclusive key (remove j ∷ cs) s away = lock_exclusive key cs (delete redis j s).1 away.1
  lock_exclusive key (attempt a t ∷ cs) s away =
      elim (answer-cases (set_nx redis json key a t s).0) [
        | inl won ↦
            let (_, (bytes, m, put)) = set_nx-true key a t s won in
            let (lost, kept) =
              contend-held key cs (set_nx redis json key a t s).1 bytes away.1 put in
            inr (
              a,
              bytes,
              ap (λ r. winner a r (contend key cs (set_nx redis json key a t s).1).0) won
                  ∙ ap (λ vs. a ∷ vs) lost,
              m,
              kept,
            )
        | inr no_win ↦
            let same = no_win a (contend key cs (set_nx redis json key a t s).1).0 in
            elim (lock_exclusive key cs (set_nx redis json key a t s).1 away.1) [
              | inl nobody ↦ inl (same ∙ nobody)
              | inr (b, bytes, one, m, held) ↦ inr (b, bytes, same ∙ one, m, held)
            ]
      ]
