-- ===== src/Cache/Changes.antt =====
-- How the operations of internal/cache/query_cache.go change the strings of the server, and what a
-- hit has read.
use aquatiq_root.Common.{
  Text, lit, text_eq, ◌≡◌, ◌≤◌, ◌⊎◌, inl, inr, refl, sym, ◌∙◌, ap, true, Option, none, some, ◌++◌,
  arith,
}
use aquatiq_root.Common.Int.{ℤ}
use aquatiq_root.Redis.{Client}
use aquatiq_root.Cache.Store.{Codec, done, set, get, get_keeps, delete, stored, get-stored}
use aquatiq_root.Cache.Query.{QueryCache, generate_key, lookup_query, invalidate}

module _ (redis : Client) (hex : Text → Text) {A : Type 0} (json : Codec A) where
  open redis use {Server, value}

  -- Each string of a server is that of another, or gone.
  abbrev pub IsPart : Server → Server → Type 0
  IsPart t s = (j : Text) → (value t j ≡ value s j) ⊎ (value t j ≡ none)

  abbrev pub key_of : Text → Text → Text
  key_of prefix query = prefix ++ (lit ":" ++ hex query)

  -- A change of the cache that writes nothing.
  pub record Shrinks (old new : QueryCache redis) : Type 0 where
    pub prefix : new.prefix ≡ old.prefix
    pub part :
        (t : Server) → new.server ≡ some t → (s : Server) × (old.server ≡ some s) × IsPart t s

  pub lookup_query-Shrinks :
      (query : Text) (qc : QueryCache redis) (server : Option Server)
      → qc.server ≡ server
      → Shrinks qc (lookup_query redis hex json query qc).1
  unfolding lookup_query
  lookup_query-Shrinks query qc none e = record {
    prefix = ground (arith, e);
    part = λ t h. let no : 1 ≤ 0 = ground (arith, e, h) in elim no [ ];
  }
  lookup_query-Shrinks query qc (some s) e = record {
    prefix = ground (arith, e);
    part = λ t h.
        let same : (get redis json (generate_key redis hex query qc) s).1 ≡ t =
          ground (arith, e, h) in
        (
          s,
          e,
          λ j. inl (
              ap (λ x. value x j) (sym same)
              ∙ get_keeps redis json (generate_key redis hex query qc) j s),
        );
  }

  pub invalidate-Shrinks :
      (query : Text) (qc : QueryCache redis) (server : Option Server)
      → qc.server ≡ server
      → Shrinks qc (invalidate redis hex query qc).1
  unfolding invalidate delete
  invalidate-Shrinks query qc none e = record {
    prefix = ground (arith, e);
    part = λ t h. let no : 1 ≤ 0 = ground (arith, e, h) in elim no [ ];
  }
  invalidate-Shrinks query qc (some s) e = record {
    prefix = ground (arith, e);
    part = λ t h.
        let key = generate_key redis hex query qc in
        let same : (redis.del key s).1 ≡ t = ground (arith, e, h) in
        (
          s,
          e,
          λ j. elim (redis.del_either key j s) [
            | inl kept ↦ inl (ap (λ x. value x j) (sym same) ∙ kept)
            | inr gone ↦ inr (ap (λ x. value x j) (sym same) ∙ gone)
          ],
        );
  }

  -- A Set writes its value or nothing.
  pub set_either_lem :
      (key : Text) (v : A) (t : ℤ) (s : Server) (j : Text) (m : Option Text)
      → json.marshal v ≡ m
      → (value (set redis json key v t s).1 j ≡ value s j)
        ⊎ ((bytes : Text) × (json.marshal v ≡ some bytes)
            × (text_eq key j ≡ true)
            × (value (set redis json key v t s).1 j ≡ some bytes))
  unfolding set
  set_either_lem key v t s j none e = inl (ground (arith, e))
  set_either_lem key v t s j (some bytes) e = elim (redis.set_either key bytes j t s) [
    | inl kept ↦ inl (rw (e, set) kept)
    | inr (same, written) ↦ inr (bytes, e, same, rw (e, set) written)
  ]

  stored-done :
      (o : Option Text) (a : A)
      → stored redis json o ≡ done a
      → (bytes : Text) × (o ≡ some bytes) × (json.unmarshal bytes ≡ some a)
  stored-done none a h = cc h
  stored-done (some bytes) a h = (bytes, refl, ground (arith, h))

  -- What Get read is there.
  pub hit-stored :
      (query : Text) (qc : QueryCache redis) (a : A) (server : Option Server)
      → qc.server ≡ server
      → (lookup_query redis hex json query qc).0 ≡ done (some a)
      → (s : Server) × (bytes : Text) × (qc.server ≡ some s)
        × (value s (key_of qc.prefix query) ≡ some bytes)
        × (json.unmarshal bytes ≡ some a)
  unfolding lookup_query generate_key
  hit-stored query qc a none e h = let no : 1 ≤ 0 = ground (arith, e, h) in elim no [ ]
  hit-stored query qc a (some s) e h =
      let key = generate_key redis hex query qc in
      let read : (get redis json key s).0 ≡ done a = ground (arith, e, h) in
      elim (get-stored redis json key s) [
        | inl down ↦ let no : 1 ≤ 0 = ground (arith, down, read) in elim no [ ]
        | inr found ↦
            let (bytes, there, u) = stored-done (value s key) a (sym found ∙ read) in
            (s, bytes, e, there, u)
      ]
