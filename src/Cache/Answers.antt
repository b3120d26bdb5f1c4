-- ===== src/Cache/Answers.antt =====
-- Which values the query cache of internal/cache/query_cache.go returns.
use mathlib.Core.Path.{subst}
use aquatiq_root.Common.{
  Text, lit, text_eq_iff, ◌≡◌, ◌≤◌, refl, sym, ◌∙◌, ap, Bool, true, none, some, List, [], ◌∷◌,
  arith,
}
use aquatiq_root.Redis.{Client}
use aquatiq_root.Cache.Store.{Codec, done}
use aquatiq_root.Cache.Results.{text_eq-append}
use aquatiq_root.Cache.Query.{lookup_query}
use aquatiq_root.Cache.Changes.{key_of, hit-stored}
use aquatiq_root.Cache.Steps.{System, Reach}
use aquatiq_root.Cache.Soundness.{Given, given, given_before, AllOwed, IsSound, Reach-IsSound}

module _ (redis : Client) (hex : Text → Text) {A : Type 0} (json : Codec A) (D E : Type 0)
    (is_nil : A → Bool) where
  open redis use {Server, value}

  -- A query with the same hash has given this value.
  pub data Answered (query : Text) (a : A) : List (Text × A) → Type 0 where
    first :
        {r : Text × A} {rs : List (Text × A)}
        → hex r.0 ≡ hex query
        → r.1 ≡ a
        → Answered query a (r ∷ rs)
    later : {r : Text × A} {rs : List (Text × A)} → Answered query a rs → Answered query a (r ∷ rs)

  Given-Answered :
      (prefix query bytes : Text) (a : A) {rs : List (Text × A)}
      → ((v : A) → json.valid v ≡ true)
      → json.unmarshal bytes ≡ some a
      → Given redis hex json D E is_nil prefix (key_of redis hex json prefix query) bytes rs
      → Answered query a rs
  Given-Answered prefix query bytes a valid u (given {r} k m) =
      let same =
        sym (text_eq-append (lit ":") (hex r.0) (hex query))
        ∙ sym (text_eq-append prefix _ _)
        ∙ (text_eq_iff _ _).1 k in
      let kept = json.unmarshal-marshal r.1 bytes (valid r.1) m in
      first ((text_eq_iff (hex r.0) (hex query)).0 same) (ground (arith, kept, u))
  Given-Answered prefix query bytes a valid u (given_before g) =
      later (Given-Answered prefix query bytes a valid u g)

  -- Calls of CacheWrapper, the writes of their goroutines, calls of Invalidate and expiring keys
  -- may follow one another in any order: from an empty cache on, every value that Get returns is
  -- one that the database gave to a query with the same hash. This is for values that JSON keeps.
  pub hit-Answered :
      {s t : System redis hex json D E is_nil} (empty : Server) (query : Text) (a : A)
      → s.cache.server ≡ some empty
      → ((j : Text) → value empty j ≡ none)
      → s.pending ≡ []
      → ((v : A) → json.valid v ≡ true)
      → Reach redis hex json D E is_nil s t
      → (lookup_query redis hex json query t.cache).0 ≡ done (some a)
      → Answered query a t.results
  hit-Answered {s} {t} empty query a e none_stored idle valid r h =
      let start : IsSound redis hex json D E is_nil s.cache.prefix s = record {
        prefixed = refl;
        stored = λ server j bytes g v.
            let no : 1 ≤ 0 = ground (arith, e, g, v, none_stored j) in elim no [ ];
        owed = subst (λ ws. AllOwed redis hex json D E is_nil ws s.results) (sym idle) tt;
      } in
      let sound = Reach-IsSound redis hex json D E is_nil s.cache.prefix r start in
      let (server, bytes, there, v, u) =
        hit-stored redis hex json query t.cache a t.cache.server refl h in
      Given-Answered s.cache.prefix query bytes a valid u (
        sound.stored server (key_of redis hex json s.cache.prefix query) bytes there
          (ap (λ p. value server (key_of redis hex json p query)) (sym sound.prefixed) ∙ v))
