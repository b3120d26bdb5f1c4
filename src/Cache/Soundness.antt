-- ===== src/Cache/Soundness.antt =====
-- What every step of internal/cache/query_cache.go keeps: nothing is stored that no query has given.
use mathlib.Core.Path.{subst}
use aquatiq_root.Common.{
  Text, text_eq_iff, ◌≡◌, ◌≤◌, inl, inr, refl, sym, ◌∙◌, ap, Bool, Option, none, some, List, [],
  ◌∷◌, ◌++◌, arith,
}
use aquatiq_root.Common.Int.{ℤ}
use aquatiq_root.Redis.{Client}
use aquatiq_root.Cache.Store.{Codec, set, stored}
use aquatiq_root.Cache.Query.{
  QueryCache, Outcome, generate_key, lookup_query, store_query, cache_wrapper, chosen_ttl,
}
use aquatiq_root.Cache.Changes.{
  key_of, Shrinks, lookup_query-Shrinks, invalidate-Shrinks, set_either_lem,
}
use aquatiq_root.Cache.Steps.{
  Write, System, Step, Reach, call, finish, clear, lapse, here, next, call_of, push_write,
  push_result,
}

module _ (redis : Client) (hex : Text → Text) {A : Type 0} (json : Codec A) (D E : Type 0)
    (is_nil : A → Bool) where
  open redis use {Server, value}

  -- A query with this key has given a result with this JSON.
  pub data Given (prefix key bytes : Text) : List (Text × A) → Type 0 where
    given :
        {r : Text × A} {rs : List (Text × A)}
        → key_of redis hex json prefix r.0 ≡ key
        → json.marshal r.1 ≡ some bytes
        → Given prefix key bytes (r ∷ rs)
    given_before :
        {r : Text × A} {rs : List (Text × A)}
        → Given prefix key bytes rs
        → Given prefix key bytes (r ∷ rs)

  -- A write that is left stores a result that its query has given.
  pub data Owed (w : Write redis hex json D E is_nil) : List (Text × A) → Type 0 where
    first : {r : Text × A} {rs : List (Text × A)} → r ≡ (w.query, w.result) → Owed w (r ∷ rs)
    later : {r : Text × A} {rs : List (Text × A)} → Owed w rs → Owed w (r ∷ rs)

  Owed-Given :
      (prefix key bytes : Text) (w : Write redis hex json D E is_nil) {rs : List (Text × A)}
      → Owed w rs
      → key_of redis hex json prefix w.query ≡ key
      → json.marshal w.result ≡ some bytes
      → Given prefix key bytes rs
  Owed-Given prefix key bytes w (first e) k m =
      given (ap (λ (r : Text × A). key_of redis hex json prefix r.0) e ∙ k)
        (ap (λ (r : Text × A). json.marshal r.1) e ∙ m)
  Owed-Given prefix key bytes w (later o) k m = given_before (Owed-Given prefix key bytes w o k m)

  abbrev pub AllOwed : List (Write redis hex json D E is_nil) → List (Text × A) → Type 0
  AllOwed [] rs = Unit
  AllOwed (w ∷ ws) rs = Owed w rs × AllOwed ws rs

  AllOwed-later :
      (ws : List (Write redis hex json D E is_nil)) (r : Text × A) (rs : List (Text × A))
      → AllOwed ws rs
      → AllOwed ws (r ∷ rs)
  AllOwed-later [] r rs h = tt
  AllOwed-later (w ∷ ws) r rs h = (later h.0, AllOwed-later ws r rs h.1)

  AllOwed-split :
      (before behind : List (Write redis hex json D E is_nil)) (w : Write redis hex json D E is_nil)
      (rs : List (Text × A))
      → AllOwed (before ++ w ∷ behind) rs
      → Owed w rs × AllOwed (before ++ behind) rs
  AllOwed-split [] behind w rs h = h
  AllOwed-split (v ∷ before) behind w rs h =
      let (o, rest) = AllOwed-split before behind w rs h.1 in (o, (h.0, rest))

  -- Every string of the server is the JSON of a result that a query with its key has given, and so
  -- is every write that is left.
  pub record IsSound (prefix : Text) (s : System redis hex json D E is_nil) : Type 0 where
    pub prefixed : s.cache.prefix ≡ prefix
    pub stored :
        (server : Server) (j bytes : Text)
        → s.cache.server ≡ some server
        → value server j ≡ some bytes
        → Given prefix j bytes s.results
    pub owed : AllOwed s.pending s.results

  Shrinks-IsSound :
      (prefix : Text) (s : System redis hex json D E is_nil) (qc : QueryCache redis)
      (t : System redis hex json D E is_nil)
      → Shrinks redis hex json s.cache qc
      → t.cache ≡ qc
      → ((key bytes : Text) → Given prefix key bytes s.results → Given prefix key bytes t.results)
      → AllOwed t.pending t.results
      → IsSound prefix s
      → IsSound prefix t
  Shrinks-IsSound prefix s qc t shrinks same more owed sound = record {
    prefixed = ap (λ (x : QueryCache redis). x.prefix) same ∙ shrinks.prefix ∙ sound.prefixed;
    stored = λ server j bytes h v.
        let (old, e, part) =
          shrinks.part server (ap (λ (x : QueryCache redis). x.server) (sym same) ∙ h) in
        elim (part j) [
          | inl kept ↦ more j bytes (sound.stored old j bytes e (sym kept ∙ v))
          | inr gone ↦ let no : 1 ≤ 0 = ground (arith, sym gone ∙ v) in elim no [ ]
        ];
    owed = owed;
  }

  store_query-stored :
      (prefix : Text) (s : System redis hex json D E is_nil) (w : Write redis hex json D E is_nil)
      (server : Option Server)
      → s.cache.server ≡ server
      → Owed w s.results
      → IsSound prefix s
      → let qc = (store_query redis hex json w.query w.result (w.ttl ∷ []) s.cache).1 in
        (qc.prefix ≡ prefix)
        × ((t : Server) (j bytes : Text)
            → qc.server ≡ some t
            → value t j ≡ some bytes
            → Given prefix j bytes s.results)
  unfolding store_query generate_key
  store_query-stored prefix s w none e owed sound = (
    ground (arith, e, sound.prefixed),
    λ t j bytes h v. let no : 1 ≤ 0 = ground (arith, e, h) in elim no [ ],
  )
  store_query-stored prefix s w (some old) e owed sound =
      let key = generate_key redis hex w.query s.cache in
      let ttl = chosen_ttl redis hex (w.ttl ∷ []) s.cache.default_ttl in
      (
        ground (arith, e, sound.prefixed),
        λ t j bytes h v.
            let same : (set redis json key w.result ttl old).1 ≡ t = ground (arith, e, h) in
            let read = ap (λ x. value x j) same ∙ v in
            elim (set_either_lem redis hex json key w.result ttl old j (json.marshal w.result)
              refl) [
                | inl kept ↦ sound.stored old j bytes e (sym kept ∙ read)
                | inr (written, m, k, put) ↦
                    let again : some written ≡ some bytes = sym put ∙ read in
                    Owed-Given prefix j bytes w owed
                      (ap (λ p. key_of redis hex json p w.query) (sym sound.prefixed)
                        ∙ (text_eq_iff key j).0 k)
                      (m ∙ again)
              ],
      )

  call_of-cache :
      (query : Text) (fn : D → Outcome A E × D) (s : System redis hex json D E is_nil)
      → (call_of redis hex json D E is_nil query fn s).2
        ≡ (lookup_query redis hex json query s.cache).1
  unfolding cache_wrapper
  call_of-cache query fn s = ground arith

  push-AllOwed :
      (query : Text) (ttl : ℤ) (o : Option A) (ws : List (Write redis hex json D E is_nil))
      (rs : List (Text × A))
      → AllOwed ws rs
      → AllOwed
          (push_write redis hex json D E is_nil query ttl o ws)
          (push_result redis hex json D E is_nil query o rs)
  push-AllOwed query ttl none ws rs h = h
  push-AllOwed query ttl (some a) ws rs h = (first refl, AllOwed-later ws (query, a) rs h)

  push-Given :
      (query : Text) (o : Option A) {prefix key bytes : Text} (rs : List (Text × A))
      → Given prefix key bytes rs
      → Given prefix key bytes (push_result redis hex json D E is_nil query o rs)
  push-Given query none rs g = g
  push-Given query (some a) rs g = given_before g

  Step-IsSound :
      (prefix : Text) {s t : System redis hex json D E is_nil}
      → Step redis hex json D E is_nil s t
      → IsSound prefix s
      → IsSound prefix t
  Step-IsSound prefix (call query fn ttl s) sound =
      let o = (call_of redis hex json D E is_nil query fn s).1 in
      Shrinks-IsSound prefix s _ _
        (lookup_query-Shrinks redis hex json query s.cache s.cache.server refl)
        (call_of-cache query fn s) (λ key bytes g. push-Given query o s.results g)
        (push-AllOwed query ttl o s.pending s.results sound.owed) sound
  Step-IsSound prefix (finish s before behind w e) sound =
      let (owed, rest) =
        AllOwed-split before behind w s.results (subst (λ ws. AllOwed ws s.results) e sound.owed) in
      let (same, stored) = store_query-stored prefix s w s.cache.server refl owed sound in
      record { prefixed = same; stored = stored; owed = rest }
  Step-IsSound prefix (clear query s) sound =
      Shrinks-IsSound prefix s _ _
        (invalidate-Shrinks redis hex json query s.cache s.cache.server refl) refl
        (λ key bytes g. g) sound.owed sound
  Step-IsSound prefix (lapse s old new e part) sound = record {
    prefixed = sound.prefixed;
    stored = λ server j bytes h v.
        let same : new ≡ server = ground (arith, h) in
        elim (part j) [
          | inl kept ↦ sound.stored old j bytes e (sym kept ∙ ap (λ x. value x j) same ∙ v)
          | inr gone ↦
              let no : 1 ≤ 0 = ground (arith, sym gone ∙ ap (λ x. value x j) same ∙ v) in
              elim no [ ]
        ];
    owed = sound.owed;
  }

  pub Reach-IsSound :
      (prefix : Text) {s t : System redis hex json D E is_nil}
      → Reach redis hex json D E is_nil s t
      → IsSound prefix s
      → IsSound prefix t
  Reach-IsSound prefix here sound = sound
  Reach-IsSound prefix (next r step) sound = Step-IsSound prefix step (Reach-IsSound prefix r sound)
