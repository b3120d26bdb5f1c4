-- ===== src/Auth/Scopes.antt =====
-- The scopes of a key, and RequireScopes of internal/auth/apikey.go.
use mathlib.Core.List.{Memᴰ}
use aquatiq_root.Common.{
  ℕ, Text, lit, text_eq, text_eq_iff, ◌≡◌, refl, sym, ◌∙◌, Bool, true, false, ◌||◌, some, List, [],
  ◌∷◌, arith, Bool-cases, Option-cases, inl, inr, ◌⊎◌, ◌↔◌, All,
}
use aquatiq_root.Common.Assoc.{lookup, insert, lookup-insert, IsIteration}
use aquatiq_root.Http.{Request, Writer, Handler}
use aquatiq_root.Auth.{
  ApiKey, Keys, Authenticator, extract_api_key, scope_set, has, all_required, has_scopes,
  respond_forbidden, record_failure, require_scopes,
}
use aquatiq_root.Auth.Keys.{IsIndexed, validate_api_key-eq-lookup}

contains : Text → List Text → Bool
contains s [] = false
contains s (x ∷ xs) = text_eq x s || contains s xs

contains→Memᴰ : (s : Text) (xs : List Text) → contains s xs ≡ true → Memᴰ s xs
unfolding contains
contains→Memᴰ s [] h = cc
contains→Memᴰ s (x ∷ xs) h = elim (Bool-cases (text_eq x s)) [
  | inl e ↦ Memᴰ.head (sym ((text_eq_iff x s).0 e))
  | inr e ↦ Memᴰ.tail (contains→Memᴰ s xs (ground arith))
]

Memᴰ→contains : (s : Text) (xs : List Text) → Memᴰ s xs → contains s xs ≡ true
unfolding contains
Memᴰ→contains s [] m = elim m [ ]
Memᴰ→contains s (x ∷ xs) (Memᴰ.head e) = ground (arith, text_eq_iff x s)
Memᴰ→contains s (x ∷ xs) (Memᴰ.tail m) = ground (arith, Memᴰ→contains s xs m)

has-scope_set :
    (s : Text) (ss : List Text) (m : List (Text × Bool))
    → has s (scope_set ss m) ≡ (contains s ss || has s m)
unfolding scope_set contains
has-scope_set s [] m = refl
has-scope_set s (x ∷ ss) m =
    has-scope_set s ss (insert x true m) ∙ ground (arith, lookup-insert x s true m)

-- Every required scope is one of the key's.
abbrev pub Grants : ApiKey → List Text → Type 0
Grants k required = All (λ s. Memᴰ s k.scopes) required

has-key_scopes : (k : ApiKey) (s : Text) → has s (scope_set k.scopes []) ≡ contains s k.scopes
unfolding lookup
has-key_scopes k s = has-scope_set s k.scopes [] ∙ ground arith

-- The map that hasScopes builds and the loop over it find out exactly whether the key has every
-- required scope.
has_scopes_iff :
    (k : ApiKey) (required : List Text) → (has_scopes k required ≡ true) ↔ Grants k required
unfolding has_scopes all_required
has_scopes_iff k [] = ((λ _. tt), (λ _. refl))
has_scopes_iff k (s ∷ required) = (
  (λ h. (
    contains→Memᴰ s k.scopes (ground (arith, has-key_scopes k s)),
    (has_scopes_iff k required).0 (ground arith),
  )),
  (λ g.
      ground (
        arith,
        has-key_scopes k s,
        Memᴰ→contains s k.scopes g.0,
        (has_scopes_iff k required).1 g.1,
      )),
)

module _ (clock : ℕ → ℕ) (scopes : List Text) where
  -- The next handler is called, for a key of the map that grants the scopes.
  abbrev pub Passes : Keys → Request → Writer → Authenticator → Type 0
  Passes m r w a =
      (k : ApiKey) × (lookup (extract_api_key r) m ≡ some k)
      × Grants k scopes
      × ((next : Handler Authenticator) → require_scopes clock scopes next r w a ≡ next r w a)

  -- The answer is 403, and the next handler has no part in it.
  abbrev pub Forbids : Request → Writer → Authenticator → Type 0
  Forbids r w a =
      (w' : Writer) × (a' : Authenticator) × (w'.status ≡ 403)
      × ((next : Handler Authenticator) → require_scopes clock scopes next r w a ≡ (w', a'))

  status-forbidden :
      (message : Text) (w : Writer) → w.status ≡ 0 → (respond_forbidden message w).status ≡ 403
  unfolding respond_forbidden
  status-forbidden message w e = ground arith

  -- RequireScopes calls the next handler, whatever it is, for a key of the map that has every required
  -- scope, and answers 403 without it otherwise. `m` is the map, visited in any order.
  pub require_scopes_decides :
      (m : Keys) (r : Request) (w : Writer) (a : Authenticator)
      → IsIndexed m
      → IsIteration a.keys m
      → w.status ≡ 0
      → Passes m r w a ⊎ Forbids r w a
  unfolding require_scopes
  require_scopes_decides m r w a h it o =
      let found = validate_api_key-eq-lookup m a.keys (extract_api_key r) h it in
      elim (Option-cases (lookup (extract_api_key r) m)) [
        | inl e ↦ inr (
          respond_forbidden (lit "Access denied") w,
          a,
          status-forbidden _ w o,
          λ next. rw (found ∙ e, require_scopes),
        )
        | inr (k, e) ↦ elim (Bool-cases (has_scopes k scopes)) [
          | inl g ↦
              inl
                (k, e, (has_scopes_iff k scopes).0 g, λ next. rw (found ∙ e, require_scopes) (rw g))
          | inr g ↦ inr (
            respond_forbidden (lit "Insufficient permissions") w,
            record_failure clock r (lit "insufficient_scopes") a,
            status-forbidden _ w o,
            λ next. rw (found ∙ e, require_scopes) (rw g),
          )
        ]
      ]
