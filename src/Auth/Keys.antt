-- ===== src/Auth/Keys.antt =====
-- The key index of internal/auth/apikey.go: what the map holds, and that the answer of the loop over
-- it does not depend on the order of Go's iteration.
use aquatiq_root.Common.{
  Text, text_eq, text_eq_iff, text_eq_refl, ◌≡◌, refl, sym, ◌∙◌, ap, true, none, some, List, [],
  ◌∷◌, if◌then◌else◌, arith, Bool-cases, inl, inr,
}
use aquatiq_root.Common.Assoc.{
  lookup, insert, delete, lookup-insert, lookup-delete, Distinct, IsIteration,
}
use aquatiq_root.Audit.{Logger}
use aquatiq_root.Auth.{
  ApiKey, Keys, Authenticator, index_keys, new_api_key_authenticator, add_key, remove_key,
  validate_api_key,
}

-- Every key of the map is enabled and stands under its own value.
pub record IsIndexed (m : Keys) : Type 0 where
  pub own : (j : Text) (k : ApiKey) → lookup j m ≡ some k → (k.key ≡ j) × (k.enabled ≡ true)

empty-IsIndexed : IsIndexed []
unfolding lookup
empty-IsIndexed = record { own = λ j k h. cc }

insert-IsIndexed :
    (k : ApiKey) (m : Keys) → k.enabled ≡ true → IsIndexed m → IsIndexed (insert k.key k m)
insert-IsIndexed k m e h = record {
  own = λ j k' found.
      ground (arith, lookup-insert k.key j k m, text_eq_iff k.key j, h.own j k', found, e);
}

index_keys-IsIndexed : (ks : List ApiKey) (m : Keys) → IsIndexed m → IsIndexed (index_keys ks m)
unfolding index_keys
index_keys-IsIndexed [] m h = h
index_keys-IsIndexed (k ∷ ks) m h = elim (Bool-cases k.enabled) [
  | inl e ↦ simp e (index_keys-IsIndexed ks (insert k.key k m) (insert-IsIndexed k m e h))
  | inr e ↦ simp e (index_keys-IsIndexed ks m h)
]

-- The calls that change the map after it is built.
pub data Change : Type 0 where
  add : ApiKey → Change
  remove : Text → Change

unfoldable pub apply_changes : List Change → Authenticator → Authenticator
apply_changes [] a = a
apply_changes (add k ∷ cs) a = apply_changes cs (add_key k a)
apply_changes (remove k ∷ cs) a = apply_changes cs (remove_key k a)

apply_changes-IsIndexed :
    (cs : List Change) (a : Authenticator) → IsIndexed a.keys → IsIndexed (apply_changes cs a).keys
unfolding apply_changes add_key remove_key
apply_changes-IsIndexed [] a h = h
apply_changes-IsIndexed (add k ∷ cs) a h = elim (Bool-cases k.enabled) [
  | inl e ↦ simp e (
      apply_changes-IsIndexed cs (record a { keys = insert k.key k a.keys })
        (insert-IsIndexed k a.keys e h))
  | inr e ↦ simp e (apply_changes-IsIndexed cs a h)
]
apply_changes-IsIndexed (remove k ∷ cs) a h =
    apply_changes-IsIndexed cs (record a { keys = delete k a.keys })
      (record { own = λ j k' found. ground (arith, lookup-delete k j a.keys, h.own j k', found) })

-- Whatever keys the authenticator is created with, and whatever keys are added and removed later, in
-- any order, every key of its map is enabled and stands under its own value.
pub changes-IsIndexed :
    (ks : List ApiKey) (audit : Logger) (cs : List Change)
    → IsIndexed (apply_changes cs (new_api_key_authenticator ks audit)).keys
unfolding new_api_key_authenticator
changes-IsIndexed ks audit cs =
    apply_changes-IsIndexed cs _ (index_keys-IsIndexed ks [] empty-IsIndexed)

module _ (k : Text) where
  validate-Distinct :
      (order : Keys)
      → Distinct order
      → ((j : Text) (key : ApiKey) → lookup j order ≡ some key → key.key ≡ j)
      → validate_api_key order k ≡ lookup k order
  unfolding validate_api_key lookup
  validate-Distinct [] d h = refl
  validate-Distinct ((j, key) ∷ rest) d h = ground (
    arith,
    h j key,
    text_eq_refl j,
    text_eq_iff k key.key,
    text_eq_iff j k,
    validate-Distinct rest d.1 (λ i key' found. h i key' (tail_lookup i key' found)),
  )
    where
      tail_lookup :
          (i : Text) (key' : ApiKey)
          → lookup i rest ≡ some key'
          → (if text_eq j i then some key else lookup i rest) ≡ some key'
      tail_lookup i key' found = ground (arith, d.0, text_eq_iff j i, found)

-- In whatever order Go iterates over the map, the loop of validateAPIKey finds the key that the map
-- holds under the presented value, and none where it holds none.
pub validate_api_key-eq-lookup :
    (m order : Keys) (k : Text)
    → IsIndexed m
    → IsIteration order m
    → validate_api_key order k ≡ lookup k m
validate_api_key-eq-lookup m order k h it =
    validate-Distinct k order it.distinct (λ j key found. (h.own j key (sym (it.same j) ∙ found)).0)
    ∙ it.same k

-- After RemoveKey the value is not accepted any more, in any order of iteration, and every other value
-- is answered as before.
pub validate_api_key-remove_key :
    (a : Authenticator) (order order' : Keys) (removed k : Text)
    → IsIndexed a.keys
    → IsIteration order a.keys
    → IsIteration order' (remove_key removed a).keys
    → validate_api_key order' k ≡ (if text_eq removed k then none else validate_api_key order k)
unfolding remove_key apply_changes
validate_api_key-remove_key a order order' removed k h it it' =
    validate_api_key-eq-lookup (remove_key removed a).keys order' k
      (apply_changes-IsIndexed (remove removed ∷ []) a h) it'
    ∙ lookup-delete removed k a.keys
    ∙ ap (λ t. if text_eq removed k then none else t)
        (sym (validate_api_key-eq-lookup a.keys order k h it))
