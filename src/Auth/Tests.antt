-- ===== src/Auth/Tests.antt =====
-- Runs of the API key authentication, and its theorems at concrete inputs.
use aquatiq_root.Common.{
  ℕ, Text, lit, text_eq, text_eq_iff, ◌≡◌, refl, true, false, none, some, [], ◌∷◌, if◌then◌else◌,
  ◌⊎◌, arith,
}
use aquatiq_root.Common.Assoc.{lookup, insert, delete, IsIteration}
use aquatiq_root.Http.{Request, fresh, Handler}
use aquatiq_root.Auth.{
  ApiKey, Keys, Authenticator, index_keys, new_api_key_authenticator, remove_key, extract_api_key,
  validate_api_key, get_ip_address, space_length, trim_from, trim_left, trim_right, before_comma,
  middleware, finish, is_expired, respond_unauthorized,
}
use aquatiq_root.Auth.Keys.{
  IsIndexed, add, remove, apply_changes, changes-IsIndexed, validate_api_key-eq-lookup,
  validate_api_key-remove_key,
}
use aquatiq_root.Auth.Verdict.{judge, answer, Admits, Blocks, middleware-answer, middleware_decides}
use aquatiq_root.Auth.Scopes.{Passes, Forbids, require_scopes_decides}

abbrev key_a : ApiKey
key_a = record {
  key = b'a' ∷ [];
  name = lit "billing";
  description = [];
  created_at = 1;
  expires_at = some 50;
  scopes = lit "read" ∷ lit "write" ∷ [];
  enabled = true;
}

abbrev key_b : ApiKey
key_b = record key_a { key = b'b' ∷ []; enabled = false }

abbrev one_key : Keys
one_key = (b'a' ∷ [], key_a) ∷ []

abbrev authenticator : Authenticator
authenticator = record { keys = one_key; audit = some []; readings = 0 }

abbrev with_key : Text → Request
with_key k = record {
  method = lit "GET";
  path = lit "/docker";
  header = λ _. k;
  query = λ _. [];
  remote_addr = lit "10.0.0.7:4000";
  actor = none;
  request_id = none;
}

abbrev clock_at : ℕ → ℕ → ℕ
clock_at t _ = t

abbrev pass : Handler Authenticator
pass r w a = (record w { status = 200 }, a)

accepts : (middleware (clock_at 40) pass (with_key (b'a' ∷ [])) fresh authenticator).0.status ≡ 200
unfolding middleware finish is_expired extract_api_key validate_api_key text_eq
accepts = refl

rejects_late :
    (middleware (clock_at 51) pass (with_key (b'a' ∷ [])) fresh authenticator).0.status ≡ 401
unfolding middleware finish is_expired extract_api_key validate_api_key text_eq respond_unauthorized
rejects_late = refl

first_forwarded : get_ip_address (with_key (lit " 1.2.3.4 , 5.6.7.8")) ≡ lit "1.2.3.4"
unfolding get_ip_address space_length trim_from trim_left trim_right before_comma lit
first_forwarded = refl

-- A thin space in front and a no-break space behind.
wide_spaces : trim_right (trim_left (226 ∷ 128 ∷ 137 ∷ 97 ∷ 194 ∷ 160 ∷ [])) ≡ 97 ∷ []
unfolding space_length trim_from trim_left trim_right
wide_spaces = refl

disabled_is_left_out : (new_api_key_authenticator (key_a ∷ key_b ∷ []) none).keys ≡ one_key
unfolding new_api_key_authenticator index_keys insert text_eq
disabled_is_left_out = refl

one_key-IsIndexed : IsIndexed one_key
unfolding lookup
one_key-IsIndexed = record { own = λ j k h. ground (arith, text_eq_iff (b'a' ∷ []) j) }

one_key-IsIteration : IsIteration one_key one_key
unfolding lookup
one_key-IsIteration = record { distinct = (refl, tt); same = λ k. refl }

changes-IsIndexed_example :
    IsIndexed
      (apply_changes
        (add key_b ∷ remove (b'a' ∷ []) ∷ [])
        (new_api_key_authenticator (key_a ∷ []) none)).keys
changes-IsIndexed_example =
    changes-IsIndexed (key_a ∷ []) none (add key_b ∷ remove (b'a' ∷ []) ∷ [])

validate_api_key-eq-lookup_example :
    validate_api_key one_key (b'a' ∷ []) ≡ lookup (b'a' ∷ []) one_key
validate_api_key-eq-lookup_example =
    validate_api_key-eq-lookup one_key one_key (b'a' ∷ []) one_key-IsIndexed one_key-IsIteration

after_removal-IsIteration : IsIteration [] (remove_key (b'a' ∷ []) authenticator).keys
unfolding remove_key delete text_eq lookup
after_removal-IsIteration = record { distinct = tt; same = λ k. refl }

validate_api_key-remove_key_example :
    validate_api_key [] (b'a' ∷ [])
    ≡ (if text_eq (b'a' ∷ []) (b'a' ∷ []) then none else validate_api_key one_key (b'a' ∷ []))
validate_api_key-remove_key_example =
    validate_api_key-remove_key authenticator one_key [] (b'a' ∷ []) (b'a' ∷ []) one_key-IsIndexed
      one_key-IsIteration after_removal-IsIteration

middleware-answer_example :
    middleware (clock_at 40) pass (with_key (b'a' ∷ [])) fresh authenticator
    ≡ answer
        (clock_at 40)
        (judge one_key 40 (extract_api_key (with_key (b'a' ∷ []))))
        pass
        (with_key (b'a' ∷ []))
        fresh
        authenticator
middleware-answer_example =
    middleware-answer (clock_at 40) one_key pass (with_key (b'a' ∷ [])) fresh authenticator
      one_key-IsIndexed one_key-IsIteration

middleware_decides_example :
    Admits (clock_at 40) one_key (with_key (b'a' ∷ [])) fresh authenticator
    ⊎ Blocks (clock_at 40) (with_key (b'a' ∷ [])) fresh authenticator
middleware_decides_example =
    middleware_decides (clock_at 40) one_key (with_key (b'a' ∷ [])) fresh authenticator
      one_key-IsIndexed one_key-IsIteration refl

require_scopes_decides_example :
    Passes (clock_at 0) (lit "read" ∷ []) one_key (with_key (b'a' ∷ [])) fresh authenticator
    ⊎ Forbids (clock_at 0) (lit "read" ∷ []) (with_key (b'a' ∷ [])) fresh authenticator
require_scopes_decides_example =
    require_scopes_decides (clock_at 0) (lit "read" ∷ []) one_key (with_key (b'a' ∷ [])) fresh
      authenticator one_key-IsIndexed one_key-IsIteration refl
