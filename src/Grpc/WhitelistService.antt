-- ===== src/Grpc/WhitelistService.antt =====
-- internal/grpc/whitelist_service.go: each method calls the manager and converts its answer. No method returns
-- an error of its own: a failure is an answer without success.
use aquatiq_root.Common.{
  ℕ, suc, Text, lit, ◌≡◌, ◌↔◌, ◌⊎◌, refl, Bool, true, false, not, Option, none, some, List, [], ◌∷◌,
  ◌++◌, if◌then◌else◌, is_over, arith, Bool-cases, inl, inr, ap, length,
}
use aquatiq_root.Common.Int.{decimal}
use aquatiq_root.Audit.{Logger, log_if_set}
use aquatiq_root.Whitelist.Types.{
  IpEntry, Manager, Error, WriteOutcome, Yaml, get_whitelist, get_blacklist,
}
use aquatiq_root.Whitelist.Operations.{
  add_to_blacklist, remove_from_blacklist, is_allowed, sweep, expired_event, add_to_whitelist,
  remove_from_whitelist, cleanup_expired,
}
pub mod Promise
pub mod Refinement
mod Tests

-- The IPEntry of the protocol.
pub record ProtoEntry : Type 0 where
  pub ip : Text
  pub description : Text
  pub added_at : ℕ
  pub added_by : Text
  pub expires_at : Option ℕ
  pub expired : Bool

-- A fixed text, or `err.Error()`.
pub data Message : Type 0 where
  said : Text → Message
  error_of : Error → Message

pub record Response : Type 0 where
  pub success : Bool
  pub message : Message
  pub entry : Option ProtoEntry

pub record IsAllowedResponse : Type 0 where
  pub allowed : Bool
  pub reason : Text

pub record CleanupExpiredResponse : Type 0 where
  pub whitelist_removed : ℕ
  pub blacklist_removed : ℕ
  pub message : Text

-- convertToProtoIPEntry, which reads the clock for an entry that expires.
unfoldable pub convert_to_proto_ip_entry : (ℕ → ℕ) → ℕ → IpEntry → ProtoEntry × ℕ
convert_to_proto_ip_entry clock n e = (
  record {
    ip = e.ip;
    description = e.description;
    added_at = e.added_at;
    added_by = e.added_by;
    expires_at = e.expires_at;
    expired = is_over e.expires_at (clock n);
  },
  elim e.expires_at [ none ↦ n | some _ ↦ suc n ],
)

-- The loops of GetWhitelist and GetBlacklist.
unfoldable pub convert_all : (ℕ → ℕ) → ℕ → List IpEntry → List ProtoEntry × ℕ
convert_all clock n [] = ([], n)
convert_all clock n (e ∷ es) =
    let (p, n') = convert_to_proto_ip_entry clock n e in
    let (ps, n'') = convert_all clock n' es in (p ∷ ps, n'')

abbrev failure : Error → Response
failure e = record { success = false; message = error_of e; entry = none }

abbrev added : ℕ → Text → Text → Text → Option ℕ → ProtoEntry
added now ip description added_by expires_at = record {
  ip = ip;
  description = description;
  added_at = now;
  added_by = added_by;
  expires_at = expires_at;
  expired = false;
}

module _ (yaml : Yaml) (clock : ℕ → ℕ) (disk : ℕ → WriteOutcome) where
  -- AddToWhitelist
  unfoldable pub serve_add_to_whitelist :
      Text → Text → Text → Option ℕ → Manager → Response × Manager
  serve_add_to_whitelist ip description added_by expiry m =
      let (err, m') = add_to_whitelist yaml clock disk ip description added_by expiry m in
      elim err [
        | some e ↦ (failure e, m')
        | none ↦ (
          record {
            success = true;
            message = said (lit "IP added to whitelist successfully");
            entry = some (added (clock m'.readings) ip description added_by expiry);
          },
          record m' { readings = suc m'.readings },
        )
      ]

  -- RemoveFromWhitelist
  unfoldable pub serve_remove_from_whitelist : Text → Manager → Response × Manager
  serve_remove_from_whitelist ip m =
      let (err, m') = remove_from_whitelist yaml clock disk ip (lit "grpc-api") m in
      elim err [
        | some e ↦ (failure e, m')
        | none ↦ (
          record {
            success = true;
            message = said (lit "IP removed from whitelist successfully");
            entry = none;
          },
          m',
        )
      ]

  -- AddToBlacklist
  unfoldable pub serve_add_to_blacklist : Text → Text → Text → Manager → Response × Manager
  serve_add_to_blacklist ip description added_by m =
      let (err, m') = add_to_blacklist clock ip description added_by m in
      elim err [
        | some e ↦ (failure e, m')
        | none ↦ (
          record {
            success = true;
            message = said (lit "IP added to blacklist successfully");
            entry = some (added (clock m'.readings) ip description added_by none);
          },
          record m' { readings = suc m'.readings },
        )
      ]

  -- RemoveFromBlacklist
  unfoldable pub serve_remove_from_blacklist : Text → Manager → Response × Manager
  serve_remove_from_blacklist ip m =
      let (err, m') = remove_from_blacklist clock ip (lit "grpc-api") m in
      elim err [
        | some e ↦ (failure e, m')
        | none ↦ (
          record {
            success = true;
            message = said (lit "IP removed from blacklist successfully");
            entry = none;
          },
          m',
        )
      ]

  -- GetWhitelist and GetBlacklist
  unfoldable pub serve_get_whitelist : Manager → List ProtoEntry × Manager
  serve_get_whitelist m =
      let (entries, n) = convert_all clock m.readings (get_whitelist m) in
      (entries, record m { readings = n })

  unfoldable pub serve_get_blacklist : Manager → List ProtoEntry × Manager
  serve_get_blacklist m =
      let (entries, n) = convert_all clock m.readings (get_blacklist m) in
      (entries, record m { readings = n })

  -- IsAllowed
  unfoldable pub serve_is_allowed : Text → Manager → IsAllowedResponse × Manager
  serve_is_allowed ip m =
      let (allowed, m') = is_allowed clock ip m in
      (
        record {
          allowed = allowed;
          reason = if not allowed then lit "IP not in whitelist or in blacklist" else [];
        },
        m',
      )

  -- CleanupExpired; the conversion to 32 bits keeps the count of a list in memory.
  unfoldable pub serve_cleanup_expired : Manager → CleanupExpiredResponse × Manager
  serve_cleanup_expired m =
      let (removed, m') = cleanup_expired yaml clock disk m in
      (
        record {
          whitelist_removed = removed;
          blacklist_removed = 0;
          message = lit "Removed " ++ (decimal removed ++ lit " expired entries");
        },
        m',
      )

-- The entries that are shown as live, as the service shows them.
abbrev pub live : List ProtoEntry → List Text
live [] = []
live (p ∷ ps) = if p.expired then live ps else p.ip ∷ live ps

abbrev pub ips : List IpEntry → List Text
ips [] = []
ips (e ∷ es) = e.ip ∷ ips es

-- While the clock stands still, the entries that GetWhitelist shows as not expired are, in their
-- order, those that CleanupExpired keeps.
pub convert_all-sweep :
    (now n : ℕ) (es : List IpEntry) (log : Logger)
    → live (convert_all (λ _. now) n es).0 ≡ ips (sweep now es log).0
unfolding convert_all convert_to_proto_ip_entry sweep
convert_all-sweep now n [] log = refl
convert_all-sweep now n (e ∷ es) log =
    let n' : ℕ = elim e.expires_at [ none ↦ n | some _ ↦ suc n ] in
    elim (Bool-cases (is_over e.expires_at now)) [
      | inl over ↦ simp over (convert_all-sweep now n' es (log_if_set (expired_event now e) log))
      | inr current ↦ simp current (ap (λ xs. e.ip ∷ xs) (convert_all-sweep now n' es log))
    ]
