-- ===== src/Whitelist/Types.antt =====
-- The types of internal/whitelist/manager.go and its operations that touch neither clock nor file.
use aquatiq_root.Common.{
  ℕ, Text, lit, text_eq, ◌≡◌, Bool, true, false, not, Option, none, some, List, [], ◌∷◌, ◌++◌,
  if◌then◌else◌, ◌==◌,
}
use aquatiq_root.Net.{Ip, parse_ip, parse_cidr, contains}
use aquatiq_root.Audit.{Logger}

pub record IpEntry : Type 0 where
  pub ip : Text
  pub description : Text
  pub added_at : ℕ
  pub added_by : Text
  pub expires_at : Option ℕ

-- The middlewares by name, each with its source range.
abbrev pub TraefikDynamicConfig : Type 0
TraefikDynamicConfig = List (Text × List Text)

-- The configuration file: not there, there and not readable, or its text.
pub data File : Type 0 where
  missing unreadable : File
  holds : Text → File

-- What becomes of a write: done, refused with the file as it was, or broken off with a part written.
pub data WriteOutcome : Type 0 where
  written refused : WriteOutcome
  torn : Text → WriteOutcome

-- The manager, with the file, how often the clock was read and how often the file was written.
pub record Manager : Type 0 where
  pub whitelist : List IpEntry
  pub blacklist : List IpEntry
  pub audit : Logger
  pub file : File
  pub readings : ℕ
  pub writes : ℕ

pub data Error : Type 0 where
  invalid_ip already_listed not_listed : Error
  read_failed parse_failed marshal_failed write_failed : Error

abbrev pub middleware_name : Text
middleware_name = lit "dynamic-ipwhitelist"

-- validateIPOrCIDR
unfoldable pub validate_ip_or_cidr : Text → Bool
validate_ip_or_cidr s = elim (parse_cidr s) [
  | some _ ↦ true
  | none ↦ elim (parse_ip s) [ some _ ↦ true | none ↦ false ]
]

-- ipMatches; on the sixteen bytes that ParseIP returns `ip.Equal` is the equality of the addresses.
unfoldable pub ip_matches : Ip → Text → Bool
ip_matches ip pattern = elim (parse_cidr pattern) [
  | some n ↦ contains n ip
  | none ↦ elim (parse_ip pattern) [ some p ↦ ip == p | none ↦ false ]
]

-- The loops of AddToWhitelist and AddToBlacklist that look for the entry.
unfoldable pub is_listed : Text → List IpEntry → Bool
is_listed ip [] = false
is_listed ip (e ∷ es) = if text_eq e.ip ip then true else is_listed ip es

-- The loops of RemoveFromWhitelist and RemoveFromBlacklist: the entries kept, and `found`.
unfoldable pub remove_ip : Text → List IpEntry → List IpEntry × Bool
remove_ip ip [] = ([], false)
remove_ip ip (e ∷ es) =
    let (kept, found) = remove_ip ip es in
    if not (text_eq e.ip ip) then (e ∷ kept, found) else (kept, true)

-- GetWhitelist and GetBlacklist, which return copies.
unfoldable pub get_whitelist : Manager → List IpEntry
get_whitelist m = m.whitelist

unfoldable pub get_blacklist : Manager → List IpEntry
get_blacklist m = m.blacklist

-- The loop of IsAllowed over the blacklist.
unfoldable pub is_blacklisted : Ip → List IpEntry → Bool
is_blacklisted ip [] = false
is_blacklisted ip (e ∷ es) = if ip_matches ip e.ip then true else is_blacklisted ip es

-- What the code uses of gopkg.in/yaml.v3. A comment line in front of the text changes nothing of what is
-- read, and what was marshalled is read back.
pub record Yaml : Type 0 where
  pub marshal : TraefikDynamicConfig → Option Text
  pub unmarshal : Text → Option TraefikDynamicConfig
  pub header : ℕ → Text
  pub read_back :
      (c : TraefikDynamicConfig) (y : Text) (now : ℕ)
      → marshal c ≡ some y
      → unmarshal (header now ++ y) ≡ some c
