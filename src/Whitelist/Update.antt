-- ===== src/Whitelist/Update.antt =====
-- What updateTraefikConfig of internal/whitelist/manager.go changes and writes.
use aquatiq_root.Common.{
  is_over, ℕ, Text, ◌≡◌, refl, Option, none, some, List, [], ◌∷◌, if◌then◌else◌, arith,
}
use aquatiq_root.Whitelist.Types.{IpEntry, WriteOutcome, Manager, Yaml}
use aquatiq_root.Whitelist.Traefik.{is_past, source_range, write_file, update_traefik_config}

-- The lists and the log of the manager, which the update leaves alone.
pub record SameLists (m m' : Manager) : Type 0 where
  pub whitelist : m'.whitelist ≡ m.whitelist
  pub blacklist : m'.blacklist ≡ m.blacklist
  pub audit : m'.audit ≡ m.audit

-- The addresses of the entries that are not over.
abbrev pub active : ℕ → List IpEntry → List Text
active now [] = []
active now (e ∷ es) = if is_over e.expires_at now then active now es else e.ip ∷ active now es

module _ (yaml : Yaml) (clock : ℕ → ℕ) (disk : ℕ → WriteOutcome) where
  pub update_traefik_config-SameLists :
      (m : Manager) → SameLists m (update_traefik_config yaml clock disk m).1
  unfolding update_traefik_config write_file
  update_traefik_config-SameLists m = ground arith

module _ (clock : ℕ → ℕ) (now : ℕ) (steady : (n : ℕ) → clock n ≡ now) where
  is_past-steady : (t : Option ℕ) (n : ℕ) → (is_past clock t n).0 ≡ is_over t now
  unfolding is_past
  is_past-steady none n = refl
  is_past-steady (some t) n = rw steady

  pub source_range-active :
      (es : List IpEntry) (n : ℕ) → (source_range clock es n).0 ≡ active now es
  unfolding source_range
  source_range-active [] n = refl
  source_range-active (e ∷ es) n = ground (
    arith,
    is_past-steady e.expires_at n,
    source_range-active es (is_past clock e.expires_at n).1,
  )
