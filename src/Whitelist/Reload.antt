-- ===== src/Whitelist/Reload.antt =====
-- The whitelist of internal/whitelist/manager.go across a restart: what updateTraefikConfig wrote is what
-- loadFromTraefikConfig reads.
use aquatiq_root.Common.{
  ℕ, suc, Text, text_eq_refl, ◌≡◌, refl, ap, Option, none, some, List, [], ◌∷◌, ◌++◌, arith,
  Option-cases, inl, inr, All,
}
use aquatiq_root.Common.Assoc.{lookup}
use aquatiq_root.Audit.{Logger}
use aquatiq_root.Whitelist.Types.{
  IpEntry, File, holds, WriteOutcome, Manager, Error, middleware_name, Yaml,
}
use aquatiq_root.Whitelist.Traefik.{
  source_range, write_file, update_traefik_config, loaded_entries, load_ranges,
  load_from_traefik_config, new_manager,
}

abbrev pub ips : List IpEntry → List Text
ips [] = []
ips (e ∷ es) = e.ip ∷ ips es

-- The file holds what YAML makes of these ranges, behind a header.
pub record IsWritten (yaml : Yaml) (ranges : List Text) (file : File) : Type 0 where
  pub text : Text
  pub at : ℕ
  pub marshalled : yaml.marshal ((middleware_name, ranges) ∷ []) ≡ some text
  pub content : file ≡ holds (yaml.header at ++ text)

module _ (yaml : Yaml) (clock : ℕ → ℕ) (disk : ℕ → WriteOutcome) where
  pub update_traefik_config-IsWritten :
      (m : Manager)
      → (update_traefik_config yaml clock disk m).0 ≡ none
      → IsWritten yaml
          (source_range clock m.whitelist m.readings).0
          (update_traefik_config yaml clock disk m).1.file
  unfolding update_traefik_config write_file
  update_traefik_config-IsWritten m h =
      elim (Option-cases
        (yaml.marshal ((middleware_name, (source_range clock m.whitelist m.readings).0) ∷ []))) [
          | inl e ↦ absurd (refuse e)
          | inr (y, e) ↦ record {
            text = y;
            at = clock (source_range clock m.whitelist m.readings).1;
            marshalled = e;
            content = ground arith;
          }
        ]
    where
      refuse :
          yaml.marshal ((middleware_name, (source_range clock m.whitelist m.readings).0) ∷ [])
            ≡ none
          → ⊥
      refuse e = ground arith

module _ (clock : ℕ → ℕ) where
  ips-loaded_entries : (rs : List Text) (n : ℕ) → ips (loaded_entries clock rs n).0 ≡ rs
  unfolding loaded_entries
  ips-loaded_entries [] n = refl
  ips-loaded_entries (r ∷ rs) n = ap (λ (t : List Text). r ∷ t) (ips-loaded_entries rs (suc n))

  loaded_entries_permanent :
      (rs : List Text) (n : ℕ) → All (λ e. e.expires_at ≡ none) (loaded_entries clock rs n).0
  unfolding loaded_entries
  loaded_entries_permanent [] n = tt
  loaded_entries_permanent (r ∷ rs) n = (refl, loaded_entries_permanent rs (suc n))

-- A manager that was created from a file: these ranges in this order, none of them with a time of
-- expiry, and an empty blacklist.
pub record IsLoaded (ranges : List Text) (r : Option Error × Manager) : Type 0 where
  pub no_error : r.0 ≡ none
  pub listed : ips r.1.whitelist ≡ ranges
  pub permanent : All (λ e. e.expires_at ≡ none) r.1.whitelist
  pub no_blacklist : r.1.blacklist ≡ []

module _ (yaml : Yaml) (clock : ℕ → ℕ) where
  -- Creating a manager over a file that holds the marshalled ranges succeeds and lists them.
  pub new_manager-IsWritten :
      (ranges : List Text) (audit : Logger) (file : File) (readings writes : ℕ)
      → IsWritten yaml ranges file
      → IsLoaded ranges (new_manager yaml clock audit file readings writes)
  unfolding new_manager load_from_traefik_config load_ranges lookup
  new_manager-IsWritten ranges audit file readings writes w = rw w.content (
      rw (yaml.read_back ((middleware_name, ranges) ∷ []) w.text w.at w.marshalled, new_manager)
        (rw text_eq_refl (record {
          no_error = refl;
          listed = ips-loaded_entries clock ranges readings;
          permanent = loaded_entries_permanent clock ranges readings;
          no_blacklist = refl;
        })))
