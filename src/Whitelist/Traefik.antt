-- ===== src/Whitelist/Traefik.antt =====
-- The configuration file of internal/whitelist/manager.go: updateTraefikConfig and loadFromTraefikConfig.
-- `clock n` is the n-th reading of `time.Now()`, and `disk n` what becomes of the n-th write.
use aquatiq_root.Common.{
  ℕ, suc, Text, lit, Bool, false, Option, none, some, List, [], ◌∷◌, ◌++◌, if◌then◌else◌, ltb,
}
use aquatiq_root.Audit.{Logger}
use aquatiq_root.Common.Assoc.{lookup}
use aquatiq_root.Whitelist.Types.{
  IpEntry, File, missing, unreadable, holds, WriteOutcome, written, refused, torn, Manager, Error,
  read_failed, parse_failed, marshal_failed, write_failed, middleware_name, Yaml,
}

module _ (clock : ℕ → ℕ) where
  -- `e != nil && time.Now().After(*e)`, and the number of readings after it: the clock is read only
  -- where there is a time.
  unfoldable pub is_past : Option ℕ → ℕ → Bool × ℕ
  is_past none n = (false, n)
  is_past (some t) n = (ltb t (clock n), suc n)

  -- The first loop of updateTraefikConfig: the ranges, and the readings after it.
  unfoldable pub source_range : List IpEntry → ℕ → List Text × ℕ
  source_range [] n = ([], n)
  source_range (e ∷ es) n =
      let (past, n') = is_past e.expires_at n in
      let (ranges, n'') = source_range es n' in if past then (ranges, n'') else (e.ip ∷ ranges, n'')

module _ (disk : ℕ → WriteOutcome) where
  -- os.WriteFile
  unfoldable pub write_file : Text → Manager → Option Error × Manager
  write_file text m = elim (disk m.writes) [
    | written ↦ (none, record m { file = holds text; writes = suc m.writes })
    | refused ↦ (some write_failed, record m { writes = suc m.writes })
    | torn part ↦ (some write_failed, record m { file = holds part; writes = suc m.writes })
  ]

module _ (yaml : Yaml) (clock : ℕ → ℕ) (disk : ℕ → WriteOutcome) where
  -- updateTraefikConfig
  unfoldable pub update_traefik_config : Manager → Option Error × Manager
  update_traefik_config m =
      let (ranges, n) = source_range clock m.whitelist m.readings in
      elim (yaml.marshal ((middleware_name, ranges) ∷ [])) [
        | none ↦ (some marshal_failed, record m { readings = n })
        | some y ↦ write_file disk (yaml.header (clock n) ++ y) (record m { readings = suc n })
      ]

module _ (clock : ℕ → ℕ) where
  -- The loop of loadFromTraefikConfig, which reads the clock for each entry.
  unfoldable pub loaded_entries : List Text → ℕ → List IpEntry × ℕ
  loaded_entries [] n = ([], n)
  loaded_entries (ip ∷ ips) n =
      let (es, n') = loaded_entries ips (suc n) in
      (
        record {
          ip = ip;
          description = lit "Existing from Traefik config";
          added_at = clock n;
          added_by = lit "system";
          expires_at = none;
        }
            ∷ es,
        n',
      )

  -- The middleware that loadFromTraefikConfig looks up, if it is there.
  unfoldable pub load_ranges : Option (List Text) → Manager → Manager
  load_ranges none m = m
  load_ranges (some ips) m =
      let (es, n) = loaded_entries ips m.readings in
      record m { whitelist = m.whitelist ++ es; readings = n }

module _ (yaml : Yaml) (clock : ℕ → ℕ) where
  -- loadFromTraefikConfig
  unfoldable pub load_from_traefik_config : Manager → Option Error × Manager
  load_from_traefik_config m = elim m.file [
    | missing ↦ (none, m)
    | unreadable ↦ (some read_failed, m)
    | holds text ↦ elim (yaml.unmarshal text) [
      | none ↦ (some parse_failed, m)
      | some config ↦ (none, load_ranges clock (lookup middleware_name config) m)
    ]
  ]

  -- NewManager: a manager or an error. The environment goes on from `file`, `readings` and `writes`.
  unfoldable pub new_manager : Logger → File → ℕ → ℕ → Option Error × Manager
  new_manager audit file readings writes = load_from_traefik_config (record {
    whitelist = [];
    blacklist = [];
    audit = audit;
    file = file;
    readings = readings;
    writes = writes;
  })
