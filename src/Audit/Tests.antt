-- ===== src/Audit/Tests.antt =====
-- Runs of the audit logger, and its theorems at concrete inputs.
use aquatiq_root.Common.{List, lit, ◌≡◌, refl, true, none, [], ◌∷◌, text_eq}
use aquatiq_root.Http.{Request}
use aquatiq_root.Audit.{debug_level, info_level, warn_level, mask_ip, severity_of, zap_config}
use aquatiq_root.Audit.Lines.{Call, token_refresh, auth_failure}

mask_v4 : mask_ip (lit "203.0.113.77") ≡ lit "203.0.1.xxx.xxx"
unfolding mask_ip lit
mask_v4 = refl

mask_short : mask_ip (lit "1.2.3.4") ≡ lit "masked"
unfolding mask_ip lit
mask_short = refl

mask_none : mask_ip [] ≡ lit "unknown"
unfolding mask_ip
mask_none = refl

levels :
    (severity_of (lit "warn") ≡ warn_level)
    × (severity_of (lit "development") ≡ info_level)
    × ((zap_config (lit "debug")).level ≡ debug_level)
unfolding severity_of zap_config lit text_eq
levels = (refl, refl, refl)

abbrev visitor : Request
visitor = record {
  method = lit "GET";
  path = lit "/health";
  header = λ _. [];
  query = λ _. [];
  remote_addr = lit "10.0.0.7:4000";
  actor = none;
  request_id = none;
}

abbrev session : List Call
session =
    auth_failure 5 visitor (lit "missing_api_key") ∷ token_refresh 6 (lit "visma") true none ∷ []
