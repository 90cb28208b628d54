-- ===== src/Config/Pollers.antt =====
-- cmd/arbiter/main.go: the pollers that are started for the sources of the configuration.
use mathlib.Core.List.{List, [], ◌∷◌}
use threat_intel_arbiter.Common.{◌*◌, Bool, true, not, ◌||◌, String, ◌==◌, if◌then◌else◌, collect}
use threat_intel_arbiter.Model.{Time, minute, hour}
use threat_intel_arbiter.Config.{SourceEntry}

-- A poller with its client.
pub record MispStart : Type 0 where
  pub url : String
  pub auth_key : String
  pub tls_skip_verify : Bool
  pub ca_cert_path : String
  pub interval : Time
  pub cold_start : Bool

pub record KevStart : Type 0 where
  pub url : String
  pub interval : Time

unfoldable pub misp_start : (String → String) → SourceEntry → List MispStart
misp_start getenv src =
    if not src.enabled || not (src.kind == "misp")
    then []
    else if getenv src.auth_key_env == ""
    then []
    else record {
      url = src.url;
      auth_key = getenv src.auth_key_env;
      tls_skip_verify = src.tls_skip_verify;
      ca_cert_path = src.ca_cert_path;
      interval = 15 * minute;
      cold_start = true;
    }
      ∷ []

unfoldable pub kev_start : SourceEntry → List KevStart
kev_start src =
    if not src.enabled || not (src.kind == "cisa-kev")
    then []
    else record { url = src.url; interval = 24 * hour } ∷ []

unfoldable pub misp_pollers : (String → String) → List SourceEntry → List MispStart
unfolding collect misp_start
misp_pollers getenv sources = collect (misp_start getenv) sources

unfoldable pub kev_pollers : List SourceEntry → List KevStart
unfolding collect kev_start
kev_pollers sources = collect kev_start sources
