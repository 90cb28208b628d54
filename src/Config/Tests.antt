-- ===== src/Config/Tests.antt =====
-- internal/config/config.go and cmd/arbiter/main.go: files that are missing, and sources.
use mathlib.Core.List.{List, [], ◌∷◌}
use threat_intel_arbiter.Common.{◌≡◌, refl, ◌*◌, true, false, ◌==◌, if◌then◌else◌, none}
use threat_intel_arbiter.Common.Int.{pos}
use threat_intel_arbiter.Model.{App, hour, minute}
use threat_intel_arbiter.Config.{
  Config, loaded, load_error, Files, not_opened, SourceEntry, load_all,
}
use threat_intel_arbiter.Config.Reading.{
  reason_of, first_error, file_reason, stack_reason, Holds, HoldsStack,
}
use threat_intel_arbiter.Config.Loading.{load_all_lem}
use threat_intel_arbiter.Config.Pollers.{misp_pollers, kev_pollers}

-- The file of the sources cannot be read, and neither can the tech stack.
abbrev files : Files
files = record {
  read_file =
      λ path. if path == "conf/sources.json" then load_error "no such file" else loaded "{}";
  decode_org = λ text. loaded (record {
    name = "bank";
    sector = "finance";
    country = "DE";
    timezone = "UTC";
    data_sensitivity = "high";
  });
  decode_sources = λ text. loaded [];
  decode_routing = λ text. loaded [];
  decode_risk = λ text. loaded (record {
    likelihood_max = pos 0;
    impact_max = pos 0;
    exposure_max = pos 0;
    confidence_max = pos 0;
    thresholds = none;
  });
  decode_matchers = λ text. loaded [];
  read_csv = λ path. not_opened "no such file";
  row_reason = λ line. "";
}

load_tests : load_all files "conf" ≡ load_error "sources: read conf/sources.json: no such file"
unfolding load_all
load_tests = refl

abbrev feed : SourceEntry
feed = record {
  id = "kev";
  kind = "cisa-kev";
  name = "KEV";
  url = "https://kev.local";
  auth_key_env = "";
  confidence = "high";
  enabled = true;
  pull_interval = "24h";
  tls_skip_verify = false;
  ca_cert_path = "";
}

abbrev misp : SourceEntry
misp = record feed { kind = "misp"; url = "https://misp.local"; auth_key_env = "MISP_KEY" }

poller_tests :
    (misp_pollers (λ env. "") (misp ∷ []) ≡ [])
    × (misp_pollers (λ env. "k") (feed ∷ misp ∷ []) ≡ (
        record {
          url = "https://misp.local";
          auth_key = "k";
          tls_skip_verify = false;
          ca_cert_path = "";
          interval = 15 * minute;
          cold_start = true;
        }
        ∷ []))
    × (kev_pollers (record feed { enabled = false } ∷ feed ∷ misp ∷ [])
        ≡ (record { url = "https://kev.local"; interval = 24 * hour } ∷ []))
unfolding misp_pollers kev_pollers
poller_tests = (refl, refl, refl)

load_all_lem_example :
    (reason_of (load_all files "conf")
      ≡ first_error (
          ("org", file_reason files files.decode_org "conf/org.json")
          ∷ ("sources", file_reason files files.decode_sources "conf/sources.json")
          ∷ ("routing", file_reason files files.decode_routing "conf/routing.json")
          ∷ ("risk", file_reason files files.decode_risk "conf/risk.json")
          ∷ ("matchers", file_reason files files.decode_matchers "conf/matchers.json")
          ∷ ("techstack", stack_reason files "conf/techstack.csv")
          ∷ []))
    × ((cfg : Config) (apps : List App)
        → load_all files "conf" ≡ loaded (cfg, apps)
        → Holds files files.decode_org "conf/org.json" cfg.org
          × Holds files files.decode_sources "conf/sources.json" cfg.sources
          × Holds files files.decode_routing "conf/routing.json" cfg.routing
          × Holds files files.decode_risk "conf/risk.json" cfg.risk
          × Holds files files.decode_matchers "conf/matchers.json" cfg.matchers
          × HoldsStack files "conf/techstack.csv" apps)
load_all_lem_example = load_all_lem files "conf"
