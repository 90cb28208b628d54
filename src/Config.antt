-- ===== src/Config.antt =====
-- internal/config/config.go: the files of the configuration directory and what LoadAll makes of them.
-- The reading of a file, the decoding of its JSON and the rows of the CSV file are arguments. And
-- cmd/arbiter/main.go: the pollers that are started for the sources.
pub mod Reading
pub mod Loading
pub mod Pollers
mod Tests
use mathlib.Core.List.{List, [], ◌∷◌}
use Prim.Native.String.{◌++◌}
use threat_intel_arbiter.Common.{
  ℕ, Bool, true, false, Option, none, some, String, if◌then◌else◌, show,
}
use threat_intel_arbiter.Model.{App, OrgContext}
use threat_intel_arbiter.Inventory.{Row, Stack, parsed, error_at, parse_tech_stack}
use threat_intel_arbiter.Risk.Score.{RiskConfig}
use threat_intel_arbiter.Notify.{Rule}
use threat_intel_arbiter.Pipeline.{MatcherConfig}

pub record OrgConfig : Type 0 where
  pub name : String
  pub sector : String
  pub country : String
  pub timezone : String
  pub data_sensitivity : String

unfoldable pub to_org_context : OrgConfig → List App → OrgContext
to_org_context o apps = record {
  org_id = "default";
  name = o.name;
  sector = o.sector;
  country = o.country;
  timezone = o.timezone;
  data_sensitivity = o.data_sensitivity;
  tech_stack = apps;
}

pub record SourceEntry : Type 0 where
  pub id : String
  pub kind : String
  pub name : String
  pub url : String
  pub auth_key_env : String
  pub confidence : String
  pub enabled : Bool
  pub pull_interval : String
  pub tls_skip_verify : Bool
  pub ca_cert_path : String

-- The configuration; a list of entries stands for the record that only holds it.
pub record Config : Type 0 where
  pub org : OrgConfig
  pub sources : List SourceEntry
  pub routing : List Rule
  pub risk : RiskConfig
  pub matchers : List MatcherConfig

-- A value or the text of an error.
pub data Load {ℓ} (A : Type ℓ) : Type ℓ where
  loaded : A → Load A
  load_error : String → Load A

-- The step after a value; an error is the result.
unfoldable pub and_then {ℓ κ} : {A : Type ℓ} {B : Type κ} → Load A → (A → Load B) → Load B
and_then (loaded x) next = next x
and_then (load_error reason) next = load_error reason

-- The error with the name of the part in front.
unfoldable pub in_part {ℓ} : {A : Type ℓ} → String → Load A → Load A
in_part part (loaded x) = loaded x
in_part part (load_error reason) = load_error (part ++ (": " ++ reason))

-- What a CSV file gives: its header and the rows behind it.
pub data Csv : Type 0 where
  not_opened : String → Csv
  without_header : String → Csv
  csv : List String → List Row → Csv

-- The files and the decoders. `row_reason` is the reader's error on a line.
pub record Files : Type 0 where
  pub read_file : String → Load String
  pub decode_org : String → Load OrgConfig
  pub decode_sources : String → Load (List SourceEntry)
  pub decode_routing : String → Load (List Rule)
  pub decode_risk : String → Load RiskConfig
  pub decode_matchers : String → Load (List MatcherConfig)
  pub read_csv : String → Csv
  pub row_reason : ℕ → String

unfoldable pub load_json {ℓ} :
    {A : Type ℓ} → (String → Load String) → (String → Load A) → String → Load A
unfolding and_then in_part
load_json read_file decode path =
    and_then (in_part ("read " ++ path) (read_file path))
      (λ text. in_part ("parse " ++ path) (decode text))

unfoldable pub stack_load : (ℕ → String) → Stack → Load (List App)
unfolding show
stack_load row_reason (parsed apps) = loaded apps
stack_load row_reason (error_at line) =
    load_error ("line " ++ (show line ++ (": " ++ row_reason line)))

unfoldable pub load_tech_stack : (ℕ → String) → String → Csv → Load (List App)
unfolding stack_load parse_tech_stack
load_tech_stack row_reason path (not_opened reason) =
    load_error ("open " ++ (path ++ (": " ++ reason)))
load_tech_stack row_reason path (without_header reason) = load_error ("read header: " ++ reason)
load_tech_stack row_reason path (csv header rows) =
    stack_load row_reason (parse_tech_stack header rows)

unfoldable pub load_org : Files → String → Load OrgConfig
unfolding load_json
load_org f dir = load_json f.read_file f.decode_org (dir ++ "/org.json")

unfoldable pub load_sources : Files → String → Load (List SourceEntry)
unfolding load_json
load_sources f dir = load_json f.read_file f.decode_sources (dir ++ "/sources.json")

unfoldable pub load_routing : Files → String → Load (List Rule)
unfolding load_json
load_routing f dir = load_json f.read_file f.decode_routing (dir ++ "/routing.json")

unfoldable pub load_risk : Files → String → Load RiskConfig
unfolding load_json
load_risk f dir = load_json f.read_file f.decode_risk (dir ++ "/risk.json")

unfoldable pub load_matchers : Files → String → Load (List MatcherConfig)
unfolding load_json
load_matchers f dir = load_json f.read_file f.decode_matchers (dir ++ "/matchers.json")

unfoldable pub load_apps : Files → String → Load (List App)
unfolding load_tech_stack
load_apps f dir =
    let path = dir ++ "/techstack.csv" in load_tech_stack f.row_reason path (f.read_csv path)

unfoldable pub load_all : Files → String → Load (Config × List App)
unfolding and_then in_part load_org load_sources load_routing load_risk load_matchers load_apps
load_all f dir = and_then (in_part "org" (load_org f dir)) (λ org.
    and_then (in_part "sources" (load_sources f dir)) (λ sources.
      and_then (in_part "routing" (load_routing f dir)) (λ routing.
        and_then (in_part "risk" (load_risk f dir)) (λ risk.
          and_then (in_part "matchers" (load_matchers f dir)) (λ matchers.
            and_then (in_part "techstack" (load_apps f dir)) (λ apps. loaded (
              record {
                org = org;
                sources = sources;
                routing = routing;
                risk = risk;
                matchers = matchers;
              },
              apps,
            )))))))
