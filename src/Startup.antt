-- ===== src/Startup.antt =====
-- cmd/arbiter/main.go: the start of the program, up to the loop over the events. The files, SQLite, the
-- environment, and what the loop takes from outside are arguments. A tech stack import that fails is only
-- logged, and so is a setting that cannot be seeded.
pub mod Seeding
pub mod Restart
mod Tests
use mathlib.Core.List.{List, [], ◌∷◌}
use Prim.Native.String.{◌++◌}
use threat_intel_arbiter.Common.{ℕ, Bool, Option, String}
use threat_intel_arbiter.Model.{Time, App, ThreatEvent}
use threat_intel_arbiter.Inventory.{Row}
use threat_intel_arbiter.Config.{Config, Load, loaded, load_error, Files, to_org_context, load_all}
use threat_intel_arbiter.Access.Users.{Accounts}
use threat_intel_arbiter.Database.Statements.{Statement}
use threat_intel_arbiter.Database.{Executed, Opened, opened, unopened, open_db}
use threat_intel_arbiter.Risk.Score.{ScoreResult, new_engine_with_config}
use threat_intel_arbiter.Notify.Crowdstrike.Token.{new_settings}
use threat_intel_arbiter.Pipeline.{Setup, initial_filter, routing_rules}
use threat_intel_arbiter.Dashboard.Stack.{ImportFault, no_fault, import_tech_stack}
use threat_intel_arbiter.Dashboard.Settings.{
  SettingFaults, no_setting_faults, seed_settings_from_env,
}

-- What the loop takes from outside.
pub record Outside : Type 0 where
  pub send : String → Option Bool
  pub dedup_key : ThreatEvent → ScoreResult → String
  pub explain : ScoreResult → String
  pub expiration : Time → String

-- The errors that SQLite gives behind the opening of the database.
pub record Faults : Type 0 where
  pub import_fault : ImportFault
  pub setting_faults : SettingFaults

abbrev pub no_faults : Faults
no_faults = record { import_fault = no_fault; setting_faults = no_setting_faults }

-- What a start reads.
pub record World : Type 0 where
  pub files : Files
  pub config_dir : String
  pub getenv : String → String
  pub connect : Option String
  pub ping : Option String
  pub hash_password : String → String
  pub password : String
  pub order : List App → List App
  pub faults : Faults
  pub outside : Outside

-- The tables of the database that a start writes.
pub record Stores (Schema : Type 0) : Type 0 where
  pub schema : Schema
  pub accounts : Accounts
  pub stack : List App
  pub settings : List (String × String)

pub data Start (Schema : Type 0) : Type 0 where
  fatal : String → Start Schema
  ready : Stores Schema → Setup → Start Schema

unfoldable pub setup_of : Outside → (String → String) → Config → List App → Setup
unfolding to_org_context initial_filter new_engine_with_config routing_rules new_settings
setup_of outside getenv cfg apps = record {
  filter = initial_filter;
  org = to_org_context cfg.org apps;
  matchers = cfg.matchers;
  weights = new_engine_with_config cfg.risk;
  rules = cfg.routing;
  settings = new_settings getenv;
  send = outside.send;
  dedup_key = outside.dedup_key;
  explain = outside.explain;
  expiration = outside.expiration;
}

module _ {Schema : Type 0} (exec : Statement → Schema → Executed Schema) where
  -- What follows the configuration: the database is opened, the tech stack is imported and the settings
  -- are seeded.
  unfoldable pub start_with : World → Stores Schema → Config × List App → Start Schema
  unfolding open_db import_tech_stack seed_settings_from_env setup_of
  start_with w s (cfg, apps) =
      elim (open_db exec w.connect w.ping w.hash_password w.password s.schema s.accounts) [
        | unopened reason ↦ fatal ("database: " ++ reason)
        | opened schema accounts ↦
            ready
              (record {
                schema = schema;
                accounts = accounts;
                stack = (import_tech_stack w.faults.import_fault w.order apps s.stack).1;
                settings = seed_settings_from_env w.faults.setting_faults w.getenv s.settings;
              })
              (setup_of w.outside w.getenv cfg apps)
      ]

  unfoldable pub start_up : World → Stores Schema → Start Schema
  unfolding load_all start_with
  start_up w s = elim (load_all w.files w.config_dir) [
    | load_error reason ↦ fatal ("config: " ++ reason)
    | loaded found ↦ start_with w s found
  ]
