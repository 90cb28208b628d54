-- ===== src/Startup/Tests.antt =====
-- cmd/arbiter/main.go: a first and a second start with a small configuration.
use Prim.Native.String.{◌++◌}
use mathlib.Core.List.{List, [], ◌∷◌}
use threat_intel_arbiter.Common.{◌≡◌, refl, true, false, none, some, String}
use threat_intel_arbiter.Common.Int.{pos}
use threat_intel_arbiter.Samples.{openssl_app}
use threat_intel_arbiter.Model.{App}
use threat_intel_arbiter.Inventory.{read_record}
use threat_intel_arbiter.Config.{Config, loaded, Files, csv, load_all}
use threat_intel_arbiter.Access.Users.{seed_default_admin}
use threat_intel_arbiter.Database.{open_db, migrate}
use threat_intel_arbiter.Database.Sample.{
  exec, exec_key, holds, makes, keeps, duplicate, again, schema,
}
use threat_intel_arbiter.Common.Dict.{has}
use threat_intel_arbiter.Dashboard.Stack.{list_fails, import_tech_stack}
use threat_intel_arbiter.Dashboard.Settings.{no_setting_faults, seed_settings_from_env}
use threat_intel_arbiter.Startup.{
  Outside, no_faults, World, Stores, ready, setup_of, start_with, start_up,
}
use threat_intel_arbiter.Startup.Restart.{start_up_again}

abbrev config : Config
config = record {
  org = record {
    name = "bank";
    sector = "finance";
    country = "DE";
    timezone = "UTC";
    data_sensitivity = "high";
  };
  sources = [];
  routing = [];
  risk = record {
    likelihood_max = pos 0;
    impact_max = pos 0;
    exposure_max = pos 0;
    confidence_max = pos 0;
    thresholds = none;
  };
  matchers = [];
}

abbrev files : Files
files = record {
  read_file = λ path. loaded "{}";
  decode_org = λ text. loaded config.org;
  decode_sources = λ text. loaded [];
  decode_routing = λ text. loaded [];
  decode_risk = λ text. loaded config.risk;
  decode_matchers = λ text. loaded [];
  read_csv = λ path. csv ("name" ∷ []) (read_record ("nginx" ∷ []) ∷ []);
  row_reason = λ line. "";
}

abbrev outside : Outside
outside = record {
  send = λ channel. some true;
  dedup_key = λ event result. event.id;
  explain = λ result. "";
  expiration = λ now. "later";
}

abbrev world : World
world = record {
  files = files;
  config_dir = "conf";
  getenv = λ env. env;
  connect = none;
  ping = none;
  hash_password = λ password. password ++ "#";
  password = "pw1";
  order = λ rows. rows;
  faults = no_faults;
  outside = outside;
}

abbrev no_stores : Stores (List String)
no_stores = record {
  schema = [];
  accounts = record { users = []; sessions = [] };
  stack = openssl_app ∷ [];
  settings = ("cs_secret", "old") ∷ [];
}

abbrev nginx : App
nginx = record {
  name = "nginx";
  version = "";
  vendor = "";
  category = "";
  criticality = "medium";
  owner_team = "";
  internet_facing = false;
  hosts = "";
  data_sensitivity = "medium";
  last_verified = "";
}

abbrev first_stores : Stores (List String)
first_stores = record {
  schema = schema;
  accounts = record {
    users = record { username = "admin"; password_hash = "pw1#"; role = "admin" } ∷ [];
    sessions = [];
  };
  stack = nginx ∷ [];
  settings =
      ("cs_secret", "old")
      ∷ ("slack_webhook_url", "SLACK_WEBHOOK_URL")
      ∷ ("teams_webhook_url", "TEAMS_WEBHOOK_URL")
      ∷ ("email_target", "SMTP_TO")
      ∷ ("cs_client_id", "CROWDSTRIKE_CLIENT_ID")
      ∷ ("cs_base_url", "CROWDSTRIKE_BASE_URL")
      ∷ [];
}

started :
    start_up exec world no_stores
    ≡ ready first_stores (setup_of outside world.getenv config (nginx ∷ []))
unfolding start_up start_with load_all open_db migrate exec exec_key has seed_default_admin
    import_tech_stack seed_settings_from_env no_setting_faults
started = refl

start_up_again_example :
    start_up exec
      (record world {
        connect = none;
        ping = none;
        password = "pw2";
        faults = record no_faults { import_fault = list_fails "database is locked" };
      })
      first_stores
    ≡ ready first_stores (setup_of outside world.getenv config (nginx ∷ []))
start_up_again_example =
    start_up_again exec holds makes keeps duplicate again world no_stores first_stores
      (setup_of outside world.getenv config (nginx ∷ [])) "pw2" (list_fails "database is locked")
      started
