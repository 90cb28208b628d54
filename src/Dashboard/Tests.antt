-- ===== src/Dashboard/Tests.antt =====
-- internal/api/server.go and internal/store: the theorems at concrete requests and rows.
use mathlib.Core.List.{List, [], ◌∷◌}
use threat_intel_arbiter.Samples.{an_alert}
use threat_intel_arbiter.Common.{◌≡◌, refl, true, false, none, some, Option, String, text_length}
use threat_intel_arbiter.Model.{App}
use threat_intel_arbiter.Samples.{openssl_app}
use threat_intel_arbiter.Dashboard.Client.{Connection, get_client_ip, get_client_ip_forged}
use threat_intel_arbiter.Dashboard.Settings.{
  is_secret_key, mask_value, mask_value_hides, mask_admin_key, seed_settings_from_env,
  no_setting_faults, get_setting, handle_admin_settings,
}
use threat_intel_arbiter.Dashboard.Stack.{
  handle_admin_tech_stack, post, put, del, not_found, name_required,
}
use threat_intel_arbiter.Alerts.{AlertTables}
use threat_intel_arbiter.Dashboard.Alert.{handle_stats}
use threat_intel_arbiter.Common.{◌⊎◌, length}
use threat_intel_arbiter.Dashboard.Search.{Filters, arguments, alerts_query, parse_risk_score}
use threat_intel_arbiter.Dashboard.Search.Placeholders.{count_code, alerts_query_lem}
use threat_intel_arbiter.Inventory.{Row, read_record}
use threat_intel_arbiter.Dashboard.Stack.{no_fault, commit_fails}
use threat_intel_arbiter.Dashboard.Overview.{
  import_failed, handle_admin_import, imported, bad_method,
}
use threat_intel_arbiter.Dashboard.Overview.Importing.{
  is_refusal, IsImport, handle_admin_import_lem,
}

abbrev proxied : Connection
proxied = record {
  forwarded_for = "203.0.113.7";
  forwarded_proto = "https";
  remote_addr = "10.0.0.1:4000";
  tls = false;
}

-- No address has a port.
abbrev no_port : String → Option String
no_port addr = none

client_tests :
    (get_client_ip no_port true (record proxied { forwarded_for = "8.8.8.8, 203.0.113.7" })
      ≡ "203.0.113.7")
    × (get_client_ip no_port false proxied ≡ "10.0.0.1:4000")
unfolding get_client_ip
client_tests = (refl, refl)

get_client_ip_forged_example :
    get_client_ip no_port true
      (record proxied { forwarded_for = "8.8.8.8,203.0.113.7"; remote_addr = "10.0.0.1:4001" })
    ≡ get_client_ip no_port true proxied
get_client_ip_forged_example =
    get_client_ip_forged no_port "8.8.8.8" "10.0.0.1:4001" proxied (λ e. cc)

settings_tests :
    (mask_value "email_target" "soc@example.com" ≡ "soc@example.com")
    × (mask_value "cs_secret" "abcd" ≡ "****")
    × (mask_admin_key "abc" ≡ "abc")
    × (mask_admin_key "abcdefgh" ≡ "****efgh")
    × ((handle_admin_settings (("cs_secret", "x") ∷ ("admin_key_masked", "y") ∷ []) [])
        ≡ (1, ("cs_secret", "x") ∷ []))
    × (get_setting "cs_secret"
          (seed_settings_from_env no_setting_faults (λ env. "new") (("cs_secret", "old") ∷ []))
        ≡ "old")
unfolding mask_value mask_admin_key handle_admin_settings get_setting seed_settings_from_env
    no_setting_faults
settings_tests = (refl, refl, refl, refl, refl, refl)

mask_value_hides_example : mask_value "cs_secret" "hunter2abcd" ≡ mask_value "cs_secret" "xabcd"
unfolding is_secret_key text_length
mask_value_hides_example =
    mask_value_hides "cs_secret" "hunter2" "x" "abcd" refl refl (λ e. cc) (λ e. cc)

stack_tests :
    ((handle_admin_tech_stack (del (some "nginx")) (openssl_app ∷ [])).0 ≡ not_found)
    × ((handle_admin_tech_stack (post (some (record openssl_app { name = "" }))) []).0
        ≡ name_required)
    × ((handle_admin_tech_stack (put (some openssl_app)) (openssl_app ∷ [])).1 ≡ openssl_app ∷ [])
unfolding handle_admin_tech_stack
stack_tests = (refl, refl, refl)

-- The rows in the order in which they are.
abbrev in_place : List App → List App
in_place rows = rows

abbrev one_alert : AlertTables
one_alert = record { dedup_hashes = []; alerts = an_alert ∷ [] }

stats_tests : ((handle_stats one_alert).critical ≡ 1) × ((handle_stats one_alert).low ≡ 0)
unfolding handle_stats
stats_tests = (refl, refl)

abbrev search : Filters
search = record { search = "x' OR 1=1 --"; app = ""; status = "new"; severity = "" }

search_tests :
    (arguments search ≡ "%x' OR 1=1 --%" ∷ "%x' OR 1=1 --%" ∷ "new" ∷ [])
    × (parse_risk_score "Risk Score: 0.71 → HIGH" ≡ some "0.71")
    × (parse_risk_score "Score: (9 × 9 × 9) / (40 × 35 × 25) = 0.71 → HIGH" ≡ none)
unfolding arguments parse_risk_score
search_tests = (refl, refl, refl)

alerts_query_lem_example :
    (alerts_query search ≡ alerts_query (record search { search = "openssl"; status = "acked" }))
    × (count_code b'?' (alerts_query search) ≡ length (arguments search))
alerts_query_lem_example =
    alerts_query_lem search (record search { search = "openssl"; status = "acked" }) refl refl refl
      refl

-- The order in which rows are stored.
abbrev stored_order : List App → List App
stored_order rows = rows

abbrev csv_body : Option (List String × List Row)
csv_body = some ("Name" ∷ "criticality" ∷ [], read_record ("nginx" ∷ "urgent" ∷ []) ∷ [])

import_tests :
    ((handle_admin_import no_fault stored_order "POST" csv_body (openssl_app ∷ [])).0
      ≡ imported 1 1 1)
    × ((handle_admin_import no_fault stored_order "GET" csv_body (openssl_app ∷ [])).0 ≡ bad_method)
    × ((handle_admin_import
          (commit_fails "disk full")
          stored_order
          "POST"
          csv_body
          (openssl_app ∷ []))
        ≡ (import_failed "commit: disk full", openssl_app ∷ []))
unfolding handle_admin_import
import_tests = (refl, refl, refl)

handle_admin_import_lem_example :
    ((is_refusal (handle_admin_import no_fault stored_order "POST" csv_body (openssl_app ∷ [])).0
        ≡ true)
      × ((handle_admin_import no_fault stored_order "POST" csv_body (openssl_app ∷ [])).1
          ≡ openssl_app ∷ []))
    ⊎ ((is_refusal (handle_admin_import no_fault stored_order "POST" csv_body (openssl_app ∷ [])).0
          ≡ false)
        × IsImport stored_order csv_body
            (handle_admin_import no_fault stored_order "POST" csv_body (openssl_app ∷ [])))
handle_admin_import_lem_example =
    handle_admin_import_lem no_fault stored_order "POST" csv_body (openssl_app ∷ [])
      (λ listed app. ((λ m. m), (λ m. m)))
