-- ===== src/Dashboard/Alert.antt =====
-- internal/api/server.go: the handlers that show an alert, change its status and count the alerts. A
-- request is its method, its path and its decoded body.
pub mod Status
use Prim.Native.Char.{code}
use Prim.Native.String.{[], ◌∷◌, ◌++◌ as append}
use mathlib.Core.List.{List, [], ◌∷◌}
use threat_intel_arbiter.Common.{
  ℕ, ◌≡◌, refl, Bool, true, false, not, ◌||◌, ◌&&◌, Option, none, some, String, ◌==◌, leb, eqb,
  if◌then◌else◌, map, select, length, split, trim_prefix, has_prefix,
}
use threat_intel_arbiter.Model.{Alert}
use threat_intel_arbiter.Alerts.{AlertTables}

-- The first part of the path behind "/admin/ack/".
unfoldable pub ack_id : String → String
unfolding split trim_prefix
ack_id path = elim (split (trim_prefix path "/admin/ack/") b'/') [ [] ↦ "" | id ∷ parts ↦ id ]

pub data AckReply : Type 0 where
  method_not_allowed : AckReply
  id_required : AckReply
  acked : String → String → AckReply

-- `UPDATE alerts SET status = ? WHERE id = ?`
unfoldable pub set_status : String → String → List Alert → List Alert
set_status id status [] = []
set_status id status (a ∷ alerts) =
    let rest = set_status id status alerts in
    if a.id == id then record a { status = status } ∷ rest else a ∷ rest

-- A body that cannot be decoded, or that has no status, has the empty one.
unfoldable pub handle_admin_ack : Bool → String → String → AlertTables → AckReply × AlertTables
unfolding ack_id set_status
handle_admin_ack is_post path body_status db =
    let status = if body_status == "" then "acked" else body_status in
    if not is_post
    then (method_not_allowed, db)
    else if ack_id path == ""
    then (id_required, db)
    else (
      acked (ack_id path) status,
      record db { alerts = set_status (ack_id path) status db.alerts },
    )

unfoldable pub find_alert : String → List Alert → Option Alert
find_alert id [] = none
find_alert id (a ∷ alerts) = if a.id == id then some a else find_alert id alerts

pub data DetailReply : Type 0 where
  missing_id : DetailReply
  not_found : DetailReply
  detail : Alert → DetailReply

unfoldable pub handle_alert_detail : String → AlertTables → DetailReply
unfolding trim_prefix find_alert
handle_alert_detail path db =
    let id = trim_prefix path "/api/alerts/" in
    if id == ""
    then missing_id
    else elim (find_alert id db.alerts) [ none ↦ not_found | some a ↦ detail a ]

pub record Stats : Type 0 where
  pub total : ℕ
  pub critical : ℕ
  pub high : ℕ
  pub medium : ℕ
  pub low : ℕ

unfoldable pub count_severity : String → List Alert → ℕ
unfolding select
count_severity severity alerts = length (select (λ a. a.severity == severity) alerts)

unfoldable pub handle_stats : AlertTables → Stats
unfolding count_severity
handle_stats db = record {
  total = length db.alerts;
  critical = count_severity "critical" db.alerts;
  high = count_severity "high" db.alerts;
  medium = count_severity "medium" db.alerts;
  low = count_severity "low" db.alerts;
}

unfoldable pub ssvc_short : String → String
ssvc_short action =
    if action == "Act"
    then "act"
    else if action == "Attend"
    then "attend"
    else if action == "Track*"
    then "trackstar"
    else "track"

-- The digits and hyphens at the front.
take_number : String → String
take_number [] = []
take_number (c ∷ s) =
    let rest = take_number s in
    if (leb b'0' (code c) && leb (code c) b'9') || eqb (code c) b'-' then c ∷ rest else []

-- From the first "CVE-", or `none`.
cve_at : String → Option String
unfolding has_prefix trim_prefix take_number
cve_at [] = none
cve_at (c ∷ s) =
    let later = cve_at s in
    if has_prefix (c ∷ s) "CVE-"
    then some (append "CVE-" (take_number (trim_prefix (c ∷ s) "CVE-")))
    else later

unfoldable pub extract_cve : String → String
unfolding has_prefix cve_at
extract_cve event_id =
    if has_prefix event_id "CVE-"
    then event_id
    else elim (cve_at event_id) [ none ↦ event_id | some cve ↦ cve ]

extract_tests :
    (extract_cve "kev:CVE-2024-3400.x" ≡ "CVE-2024-3400")
    × (extract_cve "5f0c" ≡ "5f0c")
    × (ack_id "/admin/ack/a1/x" ≡ "a1")
    × (ack_id "/admin/ack/" ≡ "")
unfolding extract_cve ack_id
extract_tests = (refl, refl, refl, refl)
