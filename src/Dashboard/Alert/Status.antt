-- ===== src/Dashboard/Alert/Status.antt =====
-- internal/api/server.go: what is shown of an alert after its status has been changed.
use mathlib.Core.List.{List, [], ◌∷◌}
use threat_intel_arbiter.Common.{
  ◌≡◌, ◌≢◌, ◌∙◌, refl, ap, true, false, none, some, String, ◌==◌, eq_iff, if◌then◌else◌,
  trim_prefix, Bool-cases, Option-cases, inl, inr, arith,
}
use threat_intel_arbiter.Model.{Alert}
use threat_intel_arbiter.Alerts.{AlertTables}
use threat_intel_arbiter.Dashboard.Alert.{
  ack_id, set_status, handle_admin_ack, find_alert, detail, not_found, missing_id,
  handle_alert_detail,
}

-- The alert with the new status, if it is the one.
abbrev pub with_status : String → String → Alert → Alert
with_status id status a = if a.id == id then record a { status = status } else a

with_status_same :
    (id status : String) (a : Alert)
    → (a.id == id) ≡ true
    → record a { status = status } ≡ with_status id status a
with_status_same id status a e = rw e

with_status_other :
    (id status : String) (a : Alert) → (a.id == id) ≡ false → a ≡ with_status id status a
with_status_other id status a e = rw e

find_alert-set_status :
    (id status asked : String) (alerts : List Alert)
    → find_alert asked (set_status id status alerts)
      ≡ (elim (find_alert asked alerts) [ none ↦ none | some a ↦ some (with_status id status a) ])
unfolding find_alert set_status
find_alert-set_status id status asked [] = refl
find_alert-set_status id status asked (a ∷ alerts) =
    let rest = find_alert-set_status id status asked alerts in
    elim (Bool-cases (a.id == id)) [
      | inl it ↦ elim (Bool-cases (a.id == asked)) [
        | inl here ↦ rw (it, here) (ap some (with_status_same id status a it))
        | inr there ↦ rw (it, there) rest
      ]
      | inr other ↦ elim (Bool-cases (a.id == asked)) [
        | inl here ↦ rw (other, here) (ap some (with_status_other id status a other))
        | inr there ↦ rw (other, there) rest
      ]
    ]

shown :
    (path : String) (db : AlertTables) (a : Alert)
    → handle_alert_detail path db ≡ detail a
    → ((trim_prefix path "/api/alerts/" == "") ≡ false)
      × (find_alert (trim_prefix path "/api/alerts/") db.alerts ≡ some a)
unfolding handle_alert_detail
shown path db a h =
    let id = trim_prefix path "/api/alerts/" in
    elim (Bool-cases (id == "")) [
      | inl blank ↦ let wrong : missing_id ≡ detail a = rw (blank, handle_alert_detail) at h in cc
      | inr named ↦ elim (Option-cases (find_alert id db.alerts)) [
        | inl absent ↦
            let wrong : not_found ≡ detail a = rw (named, absent, handle_alert_detail) at h in cc
        | inr (b, there) ↦
            let found : detail b ≡ detail a = rw (named, there, handle_alert_detail) at h in
            let it : b ≡ a = cc in (named, there ∙ ap some it)
      ]
    ]

-- After the status of an alert has been posted, any alert that could be shown before is shown as it
-- was, except that the one with the ID of the path has the posted status, or "acked" if there is none.
pub handle_admin_ack_lem :
    (path body_status shown_path : String) (db : AlertTables) (a : Alert)
    → ack_id path ≢ ""
    → handle_alert_detail shown_path db ≡ detail a
    → handle_alert_detail shown_path (handle_admin_ack true path body_status db).1
      ≡ detail (with_status (ack_id path) (if body_status == "" then "acked" else body_status) a)
unfolding handle_alert_detail handle_admin_ack
handle_admin_ack_lem path body_status shown_path db a given h =
    let (named, there) = shown shown_path db a h in
    let status = if body_status == "" then "acked" else body_status in
    let id = trim_prefix shown_path "/api/alerts/" in
    let with_id : (ack_id path == "") ≡ false = ground (arith, eq_iff (ack_id path) "") in
    let after : find_alert id (set_status (ack_id path) status db.alerts)
        ≡ some (with_status (ack_id path) status a) =
      find_alert-set_status (ack_id path) status id db.alerts ∙ rw there in
    rw (with_id, named, after, handle_alert_detail, handle_admin_ack)
