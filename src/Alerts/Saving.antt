-- ===== src/Alerts/Saving.antt =====
-- internal/store/alerts.go: when an alert is saved, and when it is a duplicate.
use threat_intel_arbiter.Common.{◌-◌, ◌≡◌, refl, eq_refl, true, false, ltb}
use threat_intel_arbiter.Common.Dict.{lookup-insert}
use threat_intel_arbiter.Model.{Time, Alert}
use threat_intel_arbiter.Access.Users.{whole_seconds}
use threat_intel_arbiter.Alerts.{AlertTables, is_duplicate, save_alert}

-- Right after an alert has been saved, an alert with the same ID is refused, and changes nothing,
-- as long as the moment one time to live ago, to the second, lies before the moment of the saving.
pub saved_once :
    (ttl now later : Time) (alert again : Alert) (db : AlertTables)
    → is_duplicate ttl now alert.id db ≡ false
    → again.id ≡ alert.id
    → ltb (whole_seconds (later - ttl)) (whole_seconds now) ≡ true
    → let saved = save_alert ttl now alert db in
      (saved.1 ≡ true) × (save_alert ttl later again saved.0 ≡ (saved.0, false))
unfolding save_alert
saved_once ttl now later alert again db fresh same young = rw fresh (
  refl,
  rw same (
      rw (
        lookup-insert alert.id alert.id (whole_seconds now) db.dedup_hashes,
        eq_refl alert.id,
        young,
        is_duplicate,
      )),
)
