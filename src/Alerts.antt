-- ===== src/Alerts.antt =====
-- internal/risk/alert.go and internal/store/alerts.go: an alert, and the tables of alerts and of
-- deduplication hashes, as lists of rows. The ID that DedupKey hashes is an argument of NewAlert.
pub mod Saving
use threat_intel_arbiter.Common.{
  ◌-◌, Bool, true, false, not, List, [], ◌∷◌, ◌++◌, none, some, String, ◌==◌, ltb, if◌then◌else◌,
  select, map,
}
use threat_intel_arbiter.Common.Dict.{lookup, insert}
use threat_intel_arbiter.Model.{Time, ThreatEvent, Match, Alert}
use threat_intel_arbiter.Risk.Score.{ScoreResult}
use threat_intel_arbiter.Access.Users.{whole_seconds}

unfoldable pub new_alert : String → String → Time → ThreatEvent → ScoreResult → List Match → Alert
unfolding select
new_alert id explanation now event result matches = record {
  id = id;
  event_id = event.id;
  severity = result.severity;
  confidence = result.confidence_label;
  action = result.action;
  explanation = explanation;
  status = "new";
  matched_apps = select (λ name. not (name == "")) (map (λ m. m.app_name) matches);
  routed_to = [];
  created_at = whole_seconds now;
}

pub record AlertTables : Type 0 where
  pub dedup_hashes : List (String × Time)
  pub alerts : List Alert

-- Some row has the hash and is younger than the time to live.
unfoldable pub is_duplicate : Time → Time → String → AlertTables → Bool
unfolding lookup
is_duplicate ttl now id db = elim (lookup id db.dedup_hashes) [
  | none ↦ false
  | some created_at ↦ ltb (whole_seconds (now - ttl)) created_at
]

-- `INSERT OR REPLACE` puts the new row in place of the one with its ID.
unfoldable pub save_alert : Time → Time → Alert → AlertTables → AlertTables × Bool
unfolding is_duplicate insert select
save_alert ttl now alert db = if is_duplicate ttl now alert.id db then (db, false) else (
  record {
    dedup_hashes = insert alert.id (whole_seconds now) db.dedup_hashes;
    alerts = select (λ a. not (a.id == alert.id)) db.alerts ++ (alert ∷ []);
  },
  true,
)

unfoldable pub clean_dedup : Time → Time → AlertTables → AlertTables
unfolding select
clean_dedup ttl now db = record db {
  dedup_hashes = select (λ row. not (ltb row.1 (whole_seconds (now - ttl)))) db.dedup_hashes;
}

unfoldable pub suppress_alerts_for_event : String → AlertTables → AlertTables
suppress_alerts_for_event event_id db = record db {
  alerts =
      map (λ a. if a.event_id == event_id then record a { status = "suppressed" } else a) db.alerts;
}
