-- ===== src/Database/Statements.antt =====
-- internal/store/db.go: the statements of the migrations.
use mathlib.Core.List.{List, [], ◌∷◌}
use threat_intel_arbiter.Common.{String}

-- `CREATE TABLE IF NOT EXISTS` with its columns, `CREATE INDEX IF NOT EXISTS` on a column of a table,
-- and `ALTER TABLE ADD COLUMN` with the column's name and the rest of its declaration.
pub data Statement : Type 0 where
  create_table : String → List String → Statement
  create_index : String → String → String → Statement
  add_column : String → String → String → Statement

unfoldable pub migrations : List Statement
migrations =
    create_table "events" (
      "id TEXT PRIMARY KEY" ∷ "source_id TEXT NOT NULL" ∷ "source_event_id TEXT NOT NULL"
      ∷ "normalized_json TEXT NOT NULL" ∷ "timestamp TEXT NOT NULL"
      ∷ "org_id TEXT NOT NULL DEFAULT 'default'" ∷ [])
    ∷ create_table "alerts" (
        "id TEXT PRIMARY KEY" ∷ "event_id TEXT NOT NULL REFERENCES events(id)"
        ∷ "severity TEXT NOT NULL" ∷ "confidence TEXT NOT NULL" ∷ "explanation TEXT NOT NULL"
        ∷ "status TEXT NOT NULL DEFAULT 'new'" ∷ "matched_apps TEXT NOT NULL DEFAULT '[]'"
        ∷ "routed_to TEXT NOT NULL DEFAULT '[]'" ∷ "created_at TEXT NOT NULL"
        ∷ "acknowledged_at TEXT" ∷ "resolved_at TEXT" ∷ "org_id TEXT NOT NULL DEFAULT 'default'"
        ∷ [])
    ∷ create_table "tech_stack" (
        "id INTEGER PRIMARY KEY AUTOINCREMENT" ∷ "name TEXT NOT NULL"
        ∷ "version TEXT NOT NULL DEFAULT ''" ∷ "vendor TEXT NOT NULL DEFAULT ''"
        ∷ "category TEXT NOT NULL DEFAULT ''" ∷ "criticality TEXT NOT NULL DEFAULT 'medium'"
        ∷ "owner_team TEXT NOT NULL DEFAULT ''" ∷ "internet_facing INTEGER NOT NULL DEFAULT 0"
        ∷ "hosts TEXT NOT NULL DEFAULT ''" ∷ "data_sensitivity TEXT NOT NULL DEFAULT 'medium'"
        ∷ "org_id TEXT NOT NULL DEFAULT 'default'" ∷ [])
    ∷ create_table "dedup_hashes" ("hash TEXT PRIMARY KEY" ∷ "created_at TEXT NOT NULL" ∷ [])
    ∷ create_table "state" ("key TEXT PRIMARY KEY" ∷ "value TEXT NOT NULL" ∷ [])
    ∷ create_index "idx_events_source" "events" "source_id"
    ∷ create_index "idx_events_timestamp" "events" "timestamp"
    ∷ create_index "idx_alerts_status" "alerts" "status"
    ∷ create_index "idx_alerts_severity" "alerts" "severity"
    ∷ create_index "idx_dedup_created" "dedup_hashes" "created_at"
    ∷ add_column "alerts" "action" "TEXT NOT NULL DEFAULT ''"
    ∷ create_table "users" (
        "id INTEGER PRIMARY KEY AUTOINCREMENT" ∷ "username TEXT NOT NULL UNIQUE"
        ∷ "password_hash TEXT NOT NULL" ∷ "role TEXT NOT NULL DEFAULT 'reader'"
        ∷ "created_at TEXT NOT NULL DEFAULT (datetime('now'))" ∷ [])
    ∷ create_table "sessions" (
        "token TEXT PRIMARY KEY" ∷ "username TEXT NOT NULL" ∷ "role TEXT NOT NULL"
        ∷ "expires_at TEXT NOT NULL" ∷ [])
    ∷ create_index "idx_sessions_expires" "sessions" "expires_at"
    ∷ create_table "settings" ("key TEXT PRIMARY KEY" ∷ "value TEXT NOT NULL DEFAULT ''" ∷ [])
    ∷ []
