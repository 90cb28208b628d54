-- ===== src/Database/Tests.antt =====
-- internal/store/db.go: the theorems at a database that holds the names of what has been made.
use mathlib.Core.List.{List, [], ◌∷◌}
use threat_intel_arbiter.Common.{◌≡◌, ◌↔◌, refl, String}
use threat_intel_arbiter.Database.Statements.{
  Statement, create_table, create_index, add_column, migrations,
}
use threat_intel_arbiter.Database.{Executed, changed, rejected, stuck, migrate}
use threat_intel_arbiter.Database.Migrating.{Fails, migrate_stuck_iff}

-- There is no room for an index.
abbrev full : Statement → List String → Executed (List String)
full (create_table name columns) s = changed (name ∷ s)
full (create_index name table column) s = rejected "disk full"
full (add_column table column type) s = changed s

migrate_tests : migrate full [] ≡ stuck 6 "disk full"
unfolding migrate
migrate_tests = refl

migrate_stuck_iff_example :
    (migrate full [] ≡ stuck 6 "disk full") ↔ Fails full 1 migrations [] 6 "disk full"
migrate_stuck_iff_example = migrate_stuck_iff full [] 6 "disk full"
