-- ===== src/Database.antt =====
-- internal/store/db.go: the opening of the database, with its migrations and the account of the first
-- administrator. SQLite is an argument: what a statement makes of a schema, or the text of its error.
pub mod Statements
pub mod Migrating
pub mod Reopening
pub mod Sample
mod Tests
use mathlib.Core.List.{List, [], ◌∷◌}
use Prim.Native.String.{◌++◌}
use threat_intel_arbiter.Common.{
  ℕ, ◌+◌, Bool, true, false, Option, none, some, String, if◌then◌else◌, contains, show,
}
use threat_intel_arbiter.Access.Users.{Accounts, Outcome, done, refused, seed_default_admin}
use threat_intel_arbiter.Database.Statements.{Statement, migrations}

-- What the database makes of a statement.
pub data Executed {ℓ} (Schema : Type ℓ) : Type ℓ where
  changed : Schema → Executed Schema
  rejected : String → Executed Schema

-- The schema, or the number of the migration that failed and its error.
pub data Migrated {ℓ} (Schema : Type ℓ) : Type ℓ where
  migrated : Schema → Migrated Schema
  stuck : ℕ → String → Migrated Schema

pub data Opened {ℓ} (Schema : Type ℓ) : Type ℓ where
  opened : Schema → Accounts → Opened Schema
  unopened : String → Opened Schema

module _ {ℓ} {Schema : Type ℓ} (exec : Statement → Schema → Executed Schema) where
  -- The loop over the migrations, with the number of the next one.
  unfoldable pub migrate_from : ℕ → List Statement → Schema → Migrated Schema
  unfolding contains
  migrate_from i [] schema = migrated schema
  migrate_from i (m ∷ ms) schema = elim (exec m schema) [
    | changed schema' ↦ migrate_from (i + 1) ms schema'
    | rejected reason ↦
        let rest = migrate_from (i + 1) ms schema in
        if contains reason "duplicate column" then rest else stuck i reason
  ]

  unfoldable pub migrate : Schema → Migrated Schema
  unfolding migrate_from migrations
  migrate schema = migrate_from 1 migrations schema

  -- `connect` and `ping` are the errors of the driver, if there are any.
  unfoldable pub open_db :
      Option String → Option String → (String → String) → String → Schema → Accounts → Opened Schema
  unfolding migrate seed_default_admin
  open_db connect ping hash_password password schema accounts = elim connect [
    | some reason ↦ unopened ("open sqlite: " ++ reason)
    | none ↦ elim ping [
      | some reason ↦ unopened ("ping sqlite: " ++ reason)
      | none ↦ elim (migrate schema) [
        | stuck i reason ↦ unopened ("migrate: migration " ++ (show i ++ (": " ++ reason)))
        | migrated schema' ↦ elim (seed_default_admin hash_password password accounts) [
          | refused reason ↦ unopened ("seed admin: " ++ reason)
          | done accounts' ↦ opened schema' accounts'
        ]
      ]
    ]
  ]
