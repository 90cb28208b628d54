-- ===== src/Database/Sample.antt =====
-- internal/store/db.go: a database that holds the names of what has been made, as SQLite would.
use Prim.Native.String.{◌++◌}
use mathlib.Core.List.{List, [], ◌∷◌}
use threat_intel_arbiter.Common.{
  ◌≡◌, ◌⊎◌, ◌∙◌, refl, ap, sym, Bool, true, false, String, eq_refl, contains, if◌then◌else◌,
  Bool-cases, inl, inr, arith,
}
use threat_intel_arbiter.Common.Dict.{has}
use threat_intel_arbiter.Database.Statements.{Statement, create_table, create_index, add_column}
use threat_intel_arbiter.Database.{Executed, changed, rejected}

abbrev pub key : Statement → String
key (create_table name columns) = name
key (create_index name table column) = name
key (add_column table column type) = table ++ ("." ++ column)

abbrev pub is_column : Statement → Bool
is_column (create_table name columns) = false
is_column (create_index name table column) = false
is_column (add_column table column type) = true

abbrev pub present : Bool → List String → Executed (List String)
present true s = rejected "duplicate column name"
present false s = changed s

unfoldable pub exec_key : Bool → String → List String → Executed (List String)
exec_key column k s = if has k s then present column s else changed (k ∷ s)

unfoldable pub exec : Statement → List String → Executed (List String)
unfolding exec_key
exec m s = exec_key (is_column m) (key m) s

abbrev pub holds : Statement → List String → Bool
holds m s = has (key m) s

present_changed : (column : Bool) (s s' : List String) → present column s ≡ changed s' → s ≡ s'
present_changed true s s' h =
    let wrong : ◌≡◌ {A = Executed (List String)} (rejected _) (changed s') = h in absurd cc
present_changed false s s' h = cc

-- What an accepted statement leaves.
exec_cases :
    (m : Statement) (s s' : List String)
    → exec m s ≡ changed s'
    → ((has (key m) s ≡ true) × (s ≡ s')) ⊎ (key m ∷ s ≡ s')
unfolding exec exec_key
exec_cases m s s' h = elim (Bool-cases (has (key m) s)) [
  | inl e ↦ inl (e, present_changed (is_column m) s s' (rw (exec, e) at h))
  | inr e ↦
      let same : ◌≡◌ {A = Executed (List String)} (changed (key m ∷ s)) (changed s') =
        rw (exec, e) at h in
      inr cc
]

pub makes : (m : Statement) (s s' : List String) → exec m s ≡ changed s' → holds m s' ≡ true
unfolding has
makes m s s' h = elim (exec_cases m s s' h) [
  | inl (e, same) ↦ ap (has (key m)) (sym same) ∙ e
  | inr same ↦ ap (has (key m)) (sym same) ∙ ground (arith, eq_refl (key m))
]

pub keeps :
    (m k : Statement) (s s' : List String)
    → exec m s ≡ changed s'
    → holds k s ≡ true
    → holds k s' ≡ true
unfolding has
keeps m k s s' h there = elim (exec_cases m s s' h) [
  | inl (e, same) ↦ ap (has (key k)) (sym same) ∙ there
  | inr same ↦ ap (has (key k)) (sym same) ∙ ground (arith, there)
]

pub duplicate :
    (m : Statement) (s : List String) (reason : String)
    → exec m s ≡ rejected reason
    → contains reason "duplicate column" ≡ true
    → holds m s ≡ true
unfolding exec exec_key
duplicate m s reason h d = elim (Bool-cases (has (key m) s)) [
  | inl e ↦ e
  | inr e ↦
      let wrong : ◌≡◌ {A = Executed (List String)} (changed _) (rejected reason) =
        rw (exec, e) at h in
      absurd cc
]

pub again :
    (m : Statement) (s : List String)
    → holds m s ≡ true
    → (exec m s ≡ changed s)
      ⊎ ((reason : String) × (exec m s ≡ rejected reason)
          × (contains reason "duplicate column" ≡ true))
unfolding exec exec_key contains
again m s e = elim (Bool-cases (is_column m)) [
  | inl column ↦ inr ("duplicate column name", rw (exec, e, column) refl, refl)
  | inr other ↦ inl (rw (exec, e, other) refl)
]

abbrev pub schema : List String
schema =
    "settings" ∷ "idx_sessions_expires" ∷ "sessions" ∷ "users" ∷ "alerts.action"
    ∷ "idx_dedup_created" ∷ "idx_alerts_severity" ∷ "idx_alerts_status" ∷ "idx_events_timestamp"
    ∷ "idx_events_source" ∷ "state" ∷ "dedup_hashes" ∷ "tech_stack" ∷ "alerts" ∷ "events" ∷ []
