-- ===== src/Dashboard/Stack.antt =====
-- internal/store/techstack.go and the tech stack handler of internal/api/server.go: the table as its
-- rows, which do not have the date of the last verification; the numbers that SQLite gives to rows, and
-- gives anew at an import, are left out, since nothing reads them. What `ORDER BY name` does to rows is an
-- argument, `order`.
pub mod Import
use Prim.Native.String.{◌++◌ as append}
use mathlib.Core.List.{List, [], ◌∷◌, ◌++◌}
use threat_intel_arbiter.Common.{
  ℕ, Bool, true, false, not, ◌||◌, Option, none, some, String, ◌==◌, if◌then◌else◌, any, select,
  map, length, to_lower,
}
use threat_intel_arbiter.Common.Dict.{has}
use threat_intel_arbiter.Model.{App}

abbrev pub stack_key : App → String
stack_key app = append app.vendor (append ":" app.name)

-- What a row keeps of an app.
abbrev pub stored : App → App
stored app = record app { last_verified = "" }

unfoldable pub list_tech_stack : (List App → List App) → List App → List App
list_tech_stack order rows = order rows

-- How many apps are added and removed, and the new rows, when SQLite gives no error.
unfoldable pub replace_stack : (List App → List App) → List App → List App → ℕ × ℕ × List App
unfolding has select list_tech_stack
replace_stack order apps rows =
    let existing = list_tech_stack order rows in
    (
      length (select (λ app. not (has (stack_key app) (map stack_key existing))) apps),
      length (select (λ app. not (has (stack_key app) (map stack_key apps))) existing),
      map stored apps,
    )

-- The step of an import at which SQLite gives an error, if it gives one. The insertion that fails is
-- that of the first app with the name.
pub data ImportFault : Type 0 where
  no_fault : ImportFault
  begin_fails : String → ImportFault
  list_fails : String → ImportFault
  delete_fails : String → ImportFault
  prepare_fails : String → ImportFault
  insert_fails : String → String → ImportFault
  commit_fails : String → ImportFault

-- The error of an import of the apps.
unfoldable pub import_reason : ImportFault → List App → Option String
unfolding any
import_reason no_fault apps = none
import_reason (begin_fails reason) apps = some (append "begin tx: " reason)
import_reason (list_fails reason) apps = some (append "list existing: " reason)
import_reason (delete_fails reason) apps = some (append "delete old: " reason)
import_reason (prepare_fails reason) apps = some (append "prepare insert: " reason)
import_reason (insert_fails name reason) apps =
    if any (λ app. app.name == name) apps
    then some (append "insert " (append name (append ": " reason)))
    else none
import_reason (commit_fails reason) apps = some (append "commit: " reason)

-- The error, or how many apps are added and removed.
pub data ImportOutcome : Type 0 where
  import_error : String → ImportOutcome
  import_done : ℕ → ℕ → ImportOutcome

-- `ImportTechStack`: an error at any step rolls the transaction back, so that the rows are as before.
unfoldable pub import_tech_stack :
    ImportFault → (List App → List App) → List App → List App → ImportOutcome × List App
unfolding import_reason replace_stack
import_tech_stack fault order apps rows = elim (import_reason fault apps) [
  | some reason ↦ (import_error reason, rows)
  | none ↦
      let (added, removed, rows') = replace_stack order apps rows in
      (import_done added removed, rows')
]

-- A vendor or a name that is equal in any case.
unfoldable pub find_apps_by_vendor_product :
    (List App → List App) → String → String → List App → List App
unfolding select to_lower
find_apps_by_vendor_product order vendor product rows = order (
    select (λ app. to_lower app.vendor == to_lower vendor || to_lower app.name == to_lower product)
      rows)

-- A call with its decoded body; one that cannot be decoded is `none`.
pub data StackCall : Type 0 where
  post : Option App → StackCall
  put : Option App → StackCall
  del : Option String → StackCall
  other : StackCall

pub data StackReply : Type 0 where
  done : StackReply
  invalid : StackReply
  name_required : StackReply
  not_found : StackReply
  method_not_allowed : StackReply

-- `UPDATE tech_stack SET … WHERE name = ?` writes every row with the name.
unfoldable pub update_row : App → App → App
update_row app row = if row.name == app.name then stored app else row

unfoldable pub handle_admin_tech_stack : StackCall → List App → StackReply × List App
unfolding update_row any select
handle_admin_tech_stack (post none) rows = (invalid, rows)
handle_admin_tech_stack (post (some app)) rows =
    if app.name == "" then (name_required, rows) else (done, rows ++ (stored app ∷ []))
handle_admin_tech_stack (put none) rows = (invalid, rows)
handle_admin_tech_stack (put (some app)) rows =
    if app.name == ""
    then (name_required, rows)
    else if any (λ row. row.name == app.name) rows
    then (done, map (update_row app) rows)
    else (not_found, rows)
handle_admin_tech_stack (del none) rows = (invalid, rows)
handle_admin_tech_stack (del (some name)) rows =
    if name == ""
    then (name_required, rows)
    else if any (λ row. row.name == name) rows
    then (done, select (λ row. not (row.name == name)) rows)
    else (not_found, rows)
handle_admin_tech_stack other rows = (method_not_allowed, rows)
