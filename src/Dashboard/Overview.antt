-- ===== src/Dashboard/Overview.antt =====
-- internal/api/server.go and auth.go: the handlers for the status, the session, the list and the import
-- of the tech stack, and the pull. A body that is read as CSV is given by its header and rows.
pub mod Importing
use mathlib.Core.List.{List, [], ◌∷◌}
use threat_intel_arbiter.Common.{
  ℕ, Bool, true, false, not, Option, none, some, String, ◌==◌, has_prefix, if◌then◌else◌, length,
  select,
}
use threat_intel_arbiter.Model.{Time, App, Alert}
use threat_intel_arbiter.Alerts.{AlertTables}
use threat_intel_arbiter.Access.Users.{Accounts}
use threat_intel_arbiter.Access.Guards.{Request, session_from_cookie}
use threat_intel_arbiter.Inventory.{Row, Stack, parsed, error_at, parse_tech_stack}
use threat_intel_arbiter.Dashboard.Stack.{
  list_tech_stack, ImportFault, ImportOutcome, import_error, import_done, import_tech_stack,
}

pub record Overview : Type 0 where
  pub alerts_total : ℕ
  pub alerts_new : ℕ
  pub last_misp_pull : String
  pub kev_entries : ℕ
  pub dedup_entries : ℕ
  pub cs_mock : Bool

-- SQLite's LIKE does not look at the case of a letter: `like_cve` is the test `LIKE 'CVE-%'`.
unfoldable pub handle_status : (String → Bool) → (String → String) → String → AlertTables → Overview
unfolding select
handle_status like_cve getenv cursor db = record {
  alerts_total = length db.alerts;
  alerts_new = length (select (λ a. a.status == "new") db.alerts);
  last_misp_pull = cursor;
  kev_entries = length (select (λ a. like_cve a.event_id) db.alerts);
  dedup_entries = length db.dedup_hashes;
  cs_mock = getenv "CROWDSTRIKE_CLIENT_ID" == "";
}

-- The apps and their number.
unfoldable pub handle_tech_stack : (List App → List App) → List App → List App × ℕ
unfolding list_tech_stack
handle_tech_stack order rows = let apps = list_tech_stack order rows in (apps, length apps)

-- The name and the role, or no session; with the accounts that the look at the session leaves.
unfoldable pub handle_session :
    (String → String) → Time → Request → Accounts → Accounts × Option (String × String)
unfolding session_from_cookie
handle_session sha256_hex now r db = session_from_cookie sha256_hex now r db

pub data ImportReply : Type 0 where
  bad_method : ImportReply
  bad_header : ImportReply
  bad_row : ℕ → ImportReply
  import_failed : String → ImportReply
  imported : ℕ → ℕ → ℕ → ImportReply

-- The reply to an import of so many apps.
unfoldable pub import_reply : ℕ → ImportOutcome → ImportReply
import_reply total (import_error reason) = import_failed reason
import_reply total (import_done added removed) = imported total added removed

-- What is done with the apps of the body.
unfoldable pub import_stack :
    ImportFault → (List App → List App) → Stack → List App → ImportReply × List App
unfolding import_tech_stack import_reply
import_stack fault order (error_at line) rows = (bad_row line, rows)
import_stack fault order (parsed apps) rows =
    let (outcome, rows') = import_tech_stack fault order apps rows in
    (import_reply (length apps) outcome, rows')

-- A body without a header is `none`.
unfoldable pub handle_admin_import :
    ImportFault
    → (List App → List App)
    → String
    → Option (List String × List Row)
    → List App
    → ImportReply × List App
unfolding import_stack parse_tech_stack
handle_admin_import fault order method body rows =
    if not (method == "POST") then (bad_method, rows) else elim body [
      | none ↦ (bad_header, rows)
      | some (header, records) ↦ import_stack fault order (parse_tech_stack header records) rows
    ]

-- Whether the reply says that a pull has been triggered; the queue of events is not touched.
unfoldable pub handle_admin_pull : String → Bool
handle_admin_pull method = method == "POST"
