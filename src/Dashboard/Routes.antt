-- ===== src/Dashboard/Routes.antt =====
-- internal/api/server.go: the patterns that the server registers, the middleware in front of each
-- handler, and the page at the root. The choice that `http.ServeMux` makes among the patterns is an
-- argument; what a handler does once it is reached stands in the modules of the handlers.
pub mod Guarded
mod Tests
use mathlib.Core.List.{List, [], ◌∷◌}
use threat_intel_arbiter.Common.{
  Bool, true, false, Option, none, some, String, ◌==◌, if◌then◌else◌, has_prefix, has_suffix,
}
use threat_intel_arbiter.Common.Dict.{lookup}
use threat_intel_arbiter.Model.{Time}
use threat_intel_arbiter.Access.Users.{Accounts}
use threat_intel_arbiter.Access.Guards.{
  Request, Verdict, passed, unauthorized, redirected, forbidden, require_auth, require_admin,
}

pub data Handler : Type 0 where
  handle_login : Handler
  handle_logout : Handler
  handle_session : Handler
  serve_dashboard : Handler
  handle_health : Handler
  handle_status : Handler
  handle_alerts : Handler
  handle_alert_detail : Handler
  handle_tech_stack : Handler
  handle_stats : Handler
  handle_get_settings : Handler
  handle_admin_import : Handler
  handle_admin_ack : Handler
  handle_admin_pull : Handler
  handle_admin_tech_stack : Handler
  handle_admin_users : Handler
  handle_admin_settings : Handler

-- What stands in front of a handler: the headers that `secure` sets, `requireAuth`, `requireAdmin`.
pub data Handling : Type 0 where
  handle : Handler → Handling
  secure : Handling → Handling
  with_auth : Handling → Handling
  with_admin : Handling → Handling

unfoldable pub routes : List (String × Handling)
routes =
    ("/login", secure (handle handle_login))
    ∷ ("/auth/login", secure (handle handle_login))
    ∷ ("/auth/logout", secure (handle handle_logout))
    ∷ ("/auth/session", secure (handle handle_session))
    ∷ ("/", secure (with_auth (handle serve_dashboard)))
    ∷ ("/health", secure (handle handle_health))
    ∷ ("/api/status", with_auth (handle handle_status))
    ∷ ("/api/alerts", with_auth (handle handle_alerts))
    ∷ ("/api/alerts/", with_auth (handle handle_alert_detail))
    ∷ ("/api/techstack", with_auth (handle handle_tech_stack))
    ∷ ("/api/stats", with_auth (handle handle_stats))
    ∷ ("/api/settings", with_auth (handle handle_get_settings))
    ∷ ("/admin/import", with_auth (with_admin (handle handle_admin_import)))
    ∷ ("/admin/ack/", with_auth (with_admin (handle handle_admin_ack)))
    ∷ ("/admin/pull", with_auth (with_admin (handle handle_admin_pull)))
    ∷ ("/admin/techstack", with_auth (with_admin (handle handle_admin_tech_stack)))
    ∷ ("/admin/users", with_auth (with_admin (handle handle_admin_users)))
    ∷ ("/admin/settings", with_auth (with_admin (handle handle_admin_settings)))
    ∷ []

-- The handler that a request comes to, or the verdict of the middleware that answers it, or no
-- pattern for the path; with the headers set so far.
pub data Dispatch : Type 0 where
  reached : Handler → Dispatch
  stopped : Verdict → Dispatch
  unrouted : Dispatch

pub record Gate : Type 0 where
  pub sha256_hex : String → String
  pub now : Time
  pub admin_key : String

-- Only a request that passes goes on.
unfoldable pub next_if_passed : Verdict → Accounts → Accounts × Dispatch → Accounts × Dispatch
next_if_passed passed db rest = rest
next_if_passed unauthorized db rest = (db, stopped unauthorized)
next_if_passed redirected db rest = (db, stopped redirected)
next_if_passed forbidden db rest = (db, stopped forbidden)

unfoldable pub run : Gate → Request → Handling → Accounts → Accounts × Dispatch
unfolding require_auth require_admin next_if_passed
run g r (handle h) db = (db, reached h)
run g r (secure next) db = run g r next db
run g r (with_auth next) db =
    let (db', verdict) = require_auth g.sha256_hex g.now g.admin_key r db in
    next_if_passed verdict db' (run g r next db')
run g r (with_admin next) db =
    let (db', verdict) = require_admin g.sha256_hex g.now g.admin_key r db in
    next_if_passed verdict db' (run g r next db')

-- A request, with the pattern that the mux picks for its path.
unfoldable pub serve :
    (List (String × Handling) → String → Option (String × Handling))
    → Gate
    → Request
    → Accounts
    → Accounts × Dispatch
unfolding run routes
serve pick g r db = elim (pick routes r.path) [
  | none ↦ (db, unrouted)
  | some (pattern, handling) ↦ run g r handling db
]

-- A pattern that ends in a slash is for every path below it, another one for that path alone.
unfoldable pub is_for : String → String → Bool
unfolding has_prefix has_suffix
is_for path pattern = if has_suffix pattern "/" then has_prefix path pattern else path == pattern

-- What serveDashboard answers: `true` is the page, `false` is not found.
abbrev pub dashboard_page : Request → Bool
dashboard_page r = r.path == "/"
