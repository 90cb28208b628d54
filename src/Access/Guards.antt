-- ===== src/Access/Guards.antt =====
-- internal/api/auth.go: the session of a request, the middleware that asks for a session or the admin
-- key, and the handler for the user accounts.
pub mod Cookie
pub mod Revocation
use threat_intel_arbiter.Common.{
  Bool, true, false, not, ◌&&◌, ◌||◌, List, [], ◌∷◌, Option, none, some, String, ◌==◌,
  if◌then◌else◌, has_prefix,
}
use threat_intel_arbiter.Model.{Time}
use threat_intel_arbiter.Access.Users.{
  User, Accounts, Outcome, done, refused, get_user, get_session, delete_session, create_user,
  update_user, delete_user, delete_sessions_for_user,
}

-- What the middleware reads of a request: the session cookie, the key header and the path.
pub record Request : Type 0 where
  pub cookie : Option String
  pub arbiter_key : String
  pub path : String

unfoldable pub session_from_cookie :
    (String → String) → Time → Request → Accounts → Accounts × Option (String × String)
unfolding get_session get_user delete_session
session_from_cookie sha256_hex now r db = elim r.cookie [
  | none ↦ (db, none)
  | some token ↦
      let (db', session) = get_session sha256_hex now token db in
      elim session [
        | none ↦ (db', none)
        | some (name, old_role) ↦ elim (get_user name db'.users) [
          | none ↦ (delete_session sha256_hex token db', none)
          | some user ↦ (db', some (user.username, user.role))
        ]
      ]
]

-- The constant-time comparison of two texts is their equality.
abbrev pub has_key : String → Request → Bool
has_key admin_key r = not (admin_key == "") && (r.arbiter_key == admin_key)

pub data Verdict : Type 0 where
  passed : Verdict
  unauthorized : Verdict
  redirected : Verdict
  forbidden : Verdict

unfoldable pub require_auth :
    (String → String) → Time → String → Request → Accounts → Accounts × Verdict
unfolding session_from_cookie has_prefix
require_auth sha256_hex now admin_key r db =
    let (db', session) = session_from_cookie sha256_hex now r db in
    elim session [
      | some account ↦ (db', passed)
      | none ↦
          if has_key admin_key r
          then (db', passed)
          else if has_prefix r.path "/api/" || has_prefix r.path "/admin/"
          then (db', unauthorized)
          else (db', redirected)
    ]

abbrev pub is_admin_role : Option (String × String) → Bool
is_admin_role none = false
is_admin_role (some (name, role)) = role == "admin"

unfoldable pub require_admin :
    (String → String) → Time → String → Request → Accounts → Accounts × Verdict
unfolding session_from_cookie
require_admin sha256_hex now admin_key r db =
    if has_key admin_key r
    then (db, passed)
    else let (db', session) = session_from_cookie sha256_hex now r db in
      if is_admin_role session then (db', passed) else (db', forbidden)

-- The calls of the handler for user accounts, with their decoded bodies.
pub data UserCall : Type 0 where
  post : String → String → String → UserCall
  put : String → String → String → UserCall
  del : String → UserCall

pub data Status : Type 0 where
  status_ok : Status
  status_bad_request : Status
  status_conflict : Status
  status_server_error : Status

abbrev is_role : String → Bool
is_role role = role == "admin" || role == "reader"

-- An error leaves the accounts; a success goes on to the sessions.
abbrev reply : Status → (Accounts → Accounts) → Accounts → Outcome → Status × Accounts
reply error after db (refused reason) = (error, db)
reply error after db (done db') = (status_ok, after db')

unfoldable pub handle_admin_users : (String → String) → UserCall → Accounts → Status × Accounts
unfolding create_user update_user delete_user delete_sessions_for_user
handle_admin_users hash_password (post name password role) db =
    if name == "" || password == ""
    then (status_bad_request, db)
    else reply status_conflict (λ db'. db') db
        (create_user hash_password name password (if is_role role then role else "reader") db)
handle_admin_users hash_password (put name password role) db =
    if is_role role
    then reply status_server_error (delete_sessions_for_user name) db
        (update_user hash_password name password role db)
    else (status_bad_request, db)
handle_admin_users hash_password (del name) db =
    reply status_bad_request (delete_sessions_for_user name) db (delete_user name db)
