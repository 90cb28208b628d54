-- ===== src/Access/Guards/Revocation.antt =====
-- internal/api/auth.go: who passes the middleware, and that a changed account loses its sessions.
use threat_intel_arbiter.Common.{
  true, false, ◌≡◌, ◌≢◌, ◌∙◌, sym, ap, subst, ◌↔◌, ◌⊎◌, Option, none, some, String, ◌==◌, inl, inr,
  Bool-cases, Option-cases, eq_iff, arith,
}
use threat_intel_arbiter.Model.{Time}
use threat_intel_arbiter.Access.Users.{
  User, Accounts, Outcome, done, refused, get_user, get_session, delete_sessions_for_user,
}
use threat_intel_arbiter.Access.Users.Sessions.{revoked}
use threat_intel_arbiter.Access.Guards.Cookie.{
  session_found, session_from_cookie_cases, get_user_username,
}
use threat_intel_arbiter.Access.Guards.{
  Request, session_from_cookie, has_key, passed, forbidden, require_admin, UserCall, post, put, del,
  Status, status_ok, status_bad_request, status_server_error, reply, is_role, handle_admin_users,
}

has_key_iff :
    (admin_key : String) (r : Request)
    → (has_key admin_key r ≡ true) ↔ ((admin_key ≢ "") × (r.arbiter_key ≡ admin_key))
has_key_iff admin_key r = (
  λ h. ground (arith, eq_iff admin_key "", eq_iff r.arbiter_key admin_key),
  λ h. ground (arith, eq_iff admin_key "", eq_iff r.arbiter_key admin_key),
)

-- The request's session is that of an account whose role is admin now.
abbrev pub IsAdminSession : (String → String) → Time → Request → Accounts → Type 0
IsAdminSession sha256_hex now r db =
    (token : String) × (name : String) × (old_role : String) × (u : User) × (r.cookie ≡ some token)
    × ((get_session sha256_hex now token db).1 ≡ some (name, old_role))
    × (get_user name db.users ≡ some u)
    × (u.role ≡ "admin")

admin_by_session :
    (sha256_hex : String → String) (now : Time) (admin_key : String) (r : Request) (db : Accounts)
    → has_key admin_key r ≡ false
    → (require_admin sha256_hex now admin_key r db).1 ≡ passed
    → IsAdminSession sha256_hex now r db
unfolding require_admin
admin_by_session sha256_hex now admin_key r db no_key h =
    elim (Option-cases (session_from_cookie sha256_hex now r db).1) [
      | inl e ↦ let refusal : forbidden ≡ passed = rw (no_key, e, require_admin) at h in cc
      | inr ((name, role), e) ↦ elim (Bool-cases (role == "admin")) [
        | inl a ↦
            let (token, asked, old, u, c, session, found, named, same) =
              session_from_cookie_cases sha256_hex now r db name role e in
            (token, asked, old, u, c, session, found, same ∙ (eq_iff role "admin").0 a)
        | inr a ↦ let refusal : forbidden ≡ passed = rw (no_key, e, a, require_admin) at h in cc
      ]
    ]

-- The account that a call changes or deletes.
abbrev pub subject : UserCall → Option String
subject (post name password role) = none
subject (put name password role) = some name
subject (del name) = some name

-- A request passes the middleware for admins exactly when it has the admin key, where one is set, or
-- its cookie gives a session whose user has the role of an admin now, whatever it was at the login.
pub require_admin_iff :
    (sha256_hex : String → String) (now : Time) (admin_key : String) (r : Request) (db : Accounts)
    → ((require_admin sha256_hex now admin_key r db).1 ≡ passed)
      ↔ (((admin_key ≢ "") × (r.arbiter_key ≡ admin_key)) ⊎ IsAdminSession sha256_hex now r db)
unfolding require_admin
require_admin_iff sha256_hex now admin_key r db = (
  λ h. elim (Bool-cases (has_key admin_key r)) [
    | inl k ↦ inl ((has_key_iff admin_key r).0 k)
    | inr k ↦ inr (admin_by_session sha256_hex now admin_key r db k h)
  ],
  elim [
    | inl k ↦ rw ((has_key_iff admin_key r).1 k)
    | inr (token, name, old, u, c, session, found, admin) ↦
        let e = session_found sha256_hex now r db token c name old u session found in
        let a : (u.role == "admin") ≡ true = (eq_iff u.role "admin").1 admin in
        elim (Bool-cases (has_key admin_key r)) [
          | inl k ↦ rw k
          | inr k ↦ rw (k, e, a, require_admin)
        ]
  ],
)

reply_cases :
    (error : Status) (after : Accounts → Accounts) (db db' : Accounts) (o : Outcome)
    → error ≢ status_ok
    → reply error after db o ≡ (status_ok, db')
    → (db1 : Accounts) × (db' ≡ after db1)
reply_cases error after db db' (refused reason) ne h = absurd (ne (ap (λ r. r.0) h))
reply_cases error after db db' (done db1) ne h = (db1, sym (ap (λ r. r.1) h))

cleared_sessions :
    (hash_password : String → String) (call : UserCall) (name : String) (db db' : Accounts)
    → subject call ≡ some name
    → handle_admin_users hash_password call db ≡ (status_ok, db')
    → (db1 : Accounts) × (db' ≡ delete_sessions_for_user name db1)
unfolding handle_admin_users
cleared_sessions hash_password (post n password role) name db db' target h = cc
cleared_sessions hash_password (put n password role) name db db' target h =
    let same : n ≡ name = cc in
    elim (Bool-cases (is_role role)) [
      | inl e ↦
          subst (λ m. (db1 : Accounts) × (db' ≡ delete_sessions_for_user m db1)) same
            (reply_cases status_server_error (delete_sessions_for_user n) db db' _ (λ e. cc)
              (rw (e, handle_admin_users) at h))
      | inr e ↦
          let refusal : ◌≡◌ {A = Status} status_bad_request status_ok =
            ap (λ r. r.0) (rw (e, handle_admin_users) at h) in
          cc
    ]
cleared_sessions hash_password (del n) name db db' target h =
    let same : n ≡ name = cc in
    subst (λ m. (db1 : Accounts) × (db' ≡ delete_sessions_for_user m db1)) same
      (reply_cases status_bad_request (delete_sessions_for_user n) db db' _ (λ e. cc) h)

-- After a successful call of the handler that changes or deletes an account, no cookie gives a
-- session of that account: everyone logged in to it has to log in again.
pub changed_user_logged_out :
    (sha256_hex hash_password : String → String) (now : Time) (call : UserCall) (r : Request)
    (name role : String) (db db' : Accounts)
    → handle_admin_users hash_password call db ≡ (status_ok, db')
    → subject call ≡ some name
    → ¬ ((session_from_cookie sha256_hex now r db').1 ≡ some (name, role))
changed_user_logged_out sha256_hex hash_password now call r name role db db' success target
      session =
    let (db1, cleared) = cleared_sessions hash_password call name db db' target success in
    let (token, asked, old, u, c, granted, found, named, same) =
      session_from_cookie_cases sha256_hex now r db' name role session in
    let asked_name : asked ≡ name = sym (get_user_username asked db'.users u found) ∙ named in
    revoked sha256_hex now token name old db1 (
      subst (λ d. (get_session sha256_hex now token d).1 ≡ some (name, old)) cleared
        (subst (λ n. (get_session sha256_hex now token db').1 ≡ some (n, old)) asked_name granted))
