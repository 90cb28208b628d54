-- ===== src/Access/Login/Session.antt =====
-- internal/api/auth.go: what a successful login opens.
use threat_intel_arbiter.Common.{
  ◌+◌, ◌*◌, ◌≤◌, true, false, ◌≡◌, ◌∙◌, sym, refl, ap, ap₂, subst, List, [], ◌∷◌, none, some,
  String, ◌==◌, map, inl, inr, Bool-cases, Option-cases,
}
use threat_intel_arbiter.Model.{Time, hour}
use threat_intel_arbiter.Access.RateLimit.{allow, five_minutes}
use threat_intel_arbiter.Access.Users.{
  User, Accounts, get_user, verify_password, find_session, create_session, whole_seconds,
}
use threat_intel_arbiter.Access.Users.Sessions.{get_session-create_session}
use threat_intel_arbiter.Access.Login.{
  Server, Response, Hashes, Times, handle_login, login_account, finish_login, upgrade_hash,
  set_hash, is_legacy_hash, ip_key, user_key, logged_in, invalid_credentials, too_many_attempts,
}
use threat_intel_arbiter.Access.Guards.Cookie.{get_user_username, session_found}
use threat_intel_arbiter.Access.Guards.{Request, session_from_cookie}

get_user-map :
    (f : User → User)
    → ((u : User) → (f u).username ≡ u.username)
    → (name : String) (us : List User) (u : User) → get_user name us ≡ some u
    → get_user name (map f us) ≡ some (f u)
unfolding get_user
get_user-map f same name [] u h = cc
get_user-map f same name (x ∷ us) u h = elim (Bool-cases (x.username == name)) [
  | inl e ↦
      let found : some x ≡ some u = rw e at h in
      let it : x ≡ u = cc in
      let key : ((f x).username == name) ≡ true = ap (λ n. n == name) (same x) ∙ e in
      rw key (ap (λ y. some (f y)) it)
  | inr e ↦
      let key : ((f x).username == name) ≡ false = ap (λ n. n == name) (same x) ∙ e in
      rw key (get_user-map f same name us u (rw e at h))
]

set_hash_username : (name hash : String) (u : User) → (set_hash name hash u).username ≡ u.username
unfolding set_hash
set_hash_username name hash u = elim (Bool-cases (u.username == name)) [
  | inl e ↦ rw e
  | inr e ↦ rw e
]

set_hash_role : (name hash : String) (u : User) → (set_hash name hash u).role ≡ u.role
unfolding set_hash
set_hash_role name hash u = elim (Bool-cases (u.username == name)) [ inl e ↦ rw e | inr e ↦ rw e ]

-- The user found after the upgrade of a hash has the same role.
upgrade_hash_lem :
    (h : Hashes) (user : User) (name password : String) (db : Accounts)
    → get_user name db.users ≡ some user
    → ((upgrade_hash h user password db).sessions ≡ db.sessions)
      × ((u : User) × (get_user name (upgrade_hash h user password db).users ≡ some u)
          × (u.username ≡ user.username)
          × (u.role ≡ user.role))
unfolding upgrade_hash
upgrade_hash_lem h user name password db found =
    elim (Bool-cases (is_legacy_hash user.password_hash)) [
      | inl e ↦
          let f = set_hash user.username (h.hash_password password) in
          rw e (
            refl,
            (
              f user,
              get_user-map f (set_hash_username user.username (h.hash_password password)) name
                  db.users user found,
              set_hash_username user.username (h.hash_password password) user,
              set_hash_role user.username (h.hash_password password) user,
            ),
          )
      | inr e ↦ rw e (refl, (user, found, refl, refl))
    ]

-- How a login can succeed: the account exists and has the password.
login_account_cases :
    (h : Hashes) (t : Times) (ip name password token user role : String) (s s' : Server)
    → login_account h t ip name password token s ≡ (logged_in token user role, s')
    → (u : User) × (get_user name s.db.users ≡ some u)
      × (verify_password h.verify_hash name password s.db ≡ true)
      × (u.username ≡ user)
      × (u.role ≡ role)
      × (s'.db
          ≡ create_session h.sha256_hex t.at_session token user role
              (upgrade_hash h u password s.db))
unfolding login_account finish_login
login_account_cases h t ip name password token user role s s' done =
    elim (Bool-cases (allow t.at_user (user_key name) 20 five_minutes s.attempts).1) [
      | inr e ↦
          let answer : ◌≡◌ {A = Response} too_many_attempts (logged_in token user role) =
            ap (λ r. r.0) (rw (e, login_account) at done) in
          cc
      | inl e ↦ elim (Option-cases (get_user name s.db.users)) [
        | inl absent ↦
            let answer : ◌≡◌ {A = Response} invalid_credentials (logged_in token user role) =
              ap (λ r. r.0) (rw (e, absent, login_account) at done) in
            cc
        | inr (u, present) ↦ elim (Bool-cases (verify_password h.verify_hash name password s.db)) [
          | inl right ↦
              let opened = rw (e, present, right, login_account) at done in
              let answer : ◌≡◌ {A = Response} (logged_in token u.username u.role)
                  (logged_in token user role) =
                ap (λ r. r.0) opened in
              let same_name : u.username ≡ user = cc in
              let same_role : u.role ≡ role = cc in
              (
                u,
                present,
                right,
                same_name,
                same_role,
                sym (ap (λ r. r.1.db) opened)
                    ∙ ap₂
                        (λ n r.
                          create_session h.sha256_hex t.at_session token n r
                            (upgrade_hash h u password s.db))
                        same_name same_role,
              )
          | inr wrong ↦
              let answer : ◌≡◌ {A = Response} invalid_credentials (logged_in token user role) =
                ap (λ r. r.0) (rw (e, present, wrong, login_account) at done) in
              cc
        ]
      ]
    ]

handle_login_cases :
    (h : Hashes) (t : Times) (ip name password token user role : String) (s s' : Server)
    → handle_login h t ip (some (name, password)) token s ≡ (logged_in token user role, s')
    → (u : User) × (get_user name s.db.users ≡ some u)
      × (verify_password h.verify_hash name password s.db ≡ true)
      × (u.username ≡ user)
      × (u.role ≡ role)
      × (s'.db
          ≡ create_session h.sha256_hex t.at_session token user role
              (upgrade_hash h u password s.db))
unfolding handle_login
handle_login_cases h t ip name password token user role s s' done =
    elim (Bool-cases (allow t.at_ip (ip_key ip) 50 five_minutes s.attempts).1) [
      | inl e ↦
          login_account_cases h t ip name password token user role
            (record s { attempts = (allow t.at_ip (ip_key ip) 50 five_minutes s.attempts).0 }) s'
            (rw (e, handle_login) at done)
      | inr e ↦
          let answer : ◌≡◌ {A = Response} too_many_attempts (logged_in token user role) =
            ap (λ r. r.0) (rw (e, handle_login) at done) in
          cc
    ]

-- When a login is answered with success, the account has the password; and from then until the
-- session expires, a request with the new cookie has the session of that account with its role, if
-- no row had the hash of the token before.
pub login_opens_session :
    (h : Hashes) (t : Times) (ip name password token user role key path : String) (s s' : Server)
    (later : Time)
    → handle_login h t ip (some (name, password)) token s ≡ (logged_in token user role, s')
    → find_session (h.sha256_hex token) s.db.sessions ≡ none
    → later ≤ whole_seconds (t.at_session + 12 * hour)
    → (verify_password h.verify_hash name password s.db ≡ true)
      × ((session_from_cookie h.sha256_hex later
            (record { cookie = some token; arbiter_key = key; path = path })
            s'.db).1
          ≡ some (user, role))
unfolding session_from_cookie create_session
login_opens_session h t ip name password token user role key path s s' later done fresh early =
    let (u, present, right, same_name, same_role, saved) =
      handle_login_cases h t ip name password token user role s s' done in
    let (sessions, (u', found, name', role')) = upgrade_hash_lem h u name password s.db present in
    let db' = upgrade_hash h u password s.db in
    let fresh' : find_session (h.sha256_hex token) db'.sessions ≡ none = rw sessions fresh in
    let read =
      get_session-create_session h.sha256_hex t.at_session later token user role db' fresh' early in
    let asked : name ≡ user = sym (get_user_username name s.db.users u present) ∙ same_name in
    let found' : get_user user db'.users ≡ some u' =
      subst (λ n. get_user n db'.users ≡ some u') asked found in
    let r : Request = record { cookie = some token; arbiter_key = key; path = path } in
    let session =
      session_found h.sha256_hex later r
        (create_session h.sha256_hex t.at_session token user role db') token refl user role u'
        (ap (λ x. x.1) read) found' in
    (right, rw saved (session ∙ ap₂ (λ n r. some (n, r)) (name' ∙ same_name) (role' ∙ same_role)))
