-- ===== src/Access/Login.antt =====
-- internal/api/auth.go: the login and logout handlers on the accounts and the attempts. The decoded
-- body, the client's address, the clock, the hash functions and the random token are arguments; a
-- body that cannot be decoded is `none`.
pub mod Oracle
pub mod Session
use Prim.Native.String.{◌++◌ as append}
use threat_intel_arbiter.Common.{
  Bool, true, false, not, ◌&&◌, List, [], ◌∷◌, Option, none, some, String, ◌==◌, if◌then◌else◌, map,
  has_prefix, contains,
}
use threat_intel_arbiter.Model.{Time}
use threat_intel_arbiter.Access.RateLimit.{Attempts, five_minutes, allow, reset}
use threat_intel_arbiter.Access.Users.{
  User, Accounts, get_user, verify_password, create_session, delete_session,
}

-- What the handlers read and write of the server.
pub record Server : Type 0 where
  pub db : Accounts
  pub attempts : Attempts

pub data Response : Type 0 where
  logged_in : String → String → String → Response
  bad_request : Response
  too_many_attempts : Response
  invalid_credentials : Response

-- The hash functions: of a password, its check against a stored hash, and of a token.
pub record Hashes : Type 0 where
  pub hash_password : String → String
  pub verify_hash : String → String → Bool
  pub sha256_hex : String → String

-- The clock is read by each limiter and for the session.
pub record Times : Type 0 where
  pub at_ip : Time
  pub at_user : Time
  pub at_session : Time

unfoldable pub is_legacy_hash : String → Bool
unfolding has_prefix contains
is_legacy_hash stored = not (has_prefix stored "$argon2id$") && contains stored ":"

-- `UPDATE users SET password_hash = ? WHERE username = ?`
unfoldable pub set_hash : String → String → User → User
set_hash name hash u = if u.username == name then record u { password_hash = hash } else u

-- A legacy hash is replaced.
unfoldable pub upgrade_hash : Hashes → User → String → Accounts → Accounts
unfolding is_legacy_hash set_hash
upgrade_hash h user password db =
    if is_legacy_hash user.password_hash
    then record db { users = map (set_hash user.username (h.hash_password password)) db.users }
    else db

abbrev pub ip_key : String → String
ip_key ip = append "ip:" ip

abbrev pub user_key : String → String
user_key name = append "user:" name

-- What follows once the password has been found right.
unfoldable pub finish_login :
    Hashes → Time → String → User → String → String → Server → Response × Server
unfolding upgrade_hash create_session reset
finish_login h now ip user password token s = (
  logged_in token user.username user.role,
  record {
    db =
        create_session h.sha256_hex now token user.username user.role
          (upgrade_hash h user password s.db);
    attempts = reset (ip_key ip) (reset (user_key user.username) s.attempts);
  },
)

-- The limit of the account, which is applied whether the user exists or not.
unfoldable pub login_account :
    Hashes → Times → String → String → String → String → Server → Response × Server
unfolding allow get_user verify_password finish_login
login_account h t ip name password token s =
    let (attempts, allowed) = allow t.at_user (user_key name) 20 five_minutes s.attempts in
    let s' : Server = record s { attempts = attempts } in
    if not allowed then (too_many_attempts, s') else elim (get_user name s.db.users) [
      | none ↦ (invalid_credentials, s')
      | some user ↦
          if verify_password h.verify_hash name password s.db
          then finish_login h t.at_session ip user password token s'
          else (invalid_credentials, s')
    ]

unfoldable pub handle_login :
    Hashes → Times → String → Option (String × String) → String → Server → Response × Server
unfolding allow login_account
handle_login h t ip body token s = elim body [
  | none ↦ (bad_request, s)
  | some (name, password) ↦
      let (attempts, allowed) = allow t.at_ip (ip_key ip) 50 five_minutes s.attempts in
      let s' : Server = record s { attempts = attempts } in
      if allowed then login_account h t ip name password token s' else (too_many_attempts, s')
]

-- A request without the cookie changes nothing.
unfoldable pub handle_logout : Hashes → Option String → Server → Server
unfolding delete_session
handle_logout h cookie s = elim cookie [
  | none ↦ s
  | some token ↦ record s { db = delete_session h.sha256_hex token s.db }
]
