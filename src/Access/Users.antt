-- ===== src/Access/Users.antt =====
-- internal/store/users.go: the tables of users and sessions as lists of rows, and the statements on
-- them as functions. The hash of a password, of a token, and the clock are arguments.
pub mod Keyed
pub mod Admins
pub mod Sessions
mod Listing
use threat_intel_arbiter.Common.{
  ℕ, ◌+◌, ◌*◌, ◌/◌, Bool, true, false, not, ◌&&◌, List, [], ◌∷◌, ◌++◌, Option, none, some, String,
  ◌==◌, ltb, if◌then◌else◌, any, select, map,
}
use threat_intel_arbiter.Model.{Time, second, hour}
use threat_intel_arbiter.Risk.Assets.{is_nil}

pub record User : Type 0 where
  pub username : String
  pub password_hash : String
  pub role : String

pub record Session : Type 0 where
  pub token_hash : String
  pub username : String
  pub role : String
  pub expires_at : Time

pub record Accounts : Type 0 where
  pub users : List User
  pub sessions : List Session

pub data Outcome : Type 0 where
  done : Accounts → Outcome
  refused : String → Outcome

abbrev pub accounts_after : Accounts → Outcome → Accounts
accounts_after db (done db') = db'
accounts_after db (refused reason) = db

unfoldable pub get_user : String → List User → Option User
get_user name [] = none
get_user name (u ∷ users) = if u.username == name then some u else get_user name users

-- The name is unique in the table.
unfoldable pub create_user : (String → String) → String → String → String → Accounts → Outcome
unfolding get_user
create_user hash_password name password role db = elim (get_user name db.users) [
  | some u ↦ refused "UNIQUE constraint failed: users.username"
  | none ↦ done (record db {
    users =
        db.users
        ++ (record { username = name; password_hash = hash_password password; role = role } ∷ []);
  })
]

abbrev pub is_admin : User → Bool
is_admin u = u.role == "admin"

-- `SELECT COUNT(*) FROM users WHERE role='admin' AND username != ?` is not 0.
unfoldable pub has_other_admin : String → List User → Bool
unfolding any
has_other_admin name users = any (λ u. is_admin u && not (u.username == name)) users

abbrev pub target_is_admin : String → List User → Bool
target_is_admin name users = elim (get_user name users) [ none ↦ false | some u ↦ is_admin u ]

-- `UPDATE users SET … WHERE username=?`, of the password only when one is given.
unfoldable pub changed_user : (String → String) → String → String → String → User → User
changed_user hash_password name password role u =
    if u.username == name
    then record u {
      password_hash = (if password == "" then u.password_hash else hash_password password);
      role = role;
    }
    else u

unfoldable pub update_user : (String → String) → String → String → String → Accounts → Outcome
unfolding has_other_admin get_user changed_user
update_user hash_password name password role db =
    if not (role == "admin")
      && (target_is_admin name db.users && not (has_other_admin name db.users))
    then refused "cannot change role: would leave zero admin users"
    else done (record db { users = map (changed_user hash_password name password role) db.users })

unfoldable pub delete_user : String → Accounts → Outcome
unfolding has_other_admin select
delete_user name db =
    if not (has_other_admin name db.users)
    then refused "cannot delete the last admin user"
    else done (record db { users = select (λ u. not (u.username == name)) db.users })

unfoldable pub verify_password : (String → String → Bool) → String → String → Accounts → Bool
unfolding get_user
verify_password verify_hash name password db = elim (get_user name db.users) [
  | none ↦ false
  | some u ↦ verify_hash password u.password_hash
]

-- A time as RFC 3339 writes it, to the second.
abbrev pub whole_seconds : Time → Time
whole_seconds t = t / second * second

-- `token` is the random text that `generateToken` gave.
unfoldable pub create_session :
    (String → String) → Time → String → String → String → Accounts → Accounts
create_session sha256_hex now token name role db = record db {
  sessions =
      db.sessions
      ++ (record {
        token_hash = sha256_hex token;
        username = name;
        role = role;
        expires_at = whole_seconds (now + 12 * hour);
      }
          ∷ []);
}

unfoldable pub find_session : String → List Session → Option Session
find_session hash [] = none
find_session hash (s ∷ sessions) =
    if s.token_hash == hash then some s else find_session hash sessions

abbrev pub without_token : String → List Session → List Session
without_token hash sessions = select (λ s. not (s.token_hash == hash)) sessions

unfoldable pub delete_session : (String → String) → String → Accounts → Accounts
unfolding select
delete_session sha256_hex token db = record db {
  sessions = without_token (sha256_hex token) db.sessions;
}

-- The user and the role of a session, and the tables: an expired session is removed.
unfoldable pub get_session :
    (String → String) → Time → String → Accounts → Accounts × Option (String × String)
unfolding find_session delete_session
get_session sha256_hex now token db = elim (find_session (sha256_hex token) db.sessions) [
  | none ↦ (db, none)
  | some s ↦
      if ltb s.expires_at now
      then (delete_session sha256_hex token db, none)
      else (db, some (s.username, s.role))
]

unfoldable pub delete_sessions_for_user : String → Accounts → Accounts
unfolding select
delete_sessions_for_user name db = record db {
  sessions = select (λ s. not (s.username == name)) db.sessions;
}

unfoldable pub clean_expired_sessions : Time → Accounts → Accounts
unfolding select
clean_expired_sessions now db = record db {
  sessions = select (λ s. not (ltb s.expires_at (whole_seconds now))) db.sessions;
}

-- `password` is the random text that `randomPassword` gave.
unfoldable pub seed_default_admin : (String → String) → String → Accounts → Outcome
unfolding create_user
seed_default_admin hash_password password db =
    if is_nil db.users then create_user hash_password "admin" password "admin" db else done db
