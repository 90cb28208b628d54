-- ===== src/Access/Tests.antt =====
-- internal/api/ratelimit.go and internal/store/users.go: the theorems at concrete accounts and calls.
use Prim.Native.String.{◌++◌ as append}
use threat_intel_arbiter.Common.{
  ◌≤◌, ◌≡◌, refl, List, [], ◌∷◌, some, String, true, arith, length, select, if◌then◌else◌,
}
use threat_intel_arbiter.Access.RateLimit.{five_minutes, after_cutoff}
use threat_intel_arbiter.Access.RateLimit.Window.{
  Call, attempt, tick, IsOrdered, replay, granted_le,
}
use threat_intel_arbiter.Access.Users.{
  Accounts, get_user, find_session, create_session, delete_sessions_for_user,
}
use threat_intel_arbiter.Access.Users.Admins.{
  IsAdministered, updating, deleting, execute_all, execute_all-IsAdministered,
}
use threat_intel_arbiter.Access.Users.Keyed.{IsKeyed}
use threat_intel_arbiter.Access.Users.{verify_password, update_user, has_other_admin}
use threat_intel_arbiter.Common.{◌==◌, ◌↔◌, ◌≢◌, ◌⊎◌}
use threat_intel_arbiter.Common.{none}
use threat_intel_arbiter.Access.Legacy.{verify_legacy}
use threat_intel_arbiter.Access.Legacy.Parts.{verify_legacy_lem}
use threat_intel_arbiter.Access.Login.{
  Hashes, Times, Server, handle_login, login_account, finish_login, upgrade_hash, is_legacy_hash,
}
use threat_intel_arbiter.Access.Login.Oracle.{failed, login_hides_users}
use threat_intel_arbiter.Access.Login.Session.{login_opens_session}
use threat_intel_arbiter.Access.Guards.{
  Request, session_from_cookie, passed, require_admin, put, handle_admin_users,
}
use threat_intel_arbiter.Access.Guards.Revocation.{
  IsAdminSession, require_admin_iff, changed_user_logged_out,
}

abbrev three_calls : List Call
three_calls = attempt "user:ann" 1 ∷ tick 2 ∷ attempt "user:ann" 3 ∷ []

granted_le_example :
    length (
      select
        (after_cutoff five_minutes 3)
        (replay (λ key. 20) (λ key. five_minutes) "user:ann" ([], []) three_calls).1)
    ≤ 20
unfolding IsOrdered
granted_le_example =
    granted_le (λ key. 20) (λ key. five_minutes) "user:ann" 0 three_calls
      (omega arith, (omega arith, (omega arith, tt))) (omega arith)

-- A stand-in for the hash functions.
abbrev digest : String → String
digest s = append "#" s

abbrev one_admin : Accounts
one_admin = record {
  users = record { username = "admin"; password_hash = "#pw"; role = "admin" } ∷ [];
  sessions = [];
}

execute_all-IsAdministered_example :
    IsAdministered
      (execute_all digest one_admin (updating "admin" "" "reader" ∷ deleting "admin" ∷ []))
unfolding IsAdministered IsKeyed get_user
execute_all-IsAdministered_example =
    execute_all-IsAdministered digest one_admin
      (updating "admin" "" "reader" ∷ deleting "admin" ∷ []) ((refl, tt), refl)

abbrev hashes : Hashes
hashes = record {
  hash_password = digest;
  verify_hash = λ password stored. stored == digest password;
  sha256_hex = digest;
}

abbrev times : Times
times = record { at_ip = 1000; at_user = 1000; at_session = 1001 }

login_hides_users_example :
    failed hashes times "10.0.0.1"
      (some ("admin", "guess"))
      "t0"
      (record { db = one_admin; attempts = [] })
    ≡ failed hashes times "10.0.0.1"
        (some ("admin", "guess"))
        "t0"
        (record { db = record { users = []; sessions = [] }; attempts = [] })
unfolding verify_password get_user
login_hides_users_example =
    login_hides_users hashes times "10.0.0.1" "admin" "guess" "t0" [] one_admin
      (record { users = []; sessions = [] }) refl refl

abbrev admin_request : Request
admin_request = record { cookie = some "t0"; arbiter_key = ""; path = "/admin/users" }

require_admin_iff_example :
    ((require_admin digest 2000 "key" admin_request
        (create_session digest 1000 "t0" "admin" "reader" one_admin)).1
      ≡ passed)
    ↔ ((◌≢◌ {A = String} "key" "" × ◌≡◌ {A = String} "" "key")
        ⊎ IsAdminSession digest 2000 admin_request
            (create_session digest 1000 "t0" "admin" "reader" one_admin))
require_admin_iff_example =
    require_admin_iff digest 2000 "key" admin_request
      (create_session digest 1000 "t0" "admin" "reader" one_admin)

abbrev logged_in_admin : Accounts
logged_in_admin = create_session digest 1000 "t0" "admin" "admin" one_admin

abbrev after_change : Accounts
after_change = (handle_admin_users digest (put "admin" "new" "admin") logged_in_admin).1

changed_user_logged_out_example :
    ¬ ((session_from_cookie digest 2000 admin_request after_change).1 ≡ some ("admin", "admin"))
unfolding handle_admin_users create_session update_user delete_sessions_for_user get_user
    has_other_admin
changed_user_logged_out_example =
    changed_user_logged_out digest digest 2000 (put "admin" "new" "admin") admin_request "admin"
      "admin" logged_in_admin after_change refl refl

abbrev a_server : Server
a_server = record { db = one_admin; attempts = [] }

abbrev after_login : Server
after_login = (handle_login hashes times "10.0.0.1" (some ("admin", "pw")) "t0" a_server).1

login_opens_session_example :
    (verify_password hashes.verify_hash "admin" "pw" one_admin ≡ true)
    × ((session_from_cookie digest 2000
          (record { cookie = some "t0"; arbiter_key = ""; path = "/" })
          after_login.db).1
        ≡ some ("admin", "admin"))
unfolding handle_login login_account finish_login upgrade_hash is_legacy_hash find_session get_user
    verify_password
login_opens_session_example =
    login_opens_session hashes times "10.0.0.1" "admin" "pw" "t0" "admin" "admin" "" "/" a_server
      after_login 2000 refl refl (omega arith)

verify_legacy_lem_example :
    (salt : String) × (bytes : String) × ("5a:#zpw"
      ≡ append salt (append ":" (digest (append bytes "pw"))))
    × ((if salt == "5a" then some "z" else none) ≡ some bytes)
unfolding verify_legacy
verify_legacy_lem_example =
    verify_legacy_lem (λ salt. if salt == "5a" then some "z" else none) digest "pw" "5a:#zpw" refl
