-- ===== src/Access/Users/Admins.antt =====
-- internal/store/users.go: the guards of `UpdateUser` and `DeleteUser` against a system without an
-- admin, over every sequence of the statements on users.
use threat_intel_arbiter.Common.{
  Bool, true, not, ◌||◌, ◌≡◌, List, [], ◌∷◌, ◌++◌, String, ◌==◌, eq_iff, any, select, map, arith,
  inl, inr, Bool-cases, Option-cases,
}
use threat_intel_arbiter.Access.Users.{
  User, Accounts, accounts_after, get_user, create_user, is_admin, has_other_admin, target_is_admin,
  changed_user, update_user, delete_user,
}
use threat_intel_arbiter.Access.Users.Keyed.{
  IsKeyed, changed_user_username, changed_user_role, append-IsKeyed, map-IsKeyed, select-IsKeyed,
}

abbrev pub has_admin : List User → Bool
has_admin us = any is_admin us

-- Who is the target when nobody else is an admin.
target_or_other :
    (name : String) (us : List User)
    → IsKeyed us
    → has_admin us ≡ true
    → (target_is_admin name us || has_other_admin name us) ≡ true
unfolding IsKeyed get_user has_other_admin any
target_or_other name [] k h = ground arith
target_or_other name (u ∷ us) (k, ks) h =
    ground (arith, target_or_other name us ks, eq_iff u.username name)

other-changed :
    (hash_password : String → String) (name password role : String) (us : List User)
    → has_other_admin name us ≡ true
    → has_admin (map (changed_user hash_password name password role) us) ≡ true
unfolding has_other_admin any
other-changed hash_password name password role [] h = ground arith
other-changed hash_password name password role (u ∷ us) h = ground (
  arith,
  changed_user_role hash_password name password role u,
  changed_user_username hash_password name password role u,
  other-changed hash_password name password role us,
)

admin-changed :
    (hash_password : String → String) (name password role : String) (us : List User)
    → (role == "admin") ≡ true
    → has_admin us ≡ true
    → has_admin (map (changed_user hash_password name password role) us) ≡ true
unfolding any
admin-changed hash_password name password role [] r h = ground arith
admin-changed hash_password name password role (u ∷ us) r h = ground (
  arith,
  changed_user_role hash_password name password role u,
  changed_user_username hash_password name password role u,
  admin-changed hash_password name password role us r,
)

other-select :
    (name : String) (us : List User)
    → has_other_admin name us ≡ true
    → has_admin (select (λ u. not (u.username == name)) us) ≡ true
unfolding has_other_admin any select
other-select name [] h = ground arith
other-select name (u ∷ us) h = ground (arith, other-select name us)

admin-append :
    (us : List User) (new : User) → has_admin us ≡ true → has_admin (us ++ (new ∷ [])) ≡ true
unfolding any
admin-append [] new h = ground arith
admin-append (u ∷ us) new h = ground (arith, admin-append us new)

-- One row for each name, and an admin among them.
unfoldable pub IsAdministered : Accounts → Type 0
unfolding IsKeyed any
IsAdministered db = IsKeyed db.users × (has_admin db.users ≡ true)

create_user-IsAdministered :
    (hash_password : String → String) (name password role : String) (db : Accounts)
    → IsAdministered db
    → IsAdministered (accounts_after db (create_user hash_password name password role db))
unfolding IsAdministered create_user
create_user-IsAdministered hash_password name password role db (keyed, admin) =
    elim (Option-cases (get_user name db.users)) [
      | inl absent ↦
          rw (absent, accounts_after)
            (append-IsKeyed db.users _ absent keyed, admin-append db.users _ admin)
      | inr (u, present) ↦ rw (present, accounts_after) (keyed, admin)
    ]

update_user-IsAdministered :
    (hash_password : String → String) (name password role : String) (db : Accounts)
    → IsAdministered db
    → IsAdministered (accounts_after db (update_user hash_password name password role db))
unfolding IsAdministered update_user
update_user-IsAdministered hash_password name password role db (keyed, admin) =
    let kept = map-IsKeyed hash_password name password role db.users keyed in
    elim (Bool-cases (role == "admin")) [
      | inl r ↦ rw r (kept, admin-changed hash_password name password role db.users r admin)
      | inr r ↦ elim (Bool-cases (has_other_admin name db.users)) [
        | inl o ↦ elim (Bool-cases (target_is_admin name db.users)) [
          | inl t ↦ rw (r, t, o) (kept, other-changed hash_password name password role db.users o)
          | inr t ↦ rw (r, t) (kept, other-changed hash_password name password role db.users o)
        ]
        | inr o ↦
            let target = target_or_other name db.users keyed admin in
            let is_target : target_is_admin name db.users ≡ true = ground arith in
            rw (r, is_target, o) (keyed, admin)
      ]
    ]

delete_user-IsAdministered :
    (name : String) (db : Accounts)
    → IsAdministered db
    → IsAdministered (accounts_after db (delete_user name db))
unfolding IsAdministered delete_user
delete_user-IsAdministered name db (keyed, admin) =
    elim (Bool-cases (has_other_admin name db.users)) [
      | inl o ↦ rw o (select-IsKeyed _ db.users keyed, other-select name db.users o)
      | inr o ↦ rw o (keyed, admin)
    ]

-- The statements on the table of users, with their arguments.
pub data Statement : Type 0 where
  creating : String → String → String → Statement
  updating : String → String → String → Statement
  deleting : String → Statement

unfoldable pub execute : (String → String) → Accounts → Statement → Accounts
unfolding create_user update_user delete_user
execute hash_password db (creating name password role) =
    accounts_after db (create_user hash_password name password role db)
execute hash_password db (updating name password role) =
    accounts_after db (update_user hash_password name password role db)
execute hash_password db (deleting name) = accounts_after db (delete_user name db)

unfoldable pub execute_all : (String → String) → Accounts → List Statement → Accounts
unfolding execute
execute_all hash_password db [] = db
execute_all hash_password db (call ∷ calls) =
    execute_all hash_password (execute hash_password db call) calls

execute-IsAdministered :
    (hash_password : String → String) (db : Accounts) (call : Statement)
    → IsAdministered db
    → IsAdministered (execute hash_password db call)
unfolding execute
execute-IsAdministered hash_password db (creating name password role) h =
    create_user-IsAdministered hash_password name password role db h
execute-IsAdministered hash_password db (updating name password role) h =
    update_user-IsAdministered hash_password name password role db h
execute-IsAdministered hash_password db (deleting name) h = delete_user-IsAdministered name db h

-- Accounts with one row for each name and an admin among them still have both after any sequence of
-- calls of CreateUser, UpdateUser and DeleteUser, refused ones included.
pub execute_all-IsAdministered :
    (hash_password : String → String) (db : Accounts) (calls : List Statement)
    → IsAdministered db
    → IsAdministered (execute_all hash_password db calls)
unfolding execute_all
execute_all-IsAdministered hash_password db [] h = h
execute_all-IsAdministered hash_password db (call ∷ calls) h =
    execute_all-IsAdministered hash_password (execute hash_password db call) calls
      (execute-IsAdministered hash_password db call h)
