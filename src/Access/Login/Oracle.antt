-- ===== src/Access/Login/Oracle.antt =====
-- internal/api/auth.go: a failed login does not tell whether the account exists.
use threat_intel_arbiter.Common.{
  false, ◌≡◌, ◌∙◌, sym, Option, none, some, String, if◌then◌else◌, inl, inr, Bool-cases,
  Option-cases,
}
use threat_intel_arbiter.Access.RateLimit.{Attempts, allow, five_minutes}
use threat_intel_arbiter.Access.Users.{Accounts, get_user, verify_password}
use threat_intel_arbiter.Access.Login.{
  Server, Response, Hashes, Times, handle_login, login_account, ip_key, user_key,
  invalid_credentials, too_many_attempts,
}

-- The answer and the attempts after a login to an account that the given password does not open.
abbrev pub failed :
    Hashes → Times → String → Option (String × String) → String → Server → Response × Attempts
failed h t ip body token s =
    let (response, s') = handle_login h t ip body token s in (response, s'.attempts)

account_closed :
    (h : Hashes) (t : Times) (ip name password token : String) (attempts : Attempts) (db : Accounts)
    → verify_password h.verify_hash name password db ≡ false
    → login_account h t ip name password token (record { db = db; attempts = attempts }) ≡ (
        let (attempts', allowed) = allow t.at_user (user_key name) 20 five_minutes attempts in
        (
          if allowed then invalid_credentials else too_many_attempts,
          record { db = db; attempts = attempts' },
        ))
unfolding login_account
account_closed h t ip name password token attempts db closed =
    elim (Bool-cases (allow t.at_user (user_key name) 20 five_minutes attempts).1) [
      | inr e ↦ rw e
      | inl e ↦ elim (Option-cases (get_user name db.users)) [
        | inl absent ↦ rw (e, absent)
        | inr (user, present) ↦ rw (e, present, closed)
      ]
    ]

-- The answer and the attempts when the password is not right, from the two limits alone.
abbrev limits_only : Times → String → String → Attempts → Response × Attempts
limits_only t ip name attempts =
    let (attempts', allowed) = allow t.at_ip (ip_key ip) 50 five_minutes attempts in
    if allowed
    then (let (attempts'', allowed') = allow t.at_user (user_key name) 20 five_minutes attempts' in
        (if allowed' then invalid_credentials else too_many_attempts, attempts''))
    else (too_many_attempts, attempts')

failed-eq-limits_only :
    (h : Hashes) (t : Times) (ip name password token : String) (attempts : Attempts) (db : Accounts)
    → verify_password h.verify_hash name password db ≡ false
    → failed h t ip (some (name, password)) token (record { db = db; attempts = attempts })
      ≡ limits_only t ip name attempts
unfolding handle_login
failed-eq-limits_only h t ip name password token attempts db closed =
    let attempts' = (allow t.at_ip (ip_key ip) 50 five_minutes attempts).0 in
    elim (Bool-cases (allow t.at_ip (ip_key ip) 50 five_minutes attempts).1) [
      | inl e ↦ rw (e, failed) (rw (account_closed h t ip name password token attempts' db closed))
      | inr e ↦ rw (e, failed)
    ]

-- A login that fails because the password is wrong and one that fails because there is no such user
-- give the same answer and leave the same attempts, whatever attempts came before: whether the
-- account exists can be learnt from neither, as far as answers and limits go.
pub login_hides_users :
    (h : Hashes) (t : Times) (ip name password token : String) (attempts : Attempts)
    (db db' : Accounts)
    → verify_password h.verify_hash name password db ≡ false
    → get_user name db'.users ≡ none
    → failed h t ip (some (name, password)) token (record { db = db; attempts = attempts })
      ≡ failed h t ip (some (name, password)) token (record { db = db'; attempts = attempts })
unfolding verify_password
login_hides_users h t ip name password token attempts db db' closed absent =
    failed-eq-limits_only h t ip name password token attempts db closed
    ∙ sym (
        failed-eq-limits_only h t ip name password token attempts db'
          (rw (absent, verify_password)))
