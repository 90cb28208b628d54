-- ===== src/Access/Guards/Cookie.antt =====
-- internal/api/auth.go: the session that a request's cookie gives.
use threat_intel_arbiter.Common.{
  [], ◌∷◌, ◌≡◌, ◌∙◌, sym, ap, List, Option, none, some, String, ◌==◌, inl, inr, Bool-cases,
  Option-cases, ltb, eq_iff,
}
use threat_intel_arbiter.Model.{Time}
use threat_intel_arbiter.Access.Users.{
  User, Accounts, get_user, get_session, find_session, delete_session,
}
use threat_intel_arbiter.Access.Guards.{Request, session_from_cookie}

-- The row found for a name has the name.
pub get_user_username :
    (name : String) (us : List User) (u : User) → get_user name us ≡ some u → u.username ≡ name
unfolding get_user
get_user_username name [] u h = cc
get_user_username name (x ∷ us) u h = elim (Bool-cases (x.username == name)) [
  | inl e ↦
      let found : some x ≡ some u = rw e at h in
      let it : x ≡ u = cc in ap (λ y. y.username) (sym it) ∙ (eq_iff x.username name).0 e
  | inr e ↦ get_user_username name us u (rw e at h)
]

-- Reading a session changes no user.
pub get_session_users :
    (sha256_hex : String → String) (now : Time) (token : String) (db : Accounts)
    → (get_session sha256_hex now token db).0.users ≡ db.users
unfolding get_session delete_session
get_session_users sha256_hex now token db =
    elim (Option-cases (find_session (sha256_hex token) db.sessions)) [
      | inl e ↦ rw (e, get_session)
      | inr (s, e) ↦ elim (Bool-cases (ltb s.expires_at now)) [
        | inl l ↦ rw (e, get_session, l)
        | inr l ↦ rw (e, get_session, l)
      ]
    ]

module _ (sha256_hex : String → String) (now : Time) (r : Request) (db : Accounts) (token : String)
    (cookie : r.cookie ≡ some token) where
  pub session_found :
      (name old_role : String) (u : User)
      → (get_session sha256_hex now token db).1 ≡ some (name, old_role)
      → get_user name db.users ≡ some u
      → (session_from_cookie sha256_hex now r db).1 ≡ some (u.username, u.role)
  unfolding session_from_cookie
  session_found name old_role u e p =
      let p' : get_user name (get_session sha256_hex now token db).0.users ≡ some u =
        rw (get_session_users sha256_hex now token db) p in
      rw (cookie, e, p', session_from_cookie)

  pub session_absent :
      (get_session sha256_hex now token db).1 ≡ none
      → (session_from_cookie sha256_hex now r db).1 ≡ none
  unfolding session_from_cookie
  session_absent e = rw (cookie, e, session_from_cookie)

  pub session_orphaned :
      (name old_role : String)
      → (get_session sha256_hex now token db).1 ≡ some (name, old_role)
      → get_user name db.users ≡ none
      → (session_from_cookie sha256_hex now r db).1 ≡ none
  unfolding session_from_cookie
  session_orphaned name old_role e p =
      let p' : get_user name (get_session sha256_hex now token db).0.users ≡ none =
        rw (get_session_users sha256_hex now token db) p in
      rw (cookie, e, p', session_from_cookie)

-- The cookie's session, its user's row, and where the name and the role come from.
pub session_from_cookie_cases :
    (sha256_hex : String → String) (now : Time) (r : Request) (db : Accounts) (name role : String)
    → (session_from_cookie sha256_hex now r db).1 ≡ some (name, role)
    → (token : String) × (asked : String) × (old_role : String) × (u : User) × (r.cookie
        ≡ some token)
      × ((get_session sha256_hex now token db).1 ≡ some (asked, old_role))
      × (get_user asked db.users ≡ some u)
      × (u.username ≡ name)
      × (u.role ≡ role)
unfolding session_from_cookie
session_from_cookie_cases sha256_hex now r db name role h = elim (Option-cases r.cookie) [
  | inl e ↦
      let absent : ◌≡◌ {A = Option (String × String)} none (some (name, role)) =
        rw (e, session_from_cookie) at h in
      cc
  | inr (token, e) ↦ elim (Option-cases (get_session sha256_hex now token db).1) [
    | inl f ↦ let absent = sym (session_absent sha256_hex now r db token e f) ∙ h in cc
    | inr ((asked, old_role), f) ↦ elim (Option-cases (get_user asked db.users)) [
      | inl g ↦
          let absent = sym (session_orphaned sha256_hex now r db token e asked old_role f g) ∙ h in
          cc
      | inr (u, g) ↦
          let found = sym (session_found sha256_hex now r db token e asked old_role u f g) ∙ h in
          let same_name : u.username ≡ name = cc in
          let same_role : u.role ≡ role = cc in
          (token, asked, old_role, u, e, f, g, same_name, same_role)
    ]
  ]
]
