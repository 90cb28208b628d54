-- ===== src/Access/Users/Sessions.antt =====
-- internal/store/users.go: the life of a session.
use threat_intel_arbiter.Common.{
  Option, ◌+◌, ◌*◌, ◌≤◌, Bool, true, false, ◌≡◌, refl, subst, List, [], ◌∷◌, ◌++◌, none, some,
  String, ◌==◌, eq_iff, ltb, select, arith, inl, inr, Bool-cases, Option-cases,
}
use threat_intel_arbiter.Model.{Time, hour}
use threat_intel_arbiter.Access.Users.{
  Session, Accounts, find_session, get_session, create_session, delete_sessions_for_user,
  whole_seconds,
}

find_session-append :
    (hash : String) (sessions : List Session) (s : Session)
    → find_session hash sessions ≡ none
    → s.token_hash ≡ hash
    → find_session hash (sessions ++ (s ∷ [])) ≡ some s
unfolding find_session
find_session-append hash [] s absent same = rw ((eq_iff s.token_hash hash).1 same)
find_session-append hash (x ∷ sessions) s absent same = elim (Bool-cases (x.token_hash == hash)) [
  | inl e ↦ ground (arith)
  | inr e ↦ rw e (find_session-append hash sessions s (rw e at absent) same)
]

-- A session whose token has a hash that no row has can be read back, until it expires 12 hours
-- later, to the second, with the user and the role it was made for, and the tables stay as they are.
pub get_session-create_session :
    (sha256_hex : String → String) (made now : Time) (token name role : String) (db : Accounts)
    → find_session (sha256_hex token) db.sessions ≡ none
    → now ≤ whole_seconds (made + 12 * hour)
    → let db' = create_session sha256_hex made token name role db in
      get_session sha256_hex now token db' ≡ (db', some (name, role))
unfolding get_session create_session
get_session-create_session sha256_hex made now token name role db absent early =
    let made_session : Session = record {
      token_hash = sha256_hex token;
      username = name;
      role = role;
      expires_at = whole_seconds (made + 12 * hour);
    } in
    let live : ltb (whole_seconds (made + 12 * hour)) now ≡ false = ground arith in
    rw (find_session-append (sha256_hex token) db.sessions made_session absent refl, get_session)
      (rw live)

find_session-select :
    (hash : String) (test : Session → Bool) (sessions : List Session) {s : Session}
    → find_session hash (select test sessions) ≡ some s
    → test s ≡ true × (s.token_hash == hash) ≡ true
unfolding find_session select
find_session-select hash test [] h = ground arith
find_session-select hash test (x ∷ sessions) {s} h = elim (Bool-cases (test x)) [
  | inl e ↦
      let kept : find_session hash (x ∷ select test sessions) ≡ some s = rw e at h in
      elim (Bool-cases (x.token_hash == hash)) [
        | inl f ↦
            let found : some x ≡ some s = rw f at kept in
            let same : x ≡ s = cc in
            (subst (λ y. test y ≡ true) same e, subst (λ y. (y.token_hash == hash) ≡ true) same f)
        | inr f ↦ find_session-select hash test sessions (rw f at kept)
      ]
  | inr e ↦ find_session-select hash test sessions (rw e at h)
]

-- The user and the role that a session gives are those of its row, which the token's hash finds.
get_session_row :
    (sha256_hex : String → String) (now : Time) (token name role : String) (db : Accounts)
    → (get_session sha256_hex now token db).1 ≡ some (name, role)
    → (s : Session) × (find_session (sha256_hex token) db.sessions ≡ some s)
      × (s.username ≡ name)
      × (s.role ≡ role)
      × (ltb s.expires_at now ≡ false)
unfolding get_session
get_session_row sha256_hex now token name role db h =
    elim (Option-cases (find_session (sha256_hex token) db.sessions)) [
      | inl e ↦
          let absent : ◌≡◌ {A = Option (String × String)} none (some (name, role)) =
            rw (e, get_session) at h in
          cc
      | inr (s, e) ↦ elim (Bool-cases (ltb s.expires_at now)) [
        | inl l ↦
            let expired : ◌≡◌ {A = Option (String × String)} none (some (name, role)) =
              rw (e, get_session, l) at h in
            cc
        | inr l ↦
            let found : ◌≡◌ {A = Option (String × String)} (some (s.username, s.role))
                (some (name, role)) =
              rw (e, get_session, l) at h in
            (s, e, cc, cc, l)
      ]
    ]

-- After DeleteSessionsForUser no token gives a session of that user.
pub revoked :
    (sha256_hex : String → String) (now : Time) (token name role : String) (db : Accounts)
    → ¬ (
        (get_session sha256_hex now token (delete_sessions_for_user name db)).1 ≡ some (name, role))
unfolding delete_sessions_for_user
revoked sha256_hex now token name role db h =
    let (s, found, named, granted, live) =
      get_session_row sha256_hex now token name role (delete_sessions_for_user name db) h in
    let (kept, hash) = find_session-select (sha256_hex token) _ db.sessions found in
    ground (arith, eq_iff s.username name)
