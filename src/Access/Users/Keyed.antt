-- ===== src/Access/Users/Keyed.antt =====
-- internal/store/users.go: the statements on users keep one row for each name.
use threat_intel_arbiter.Common.{
  Bool, false, ◌≡◌, refl, List, [], ◌∷◌, ◌++◌, none, String, ◌==◌, eq_iff, if◌then◌else◌, select,
  map, arith, inl, inr, Bool-cases,
}
use threat_intel_arbiter.Access.Users.{User, get_user, changed_user}

-- No two rows have one name.
unfoldable pub IsKeyed : List User → Type 0
unfolding get_user
IsKeyed [] = Unit
IsKeyed (u ∷ us) = (get_user u.username us ≡ none) × IsKeyed us

pub get_user-append :
    (n : String) (us : List User) (new : User)
    → get_user n us ≡ none
    → (new.username == n) ≡ false
    → get_user n (us ++ (new ∷ [])) ≡ none
unfolding get_user
get_user-append n [] new h k = rw k
get_user-append n (u ∷ us) new h k = ground (arith, get_user-append n us new)

pub changed_user_username :
    (hash_password : String → String) (name password role : String) (u : User)
    → (changed_user hash_password name password role u).username ≡ u.username
unfolding changed_user
changed_user_username hash_password name password role u = elim (Bool-cases (u.username == name)) [
  | inl e ↦ rw e
  | inr e ↦ rw e
]

pub changed_user_role :
    (hash_password : String → String) (name password role : String) (u : User)
    → (changed_user hash_password name password role u).role
      ≡ (if u.username == name then role else u.role)
unfolding changed_user
changed_user_role hash_password name password role u = elim (Bool-cases (u.username == name)) [
  | inl e ↦ rw e
  | inr e ↦ rw e
]

pub get_user-changed :
    (hash_password : String → String) (n name password role : String) (us : List User)
    → get_user n us ≡ none
    → get_user n (map (changed_user hash_password name password role) us) ≡ none
unfolding get_user
get_user-changed hash_password n name password role [] h = refl
get_user-changed hash_password n name password role (u ∷ us) h = ground (
  arith,
  changed_user_username hash_password name password role u,
  get_user-changed hash_password n name password role us,
)

pub get_user-select :
    (test : User → Bool) (n : String) (us : List User)
    → get_user n us ≡ none
    → get_user n (select test us) ≡ none
unfolding get_user select
get_user-select test n [] h = refl
get_user-select test n (u ∷ us) h = ground (arith, get_user-select test n us)

pub append-IsKeyed :
    (us : List User) (new : User)
    → get_user new.username us ≡ none
    → IsKeyed us
    → IsKeyed (us ++ (new ∷ []))
unfolding IsKeyed get_user
append-IsKeyed [] new h k = (refl, tt)
append-IsKeyed (u ∷ us) new h (k, ks) = (
  get_user-append u.username us new k (ground (arith, eq_iff new.username u.username)),
  append-IsKeyed us new (ground arith) ks,
)

pub map-IsKeyed :
    (hash_password : String → String) (name password role : String) (us : List User)
    → IsKeyed us
    → IsKeyed (map (changed_user hash_password name password role) us)
unfolding IsKeyed
map-IsKeyed hash_password name password role [] k = tt
map-IsKeyed hash_password name password role (u ∷ us) (k, ks) = (
  rw (changed_user_username hash_password name password role u)
      (get_user-changed hash_password u.username name password role us k),
  map-IsKeyed hash_password name password role us ks,
)

pub select-IsKeyed : (test : User → Bool) (us : List User) → IsKeyed us → IsKeyed (select test us)
unfolding IsKeyed select
select-IsKeyed test [] k = tt
select-IsKeyed test (u ∷ us) (k, ks) = elim (Bool-cases (test u)) [
  | inl e ↦ rw e (get_user-select test u.username us k, select-IsKeyed test us ks)
  | inr e ↦ rw e (select-IsKeyed test us ks)
]
