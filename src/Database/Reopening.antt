-- ===== src/Database/Reopening.antt =====
-- internal/store/db.go: a database that has been opened opens again as it is.
use mathlib.Core.List.{List, [], ◌∷◌}
use threat_intel_arbiter.Common.{
  ℕ, ◌+◌, ◌≡◌, ◌⊎◌, ◌∙◌, refl, ap, sym, Bool, true, false, Memᴰ, Option, none, some, String,
  contains, ◌++◌, Bool-cases, Option-cases, inl, inr,
}
use threat_intel_arbiter.Risk.Assets.{is_nil}
use threat_intel_arbiter.Access.Users.{
  Accounts, Outcome, accounts_after, done, refused, create_user, get_user, seed_default_admin,
}
use threat_intel_arbiter.Database.Statements.{Statement, migrations}
use threat_intel_arbiter.Database.{
  Executed, changed, rejected, Migrated, migrated, stuck, migrate_from, migrate, Opened, opened,
  unopened, open_db,
}
use threat_intel_arbiter.Database.Migrating.{
  executed_cases, migrate_changed, migrate_duplicate, migrate_rejected,
}

migrated_cases :
    {Schema : Type 0} (m : Migrated Schema)
    → ((s : Schema) × (m ≡ migrated s)) ⊎ ((i : ℕ) × (reason : String) × (m ≡ stuck i reason))
migrated_cases (migrated s) = inl (s, refl)
migrated_cases (stuck i reason) = inr (i, reason, refl)

outcome_cases :
    (o : Outcome) → ((a : Accounts) × (o ≡ done a)) ⊎ ((reason : String) × (o ≡ refused reason))
outcome_cases (done a) = inl (a, refl)
outcome_cases (refused reason) = inr (reason, refl)

filled : {A : Type 0} (xs : List A) (x : A) → is_nil (xs ++ (x ∷ [])) ≡ false
filled [] x = refl
filled (y ∷ ys) x = refl

-- Someone has an account behind the seeding.
seeded :
    (hash_password : String → String) (password : String) (a a' : Accounts)
    → seed_default_admin hash_password password a ≡ done a'
    → is_nil a'.users ≡ false
unfolding seed_default_admin create_user
seeded hash_password password a a' h = elim (Bool-cases (is_nil a.users)) [
  | inr some_there ↦
      let same : done a ≡ done a' = rw (seed_default_admin, some_there) at h in
      let here : a ≡ a' = cc in ap (λ b. is_nil b.users) (sym here) ∙ some_there
  | inl none_there ↦ elim (Option-cases (get_user "admin" a.users)) [
    | inr (u, e) ↦
        let wrong : refused _ ≡ done a' =
          rw (seed_default_admin, none_there, create_user, e) at h in
        absurd cc
    | inl e ↦
        let same : done _ ≡ done a' = rw (seed_default_admin, none_there, create_user, e) at h in
        ap (λ o. is_nil (accounts_after a o).users) (sym same) ∙ filled a.users _
  ]
]

-- `holds` says that what a statement is to make is there. A statement that is accepted makes it and
-- removes nothing that is there; the error of a duplicate column says that the column is there; and a
-- statement whose table, index or column is there changes nothing, with or without that error.
module _ {Schema : Type 0} (exec : Statement → Schema → Executed Schema)
    (holds : Statement → Schema → Bool)
    (makes : (m : Statement) (s s' : Schema) → exec m s ≡ changed s' → holds m s' ≡ true)
    (keeps : (m k : Statement) (s s' : Schema)
      → exec m s ≡ changed s'
      → holds k s ≡ true
      → holds k s' ≡ true)
    (duplicate : (m : Statement) (s : Schema) (reason : String)
      → exec m s ≡ rejected reason
      → contains reason "duplicate column" ≡ true
      → holds m s ≡ true)
    (again : (m : Statement) (s : Schema)
      → holds m s ≡ true
      → (exec m s ≡ changed s)
        ⊎ ((reason : String) × (exec m s ≡ rejected reason)
            × (contains reason "duplicate column" ≡ true))) where
  after_first :
      (m : Statement) (ms : List Statement) (s s' u : Schema)
      → ((k : Statement) → holds k s ≡ true → holds k u ≡ true)
      → holds m u ≡ true
      → ((k : Statement) → holds k u ≡ true → holds k s' ≡ true)
      → ((k : Statement) → Memᴰ k ms → holds k s' ≡ true)
      → ((k : Statement) → holds k s ≡ true → holds k s' ≡ true)
        × ((k : Statement) → Memᴰ k (m ∷ ms) → holds k s' ≡ true)
  after_first m ms s s' u first here kept listed = ((λ k there. kept k (first k there)), by_place)
    where
      by_place : (k : Statement) → Memᴰ k (m ∷ ms) → holds k s' ≡ true
      by_place k (Memᴰ.head e) = ap (λ x. holds x s') e ∙ kept m here
      by_place k (Memᴰ.tail later) = listed k later

  -- What a completed loop makes is there, and what was there stays.
  made :
      (i : ℕ) (ms : List Statement) (s s' : Schema)
      → migrate_from exec i ms s ≡ migrated s'
      → ((k : Statement) → holds k s ≡ true → holds k s' ≡ true)
        × ((k : Statement) → Memᴰ k ms → holds k s' ≡ true)
  unfolding migrate_from
  made i [] s s' h =
      let same : ◌≡◌ {A = Migrated Schema} (migrated s) (migrated s') = h in
      let here : s ≡ s' = cc in ((λ k there. ap (holds k) (sym here) ∙ there), (λ k m. elim m [ ]))
  made i (m ∷ ms) s s' h = elim (executed_cases exec m s) [
    | inl (u, e) ↦
        let (kept, listed) = made (i + 1) ms u s' (sym (migrate_changed exec i m ms s u e) ∙ h) in
        after_first m ms s s' u (λ k there. keeps m k s u e there) (makes m s u e) kept listed
    | inr (why, e) ↦ elim (Bool-cases (contains why "duplicate column")) [
      | inl d ↦
          let (kept, listed) =
            made (i + 1) ms s s' (sym (migrate_duplicate exec i m ms s why e d) ∙ h) in
          after_first m ms s s' s (λ k there. there) (duplicate m s why e d) kept listed
      | inr d ↦
          let wrong : ◌≡◌ {A = Migrated Schema} (stuck i why) (migrated s') =
            sym (migrate_rejected exec i m ms s why e d) ∙ h in
          absurd cc
    ]
  ]

  repeated :
      (i : ℕ) (ms : List Statement) (s : Schema)
      → ((k : Statement) → Memᴰ k ms → holds k s ≡ true)
      → migrate_from exec i ms s ≡ migrated s
  unfolding migrate_from
  repeated i [] s there = refl
  repeated i (m ∷ ms) s there =
      let rest = repeated (i + 1) ms s (λ k listed. there k (Memᴰ.tail listed)) in
      elim (again m s (there m (Memᴰ.head refl))) [
        | inl e ↦ migrate_changed exec i m ms s s e ∙ rest
        | inr (reason, e, d) ↦ migrate_duplicate exec i m ms s reason e d ∙ rest
      ]

  migrate_again : (s s' : Schema) → migrate exec s ≡ migrated s' → migrate exec s' ≡ migrated s'
  unfolding migrate
  migrate_again s s' h = repeated 1 migrations s' (made 1 migrations s s' h).1

  -- An opened database has gone through the migrations and the seeding.
  opened_cases :
      (connect ping : Option String) (hash_password : String → String) (password : String)
      (s s' : Schema) (a a' : Accounts)
      → open_db exec connect ping hash_password password s a ≡ opened s' a'
      → (migrate exec s ≡ migrated s') × (seed_default_admin hash_password password a ≡ done a')
  unfolding open_db
  opened_cases (some reason) ping hash_password password s s' a a' h =
      let wrong : ◌≡◌ {A = Opened Schema} (unopened _) (opened s' a') = h in absurd cc
  opened_cases none (some reason) hash_password password s s' a a' h =
      let wrong : ◌≡◌ {A = Opened Schema} (unopened _) (opened s' a') = h in absurd cc
  opened_cases none none hash_password password s s' a a' h =
      elim (migrated_cases (migrate exec s)) [
        | inr (i, reason, e) ↦
            let wrong : ◌≡◌ {A = Opened Schema} (unopened _) (opened s' a') =
              rw (open_db, e) at h in
            absurd cc
        | inl (u, e) ↦ elim (outcome_cases (seed_default_admin hash_password password a)) [
          | inr (reason, f) ↦
              let wrong : ◌≡◌ {A = Opened Schema} (unopened _) (opened s' a') =
                rw (open_db, e, f) at h in
              absurd cc
          | inl (b, f) ↦
              let same : ◌≡◌ {A = Opened Schema} (opened u b) (opened s' a') =
                rw (open_db, e, f) at h in
              let schema : u ≡ s' = cc in
              let accounts : b ≡ a' = cc in (e ∙ ap migrated schema, f ∙ ap done accounts)
        ]
      ]

  -- Once a database has been opened, it opens again, with whatever password the seeding would draw, and
  -- neither the schema nor the accounts change.
  pub open_db_again :
      (connect ping : Option String) (hash_password : String → String) (password password' : String)
      (s s' : Schema) (a a' : Accounts)
      → open_db exec connect ping hash_password password s a ≡ opened s' a'
      → open_db exec none none hash_password password' s' a' ≡ opened s' a'
  unfolding open_db seed_default_admin
  open_db_again connect ping hash_password password password' s s' a a' h =
      let (schema, accounts) = opened_cases connect ping hash_password password s s' a a' h in
      let stays = migrate_again s s' schema in
      let unseeded = seeded hash_password password a a' accounts in
      rw (open_db, stays) (rw (seed_default_admin, unseeded) refl)
