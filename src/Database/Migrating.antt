-- ===== src/Database/Migrating.antt =====
-- internal/store/db.go: how the loop over the migrations ends.
use mathlib.Core.List.{List, [], ◌∷◌}
use threat_intel_arbiter.Common.{
  ℕ, suc, ◌+◌, ◌≡◌, ◌⊎◌, ◌↔◌, ◌∙◌, refl, ap, sym, true, false, String, contains, ◌++◌, length,
  Bool-cases, inl, inr, arith,
}
use threat_intel_arbiter.Database.Statements.{Statement, migrations}
use threat_intel_arbiter.Database.{
  Executed, changed, rejected, Migrated, migrated, stuck, migrate_from, migrate,
}

module _ {Schema : Type 0} (exec : Statement → Schema → Executed Schema) where
  pub executed_cases :
      (m : Statement) (s : Schema)
      → ((s' : Schema) × (exec m s ≡ changed s'))
        ⊎ ((reason : String) × (exec m s ≡ rejected reason))
  executed_cases m s = by_case (exec m s) refl
    where
      by_case :
          (x : Executed Schema)
          → exec m s ≡ x
          → ((s' : Schema) × (exec m s ≡ changed s'))
            ⊎ ((reason : String) × (exec m s ≡ rejected reason))
      by_case (changed s') e = inl (s', e)
      by_case (rejected reason) e = inr (reason, e)

  pub migrate_changed :
      (i : ℕ) (m : Statement) (ms : List Statement) (s s' : Schema)
      → exec m s ≡ changed s'
      → migrate_from exec i (m ∷ ms) s ≡ migrate_from exec (i + 1) ms s'
  unfolding migrate_from
  migrate_changed i m ms s s' e = rw (migrate_from, e) refl

  pub migrate_duplicate :
      (i : ℕ) (m : Statement) (ms : List Statement) (s : Schema) (reason : String)
      → exec m s ≡ rejected reason
      → contains reason "duplicate column" ≡ true
      → migrate_from exec i (m ∷ ms) s ≡ migrate_from exec (i + 1) ms s
  unfolding migrate_from
  migrate_duplicate i m ms s reason e d = rw (migrate_from, e, d) refl

  pub migrate_rejected :
      (i : ℕ) (m : Statement) (ms : List Statement) (s : Schema) (reason : String)
      → exec m s ≡ rejected reason
      → contains reason "duplicate column" ≡ false
      → migrate_from exec i (m ∷ ms) s ≡ stuck i reason
  unfolding migrate_from
  migrate_rejected i m ms s reason e d = rw (migrate_from, e, d) refl

  -- The statement that ends the loop, in front of those that the loop does not come to.
  unfoldable pub Fails : ℕ → List Statement → Schema → ℕ → String → Type 0
  unfolding migrate_from
  Fails i ms s number reason =
      (before after : List Statement) × (m : Statement) × (s' : Schema) × (ms
        ≡ before ++ (m ∷ after))
      × (migrate_from exec i before s ≡ migrated s')
      × (exec m s' ≡ rejected reason)
      × (contains reason "duplicate column" ≡ false)
      × (number ≡ i + length before)

  Fails-later :
      (i : ℕ) (m : Statement) (ms : List Statement) (s s' : Schema) (number : ℕ) (reason : String)
      → ((rest : List Statement)
          → migrate_from exec i (m ∷ rest) s ≡ migrate_from exec (i + 1) rest s')
      → Fails (i + 1) ms s' number reason
      → Fails i (m ∷ ms) s number reason
  unfolding Fails
  Fails-later i m ms s s' number reason goes (before, after, k, u, split, done, e, d, n) =
      (m ∷ before, after, k, u, ap (λ l. m ∷ l) split, goes before ∙ done, e, d, omega (arith, n))

  Fails-migrate :
      (i : ℕ) (ms : List Statement) (s : Schema) (number : ℕ) (reason : String)
      → migrate_from exec i ms s ≡ stuck number reason
      → Fails i ms s number reason
  unfolding migrate_from Fails
  Fails-migrate i [] s number reason h =
      let wrong : migrated s ≡ stuck number reason = h in absurd cc
  Fails-migrate i (m ∷ ms) s number reason h = elim (executed_cases m s) [
    | inl (s', e) ↦
        let goes = λ (rest : List Statement). migrate_changed i m rest s s' e in
        Fails-later i m ms s s' number reason goes
          (Fails-migrate (i + 1) ms s' number reason (sym (goes ms) ∙ h))
    | inr (why, e) ↦ elim (Bool-cases (contains why "duplicate column")) [
      | inl d ↦
          let goes = λ (rest : List Statement). migrate_duplicate i m rest s why e d in
          Fails-later i m ms s s number reason goes
            (Fails-migrate (i + 1) ms s number reason (sym (goes ms) ∙ h))
      | inr d ↦
          let same : ◌≡◌ {A = Migrated Schema} (stuck i why) (stuck number reason) =
            sym (migrate_rejected i m ms s why e d) ∙ h in
          let at : i ≡ number = cc in
          let because : why ≡ reason = cc in
          (
            [],
            ms,
            m,
            s,
            refl,
            refl,
            e ∙ ap rejected because,
            ap (λ r. contains r "duplicate column") (sym because) ∙ d,
            omega (arith, at),
          )
    ]
  ]

  -- The loop goes on behind statements that do not end it.
  migrate_after :
      (i : ℕ) (before after : List Statement) (s s' : Schema)
      → migrate_from exec i before s ≡ migrated s'
      → migrate_from exec i (before ++ after) s ≡ migrate_from exec (i + length before) after s'
  unfolding migrate_from
  migrate_after i [] after s s' h =
      let same : ◌≡◌ {A = Migrated Schema} (migrated s) (migrated s') = h in
      let here : s ≡ s' = cc in let start : i + 0 ≡ i = omega arith in rw (start, here) refl
  migrate_after i (m ∷ before) after s s' h =
      let count : i + 1 + length before ≡ i + suc (length before) = omega arith in
      elim (executed_cases m s) [
        | inl (u, e) ↦
            migrate_changed i m (before ++ after) s u e
            ∙ migrate_after (i + 1) before after u s' (sym (migrate_changed i m before s u e) ∙ h)
            ∙ ap (λ n. migrate_from exec n after s') count
        | inr (why, e) ↦ elim (Bool-cases (contains why "duplicate column")) [
          | inl d ↦
              migrate_duplicate i m (before ++ after) s why e d
              ∙ migrate_after (i + 1) before after s s'
                  (sym (migrate_duplicate i m before s why e d) ∙ h)
              ∙ ap (λ n. migrate_from exec n after s') count
          | inr d ↦
              let wrong : ◌≡◌ {A = Migrated Schema} (stuck i why) (migrated s') =
                sym (migrate_rejected i m before s why e d) ∙ h in
              absurd cc
        ]
      ]

  -- The migrations stop with an error exactly when some statement fails for another reason than a
  -- column that is there already, after all statements before it went through or were skipped for that
  -- reason: the error is the one of that statement, with its number counted from 1.
  pub migrate_stuck_iff :
      (s : Schema) (number : ℕ) (reason : String)
      → (migrate exec s ≡ stuck number reason) ↔ Fails 1 migrations s number reason
  unfolding migrate Fails
  migrate_stuck_iff s number reason = (
    Fails-migrate 1 migrations s number reason,
    (λ (before, after, m, s', split, done, e, d, n).
        ap (λ ms. migrate_from exec 1 ms s) split
        ∙ migrate_after 1 before (m ∷ after) s s' done
        ∙ migrate_rejected (1 + length before) m after s' reason e d
        ∙ ap (λ k. stuck k reason) (sym n)),
  )
