-- ===== src/Startup/Seeding.antt =====
-- cmd/arbiter/main.go and internal/store/settings.go: settings that are seeded again stay as they are.
use mathlib.Core.List.{List, [], ◌∷◌}
use threat_intel_arbiter.Common.{
  ◌≡◌, ◌⊎◌, ◌∙◌, refl, ap, Bool, true, false, not, ◌||◌, String, ◌==◌, eq_refl, if◌then◌else◌, All,
  Bool-cases, inl, inr, arith,
}
use threat_intel_arbiter.Common.Dict.{lookup-insert}
use threat_intel_arbiter.Dashboard.Settings.{
  get_setting, set_setting, seed_setting, seeds, seed_all, seed_settings_from_env,
  no_setting_faults,
}

-- Seeding a pair does nothing: the environment has no value for it, or the setting has one.
unfoldable pub is_settled : (String → String) → List (String × String) → String × String → Bool
unfolding get_setting
is_settled getenv rows (key, env) = getenv env == "" || not (get_setting key rows == "")

get_setting-set_setting :
    (key asked value : String) (rows : List (String × String))
    → get_setting asked (set_setting key value rows)
      ≡ (if key == asked then value else get_setting asked rows)
unfolding get_setting set_setting
get_setting-set_setting key asked value rows =
    rw (get_setting, lookup-insert key asked value rows)
      (elim (Bool-cases (key == asked)) [ inl e ↦ rw e refl | inr e ↦ rw e refl ])

-- The step of the loop for a pair.
abbrev seed_pair :
    (String → String) → List (String × String) → String × String → List (String × String)
seed_pair getenv rows (key, env) =
    if getenv env == "" then rows else seed_setting false false key (getenv env) rows

seed_pair_settled :
    (getenv : String → String) (rows : List (String × String)) (pair : String × String)
    → is_settled getenv rows pair ≡ true
    → seed_pair getenv rows pair ≡ rows
unfolding is_settled seed_setting
seed_pair_settled getenv rows (key, env) h = ground (arith, h)

-- The step leaves a settled pair, or writes a value.
seed_pair_cases :
    (getenv : String → String) (rows : List (String × String)) (key env : String)
    → (seed_pair getenv rows (key, env) ≡ rows) × (is_settled getenv rows (key, env) ≡ true)
      ⊎ (seed_pair getenv rows (key, env) ≡ set_setting key (getenv env) rows)
        × ((getenv env == "") ≡ false)
unfolding is_settled seed_setting
seed_pair_cases getenv rows key env = elim (Bool-cases (getenv env == "")) [
  | inl e ↦ inl (rw e refl, rw e refl)
  | inr e ↦ elim (Bool-cases (get_setting key rows == "")) [
    | inl f ↦ inr (rw (e, f) refl, e)
    | inr f ↦ inl (rw (e, f) refl, rw (e, f) refl)
  ]
]

seed_pair_settles :
    (getenv : String → String) (rows : List (String × String)) (pair : String × String)
    → is_settled getenv (seed_pair getenv rows pair) pair ≡ true
unfolding is_settled
seed_pair_settles getenv rows (key, env) = elim (seed_pair_cases getenv rows key env) [
  | inl (same, settled) ↦ ap (λ r. is_settled getenv r (key, env)) same ∙ settled
  | inr (written, filled) ↦
      let asked : get_setting key (set_setting key (getenv env) rows) ≡ getenv env =
        get_setting-set_setting key key (getenv env) rows ∙ rw (eq_refl key) refl in
      ap (λ r. is_settled getenv r (key, env)) written ∙ rw (asked, filled) refl
]

seed_pair_keeps :
    (getenv : String → String) (rows : List (String × String)) (pair other : String × String)
    → is_settled getenv rows other ≡ true
    → is_settled getenv (seed_pair getenv rows pair) other ≡ true
unfolding is_settled
seed_pair_keeps getenv rows (key, env) (other, other_env) h =
    elim (seed_pair_cases getenv rows key env) [
      | inl (same, settled) ↦ ap (λ r. is_settled getenv r (other, other_env)) same ∙ h
      | inr (written, filled) ↦
          ap (λ r. is_settled getenv r (other, other_env)) written
          ∙ rw (get_setting-set_setting key other (getenv env) rows)
              (elim (Bool-cases (key == other)) [
                | inl e ↦ rw (e, filled) (ground arith)
                | inr e ↦ rw e h
              ])
    ]

-- Behind the loop every pair is settled, and what was settled is.
seed_all_settles :
    (getenv : String → String) (pairs rows : List (String × String))
    → ((other : String × String)
        → is_settled getenv rows other ≡ true
        → is_settled getenv (seed_all no_setting_faults getenv pairs rows) other ≡ true)
      × All
          (λ pair. is_settled getenv (seed_all no_setting_faults getenv pairs rows) pair ≡ true)
          pairs
unfolding seed_all no_setting_faults
seed_all_settles getenv [] rows = ((λ other h. h), tt)
seed_all_settles getenv ((key, env) ∷ pairs) rows =
    let next = seed_pair getenv rows (key, env) in
    let (kept, all) = seed_all_settles getenv pairs next in
    (
      (λ other h. kept other (seed_pair_keeps getenv rows (key, env) other h)),
      (kept (key, env) (seed_pair_settles getenv rows (key, env)), all),
    )

seed_all_settled :
    (getenv : String → String) (pairs rows : List (String × String))
    → All (λ pair. is_settled getenv rows pair ≡ true) pairs
    → seed_all no_setting_faults getenv pairs rows ≡ rows
unfolding seed_all no_setting_faults
seed_all_settled getenv [] rows h = refl
seed_all_settled getenv ((key, env) ∷ pairs) rows (h, hs) =
    ap (seed_all no_setting_faults getenv pairs) (seed_pair_settled getenv rows (key, env) h)
    ∙ seed_all_settled getenv pairs rows hs

pub seed_settings_from_env_again :
    (getenv : String → String) (rows : List (String × String))
    → seed_settings_from_env no_setting_faults getenv
        (seed_settings_from_env no_setting_faults getenv rows)
      ≡ seed_settings_from_env no_setting_faults getenv rows
unfolding seed_settings_from_env
seed_settings_from_env_again getenv rows =
    seed_all_settled getenv seeds _ (seed_all_settles getenv seeds rows).1
