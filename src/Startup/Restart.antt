-- ===== src/Startup/Restart.antt =====
-- cmd/arbiter/main.go: a second start changes nothing.
use mathlib.Core.List.{List}
use threat_intel_arbiter.Common.{
  ◌≡◌, ◌⊎◌, ◌∙◌, refl, ap, ap₂, sym, Bool, true, none, String, contains, inl, inr, Option-cases,
}
use threat_intel_arbiter.Model.{App}
use threat_intel_arbiter.Config.{Config, Load, loaded, load_error, load_all}
use threat_intel_arbiter.Access.Users.{Accounts}
use threat_intel_arbiter.Database.Statements.{Statement}
use threat_intel_arbiter.Database.{Executed, changed, rejected, Opened, opened, unopened, open_db}
use threat_intel_arbiter.Database.Reopening.{open_db_again}
use threat_intel_arbiter.Pipeline.{Setup}
use threat_intel_arbiter.Dashboard.Stack.{
  ImportFault, no_fault, import_reason, replace_stack, import_tech_stack,
}
use threat_intel_arbiter.Dashboard.Settings.{no_setting_faults, seed_settings_from_env}
use threat_intel_arbiter.Startup.{
  no_faults, World, Stores, Start, fatal, ready, setup_of, start_with, start_up,
}
use threat_intel_arbiter.Startup.Seeding.{seed_settings_from_env_again}

load_cases :
    (x : Load (Config × List App))
    → ((found : Config × List App) × (x ≡ loaded found))
      ⊎ ((reason : String) × (x ≡ load_error reason))
load_cases (loaded found) = inl (found, refl)
load_cases (load_error reason) = inr (reason, refl)

opened_cases :
    {Schema : Type 0} (x : Opened Schema)
    → ((schema : Schema) × (accounts : Accounts) × (x ≡ opened schema accounts))
      ⊎ ((reason : String) × (x ≡ unopened reason))
opened_cases (opened schema accounts) = inl (schema, accounts, refl)
opened_cases (unopened reason) = inr (reason, refl)

same_ready :
    {Schema : Type 0} (t t' : Stores Schema) (u u' : Setup)
    → ready t u ≡ ready t' u'
    → (t ≡ t') × (u ≡ u')
same_ready t t' u u' h = (cc, cc)

-- The assumptions on SQLite are those of Database.Reopening.
module _ {Schema : Type 0} (exec : Statement → Schema → Executed Schema)
    (holds : Statement → Schema → Bool)
    (makes : (m : Statement) (s s' : Schema) → exec m s ≡ changed s' → holds m s' ≡ true)
    (keeps : (m k : Statement) (s s' : Schema)
      → exec m s ≡ changed s'
      → holds k s ≡ true
      → holds k s' ≡ true)
    (duplicate : (m : Statement) (s : Schema) (reason : String)
      → exec m s ≡ rejected reason
      → contains reason "duplicate column" ≡ true
      → holds m s ≡ true)
    (again : (m : Statement) (s : Schema)
      → holds m s ≡ true
      → (exec m s ≡ changed s)
        ⊎ ((reason : String) × (exec m s ≡ rejected reason)
            × (contains reason "duplicate column" ≡ true))) where
  -- A start that is ready has gone through its three steps.
  start_with_cases :
      (w : World) (s s' : Stores Schema) (found : Config × List App) (setup : Setup)
      → start_with exec w s found ≡ ready s' setup
      → (open_db exec w.connect w.ping w.hash_password w.password s.schema s.accounts
          ≡ opened s'.schema s'.accounts)
        × (s'.stack ≡ (import_tech_stack w.faults.import_fault w.order found.1 s.stack).1)
        × (s'.settings ≡ seed_settings_from_env w.faults.setting_faults w.getenv s.settings)
        × (setup ≡ setup_of w.outside w.getenv found.0 found.1)
  unfolding start_with
  start_with_cases w s s' (cfg, apps) setup h =
      elim (opened_cases
        (open_db exec w.connect w.ping w.hash_password w.password s.schema s.accounts)) [
          | inr (reason, e) ↦
              let wrong : ◌≡◌ {A = Start Schema} (fatal _) (ready s' setup) =
                rw (start_with, e) at h in
              absurd cc
          | inl (schema, accounts, e) ↦
              let same : ◌≡◌ {A = Start Schema} (ready _ _) (ready s' setup) =
                rw (start_with, e) at h in
              let (stores, setups) = same_ready _ s' _ setup same in
              (
                e ∙ ap (λ t. opened t.schema t.accounts) stores,
                sym (ap (λ t. t.stack) stores),
                sym (ap (λ t. t.settings) stores),
                sym setups,
              )
        ]

  -- An import of what the table has leaves it, whether it succeeds or not.
  import_again :
      (fault : ImportFault) (order : List App → List App) (apps rows : List App)
      → let after = (import_tech_stack no_fault order apps rows).1 in
        (import_tech_stack fault order apps after).1 ≡ after
  unfolding import_tech_stack import_reason replace_stack
  import_again fault order apps rows = elim (Option-cases (import_reason fault apps)) [
    | inl ok ↦ rw (import_tech_stack, ok) refl
    | inr (reason, failed) ↦ rw (import_tech_stack, failed) refl
  ]

  start_with_again :
      (w : World) (s s' : Stores Schema) (found : Config × List App) (setup : Setup)
      (password : String) (fault : ImportFault)
      → start_with exec (record w { faults = no_faults }) s found ≡ ready s' setup
      → start_with exec
          (record w {
            connect = none;
            ping = none;
            password = password;
            faults = record no_faults { import_fault = fault };
          })
          s'
          found
        ≡ ready s' setup
  unfolding start_with
  start_with_again w s s' (cfg, apps) setup password fault h =
      let (opening, stack, settings, same) =
        start_with_cases (record w { faults = no_faults }) s s' (cfg, apps) setup h in
      let reopening =
        open_db_again exec holds makes keeps duplicate again w.connect w.ping w.hash_password
          w.password password s.schema s'.schema s.accounts s'.accounts opening in
      let seeded : seed_settings_from_env no_setting_faults w.getenv s'.settings ≡ s'.settings =
        ap (seed_settings_from_env no_setting_faults w.getenv) settings
        ∙ seed_settings_from_env_again w.getenv s.settings
        ∙ sym settings in
      let imported : (import_tech_stack fault w.order apps s'.stack).1 ≡ s'.stack =
        ap (λ rows. (import_tech_stack fault w.order apps rows).1) stack
        ∙ import_again fault w.order apps s.stack
        ∙ sym stack in
      let tables : List App → List (String × String) → Stores Schema =
        λ st se. record { schema = s'.schema; accounts = s'.accounts; stack = st; settings = se } in
      rw (start_with, reopening)
        (ap₂ (λ st se. ready (tables st se) (setup_of w.outside w.getenv cfg apps)) imported seeded
          ∙ ap (λ u. ready s' u) (sym same))

  -- A program that has started without an error of SQLite at the import of the tech stack and at the
  -- seeding of the settings leaves its database so that a second start with the same files and
  -- environment, whose database can be reached, is ready with the same setup and changes no table but
  -- for the numbers of the rows of the tech stack, which an import draws anew: not the schema, the
  -- accounts, the tech stack or the settings, whatever password it would draw for a first
  -- administrator and also when its import fails at any step; when its settings can be read and
  -- written, SQLite makes what an accepted statement names and removes nothing, and it leaves the
  -- schema at a statement whose table, index or column is there, with the error of a duplicate column
  -- or without one.
  pub start_up_again :
      (w : World) (s s' : Stores Schema) (setup : Setup) (password : String) (fault : ImportFault)
      → start_up exec (record w { faults = no_faults }) s ≡ ready s' setup
      → start_up exec
          (record w {
            connect = none;
            ping = none;
            password = password;
            faults = record no_faults { import_fault = fault };
          })
          s'
        ≡ ready s' setup
  unfolding start_up
  start_up_again w s s' setup password fault h = elim (load_cases (load_all w.files w.config_dir)) [
    | inr (reason, e) ↦
        let wrong : ◌≡◌ {A = Start Schema} (fatal _) (ready s' setup) = rw (start_up, e) at h in
        absurd cc
    | inl (found, e) ↦
        rw (start_up, e)
          (start_with_again w s s' found setup password fault (rw (start_up, e) at h))
  ]
