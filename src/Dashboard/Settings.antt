-- ===== src/Dashboard/Settings.antt =====
-- internal/store/settings.go, the settings handlers of internal/api/server.go and the seeding of
-- cmd/arbiter/main.go: the settings table as its rows. The environment is an argument.
use Prim.Native.String.{[], ◌∷◌, ◌++◌ as append}
use text.Mathlib.TextLemmas.{nil-append, cons-append}
use mathlib.Core.List.{List, [], ◌∷◌}
use threat_intel_arbiter.Common.{
  drop_text, ℕ, zero, suc, ◌+◌, ◌-◌, ◌≡◌, ◌≢◌, ◌∙◌, refl, ap, sym, Bool, true, false, not, ◌&&◌,
  none, some, String, ◌==◌, leb, ltb, eq_iff, if◌then◌else◌, any, map, contains, to_lower,
  text_length, Bool-cases, inl, inr, arith,
}
use threat_intel_arbiter.Common.Dict.{lookup, insert, has}

-- A missing row is the empty text.
unfoldable pub get_setting : String → List (String × String) → String
unfolding lookup
get_setting key rows = elim (lookup key rows) [ none ↦ "" | some value ↦ value ]

unfoldable pub set_setting : String → String → List (String × String) → List (String × String)
unfolding insert
set_setting key value rows = insert key value rows

-- `secretKeyPattern` finds one of the words anywhere in the key, in any case.
unfoldable pub is_secret_key : String → Bool
unfolding any contains to_lower
is_secret_key key =
    any (contains (to_lower key))
      ("webhook" ∷ "token" ∷ "key" ∷ "secret" ∷ "password" ∷ "api_key" ∷ [])

unfoldable pub mask_value : String → String → String
unfolding is_secret_key text_length drop_text
mask_value key value =
    if value == ""
    then ""
    else if not (is_secret_key key)
    then value
    else if leb (text_length value) 4
    then "****"
    else append "****" (drop_text (text_length value - 4) value)

unfoldable pub get_masked_setting : String → List (String × String) → String
unfolding mask_value get_setting
get_masked_setting key rows = mask_value key (get_setting key rows)

unfoldable pub get_all_settings_masked : List (String × String) → List (String × String)
unfolding mask_value
get_all_settings_masked rows = map (λ row. (row.0, mask_value row.0 row.1)) rows

-- The Booleans tell whether SQLite gives an error at reading and at writing the setting; a setting that
-- cannot be read is taken for one without a value.
unfoldable pub seed_setting :
    Bool → Bool → String → String → List (String × String) → List (String × String)
unfolding get_setting set_setting
seed_setting read_fails write_fails key value rows =
    if value == ""
    then rows
    else if not read_fails && not (get_setting key rows == "")
    then rows
    else if write_fails
    then rows
    else set_setting key value rows

unfoldable pub seeds : List (String × String)
seeds =
    ("slack_webhook_url", "SLACK_WEBHOOK_URL")
    ∷ ("teams_webhook_url", "TEAMS_WEBHOOK_URL")
    ∷ ("email_target", "SMTP_TO")
    ∷ ("cs_client_id", "CROWDSTRIKE_CLIENT_ID")
    ∷ ("cs_secret", "CROWDSTRIKE_CLIENT_SECRET")
    ∷ ("cs_base_url", "CROWDSTRIKE_BASE_URL")
    ∷ []

-- Whether SQLite gives an error at reading, and at writing, the setting of a key.
pub record SettingFaults : Type 0 where
  pub read_fails : String → Bool
  pub write_fails : String → Bool

unfoldable pub no_setting_faults : SettingFaults
no_setting_faults = record { read_fails = λ key. false; write_fails = λ key. false }

-- An error of one setting is logged, and the loop goes on.
unfoldable pub seed_all :
    SettingFaults
    → (String → String)
    → List (String × String)
    → List (String × String)
    → List (String × String)
unfolding seed_setting
seed_all faults getenv [] rows = rows
seed_all faults getenv ((key, env) ∷ pairs) rows = seed_all faults getenv pairs (
    if getenv env == ""
    then rows
    else seed_setting (faults.read_fails key) (faults.write_fails key) key (getenv env) rows)

unfoldable pub seed_settings_from_env :
    SettingFaults → (String → String) → List (String × String) → List (String × String)
unfolding seed_all seeds
seed_settings_from_env faults getenv rows = seed_all faults getenv seeds rows

stars : ℕ → String
stars zero = ""
stars (suc n) = append "*" (stars n)

unfoldable pub mask_admin_key : String → String
unfolding stars drop_text text_length
mask_admin_key key =
    let show = if ltb (text_length key) 4 then text_length key else 4 in
    if key == ""
    then ""
    else append (stars (text_length key - show)) (drop_text (text_length key - show) key)

-- The answer of handleGetSettings.
unfoldable pub handle_get_settings : String → List (String × String) → List (String × String)
unfolding get_all_settings_masked lookup insert mask_admin_key
handle_get_settings admin_key rows =
    let settings = get_all_settings_masked rows in
    elim (lookup "admin_key_masked" settings) [
      | some value ↦ settings
      | none ↦
          insert "admin_key_masked" (if admin_key == "" then "" else mask_admin_key admin_key)
            settings
    ]

unfoldable pub allowed_settings : List String
allowed_settings =
    "slack_webhook_url" ∷ "teams_webhook_url" ∷ "email_target" ∷ "cs_client_id" ∷ "cs_secret"
    ∷ "cs_base_url" ∷ []

-- The decoded body of a PUT, its pairs in the order in which the map gives them, and how many were
-- saved.
unfoldable pub handle_admin_settings :
    List (String × String) → List (String × String) → ℕ × List (String × String)
unfolding has allowed_settings set_setting
handle_admin_settings [] rows = (0, rows)
handle_admin_settings ((key, value) ∷ body) rows =
    let (saved, rows') =
      handle_admin_settings body
        (if has key allowed_settings then set_setting key value rows else rows) in
    (if has key allowed_settings then saved + 1 else saved, rows')

text_length-append : (s t : String) → text_length (append s t) ≡ text_length s + text_length t
unfolding text_length
text_length-append [] t = rw (nil-append t) (omega arith)
text_length-append (c ∷ s) t = rw (cons-append c s t) (omega (arith, text_length-append s t))

drop_text-append : (s t : String) → drop_text (text_length s) (append s t) ≡ t
unfolding drop_text text_length
drop_text-append [] t = nil-append t
drop_text-append (c ∷ s) t = rw (cons-append c s t) (drop_text-append s t)

longer : (m n : ℕ) → n ≡ suc m + 4 → leb n 4 ≡ false
longer m n e = ground arith

-- A secret of more than four characters is shown by its last four.
mask_value-append :
    (key hidden shown : String)
    → is_secret_key key ≡ true
    → text_length shown ≡ 4
    → hidden ≢ ""
    → mask_value key (append hidden shown) ≡ append "****" shown
unfolding text_length mask_value is_secret_key
mask_value-append key [] shown secret four ne = absurd (ne refl)
mask_value-append key (c ∷ s) shown secret four ne =
    let value = append (c ∷ s) shown in
    let long : text_length value ≡ text_length (c ∷ s) + 4 =
      omega (arith, text_length-append (c ∷ s) shown, four) in
    let over : leb (text_length value) 4 ≡ false =
      longer (text_length s) (text_length value) long in
    let behind : text_length value - 4 ≡ text_length (c ∷ s) = omega (arith, long) in
    let named : (value == "") ≡ false = elim (Bool-cases (value == "")) [
      | inl e ↦
          let empty = ap text_length ((eq_iff value "").0 e) in absurd (ground (arith, empty, long))
      | inr e ↦ e
    ] in
    rw (named, secret, over, behind, mask_value)
      (ap (append "****") (drop_text-append (c ∷ s) shown))

-- What the settings show of a secret is the same whatever stands in front of its last four
-- characters, as long as something does: neither those characters nor their number can be learnt.
pub mask_value_hides :
    (key hidden hidden' shown : String)
    → is_secret_key key ≡ true
    → text_length shown ≡ 4
    → hidden ≢ ""
    → hidden' ≢ ""
    → mask_value key (append hidden shown) ≡ mask_value key (append hidden' shown)
mask_value_hides key hidden hidden' shown secret four ne ne' =
    mask_value-append key hidden shown secret four ne
    ∙ sym (mask_value-append key hidden' shown secret four ne')
