-- ===== src/Risk/Assets.antt =====
-- The loops of internal/risk/engine.go and internal/risk/ssvc.go over the matched apps: for each
-- match that names an app, each app of the tech stack with that name. A flag that such a loop sets
-- says that some matched app passes a test.
use threat_intel_arbiter.Common.{
  Bool, true, false, not, ◌&&◌, ◌||◌, List, [], ◌∷◌, String, ◌==◌, any,
}
use threat_intel_arbiter.Model.{App, OrgContext, Match, ThreatEvent}

unfoldable pub some_asset : (App → Bool) → OrgContext → List Match → Bool
unfolding any
some_asset test org matches =
    any
      (λ m.
        not (m.app_name == "") && any (λ app. app.name == m.app_name && test app) org.tech_stack)
      matches

abbrev pub is_critical : App → Bool
is_critical app = app.criticality == "critical"

abbrev pub is_high : App → Bool
is_high app = app.criticality == "high"

abbrev pub is_sensitive : App → Bool
is_sensitive app = app.data_sensitivity == "critical" || app.data_sensitivity == "high"

unfoldable pub has_tag : String → ThreatEvent → Bool
unfolding any
has_tag tag event = any (λ t. t == tag) event.tags

unfoldable pub has_kev : List Match → Bool
unfolding any
has_kev matches = any (λ m. m.kev_match) matches

abbrev pub is_nil {ℓ} : {A : Type ℓ} → List A → Bool
is_nil [] = true
is_nil (x ∷ xs) = false
