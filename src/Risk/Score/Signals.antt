-- ===== src/Risk/Score/Signals.antt =====
-- internal/risk/engine.go and ssvc.go: what a score does not depend on.
use threat_intel_arbiter.Common.{Bool, false, ◌≡◌, List, [], ◌∷◌, any, map, refl}
use threat_intel_arbiter.Model.{Time, App, OrgContext, Match, ThreatEvent}
use threat_intel_arbiter.Risk.Assets.{some_asset, has_kev, is_nil}
use threat_intel_arbiter.Risk.Ssvc.{
  SsvcResult, ssvc_tree, determine_exploitation, determine_exposure, determine_mission_impact,
}
use threat_intel_arbiter.Risk.Score.{
  RiskWeights, Contribution, score, result, likelihood_factors, impact_factors, exposure_factors,
  confidence_factors,
}

-- The match with its `Suppressed` flag cleared.
unfoldable pub unsuppressed : Match → Match
unsuppressed m = record m { suppressed = false }

some_asset-unsuppressed :
    (test : App → Bool) (org : OrgContext) (matches : List Match)
    → some_asset test org (map unsuppressed matches) ≡ some_asset test org matches
unfolding some_asset any unsuppressed
some_asset-unsuppressed test org [] = refl
some_asset-unsuppressed test org (m ∷ matches) = rw (some_asset-unsuppressed test org matches)

has_kev-unsuppressed : (matches : List Match) → has_kev (map unsuppressed matches) ≡ has_kev matches
unfolding has_kev any unsuppressed
has_kev-unsuppressed [] = refl
has_kev-unsuppressed (m ∷ matches) = rw (has_kev-unsuppressed matches)

is_nil-unsuppressed : (matches : List Match) → is_nil (map unsuppressed matches) ≡ is_nil matches
is_nil-unsuppressed [] = refl
is_nil-unsuppressed (m ∷ matches) = refl

ruleset unsuppressed_laws = (some_asset-unsuppressed, has_kev-unsuppressed, is_nil-unsuppressed)

ssvc_tree-unsuppressed :
    (event : ThreatEvent) (org : OrgContext) (matches : List Match)
    → ssvc_tree event org (map unsuppressed matches) ≡ ssvc_tree event org matches
unfolding ssvc_tree determine_exploitation determine_exposure determine_mission_impact
ssvc_tree-unsuppressed event org matches = simp unsuppressed_laws

likelihood_factors-unsuppressed :
    (now : Time) (event : ThreatEvent) (matches : List Match)
    → likelihood_factors now event (map unsuppressed matches) ≡ likelihood_factors now event matches
unfolding likelihood_factors
likelihood_factors-unsuppressed now event matches = simp unsuppressed_laws

impact_factors-unsuppressed :
    (event : ThreatEvent) (org : OrgContext) (matches : List Match)
    → impact_factors event org (map unsuppressed matches) ≡ impact_factors event org matches
unfolding impact_factors
impact_factors-unsuppressed event org matches = simp unsuppressed_laws

exposure_factors-unsuppressed :
    (event : ThreatEvent) (org : OrgContext) (matches : List Match)
    → exposure_factors event org (map unsuppressed matches) ≡ exposure_factors event org matches
unfolding exposure_factors
exposure_factors-unsuppressed event org matches = simp unsuppressed_laws

result_cong :
    (w : RiskWeights) (cf : List Contribution) {lf lf' mf mf' ef ef' : List Contribution}
    {ssvc ssvc' : SsvcResult}
    → lf ≡ lf'
    → mf ≡ mf'
    → ef ≡ ef'
    → ssvc ≡ ssvc'
    → result w lf mf ef cf ssvc ≡ result w lf' mf' ef' cf ssvc'
result_cong w cf p q r s = cc

-- The score, its severity and the SSVC action do not depend on the suppressed flags of the matches:
-- a match that the version check suppressed counts as any other.
pub score-unsuppressed :
    (w : RiskWeights) (now : Time) (event : ThreatEvent) (org : OrgContext) (matches : List Match)
    → score w now event org (map unsuppressed matches) ≡ score w now event org matches
unfolding score
score-unsuppressed w now event org matches =
    result_cong w (confidence_factors w event) (likelihood_factors-unsuppressed now event matches)
      (impact_factors-unsuppressed event org matches)
      (exposure_factors-unsuppressed event org matches) (ssvc_tree-unsuppressed event org matches)
