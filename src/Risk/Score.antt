-- ===== src/Risk/Score.antt =====
-- internal/risk/engine.go: the four dimensions of a score, and the labels.
-- A CVSS score is counted in tenths, a severity threshold in hundredths. The risk score is the
-- fraction of two numbers, and is compared with a threshold as such. The maxima have no upper limit in
-- the configuration, so that their product wraps around as an `int` of 64 bits; the dimensions are sums
-- of a few small factors, and their product does not.
pub mod Bounds
pub mod Signals
use Prim.Native.String.{◌++◌ as append}
use threat_intel_arbiter.Common.{
  ℕ, zero, suc, eqb, ◌^◌, ◌-◌, ◌*◌, ◌/◌, ◌%◌, Bool, true, not, ◌&&◌, ◌||◌, List, [], ◌∷◌, ◌++◌,
  Option, none, some, String, ◌==◌, leb, ltb, if◌then◌else◌, contains, join, any, show,
}
use threat_intel_arbiter.Common.Int.{ℤ, pos, negsuc, ◌+ℤ◌, ltb_ℤ, pos_part}
use threat_intel_arbiter.Common.Dict.{lookup}
use threat_intel_arbiter.Model.{Time, hour, OrgContext, Match, ThreatEvent}
use threat_intel_arbiter.Risk.Assets.{
  some_asset, is_critical, is_high, is_sensitive, has_tag, has_kev, is_nil,
}
use threat_intel_arbiter.Risk.Ssvc.{SsvcResult, ssvc_tree}

-- The maxima are values of an `int` above 0.
pub record RiskWeights : Type 0 where
  pub max_likelihood : ℕ
  pub max_impact : ℕ
  pub max_exposure : ℕ
  pub max_confidence : ℕ
  pub severity_thresholds : List (String × ℕ)

pub record Contribution : Type 0 where
  pub reason : String
  pub delta : ℤ

-- The fraction `risk_score / risk_scale` is the source's `RiskScore`.
pub record ScoreResult : Type 0 where
  pub likelihood : ℕ
  pub impact : ℕ
  pub exposure : ℕ
  pub confidence : ℕ
  pub risk_score : ℕ
  pub risk_scale : ℤ
  pub severity : String
  pub confidence_label : String
  pub action : String
  pub ssvc_trace : String
  pub likelihood_factors : List Contribution
  pub impact_factors : List Contribution
  pub exposure_factors : List Contribution
  pub confidence_factors : List Contribution

unfoldable pub raw_sum : List Contribution → ℤ
unfolding ◌+ℤ◌
raw_sum [] = pos 0
raw_sum (f ∷ factors) = f.delta +ℤ raw_sum factors

-- What a natural number is as an `int` of 64 bits.
unfoldable pub wrap_int : ℕ → ℤ
wrap_int n = let r = n % 2 ^ 64 in if ltb r (2 ^ 63) then pos r else negsuc (2 ^ 64 - r - 1)

-- The value is clamped from above and then from below, so it is a number.
unfoldable pub sum_capped : List Contribution → ℕ → ℕ
unfolding raw_sum
sum_capped factors max =
    let s = raw_sum factors in
    let capped = if ltb_ℤ (pos max) s then pos max else s in
    if ltb_ℤ capped (pos 0) then 0 else pos_part capped

unfoldable pub default_weights : RiskWeights
default_weights = record {
  max_likelihood = 5;
  max_impact = 5;
  max_exposure = 3;
  max_confidence = 4;
  severity_thresholds = ("critical", 50) ∷ ("high", 25) ∷ ("medium", 10) ∷ [];
}

-- The part of `RiskConfig` of internal/config/config.go that the engine reads; a nil map is `none`.
pub record RiskConfig : Type 0 where
  pub likelihood_max : ℤ
  pub impact_max : ℤ
  pub exposure_max : ℤ
  pub confidence_max : ℤ
  pub thresholds : Option (List (String × ℕ))

-- A maximum that is not positive leaves the default.
abbrev configured : ℤ → ℕ → ℕ
configured max default = if ltb_ℤ (pos 0) max then pos_part max else default

unfoldable pub new_engine_with_config : RiskConfig → RiskWeights
unfolding default_weights
new_engine_with_config cfg = record {
  max_likelihood = configured cfg.likelihood_max default_weights.max_likelihood;
  max_impact = configured cfg.impact_max default_weights.max_impact;
  max_exposure = configured cfg.exposure_max default_weights.max_exposure;
  max_confidence = configured cfg.confidence_max default_weights.max_confidence;
  severity_thresholds = elim cfg.thresholds [
    | none ↦ default_weights.severity_thresholds
    | some t ↦ t
  ];
}

abbrev pub contribution : String → ℕ → Contribution
contribution reason n = record { reason = reason; delta = pos n }

-- `if test { f = append(f, c) }`
abbrev pub when : Bool → Contribution → List Contribution
when test c = if test then c ∷ [] else []

abbrev week : Time
week = 7 * 24 * hour

unfoldable pub likelihood_factors : Time → ThreatEvent → List Match → List Contribution
unfolding has_kev has_tag join
likelihood_factors now event matches =
    let kev = has_kev matches in
    when kev (contribution "Active exploitation confirmed by CISA KEV" 3)
    ++ (when (not kev && has_tag "exploit:in-the-wild" event)
          (contribution "Active exploitation tag (exploit:in-the-wild)" 3)
        ++ (when (has_tag "exploit:weaponized" event)
              (contribution "Weaponization confirmed (exploit:weaponized)" 2)
            ++ (when (not (is_nil event.threat_actors)) (
                  contribution (append "Threat actor activity: " (join event.threat_actors ", ")) 1)
                ++ when (ltb (now - event.timestamp) week)
                    (contribution "Recent publication (within 7 days)" 1))))

-- `fmt.Sprintf("CVSS %.1f (…)", event.CVSS)`
cvss_reason : ℕ → String → String
unfolding show
cvss_reason cvss level =
    append "CVSS " (append (show (cvss / 10)) (append "." (append (show (cvss % 10)) level)))

abbrev cvss_factors : ℕ → List Contribution
cvss_factors cvss =
    if leb 90 cvss
    then contribution (cvss_reason cvss " (critical)") 3 ∷ []
    else if leb 70 cvss
    then contribution (cvss_reason cvss " (high)") 2 ∷ []
    else if leb 40 cvss
    then contribution (cvss_reason cvss " (medium)") 1 ∷ []
    else []

abbrev asset_factors : OrgContext → List Match → List Contribution
asset_factors org matches =
    if some_asset is_critical org matches
    then contribution "Matched a critical-infrastructure asset" 2 ∷ []
    else if some_asset is_high org matches
    then contribution "Matched a high-criticality asset" 1 ∷ []
    else []

abbrev is_zero : ℤ → Bool
is_zero n = not (ltb_ℤ n (pos 0)) && not (ltb_ℤ (pos 0) n)

unfoldable pub impact_factors : ThreatEvent → OrgContext → List Match → List Contribution
unfolding cvss_reason some_asset raw_sum
impact_factors event org matches =
    let f = cvss_factors event.cvss ++ asset_factors org matches in
    f
    ++ (when (is_zero (raw_sum f) && not (is_nil matches))
          (contribution "Matched asset in tech stack (baseline)" 1)
        ++ when (some_asset is_sensitive org matches)
            (contribution "Matched asset handles sensitive data" 1))

unfoldable pub exposure_factors : ThreatEvent → OrgContext → List Match → List Contribution
unfolding some_asset any contains
exposure_factors event org matches =
    let has_any_match = some_asset (λ app. true) org matches in
    let internet_facing = some_asset (λ app. app.internet_facing) org matches in
    (if internet_facing
      then contribution "Matched asset is internet-facing" 2 ∷ []
      else if has_any_match || not (is_nil matches)
      then contribution "Matched asset in tech stack (baseline)" 1 ∷ []
      else [])
    ++ when (any (λ tag. contains tag "phishing" || contains tag "credential") event.tags)
        (contribution "Phishing/credential-theft vector" 1)

abbrev source_factors : String → List Contribution
source_factors confidence =
    if confidence == "high"
    then contribution "Source confidence: high" 3 ∷ []
    else if confidence == "medium"
    then contribution "Source confidence: medium" 2 ∷ []
    else if confidence == "low"
    then []
    else contribution "Source confidence: unspecified" 1 ∷ []

unfoldable pub confidence_factors : RiskWeights → ThreatEvent → List Contribution
unfolding raw_sum
confidence_factors w event =
    let f = source_factors event.source_confidence in
    f ++ when (ltb_ℤ (raw_sum f) (pos w.max_confidence)) (contribution "Baseline reliability" 1)

-- A threshold that the map lacks is 0.
abbrev pub threshold : RiskWeights → String → ℕ
threshold w label = elim (lookup label w.severity_thresholds) [ none ↦ 0 | some t ↦ t ]

-- `score >= t` for the fraction `score / scale` of floating point numbers and `t` hundredths: by zero it
-- is infinite or, for a score of 0, not a number, and by a negative number it is below 0 or minus 0.
abbrev pub at_least : ℕ → ℤ → ℕ → Bool
at_least score (pos zero) t = ltb 0 score
at_least score (pos (suc n)) t = leb (t * suc n) (score * 100)
at_least score (negsuc n) t = eqb score 0 && eqb t 0

unfoldable pub severity_label : RiskWeights → ℕ → ℤ → String
unfolding lookup
severity_label w score scale =
    if at_least score scale (threshold w "critical")
    then "critical"
    else if at_least score scale (threshold w "high")
    then "high"
    else if at_least score scale (threshold w "medium")
    then "medium"
    else "low"

unfoldable pub confidence_label : ℕ → String
confidence_label score = if leb 3 score then "HIGH" else if leb 2 score then "MEDIUM" else "LOW"

-- The result that `Score` returns for the four lists of factors and the outcome of the SSVC tree.
unfoldable pub result :
    RiskWeights
    → List Contribution
    → List Contribution
    → List Contribution
    → List Contribution
    → SsvcResult
    → ScoreResult
unfolding sum_capped wrap_int severity_label confidence_label
result w lf mf ef cf ssvc =
    let likelihood = sum_capped lf w.max_likelihood in
    let impact = sum_capped mf w.max_impact in
    let exposure = sum_capped ef w.max_exposure in
    let confidence = sum_capped cf w.max_confidence in
    let risk_score = likelihood * impact * exposure in
    let risk_scale = wrap_int (w.max_likelihood * w.max_impact * w.max_exposure) in
    record {
      likelihood = likelihood;
      impact = impact;
      exposure = exposure;
      confidence = confidence;
      risk_score = risk_score;
      risk_scale = risk_scale;
      severity = severity_label w risk_score risk_scale;
      confidence_label = confidence_label confidence;
      action = ssvc.action;
      ssvc_trace = ssvc.trace;
      likelihood_factors = lf;
      impact_factors = mf;
      exposure_factors = ef;
      confidence_factors = cf;
    }

unfoldable pub score : RiskWeights → Time → ThreatEvent → OrgContext → List Match → ScoreResult
unfolding likelihood_factors impact_factors exposure_factors confidence_factors result ssvc_tree
score w now event org matches =
    result w (likelihood_factors now event matches) (impact_factors event org matches)
      (exposure_factors event org matches) (confidence_factors w event)
      (ssvc_tree event org matches)
