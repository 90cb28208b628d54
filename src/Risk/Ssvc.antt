-- ===== src/Risk/Ssvc.antt =====
-- internal/risk/ssvc.go: the SSVC Deployer decision table, and the four decision points.
-- A CVSS score is counted in tenths, so 7.0 is 70.
pub mod Table
pub mod Laws
use Prim.Native.Char.{code}
use Prim.Native.String.{◌++◌, char_at}
use threat_intel_arbiter.Common.{
  ℕ, ◌+◌, ◌*◌, Bool, true, false, not, ◌&&◌, ◌||◌, List, [], ◌∷◌, Option, none, some, String, ◌==◌,
  leb, eqb, if◌then◌else◌,
}
use threat_intel_arbiter.Common.Dict.{lookup}
use threat_intel_arbiter.Model.{OrgContext, Match, ThreatEvent}
use threat_intel_arbiter.Risk.Assets.{
  some_asset, is_critical, is_high, is_sensitive, has_tag, has_kev, is_nil,
}

pub record SsvcResult : Type 0 where
  pub action : String
  pub trace : String

-- One letter for each leaf, in the order of the source.
unfoldable pub deployer_outcomes : String
deployer_outcomes =
    "DDSS"
    ++ ("DSSS"
        ++ ("DSSS"
            ++ ("SSSS"
                ++ ("DSSS"
                    ++ ("SSSO"
                        ++ ("DSSS"
                            ++ ("SSSS"
                                ++ ("DSSS"
                                    ++ ("SSSO"
                                        ++ ("SSSO"
                                            ++ ("SSOO"
                                                ++ ("SSOO"
                                                    ++ ("SOOO"
                                                        ++ ("SSOO"
                                                            ++ ("OOOO"
                                                            ++ ("SOOI" ++ "OOII"))))))))))))))))

unfoldable pub expl_index : String → Option ℕ
unfolding lookup
expl_index s = lookup s (("none", 0) ∷ ("poc", 1) ∷ ("active", 2) ∷ [])

unfoldable pub exposure_index : String → Option ℕ
unfolding lookup
exposure_index s = lookup s (("small", 0) ∷ ("controlled", 1) ∷ ("open", 2) ∷ [])

unfoldable pub mission_index : String → Option ℕ
unfolding lookup
mission_index s = lookup s (("low", 0) ∷ ("medium", 1) ∷ ("high", 2) ∷ ("very_high", 3) ∷ [])

-- The byte of the table at an index.
unfoldable pub outcome_at : ℕ → ℕ
unfolding deployer_outcomes
outcome_at i = code (char_at deployer_outcomes i)

abbrev bit : Bool → ℕ
bit true = 1
bit false = 0

abbrev at_indices : Option ℕ → Option ℕ → Bool → Option ℕ → ℕ
at_indices none x a h = b'D'
at_indices (some e) none a h = b'D'
at_indices (some e) (some x) a none = b'D'
at_indices (some e) (some x) a (some h) = outcome_at (e * 24 + x * 8 + bit a * 4 + h)

unfoldable pub deployer_outcome : String → String → Bool → String → ℕ
unfolding outcome_at expl_index exposure_index mission_index
deployer_outcome exploitation exposure automatable mission =
    at_indices (expl_index exploitation) (exposure_index exposure) automatable
      (mission_index mission)

-- A byte that the map lacks gives the empty text.
unfoldable pub cert_to_action : ℕ → String
cert_to_action c =
    if eqb c b'D'
    then "Track"
    else if eqb c b'S'
    then "Track*"
    else if eqb c b'O'
    then "Attend"
    else if eqb c b'I'
    then "Act"
    else ""

unfoldable pub cert_name : ℕ → String
cert_name c =
    if eqb c b'D'
    then "defer"
    else if eqb c b'S'
    then "scheduled"
    else if eqb c b'O'
    then "out-of-cycle"
    else if eqb c b'I'
    then "immediate"
    else ""

abbrev yes_no : Bool → String
yes_no b = if b then "yes" else "no"

unfoldable pub determine_exploitation : ThreatEvent → List Match → String
unfolding has_kev has_tag
determine_exploitation event matches =
    if has_kev matches
    then "active"
    else if has_tag "exploit:in-the-wild" event
    then "active"
    else "none"

unfoldable pub determine_exposure : OrgContext → List Match → String
unfolding some_asset
determine_exposure org matches =
    if some_asset (λ app. app.internet_facing) org matches
    then "open"
    else if not (is_nil matches)
    then "controlled"
    else "small"

unfoldable pub determine_automatable : ThreatEvent → Bool
determine_automatable event = leb 70 event.cvss

-- `isInternetFacing` is set only by a critical app.
unfoldable pub determine_mission_impact : OrgContext → List Match → String
unfolding some_asset
determine_mission_impact org matches =
    let has_critical = some_asset is_critical org matches in
    let has_high = some_asset is_high org matches in
    let has_sensitive_data = some_asset is_sensitive org matches in
    let is_internet_facing =
      some_asset (λ app. is_critical app && app.internet_facing) org matches in
    if has_critical && is_internet_facing && has_sensitive_data
    then "very_high"
    else if has_critical && has_sensitive_data
    then "high"
    else if has_critical || has_high
    then "medium"
    else "low"

unfoldable pub ssvc_tree : ThreatEvent → OrgContext → List Match → SsvcResult
unfolding determine_exploitation determine_exposure determine_automatable determine_mission_impact
    deployer_outcome cert_to_action cert_name
ssvc_tree event org matches =
    let exploitation = determine_exploitation event matches in
    let exposure = determine_exposure org matches in
    let automatable = determine_automatable event in
    let mission = determine_mission_impact org matches in
    let cert = deployer_outcome exploitation exposure automatable mission in
    let action = cert_to_action cert in
    record {
      action = action;
      trace =
          "exploitation:"
          ++ (exploitation
              ++ (" → exposure:"
                  ++ (exposure
                      ++ (" → automatable:"
                          ++ (yes_no automatable
                              ++ (" → mission:"
                                  ++ (mission
                                      ++ (" → "
                                          ++ (action ++ (" (" ++ (cert_name cert ++ ")")))))))))));
    }

-- internal/risk/alert.go has a second name for the action alone.
unfoldable pub ssvc_action : ThreatEvent → OrgContext → List Match → String
unfolding ssvc_tree
ssvc_action event org matches = (ssvc_tree event org matches).action
