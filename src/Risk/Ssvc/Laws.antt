-- ===== src/Risk/Ssvc/Laws.antt =====
-- When the SSVC tree of internal/risk/ssvc.go says "Act", in terms of the event and the assets.
use threat_intel_arbiter.Common.{
  ◌≤◌, ◌≡◌, ◌↔◌, ◌⊎◌, Bool, true, false, not, ◌&&◌, ◌||◌, ◌==◌, eq_iff, refl, leb, if◌then◌else◌,
  List, String, arith,
}
use threat_intel_arbiter.Model.{OrgContext, Match, ThreatEvent}
use threat_intel_arbiter.Risk.Assets.{
  some_asset, is_critical, is_high, is_sensitive, has_tag, has_kev, is_nil,
}
use threat_intel_arbiter.Risk.Ssvc.{
  deployer_outcome, cert_to_action, determine_exploitation, determine_exposure,
  determine_automatable, determine_mission_impact, ssvc_tree,
}

-- The action from the values that the decision points depend on.
abbrev action_of : Bool → Bool → Bool → Bool → Bool → Bool → Bool → Bool → String
action_of active internet none_matched automatable critical high sensitive critical_internet =
    cert_to_action (
      deployer_outcome (if active then "active" else "none")
        (if internet then "open" else if not none_matched then "controlled" else "small")
        automatable
        (if critical && critical_internet && sensitive
          then "very_high"
          else if critical && sensitive
          then "high"
          else if critical || high
          then "medium"
          else "low"))

abbrev is_act : String → Bool
is_act s = s == "Act"

abbrev expected : Bool → Bool → Bool → Bool → Bool → Bool → Bool
expected active internet automatable critical sensitive critical_internet =
    active && internet && critical && sensitive && (critical_internet || automatable)

-- Both values of a Boolean pass a test.
abbrev both : (Bool → Bool) → Bool
both p = p true && p false

both_sound : (p : Bool → Bool) (b : Bool) → both p ≡ true → p b ≡ true
both_sound p true h = ground arith
both_sound p false h = ground arith

abbrev same : Bool → Bool → Bool
same true b = b
same false b = not b

same→≡ : (a b : Bool) → same a b ≡ true → a ≡ b
same→≡ a b h = ground arith

-- The test of one line of the truth table.
line : Bool → Bool → Bool → Bool → Bool → Bool → Bool → Bool → Bool
unfolding cert_to_action deployer_outcome
line active internet none_matched automatable critical high sensitive critical_internet =
    same
      (is_act (
        action_of active internet none_matched automatable critical high sensitive
          critical_internet))
      (expected active internet automatable critical sensitive critical_internet)

truth_table :
    (both λ a.
      both λ b. both λ c. both λ d. both λ e. both λ f. both λ g. both λ h. line a b c d e f g h)
    ≡ true
unfolding line
truth_table = refl

line_lem : (a b c d e f g h : Bool) → line a b c d e f g h ≡ true
line_lem a b c d e f g h =
    both_sound (λ h. line a b c d e f g h) h
      (both_sound (λ g. both λ h. line a b c d e f g h) g
        (both_sound (λ f. both λ g. both λ h. line a b c d e f g h) f
          (both_sound (λ e. both λ f. both λ g. both λ h. line a b c d e f g h) e
            (both_sound (λ d. both λ e. both λ f. both λ g. both λ h. line a b c d e f g h) d
              (both_sound
                (λ c. both λ d. both λ e. both λ f. both λ g. both λ h. line a b c d e f g h) c
                (both_sound
                  (λ b.
                    both
                      λ c. both λ d. both λ e. both λ f. both λ g. both λ h. line a b c d e f g h)
                  b
                  (both_sound
                    (λ a. both λ b.
                      both
                        λ c. both λ d. both λ e. both λ f. both λ g. both λ h. line a b c d e f g h)
                    a truth_table)))))))

act_table : (a b c d e f g h : Bool) → is_act (action_of a b c d e f g h) ≡ expected a b d e g h
act_table a b c d e f g h = same→≡ _ _ (unfold line in line_lem a b c d e f g h)

module _ (event : ThreatEvent) (org : OrgContext) (matches : List Match) where
  tree_action :
      (ssvc_tree event org matches).action
      ≡ cert_to_action (
          deployer_outcome
            (determine_exploitation event matches)
            (determine_exposure org matches)
            (determine_automatable event)
            (determine_mission_impact org matches))
  unfolding ssvc_tree
  tree_action = refl

  active_exploitation :
      determine_exploitation event matches
      ≡ (if has_kev matches || has_tag "exploit:in-the-wild" event then "active" else "none")
  unfolding determine_exploitation
  active_exploitation = ground arith

  tree_table :
      is_act (ssvc_tree event org matches).action
      ≡ expected
          (has_kev matches || has_tag "exploit:in-the-wild" event)
          (some_asset (λ app. app.internet_facing) org matches)
          (leb 70 event.cvss)
          (some_asset is_critical org matches)
          (some_asset is_sensitive org matches)
          (some_asset (λ app. is_critical app && app.internet_facing) org matches)
  unfolding determine_exposure determine_automatable determine_mission_impact
  tree_table = rw tree_action (
      rw active_exploitation
        (act_table _ _ (is_nil matches) _ _ (some_asset is_high org matches) _ _))

-- The tree says "Act" exactly when exploitation is active (a KEV match or the in-the-wild tag), some
-- matched app faces the internet, some matched app is critical, some matched app has sensitive
-- data, and moreover a critical matched app faces the internet or the CVSS score is at least 7.0.
pub act_iff :
    (event : ThreatEvent) (org : OrgContext) (matches : List Match)
    → ((ssvc_tree event org matches).action ≡ "Act") ↔ (
        ((has_kev matches ≡ true) ⊎ (has_tag "exploit:in-the-wild" event ≡ true))
        × (some_asset (λ app. app.internet_facing) org matches ≡ true)
        × (some_asset is_critical org matches ≡ true)
        × (some_asset is_sensitive org matches ≡ true)
        × ((some_asset (λ app. is_critical app && app.internet_facing) org matches ≡ true)
            ⊎ (70 ≤ event.cvss)))
act_iff event org matches = (
  λ h. ground (arith, tree_table event org matches, (eq_iff _ "Act").1 h),
  λ h. (eq_iff _ "Act").0 (ground (arith, tree_table event org matches)),
)
