-- ===== src/Risk/Tests.antt =====
-- internal/risk: the theorems at a concrete event, organisation and list of matches.
use threat_intel_arbiter.Common.{◌≤◌, ◌≡◌, refl, ◌↔◌, ◌⊎◌, ◌&&◌, [], ◌∷◌, true, false, map, arith}
use threat_intel_arbiter.Samples.{openssl_event, openssl_match, bank}
use threat_intel_arbiter.Risk.Assets.{some_asset, is_critical, is_sensitive, has_tag, has_kev}
use threat_intel_arbiter.Risk.Ssvc.{
  ssvc_tree, deployer_outcome, expl_index, exposure_index, mission_index,
}
use threat_intel_arbiter.Risk.Ssvc.Table.{urgency, deployer_outcome_monotonic}
use threat_intel_arbiter.Risk.Ssvc.Laws.{act_iff}
use threat_intel_arbiter.Common.{◌*◌}
use threat_intel_arbiter.Common.Int.{pos, negsuc, ◌≤ℤ◌}
use threat_intel_arbiter.Risk.Score.{default_weights, score, wrap_int, severity_label}
use threat_intel_arbiter.Risk.Score.Bounds.{score_bounds}
use threat_intel_arbiter.Risk.Score.Signals.{unsuppressed, score-unsuppressed}

act_iff_example : ((ssvc_tree openssl_event bank (openssl_match ∷ [])).action ≡ "Act") ↔ (
    ((has_kev (openssl_match ∷ []) ≡ true) ⊎ (has_tag "exploit:in-the-wild" openssl_event ≡ true))
    × (some_asset (λ app. app.internet_facing) bank (openssl_match ∷ []) ≡ true)
    × (some_asset is_critical bank (openssl_match ∷ []) ≡ true)
    × (some_asset is_sensitive bank (openssl_match ∷ []) ≡ true)
    × ((some_asset (λ app. is_critical app && app.internet_facing) bank (openssl_match ∷ []) ≡ true)
        ⊎ (70 ≤ 75)))
act_iff_example = act_iff openssl_event bank (openssl_match ∷ [])

deployer_outcome_monotonic_example :
    urgency (deployer_outcome "none" "small" false "low")
    ≤ urgency (deployer_outcome "active" "open" true "very_high")
unfolding expl_index exposure_index mission_index
deployer_outcome_monotonic_example =
    deployer_outcome_monotonic "none" "small" "low" "active" "open" "very_high" false true refl refl
      refl refl refl refl (omega arith) (omega arith) (omega arith) (omega arith)

score_bounds_example :
    let s = score default_weights 2000 openssl_event bank (openssl_match ∷ []) in
    (s.likelihood ≤ default_weights.max_likelihood)
    × (s.impact ≤ default_weights.max_impact)
    × (s.exposure ≤ default_weights.max_exposure)
    × (s.confidence ≤ default_weights.max_confidence)
    × (s.risk_scale ≡ pos 75)
    × (pos s.risk_score ≤ℤ s.risk_scale)
unfolding default_weights
score_bounds_example =
    score_bounds default_weights 2000 openssl_event bank (openssl_match ∷ []) (omega arith)

-- Maxima of 2.5 millions each wrap around to a negative number, below which no positive score is.
scale_tests :
    (wrap_int (2500000 * 2500000 * 2500000) ≡ negsuc 2821744073709551615)
    × (severity_label default_weights 20 (wrap_int (2500000 * 2500000 * 2500000)) ≡ "low")
unfolding wrap_int severity_label
scale_tests = (refl, refl)

score-unsuppressed_example :
    score default_weights 2000 openssl_event bank (map unsuppressed (openssl_match ∷ []))
    ≡ score default_weights 2000 openssl_event bank (openssl_match ∷ [])
score-unsuppressed_example =
    score-unsuppressed default_weights 2000 openssl_event bank (openssl_match ∷ [])
