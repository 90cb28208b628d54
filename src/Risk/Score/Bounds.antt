-- ===== src/Risk/Score/Bounds.antt =====
-- internal/risk/engine.go: the range of the four dimensions and of the score, and the labels'
-- dependence on the score.
use native.Mathlib.Nat.{mul-le-mul_left, mul-le-mul_right, le_trans}
use threat_intel_arbiter.Common.{
  ℕ, suc, ◌≤◌, ◌<◌, ◌^◌, ◌*◌, List, String, ◌==◌, if◌then◌else◌, arith, leb, ◌≡◌, inl, inr,
  Bool-cases,
}
use threat_intel_arbiter.Common.Int.{ℤ, pos, ◌≤ℤ◌}
use threat_intel_arbiter.Model.{Time, OrgContext, Match, ThreatEvent}
use threat_intel_arbiter.Risk.Score.{
  Contribution, RiskWeights, wrap_int, sum_capped, score, likelihood_factors, impact_factors,
  exposure_factors, confidence_factors, severity_label, at_least, threshold, result,
}

sum_capped_le : (factors : List Contribution) (max : ℕ) → sum_capped factors max ≤ max
unfolding sum_capped
sum_capped_le factors max = ground (arith)

mul_mono : {a b x y : ℕ} → a ≤ x → b ≤ y → a * b ≤ x * y
mul_mono {a} {b} {x} {y} p q = le_trans (mul-le-mul_right b p) (mul-le-mul_left x q)

pos_le : {a b : ℕ} → a ≤ b → pos a ≤ℤ pos b
pos_le h = omega (arith, h)

wrap_int_small : (n : ℕ) → n < 2 ^ 63 → wrap_int n ≡ pos n
unfolding wrap_int
wrap_int_small n h = ground (arith, h)

-- When the product of the three maxima is less than 2^63, each dimension of a score is at most the
-- maximum configured for it, the denominator of the risk score is the product of the maxima, and the
-- numerator is at most the denominator.
pub score_bounds :
    (w : RiskWeights) (now : Time) (event : ThreatEvent) (org : OrgContext) (matches : List Match)
    → w.max_likelihood * w.max_impact * w.max_exposure < 2 ^ 63
    → let s = score w now event org matches in
      (s.likelihood ≤ w.max_likelihood)
      × (s.impact ≤ w.max_impact)
      × (s.exposure ≤ w.max_exposure)
      × (s.confidence ≤ w.max_confidence)
      × (s.risk_scale ≡ pos (w.max_likelihood * w.max_impact * w.max_exposure))
      × (pos s.risk_score ≤ℤ s.risk_scale)
unfolding score result
score_bounds w now event org matches h =
    let l = sum_capped_le (likelihood_factors now event matches) w.max_likelihood in
    let m = sum_capped_le (impact_factors event org matches) w.max_impact in
    let x = sum_capped_le (exposure_factors event org matches) w.max_exposure in
    let scale = wrap_int_small (w.max_likelihood * w.max_impact * w.max_exposure) h in
    (
      l,
      m,
      x,
      sum_capped_le (confidence_factors w event) w.max_confidence,
      scale,
      rw scale (pos_le (mul_mono (mul_mono l m) x)),
    )

-- The order of the labels.
unfoldable pub severity_rank : String → ℕ
severity_rank label =
    if label == "critical"
    then 3
    else if label == "high"
    then 2
    else if label == "medium"
    then 1
    else 0

-- Three tests against fixed bounds, in order.
tests_mono :
    (c h m : ℕ) {low high : ℕ}
    → low ≤ high
    → (if leb c (low * 100)
        then 3
        else if leb h (low * 100)
        then 2
        else if leb m (low * 100)
        then 1
        else 0)
      ≤ (if leb c (high * 100)
          then 3
          else if leb h (high * 100)
          then 2
          else if leb m (high * 100)
          then 1
          else 0)
tests_mono c h m p = ground arith

severity_rank-severity_label :
    (w : RiskWeights) (s : ℕ) (scale : ℤ)
    → severity_rank (severity_label w s scale) ≡ (
        if at_least s scale (threshold w "critical")
        then 3
        else if at_least s scale (threshold w "high")
        then 2
        else if at_least s scale (threshold w "medium")
        then 1
        else 0)
unfolding severity_label severity_rank
severity_rank-severity_label w s scale =
    elim (Bool-cases (at_least s scale (threshold w "critical"))) [
      | inl a ↦ rw a
      | inr a ↦ elim (Bool-cases (at_least s scale (threshold w "high"))) [
        | inl b ↦ rw (a, b)
        | inr b ↦ elim (Bool-cases (at_least s scale (threshold w "medium"))) [
          | inl c ↦ rw (a, b, c)
          | inr c ↦ rw (a, b, c)
        ]
      ]
    ]

-- On one positive scale, whatever the thresholds are, a higher risk score never gets a lower severity label.
pub severity_monotonic :
    (w : RiskWeights) (low high scale : ℕ)
    → low ≤ high
    → severity_rank (severity_label w low (pos (suc scale)))
      ≤ severity_rank (severity_label w high (pos (suc scale)))
severity_monotonic w low high scale p =
    rw
      (
        severity_rank-severity_label w low (pos (suc scale)),
        severity_rank-severity_label w high (pos (suc scale)),
      )
      (tests_mono (threshold w "critical" * suc scale) (threshold w "high" * suc scale)
        (threshold w "medium" * suc scale) p)
