-- ===== src/Risk/Explain.antt =====
-- internal/risk/engine.go and alert.go: the text that explains an alert, and its deduplication key. The
-- text of a score with a number of decimals is an argument, and so is the digest.
use Prim.Native.String.{◌++◌}
use mathlib.Core.List.{List, [], ◌∷◌}
use threat_intel_arbiter.Common.{ℕ, suc, String, if◌then◌else◌, join, show, to_upper, take_text}
use threat_intel_arbiter.Common.Int.{ℤ, pos, negsuc, ltb_ℤ}
use threat_intel_arbiter.Model.{ThreatEvent}
use threat_intel_arbiter.Risk.Assets.{is_nil}
use threat_intel_arbiter.Risk.Score.{Contribution, ScoreResult, RiskWeights, raw_sum}

-- `%+d`.
unfoldable pub show_signed : ℤ → String
unfolding show
show_signed (pos n) = "+" ++ show n
show_signed (negsuc n) = "-" ++ show (suc n)

-- `%d`.
unfoldable pub show_int : ℤ → String
unfolding show
show_int (pos n) = show n
show_int (negsuc n) = "-" ++ show (suc n)

unfoldable pub factor_lines : List Contribution → String
unfolding show_signed
factor_lines [] = ""
factor_lines (f ∷ factors) =
    "  • " ++ (f.reason ++ (" (" ++ (show_signed f.delta ++ (")\n" ++ factor_lines factors))))

-- The sum is shown where it is more than the dimension counts.
unfoldable pub write_dimension : String → ℕ → ℕ → List Contribution → String
unfolding show show_int factor_lines raw_sum join
write_dimension name score max factors =
    let raw = raw_sum factors in
    let capped =
      if ltb_ℤ (pos max) raw
      then "  • (factors sum to " ++ (show_int raw ++ (", capped at " ++ (show max ++ ")\n")))
      else "" in
    let lines =
      if is_nil factors then "  • No contributing factors\n" else factor_lines factors ++ capped in
    join (name ∷ ": " ∷ show score ∷ "/" ∷ show max ∷ "\n" ∷ lines ∷ []) ""

-- `two_decimals` writes the fraction of two numbers.
unfoldable pub explain : (ℕ → ℤ → String) → RiskWeights → ThreatEvent → ScoreResult → String
unfolding write_dimension show join to_upper
explain two_decimals w event r =
    join
      (to_upper r.severity
        ∷ " (confidence: "
        ∷ r.confidence_label
        ∷ ")\n\n"
        ∷ event.title
        ∷ "\n\n"
        ∷ write_dimension "Likelihood" r.likelihood w.max_likelihood r.likelihood_factors
        ∷ "\n"
        ∷ write_dimension "Impact" r.impact w.max_impact r.impact_factors
        ∷ "\n"
        ∷ write_dimension "Exposure" r.exposure w.max_exposure r.exposure_factors
        ∷ "\n"
        ∷ write_dimension ("Confidence (" ++ (r.confidence_label ++ ")")) r.confidence
            w.max_confidence r.confidence_factors
        ∷ "\nAction: "
        ∷ r.action
        ∷ "\n"
        ∷ "  • SSVC path: "
        ∷ r.ssvc_trace
        ∷ "\n"
        ∷ "\nScore: ("
        ∷ show r.likelihood
        ∷ " × "
        ∷ show r.impact
        ∷ " × "
        ∷ show r.exposure
        ∷ ") / ("
        ∷ show w.max_likelihood
        ∷ " × "
        ∷ show w.max_impact
        ∷ " × "
        ∷ show w.max_exposure
        ∷ ") = "
        ∷ two_decimals r.risk_score r.risk_scale
        ∷ " → "
        ∷ to_upper r.severity
        ∷ [])
      ""

unfoldable pub dedup_key : (String → String) → (ℕ → ℤ → String) → ThreatEvent → ScoreResult → String
unfolding join take_text
dedup_key sha256_hex one_decimal event r = take_text 16 (
    sha256_hex (
      join
        (event.id
          ∷ event.source
          ∷ r.severity
          ∷ one_decimal r.risk_score r.risk_scale
          ∷ event.title
          ∷ [])
        "|"))
