-- ===== src/Matching/Tests.antt =====
-- internal/match: the theorems at concrete versions, events and catalogs.

use threat_intel_arbiter.Common.{
  ℕ, ◌≡◌, ◌≢◌, refl, ◌↔◌, ◌⊎◌, List, [], ◌∷◌, Memᴰ, some, none, String, true, false,
}
use threat_intel_arbiter.Common.Int.{ℤ, pos}
use threat_intel_arbiter.Model.{Match, AffectedProduct}
use threat_intel_arbiter.Samples.{openssl_event, openssl_app, affected_openssl}
use threat_intel_arbiter.Matching.Version.{parse, in_range}
use threat_intel_arbiter.Matching.Version.Range.{StartsAfter, EndsBefore, not_affected_iff}
use threat_intel_arbiter.Matching.Cve
use threat_intel_arbiter.Matching.Cve.{
  CveMatcher, new_cve_matcher, normalize_vendor, normalize_product, cve_matches_app, with_range,
}
use threat_intel_arbiter.Matching.Cve.Laws.{IsNamed, IsInTitle, reported_iff}
use threat_intel_arbiter.Matching.Cve.Laws.Ranges.{IsChosen, suppressed_iff}

not_affected_iff_example : ((in_range "2.4.63" "2.4.0" "2.4.62").0 ≡ false) ↔ (
    (t : List ℤ) × ((parse "2.4.63").1 ≡ some t) × (StartsAfter t "2.4.0" ⊎ EndsBefore t "2.4.62"))
not_affected_iff_example = not_affected_iff "2.4.63" "2.4.0" "2.4.62"

abbrev release : ℕ → List ℤ
release n = pos 2 ∷ pos 4 ∷ pos n ∷ []

reported_iff_example :
    (cve_matches_app new_cve_matcher "CVE-2022-3602" openssl_app openssl_event ≢ none) ↔ (
      ((p : AffectedProduct) × Memᴰ p openssl_event.affected_products
        × IsNamed new_cve_matcher
            (normalize_vendor new_cve_matcher "openssl")
            (normalize_product new_cve_matcher "openssl")
            p)
      ⊎ IsInTitle "OpenSSL buffer overflow"
          (normalize_vendor new_cve_matcher "openssl")
          (normalize_product new_cve_matcher "openssl"))
reported_iff_example = reported_iff new_cve_matcher "CVE-2022-3602" openssl_app openssl_event

abbrev reported : Match
reported = with_range "CVE-2022-3602" openssl_app "product_only_match" (some affected_openssl)

is_reported :
    cve_matches_app new_cve_matcher "CVE-2022-3602" openssl_app openssl_event ≡ some reported
unfolding cve_matches_app Cve.match_via_affected_products Cve.first_product new_cve_matcher
is_reported = refl

suppressed_iff_example : (reported.suppressed ≡ true) ↔ (
    (p : AffectedProduct) × IsChosen new_cve_matcher "CVE-2022-3602" openssl_app openssl_event p
    × (openssl_app.version ≢ "")
    × ((t : List ℤ) × ((parse "3.0.5").1 ≡ some t)
        × (StartsAfter t p.version_start ⊎ EndsBefore t p.version_end)))
suppressed_iff_example =
    suppressed_iff new_cve_matcher "CVE-2022-3602" openssl_app openssl_event reported is_reported

abbrev catalog : List String
catalog = " cve-2022-3602" ∷ "" ∷ []
