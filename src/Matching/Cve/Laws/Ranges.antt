-- ===== src/Matching/Cve/Laws/Ranges.antt =====
-- What `CVEMatcher` of internal/match/cve_matcher.go says of the version of a reported app.
use threat_intel_arbiter.Common.{
  ◌≡◌, ◌≢◌, ap, sym, subst, ◌↔◌, ◌⊎◌, inl, inr, true, false, List, none, some, String, eq_iff,
  arith,
}
use threat_intel_arbiter.Common.Int.{ℤ}
use threat_intel_arbiter.Model.{AffectedProduct, App, Match, ThreatEvent}
use threat_intel_arbiter.Matching.Version.{parse, in_range}
use threat_intel_arbiter.Matching.Version.Range.{
  StartsAfter, EndsBefore, Admits, not_affected_iff, exact_match_iff,
}
use threat_intel_arbiter.Matching.Cve.{
  CveMatcher, normalize_vendor, normalize_product, match_via_affected_products, with_range,
  cve_matches_app,
}
use threat_intel_arbiter.Matching.Cve.Laws.{outcome}

with_range-suppressed :
    (cve : String) (app : App) (c : String) (p : AffectedProduct)
    → ((with_range cve app c (some p)).suppressed ≡ true)
      ↔ ((app.version ≢ "") × ((in_range app.version p.version_start p.version_end).0 ≡ false))
with_range-suppressed cve app c p =
    (λ h. ground (arith, eq_iff app.version ""), λ h. ground (arith, eq_iff app.version ""))

with_range-affected :
    (cve : String) (app : App) (p : AffectedProduct)
    → ((with_range cve app "product_only_match" (some p)).version_affected ≡ true) ↔ (
        (app.version ≢ "")
        × (in_range app.version p.version_start p.version_end ≡ (true, "exact_version_match")))
with_range-affected cve app p = (
  λ h. ground (
    arith,
    eq_iff app.version "",
    eq_iff (in_range app.version p.version_start p.version_end).1 "exact_version_match",
  ),
  λ h. ground (
    arith,
    eq_iff app.version "",
    eq_iff (in_range app.version p.version_start p.version_end).1 "exact_version_match",
    ap (λ r. r.0) h.1,
    ap (λ r. r.1) h.1,
  ),
)

module _ (m : CveMatcher) (cve : String) (app : App) (event : ThreatEvent) where
  -- The affected product that the search returns for the app.
  abbrev pub IsChosen : AffectedProduct → Type 0
  IsChosen p =
      (match_via_affected_products m event (normalize_vendor m app.vendor)
        (normalize_product m app.name)).1
      ≡ some p

  -- Where an app is reported, the match is marked as suppressed exactly when the search found an
  -- affected product, the app has a version that can be parsed, and that version lies outside the
  -- product's range: below a start, or above an end, that is given and can be parsed.
  pub suppressed_iff :
      (r : Match)
      → cve_matches_app m cve app event ≡ some r
      → (r.suppressed ≡ true) ↔ (
          (p : AffectedProduct) × IsChosen p
          × (app.version ≢ "")
          × ((t : List ℤ) × ((parse app.version).1 ≡ some t)
              × (StartsAfter t p.version_start ⊎ EndsBefore t p.version_end)))
  suppressed_iff r e = elim (outcome m cve app event) [
    | inl (p, n, named, found, e') ↦
        let same : r ≡ with_range cve app "product_only_match" (some p) = cc (e, e') in
        let outside = not_affected_iff app.version p.version_start p.version_end in
        (
          λ h.
              let (given, out) =
                (with_range-suppressed cve app "product_only_match" p).0
                  (subst (λ x. x.suppressed ≡ true) same h) in
              (p, ap (λ x. x.1) found, given, outside.0 out),
          λ h.
              let chosen : h.0 ≡ p = cc (h.1, ap (λ x. x.1) found) in
              subst (λ x. x.suppressed ≡ true) (sym same)
                ((with_range-suppressed cve app "product_only_match" p).1
                  (h.2, outside.1 (subst Parsed_outside chosen h.3))),
        )
    | inr (others, none_found, inl (titled, e')) ↦
        let same : r ≡ with_range cve app "weak_title_match" none = cc (e, e') in
        (
          λ h. cc (subst (λ x. x.suppressed ≡ true) same h),
          λ h. absurd (cc (h.1, ap (λ x. x.1) none_found)),
        )
    | inr (others, none_found, inr (untitled, e')) ↦ absurd (cc (e, e'))
  ]
    where
      Parsed_outside : AffectedProduct → Type 0
      Parsed_outside p =
          (t : List ℤ) × ((parse app.version).1 ≡ some t)
          × (StartsAfter t p.version_start ⊎ EndsBefore t p.version_end)

  -- A reported match claims that the version is affected exactly when the search found an affected
  -- product, the app has a version that can be parsed, and the product's range admits it, each
  -- bound being left out or parsed.
  pub affected_iff :
      (r : Match)
      → cve_matches_app m cve app event ≡ some r
      → (r.version_affected ≡ true) ↔ (
          (p : AffectedProduct) × IsChosen p
          × (app.version ≢ "")
          × ((t : List ℤ) × ((parse app.version).1 ≡ some t)
              × Admits t p.version_start p.version_end))
  affected_iff r e = elim (outcome m cve app event) [
    | inl (p, n, named, found, e') ↦
        let same : r ≡ with_range cve app "product_only_match" (some p) = cc (e, e') in
        let exact = exact_match_iff app.version p.version_start p.version_end in
        (
          λ h.
              let (given, inside) =
                (with_range-affected cve app p).0 (subst (λ x. x.version_affected ≡ true) same h) in
              (p, ap (λ x. x.1) found, given, exact.0 inside),
          λ h.
              let chosen : h.0 ≡ p = cc (h.1, ap (λ x. x.1) found) in
              subst (λ x. x.version_affected ≡ true) (sym same)
                ((with_range-affected cve app p).1 (h.2, exact.1 (subst Parsed_inside chosen h.3))),
        )
    | inr (others, none_found, inl (titled, e')) ↦
        let same : r ≡ with_range cve app "weak_title_match" none = cc (e, e') in
        (
          λ h. cc (subst (λ x. x.version_affected ≡ true) same h),
          λ h. absurd (cc (h.1, ap (λ x. x.1) none_found)),
        )
    | inr (others, none_found, inr (untitled, e')) ↦ absurd (cc (e, e'))
  ]
    where
      Parsed_inside : AffectedProduct → Type 0
      Parsed_inside p =
          (t : List ℤ) × ((parse app.version).1 ≡ some t) × Admits t p.version_start p.version_end
