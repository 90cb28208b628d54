-- ===== src/Matching/Cve/Laws.antt =====
-- Which apps `CVEMatcher` of internal/match/cve_matcher.go reports, and what it says of them.
pub mod Ranges
use mathlib.Core.List.Memᴰ
use threat_intel_arbiter.Common.{
  ◌≡◌, ◌≢◌, refl, ap, sym, subst, ◌↔◌, ◌⊎◌, inl, inr, true, false, ◌&&◌, List, [], ◌∷◌, Memᴰ,
  Option, none, some, String, eq_iff, to_lower, contains, collect, collect_witness, mem-collect,
  Bool-cases, arith,
}
use threat_intel_arbiter.Common.Int.{ℤ}
use threat_intel_arbiter.Model.{AffectedProduct, App, OrgContext, Match, ThreatEvent}
use threat_intel_arbiter.Matching.Version.{parse, in_range}
use threat_intel_arbiter.Matching.Version.Range.{
  StartsAfter, EndsBefore, Admits, not_affected_iff, exact_match_iff,
}
use threat_intel_arbiter.Matching.Cve.{
  CveMatcher, normalize_vendor, normalize_product, vendor_match, product_match, first_product,
  match_via_affected_products, match_via_title, with_range, from_option, cve_matches_app, match,
}

module _ (m : CveMatcher) where
  -- The vendor and the product of an affected product both match, once they are normalized.
  abbrev pub IsNamed : String → String → AffectedProduct → Type 0
  IsNamed vendor product p =
      (vendor_match (normalize_vendor m p.vendor) vendor ≡ true)
      × (product_match (normalize_product m p.product) product ≡ true)

  -- The outcome of the search: nothing is named, or the product found is.
  abbrev Found : List AffectedProduct → String → String → Type 0
  Found ps vendor product =
      ((first_product m ps vendor product ≡ ("", none))
        × ((p : AffectedProduct) → Memᴰ p ps → ¬ IsNamed vendor product p))
      ⊎ ((p : AffectedProduct) × (first_product m ps vendor product
            ≡ ("product_only_match", some p))
          × Memᴰ p ps
          × IsNamed vendor product p)

  first_product_cases :
      (ps : List AffectedProduct) (vendor product : String) → Found ps vendor product
  unfolding first_product
  first_product_cases [] vendor product = inl (refl, λ p n. absurd (elim n [ ]))
  first_product_cases (q ∷ ps) vendor product =
      elim (Bool-cases (
        vendor_match (normalize_vendor m q.vendor) vendor
        && product_match (normalize_product m q.product) product)) [
          | inl e ↦ inr (q, rw e, Memᴰ.head refl, (ground arith, ground arith))
          | inr e ↦ elim (first_product_cases ps vendor product) [
            | inl (none_found, others) ↦ inl (
              rw e none_found,
              λ p n named. elim (Memᴰ.cases_cons n) [
                | inl k ↦ ground (arith, subst (IsNamed vendor product) k named)
                | inr k ↦ others p k named
              ],
            )
            | inr (p, found, n, named) ↦ inr (p, rw e found, Memᴰ.tail n, named)
          ]
        ]

-- The lower-case title names the vendor or the product, whichever is not empty.
abbrev pub IsInTitle : String → String → String → Type 0
IsInTitle title vendor product =
    ((vendor ≢ "") × (contains (to_lower title) vendor ≡ true))
    ⊎ ((product ≢ "") × (contains (to_lower title) product ≡ true))

match_via_title_iff :
    (title vendor product : String)
    → (match_via_title title vendor product ≡ true) ↔ IsInTitle title vendor product
unfolding match_via_title
match_via_title_iff title vendor product = (
  λ h. ground (arith, eq_iff vendor "", eq_iff product ""),
  λ h. ground (arith, eq_iff vendor "", eq_iff product ""),
)

module _ (m : CveMatcher) (cve : String) (app : App) (event : ThreatEvent) where
  -- The app's vendor and product as the search compares them.
  abbrev vendor_of : String
  vendor_of = normalize_vendor m app.vendor

  abbrev product_of : String
  product_of = normalize_product m app.name

  structured_match :
      (p : AffectedProduct)
      → match_via_affected_products m event vendor_of product_of ≡ ("product_only_match", some p)
      → cve_matches_app m cve app event ≡ some (with_range cve app "product_only_match" (some p))
  unfolding cve_matches_app
  structured_match p h = rw h

  title_match :
      match_via_affected_products m event vendor_of product_of ≡ ("", none)
      → match_via_title event.title vendor_of product_of ≡ true
      → cve_matches_app m cve app event ≡ some (with_range cve app "weak_title_match" none)
  unfolding cve_matches_app
  title_match h k = rw (h, k)

  no_match :
      match_via_affected_products m event vendor_of product_of ≡ ("", none)
      → match_via_title event.title vendor_of product_of ≡ false
      → cve_matches_app m cve app event ≡ none
  unfolding cve_matches_app
  no_match h k = rw (h, k)

  -- How the search and the title decide: the product found, the title alone, or neither.
  abbrev Outcome : Type 0
  Outcome =
      ((p : AffectedProduct) × (Memᴰ p event.affected_products)
        × IsNamed m vendor_of product_of p
        × (match_via_affected_products m event vendor_of product_of
            ≡ ("product_only_match", some p))
        × (cve_matches_app m cve app event
            ≡ some (with_range cve app "product_only_match" (some p))))
      ⊎ (((p : AffectedProduct)
            → Memᴰ p event.affected_products
            → ¬ IsNamed m vendor_of product_of p)
          × (match_via_affected_products m event vendor_of product_of ≡ ("", none))
          × ((IsInTitle event.title vendor_of product_of
                × (cve_matches_app m cve app event
                    ≡ some (with_range cve app "weak_title_match" none)))
              ⊎ ((¬ IsInTitle event.title vendor_of product_of)
                  × (cve_matches_app m cve app event ≡ none))))

  outcome : Outcome
  unfolding match_via_affected_products
  outcome = elim (first_product_cases m event.affected_products vendor_of product_of) [
    | inr (p, found, n, named) ↦ inl (p, n, named, found, structured_match p found)
    | inl (none_found, others) ↦
        elim (Bool-cases (match_via_title event.title vendor_of product_of)) [
          | inl e ↦ inr (
            others,
            none_found,
            inl (
              (match_via_title_iff event.title vendor_of product_of).0 e,
              title_match none_found e,
            ),
          )
          | inr e ↦ inr (
            others,
            none_found,
            inr (
              λ h. cc ((match_via_title_iff event.title vendor_of product_of).1 h, e),
              no_match none_found e,
            ),
          )
        ]
  ]

  -- An app is reported for a CVE exactly when some affected product of the event names its vendor
  -- and its product, or the event's title contains its normalized vendor or product name.
  pub reported_iff : (cve_matches_app m cve app event ≢ none) ↔ (
      ((p : AffectedProduct) × Memᴰ p event.affected_products × IsNamed m vendor_of product_of p)
      ⊎ IsInTitle event.title vendor_of product_of)
  reported_iff = elim outcome [
    | inl (p, n, named, found, e) ↦ (λ h. inl (p, n, named), λ h k. cc (e, k))
    | inr (others, none_found, inl (titled, e)) ↦ (λ h. inr titled, λ h k. cc (e, k))
    | inr (others, none_found, inr (untitled, e)) ↦ (
      λ h. absurd (h e),
      elim [
        | inl (p, n, named) ↦ absurd (others p n named)
        | inr titled ↦ absurd (untitled titled)
      ],
    )
  ]

mem-from_option {ℓ} : {A : Type ℓ} {a : A} (o : Option A) → Memᴰ a (from_option o) → o ≡ some a
mem-from_option none n = elim n [ ]
mem-from_option (some b) n = ap some (sym (Memᴰ.eq_of_singleton n))

from_option-mem {ℓ} : {A : Type ℓ} {a : A} (o : Option A) → o ≡ some a → Memᴰ a (from_option o)
from_option-mem none e = cc
from_option-mem (some b) e = Memᴰ.head (cc)

-- The matcher's result holds exactly the matches of the pairs of a CVE of the event and an app of
-- the tech stack.
pub mem-match :
    (m : CveMatcher) (event : ThreatEvent) (org : OrgContext) (r : Match)
    → Memᴰ r (match m event org) ↔ (
        (cve : String) × Memᴰ cve event.cves
        × ((app : App) × Memᴰ app org.tech_stack × (cve_matches_app m cve app event ≡ some r)))
unfolding match
mem-match m event org r = (
  λ n.
      let (cve, k, n') =
        collect_witness
          (λ cve. collect (λ app. from_option (cve_matches_app m cve app event)) org.tech_stack)
          event.cves n in
      let (app, l, n'') =
        collect_witness (λ app. from_option (cve_matches_app m cve app event)) org.tech_stack n' in
      (cve, k, (app, l, mem-from_option _ n'')),
  λ (cve, k, (app, l, e)).
      mem-collect _ event.cves k (mem-collect _ org.tech_stack l (from_option-mem _ e)),
)
