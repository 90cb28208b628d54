-- ===== src/Matching/Cve.antt =====
-- internal/match/cve_matcher.go: the CVEs of an event against the tech stack.
pub mod Laws
use Prim.Native.String.{◌++◌}
use threat_intel_arbiter.Common.{
  Bool, true, false, ◌&&◌, ◌||◌, not, List, [], ◌∷◌, Option, none, some, String, ◌==◌,
  if◌then◌else◌, to_lower, trim_space, contains, collect,
}
use threat_intel_arbiter.Common.Dict.{lookup}
use threat_intel_arbiter.Model.{AffectedProduct, App, OrgContext, Match, ThreatEvent}
use threat_intel_arbiter.Matching.Aliases.{default_aliases, default_product_aliases}
use threat_intel_arbiter.Matching.Version.{in_range}

pub record CveMatcher : Type 0 where
  pub alias_map : List (String × String)
  pub product_alias_map : List (String × String)

unfoldable pub new_cve_matcher : CveMatcher
unfolding default_aliases default_product_aliases
new_cve_matcher = record {
  alias_map = default_aliases;
  product_alias_map = default_product_aliases;
}

abbrev alias_of : List (String × String) → String → String
alias_of aliases key = elim (lookup key aliases) [ none ↦ key | some alias ↦ alias ]

unfoldable pub normalize_vendor : CveMatcher → String → String
unfolding lookup to_lower trim_space
normalize_vendor m name = alias_of m.alias_map (to_lower (trim_space name))

unfoldable pub normalize_product : CveMatcher → String → String
unfolding lookup to_lower trim_space
normalize_product m name = alias_of m.product_alias_map (to_lower (trim_space name))

unfoldable pub vendor_match : String → String → Bool
unfolding contains
vendor_match a b = if a == "" || b == "" then false else a == b || contains a b || contains b a

unfoldable pub product_match : String → String → Bool
unfolding contains
product_match a b = if a == "" || b == "" then false else a == b || contains a b || contains b a

-- The loop over `event.AffectedProducts`, which returns at the first product that matches.
unfoldable pub first_product :
    CveMatcher → List AffectedProduct → String → String → String × Option AffectedProduct
unfolding vendor_match product_match normalize_vendor normalize_product
first_product m [] vendor product = ("", none)
first_product m (ap ∷ aps) vendor product =
    if vendor_match (normalize_vendor m ap.vendor) vendor
      && product_match (normalize_product m ap.product) product
    then ("product_only_match", some ap)
    else first_product m aps vendor product

unfoldable pub match_via_affected_products :
    CveMatcher → ThreatEvent → String → String → String × Option AffectedProduct
match_via_affected_products m event vendor product =
    first_product m event.affected_products vendor product

unfoldable pub match_via_title : String → String → String → Bool
unfolding to_lower contains
match_via_title title vendor product =
    let t = to_lower title in
    if not (vendor == "") && contains t vendor
    then true
    else if not (product == "") && contains t product
    then true
    else false

abbrev suppressed_match : String → App → AffectedProduct → Match
suppressed_match cve app range = record {
  matcher = "CVEMatcher";
  cve = cve;
  app_name = app.name;
  app_version = app.version;
  version_affected = false;
  match_confidence = "version_not_affected";
  sector_match = false;
  kev_match = false;
  details = "CVE " ++ (cve ++ (" does not affect " ++ (app.name ++ (" " ++ app.version))));
  suppressed = true;
  suppress_reason =
      "version_not_affected: "
      ++ (app.name
          ++ (" "
              ++ (app.version
                  ++ (" outside affected range ["
                      ++ (range.version_start ++ ("," ++ (range.version_end ++ "]")))))));
}

abbrev affected_match : String → App → String → Match
affected_match cve app confidence = record {
  matcher = "CVEMatcher";
  cve = cve;
  app_name = app.name;
  app_version = app.version;
  version_affected = confidence == "exact_version_match";
  match_confidence = confidence;
  sector_match = false;
  kev_match = false;
  details = "CVE " ++ (cve ++ (" matches " ++ (app.name ++ (" (" ++ (app.vendor ++ ")")))));
  suppressed = false;
  suppress_reason = "";
}

-- Steps 3 and 4, once there is a confidence.
abbrev pub with_range : String → App → String → Option AffectedProduct → Match
with_range cve app confidence none = affected_match cve app confidence
with_range cve app confidence (some range) =
    if app.version == ""
    then affected_match cve app confidence
    else (let (inside, label) = in_range app.version range.version_start range.version_end in
        if not inside then suppressed_match cve app range else affected_match cve app label)

unfoldable pub cve_matches_app : CveMatcher → String → App → ThreatEvent → Option Match
cve_matches_app m cve app event =
    let vendor = normalize_vendor m app.vendor in
    let product = normalize_product m app.name in
    let (structured, cve_range) = match_via_affected_products m event vendor product in
    let confidence =
      if structured == "" && match_via_title event.title vendor product
      then "weak_title_match"
      else structured in
    if confidence == "" then none else some (with_range cve app confidence cve_range)

-- A nil pointer adds nothing to the result.
abbrev pub from_option {ℓ} : {A : Type ℓ} → Option A → List A
from_option none = []
from_option (some a) = a ∷ []

unfoldable pub match : CveMatcher → ThreatEvent → OrgContext → List Match
match m event org =
    collect (λ cve. collect (λ app. from_option (cve_matches_app m cve app event)) org.tech_stack)
      event.cves
