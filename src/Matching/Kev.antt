-- ===== src/Matching/Kev.antt =====
-- internal/match/kev_matcher.go: CVEs on the CISA list of known exploited vulnerabilities.
-- The matcher's lock makes each of its operations one step; `Replace` swaps the whole catalog.
pub mod Laws
use Prim.Native.String.{◌++◌}
use threat_intel_arbiter.Common.{
  ℕ, Bool, true, false, List, [], ◌∷◌, String, ◌==◌, if◌then◌else◌, to_upper, trim_space, collect,
  length,
}
use threat_intel_arbiter.Common.Dict
use threat_intel_arbiter.Common.Dict.{add}
use threat_intel_arbiter.Model.{Match, ThreatEvent, OrgContext}

-- The map only ever holds `true`, so it is the set of its keys.
pub record KevMatcher : Type 0 where
  pub kev : List String

unfoldable pub normalize_cve : String → String
unfolding to_upper trim_space
normalize_cve cve = to_upper (trim_space cve)

-- The loop that fills the new set.
unfoldable pub fill : List String → List String → List String
unfolding normalize_cve add
fill set [] = set
fill set (cve ∷ cves) =
    let id = normalize_cve cve in fill (if id == "" then set else add id set) cves

unfoldable pub replace : List String → KevMatcher → KevMatcher
unfolding fill
replace kev_cves m = record m { kev = fill [] kev_cves }

unfoldable pub new_kev_matcher : List String → KevMatcher
unfolding replace
new_kev_matcher kev_cves = replace kev_cves (record { kev = [] })

unfoldable pub has : KevMatcher → String → Bool
unfolding normalize_cve Dict.has
has m cve = Dict.has (normalize_cve cve) m.kev

unfoldable pub count : KevMatcher → ℕ
count m = length m.kev

-- The match for one CVE on the list.
abbrev pub hit : String → Match
hit cve = record {
  matcher = "KEVMatcher";
  cve = cve;
  app_name = "";
  app_version = "";
  version_affected = false;
  match_confidence = "";
  sector_match = false;
  kev_match = true;
  details =
      "CVE "
      ++ (cve ++ " is on the CISA Known Exploited Vulnerabilities list — actively exploited");
  suppressed = false;
  suppress_reason = "";
}

unfoldable pub match : KevMatcher → ThreatEvent → OrgContext → List Match
match m event org = collect (λ cve. if has m cve then hit cve ∷ [] else []) event.cves
