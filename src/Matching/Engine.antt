-- ===== src/Matching/Engine.antt =====
-- internal/match/engine.go: every matcher runs on every event. A matcher is its name and its method.
use threat_intel_arbiter.Common.{List, String, map, collect}
use threat_intel_arbiter.Model.{ThreatEvent, OrgContext, Match}
use threat_intel_arbiter.Matching.Cve.{CveMatcher}
use threat_intel_arbiter.Matching.Cve
use threat_intel_arbiter.Matching.Sector
use threat_intel_arbiter.Matching.Kev.{KevMatcher}
use threat_intel_arbiter.Matching.Kev

pub record Matcher : Type 0 where
  pub name : String
  pub run_match : ThreatEvent → OrgContext → List Match

abbrev pub cve_matcher : CveMatcher → Matcher
cve_matcher m = record { name = "CVEMatcher"; run_match = Cve.match m }

abbrev pub sector_matcher : Matcher
sector_matcher = record { name = "SectorMatcher"; run_match = Sector.match }

abbrev pub kev_matcher : KevMatcher → Matcher
kev_matcher m = record { name = "KEVMatcher"; run_match = Kev.match m }

pub record Engine : Type 0 where
  pub matchers : List Matcher

unfoldable pub run : Engine → ThreatEvent → OrgContext → List Match
run e event org = collect (λ m. m.run_match event org) e.matchers

unfoldable pub matcher_names : Engine → List String
matcher_names e = map (λ m. m.name) e.matchers
