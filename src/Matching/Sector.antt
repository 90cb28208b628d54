-- ===== src/Matching/Sector.antt =====
-- internal/match/sector_matcher.go: sector tags of an event against the organisation's sector.
pub mod Laws
use Prim.Native.String.{◌++◌}
use threat_intel_arbiter.Common.{
  Bool, true, false, ◌&&◌, List, [], ◌∷◌, String, if◌then◌else◌, to_lower, has_prefix, contains,
  join, any,
}
use threat_intel_arbiter.Model.{Match, ThreatEvent, OrgContext}

unfoldable pub sector_taxonomies : List String
sector_taxonomies =
    "eu-nis-oes" ∷ "eu-nis-sector-and-subsectors" ∷ "dhs-ciip-sectors" ∷ "nis2"
    ∷ "targeted-threat-index:targets-" ∷ []

-- The inner loop: some taxonomy is in front of the tag, and the tag names the sector.
unfoldable pub sector_matched : String → String → Bool
unfolding any sector_taxonomies has_prefix contains
sector_matched tag_lower org_sector =
    any (λ prefix. has_prefix tag_lower prefix && contains tag_lower org_sector) sector_taxonomies

abbrev pub tag_match : String → OrgContext → Match
tag_match tag org = record {
  matcher = "SectorMatcher";
  cve = "";
  app_name = "";
  app_version = "";
  version_affected = false;
  match_confidence = "";
  sector_match = true;
  kev_match = false;
  details = "Event tagged " ++ (tag ++ (" matches org sector " ++ org.sector));
  suppressed = false;
  suppress_reason = "";
}

-- The outer loop, which stops at the first tag that matches.
unfoldable pub first_tag : OrgContext → List String → List Match
unfolding sector_matched to_lower
first_tag org [] = []
first_tag org (tag ∷ tags) =
    if sector_matched (to_lower tag) (to_lower org.sector)
    then tag_match tag org ∷ []
    else first_tag org tags

-- The actors are named in the first match, if there are both.
abbrev name_actors : List String → List Match → List Match
name_actors [] matches = matches
name_actors (a ∷ others) [] = []
name_actors (a ∷ others) (m ∷ ms) =
    record m { details = m.details ++ (" — threat actor: " ++ join (a ∷ others) ", ") } ∷ ms

unfoldable pub match : ThreatEvent → OrgContext → List Match
unfolding first_tag
match event org = name_actors event.threat_actors (first_tag org event.tags)
