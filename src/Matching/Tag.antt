-- ===== src/Matching/Tag.antt =====
-- internal/match/tag.go: ATT&CK techniques and threat actors named in an event's description.
pub mod Keywords
pub mod Laws
pub mod Case
use Prim.Native.String.{◌++◌}
use threat_intel_arbiter.Common.{
  Bool, List, [], ◌∷◌, ◌++◌ as append, String, if◌then◌else◌, to_lower, contains, map, any,
}
use threat_intel_arbiter.Common.Dict.{has, add}
use threat_intel_arbiter.Model.{ThreatEvent}
use Keywords.{Technique, attack_techniques, Actor, threat_actors}

pub record TagResult : Type 0 where
  pub techniques : List String
  pub actors : List String

-- The loop of `dedup`; `seen` holds what is in the result.
unfoldable pub dedup_from : List String → List String → List String
unfolding has add
dedup_from seen [] = []
dedup_from seen (v ∷ s) =
    let rest = dedup_from (add v seen) s in if has v seen then rest else v ∷ rest

unfoldable pub dedup : List String → List String
unfolding dedup_from
dedup s = dedup_from [] s

-- The inner loop: one keyword found is enough.
unfoldable pub mentions : String → List String → Bool
unfolding any contains
mentions text keywords = any (contains text) keywords

unfoldable pub found_techniques : String → List Technique → List String
unfolding mentions
found_techniques text [] = []
found_techniques text (t ∷ ts) =
    if mentions text t.keywords then t.id ∷ found_techniques text ts else found_techniques text ts

unfoldable pub found_actors : String → List Actor → List String
unfolding mentions
found_actors text [] = []
found_actors text (a ∷ others) =
    if mentions text a.aliases then a.id ∷ found_actors text others else found_actors text others

unfoldable pub match_techniques : String → List String
unfolding found_techniques dedup attack_techniques
match_techniques text = dedup (found_techniques text attack_techniques)

unfoldable pub match_actors : String → List String
unfolding found_actors dedup threat_actors
match_actors text = dedup (found_actors text threat_actors)

unfoldable pub tag : String → TagResult
unfolding to_lower match_techniques match_actors
tag text =
    let lower = to_lower text in
    record { techniques = match_techniques lower; actors = match_actors lower }

unfoldable pub tag_event : ThreatEvent → ThreatEvent
unfolding tag
tag_event event =
    let result = tag event.description in
    record event {
      tags =
          append (append event.tags (map (λ t. "att&ck:" ++ t) result.techniques))
            (map (λ a. "threat-actor:" ++ a) result.actors);
    }
