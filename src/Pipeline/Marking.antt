-- ===== src/Pipeline/Marking.antt =====
-- cmd/arbiter/main.go and internal/source/misp.go: an event marked tlp:red raises no alert.
use threat_intel_arbiter.Common.{◌≡◌, subst, Memᴰ, inl, inr, Bool-cases, map-mem}
use threat_intel_arbiter.Model.{Time, ThreatEvent}
use threat_intel_arbiter.Filter.{allow}
use threat_intel_arbiter.Filter.Laws.{allow→IsAllowed}
use threat_intel_arbiter.Matching.Tag.{tag_event}
use threat_intel_arbiter.Matching.Tag.Laws.{mem-tag_event}
use threat_intel_arbiter.Source.Misp.{MispEvent, MispEventTag, normalize_misp_event}
use threat_intel_arbiter.Pipeline.{Setup, State, handle_event}

-- The loop drops an event that has the tag.
handle_event-red :
    (c : Setup) (now : Time) (event : ThreatEvent) (s : State)
    → Memᴰ "tlp:red" event.tags
    → handle_event c now event s ≡ s
unfolding handle_event
handle_event-red c now event s m = elim (Bool-cases (allow c.filter (tag_event event))) [
  | inr dropped ↦ rw (dropped, handle_event)
  | inl passed ↦ absurd (
      (allow→IsAllowed c.filter (tag_event event) passed).not_red
        ((mem-tag_event event "tlp:red").1 (inl m)))
]

-- When the tags of a MISP event have "tlp:red", the loop changes nothing on the event made from it,
-- whatever else the event has and however the program is configured: no alert is saved or routed,
-- and none of its indicators is queued for Falcon.
pub red_stays_in :
    (c : Setup) (now : Time) (raw : MispEvent) (tag : MispEventTag) (s : State)
    → Memᴰ tag raw.tags
    → tag.name ≡ "tlp:red"
    → handle_event c now (normalize_misp_event raw) s ≡ s
unfolding normalize_misp_event
red_stays_in c now raw tag s m red = handle_event-red c now (normalize_misp_event raw) s (
    subst (λ name. Memᴰ name (normalize_misp_event raw).tags) red
      (map-mem (λ t. t.name) raw.tags m))
