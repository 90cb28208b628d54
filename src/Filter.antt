-- ===== src/Filter.antt =====
-- internal/filter/filter.go: events that are dropped before they are matched.
pub mod Laws
use threat_intel_arbiter.Common.{
  ℕ, ◌≡◌, Bool, true, false, List, [], ◌∷◌, String, ◌==◌, if◌then◌else◌, to_upper, any, select,
  length,
}
use threat_intel_arbiter.Common.Dict.{has, add}
use threat_intel_arbiter.Model.{ThreatEvent}

-- Both maps only ever hold `true`, so each is the set of its keys.
pub record Filter : Type 0 where
  pub warning_cves : List String
  pub notice_events : List String

unfoldable pub new : Filter
new = record { warning_cves = []; notice_events = [] }

unfoldable pub load_warning_cves : List String → Filter → Filter
load_warning_cves [] f = f
load_warning_cves (cve ∷ cves) f =
    load_warning_cves cves (record f { warning_cves = add (to_upper cve) f.warning_cves })

unfoldable pub load_notice_events : List String → Filter → Filter
load_notice_events [] f = f
load_notice_events (id ∷ ids) f =
    load_notice_events ids (record f { notice_events = add id f.notice_events })

unfoldable pub allow : Filter → ThreatEvent → Bool
allow f event =
    if has event.id f.notice_events
    then false
    else if any (λ cve. has (to_upper cve) f.warning_cves) event.cves
    then false
    else if any (λ tag. tag == "tlp:red") event.tags
    then false
    else true

unfoldable pub filter_events : Filter → List ThreatEvent → List ThreatEvent
filter_events f events = select (allow f) events

unfoldable pub count : Filter → ℕ × ℕ
count f = (length f.warning_cves, length f.notice_events)
