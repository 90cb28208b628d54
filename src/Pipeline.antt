-- ===== src/Pipeline.antt =====
-- cmd/arbiter/main.go: how the components work together on one event of the queue.
pub mod Marking
pub mod Exploited
mod Tests
use mathlib.Core.List.{List, [], ◌∷◌, ◌++◌}
use threat_intel_arbiter.Common.{
  ℕ, ◌*◌, Bool, true, false, not, Option, none, some, String, ◌==◌, if◌then◌else◌, collect,
}
use threat_intel_arbiter.Model.{Time, hour, ThreatEvent, OrgContext, Match, Alert}
use threat_intel_arbiter.Filter
use threat_intel_arbiter.Filter.{Filter}
use threat_intel_arbiter.Matching.Cve.{new_cve_matcher}
use threat_intel_arbiter.Matching.Kev.{KevMatcher}
use threat_intel_arbiter.Matching.Tag.{tag_event}
use threat_intel_arbiter.Matching.Engine.{
  Matcher, cve_matcher, sector_matcher, kev_matcher, Engine, run,
}
use threat_intel_arbiter.Risk.Assets.{is_nil}
use threat_intel_arbiter.Risk.Score.{RiskWeights, ScoreResult, score}
use threat_intel_arbiter.Alerts.{AlertTables, new_alert, save_alert}
use threat_intel_arbiter.Notify.{Rule, route}
use threat_intel_arbiter.Notify.Crowdstrike.Export.{Settings}
use threat_intel_arbiter.Notify.Crowdstrike.Queue.{Falcon, notify}

-- The events that the filter is loaded with at the start.
unfoldable pub initial_filter : Filter
unfolding Filter.load_warning_cves Filter.new
initial_filter = Filter.load_warning_cves ("CVE-2024-99999" ∷ "CVE-2023-00001" ∷ []) Filter.new

pub record MatcherConfig : Type 0 where
  pub name : String
  pub enabled : Bool

-- The matcher that a part of the configuration adds. The one for known exploited vulnerabilities
-- shares its catalog with the feed.
unfoldable pub configured_matcher : KevMatcher → MatcherConfig → List Matcher
unfolding new_cve_matcher
configured_matcher kev m =
    if not m.enabled
    then []
    else if m.name == "CVEMatcher"
    then cve_matcher new_cve_matcher ∷ []
    else if m.name == "SectorMatcher"
    then sector_matcher ∷ []
    else if m.name == "KEVMatcher"
    then kev_matcher kev ∷ []
    else []

-- The matchers in the order of the configuration.
unfoldable pub build_matchers : KevMatcher → List MatcherConfig → List Matcher
unfolding collect configured_matcher
build_matchers kev configs = collect (configured_matcher kev) configs

unfoldable pub default_rules : List Rule
default_rules =
    record {
      severity = "critical";
      confidence = "high" ∷ "medium" ∷ "low" ∷ [];
      channels = "console" ∷ [];
    }
    ∷ record {
      severity = "high";
      confidence = "high" ∷ "medium" ∷ "low" ∷ [];
      channels = "console" ∷ [];
    }
    ∷ record { severity = "medium"; confidence = []; channels = "console" ∷ [] }
    ∷ []

unfoldable pub routing_rules : List Rule → List Rule
unfolding default_rules
routing_rules configured = if is_nil configured then default_rules else configured

-- What the loop is started with; `send` is what the registered notifiers do, `dedup_key` and
-- `explain` are those of the risk engine, and `expiration` is the text of the notifier's clock.
pub record Setup : Type 0 where
  pub filter : Filter
  pub org : OrgContext
  pub matchers : List MatcherConfig
  pub weights : RiskWeights
  pub rules : List Rule
  pub settings : Settings
  pub send : String → Option Bool
  pub dedup_key : ThreatEvent → ScoreResult → String
  pub explain : ScoreResult → String
  pub expiration : Time → String

-- What the loop reads and writes: the shared catalog, the alert tables, the queue of the notifier
-- for Falcon, and each alert so far with the channels that it reached.
pub record State : Type 0 where
  pub kev : KevMatcher
  pub tables : AlertTables
  pub falcon : Falcon
  pub routed : List (Alert × List String)

abbrev pub alert_ttl : Time
alert_ttl = 7 * (24 * hour)

-- The matches of an event.
unfoldable pub matches_of : Setup → State → ThreatEvent → List Match
unfolding run build_matchers
matches_of c s event = run (record { matchers = build_matchers s.kev c.matchers }) event c.org

abbrev pub alert_of : Setup → Time → ThreatEvent → List Match → Alert
alert_of c now event matches =
    let result = score c.weights now event c.org matches in
    new_alert (c.dedup_key event result) (c.explain result) now event result matches

-- An event that has matches: the alert is saved, routed whether or not it was saved, and its
-- indicators are offered to the notifier for Falcon.
unfoldable pub raise_alert : Setup → Time → ThreatEvent → List Match → State → State
unfolding score new_alert save_alert route routing_rules notify
raise_alert c now event matches s =
    let alert = alert_of c now event matches in
    record s {
      tables = (save_alert alert_ttl now alert s.tables).0;
      routed = s.routed ++ ((alert, route c.send (routing_rules c.rules) alert) ∷ []);
      falcon = (notify c.settings (c.expiration now) alert.severity event s.falcon).2;
    }

-- One round of the loop: the event is tagged, filtered, matched, and raises an alert if it matches.
unfoldable pub handle_event : Setup → Time → ThreatEvent → State → State
unfolding tag_event Filter.allow matches_of raise_alert
handle_event c now raw s =
    let event = tag_event raw in
    let matches = matches_of c s event in
    if not (Filter.allow c.filter event)
    then s
    else if is_nil matches
    then s
    else raise_alert c now event matches s
