-- ===== src/Pipeline/Tests.antt =====
-- cmd/arbiter/main.go: the theorems at a concrete setup and events.
use mathlib.Core.List.Memᴰ
use mathlib.Core.List.{[], ◌∷◌, ◌++◌}
use threat_intel_arbiter.Samples.{an_entry, empty_feed}
use threat_intel_arbiter.Common.{◌≡◌, refl, true, none, some, ◌==◌, if◌then◌else◌}
use threat_intel_arbiter.Model.{Alert}
use threat_intel_arbiter.Samples.{bank}
use threat_intel_arbiter.Filter.{allow}
use threat_intel_arbiter.Matching.Kev.{normalize_cve}
use threat_intel_arbiter.Matching.Tag.{tag_event}
use threat_intel_arbiter.Risk.Score.{default_weights}
use threat_intel_arbiter.Notify.{route}
use threat_intel_arbiter.Source.Misp.{MispEvent, MispEventTag, normalize_misp_event}
use threat_intel_arbiter.Source.Kev.{normalize_kev, fetch_and_send}
use threat_intel_arbiter.Pipeline.{Setup, State, initial_filter, routing_rules, handle_event}
use threat_intel_arbiter.Pipeline.Marking.{red_stays_in}
use threat_intel_arbiter.Pipeline.Exploited.{exploited_is_routed}

-- Only the console is registered.
abbrev setup : Setup
setup = record {
  filter = initial_filter;
  org = bank;
  matchers = record { name = "KEVMatcher"; enabled = true } ∷ [];
  weights = default_weights;
  rules = [];
  settings = record {
    action = "detect";
    min_severity = "high";
    mock = true;
    prevent_types = [];
    max_tlp = "";
  };
  send = λ channel. if channel == "console" then some true else none;
  dedup_key = λ event result. event.id;
  explain = λ result. "";
  expiration = λ now. "";
}

abbrev begin : State
begin = record {
  kev = (fetch_and_send (some (an_entry ∷ [])) 5000 empty_feed).matcher;
  tables = record { dedup_hashes = []; alerts = [] };
  falcon = record { sent = []; pending_keys = []; pending = [] };
  routed = [];
}

abbrev red_tag : MispEventTag
red_tag = record { id = "1"; name = "tlp:red" }

abbrev red_event : MispEvent
red_event = record {
  id = "1";
  uuid = "5f0c";
  org_id = "1";
  orgc_id = "1";
  date = "2024-01-01";
  threat_level = "1";
  info = "Targeted attack";
  published = true;
  analysis = "2";
  timestamp = "1704067200";
  distribution = "0";
  tags = red_tag ∷ [];
  attributes = [];
  galaxies = [];
  sightings = [];
  org = none;
  orgc = none;
}

red_stays_in_example : handle_event setup 1000 (normalize_misp_event red_event) begin ≡ begin
red_stays_in_example = red_stays_in setup 1000 red_event red_tag begin (Memᴰ.head refl) refl

exploited_is_routed_example :
    (alert : Alert) × (alert.event_id ≡ "CVE-2021-44228")
    × ((handle_event setup 1000 (normalize_kev an_entry) begin).routed
        ≡ begin.routed ++ ((alert, route setup.send (routing_rules setup.rules) alert) ∷ []))
unfolding normalize_cve allow tag_event normalize_kev initial_filter
exploited_is_routed_example =
    exploited_is_routed setup 1000 begin (an_entry ∷ []) an_entry
      (record { name = "KEVMatcher"; enabled = true }) 5000 empty_feed (Memᴰ.head refl) (λ e. cc)
      (Memᴰ.head refl) refl refl refl refl
