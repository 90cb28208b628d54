-- ===== src/Source/Tests.antt =====
-- internal/source: the theorems at concrete events and pages.
use mathlib.Core.List.{List, [], ◌∷◌}
use threat_intel_arbiter.Samples.{an_entry, empty_feed}
use threat_intel_arbiter.Common.{
  ℕ, ◌≡◌, ◌≤◌, ◌⊎◌, refl, true, false, none, some, Option, String, Memᴰ, map, collect, length, show,
  arith, eqb, if◌then◌else◌,
}
use threat_intel_arbiter.Samples.{bank}
use threat_intel_arbiter.Matching.Kev.{hit, match, normalize_cve}
use threat_intel_arbiter.Source.Misp.{MispAttribute, MispEvent, normalize_misp_event}
use threat_intel_arbiter.Source.Misp.Indicators.{iocs_of}
use threat_intel_arbiter.Source.Misp.Fields.{
  products_of, with_cve, links, last_of, all_scores, actors_of, normalize_misp_event_lem,
}
use threat_intel_arbiter.Source.Kev.{KevEntry, normalize_kev, fetch_and_send}
use threat_intel_arbiter.Source.Kev.Catalog.{fetch_and_send_lem}
use threat_intel_arbiter.Source.Poller.{MispPoller, unix, max_pages, since_of, poll}
use threat_intel_arbiter.Source.Poller.Paging.{
  pulled, process_events, latest, fetch_failed, last_page, poll_lem,
}
use threat_intel_arbiter.Source.Poller.Retraction.{IsNews, poll-IsNews}
use threat_intel_arbiter.Common.{◌&&◌, ◌*◌, ◌^◌, ltb, text_length}
use threat_intel_arbiter.Source.Client.{
  Fetched, fetched, fetch_error, HttpReply, answered, fetch_events, fetch_kev,
}
use threat_intel_arbiter.Source.Client.Bounded.{Agree, fetch-Agree}

abbrev attribute : String → String → MispAttribute
attribute attribute_type value = record {
  id = "1";
  category = "";
  attribute_type = attribute_type;
  value = value;
  comment = "";
  tags = record { id = "1"; name = "cvss:9.8" } ∷ [];
}

abbrev raw_event : MispEvent
raw_event = record {
  id = "1";
  uuid = "5f0c";
  org_id = "1";
  orgc_id = "1";
  date = "2024-01-01";
  threat_level = "1";
  info = "OpenSSL buffer overflow";
  published = true;
  analysis = "2";
  timestamp = "1704067200";
  distribution = "0";
  tags = record { id = "1"; name = "tlp:white" } ∷ [];
  attributes =
      attribute "vulnerability" "CVE-2022-3602"
      ∷ attribute "cpe" "cpe:2.3:a:openssl:openssl:3.0.5:*:*:*:*:*:*:*"
      ∷ attribute "ip-dst" "203.0.113.7"
      ∷ attribute "link" "https://www.openssl.org"
      ∷ [];
  galaxies =
      record {
        name = "Threat Actor";
        galaxy_type = "threat-actor";
        galaxy_clusters =
            record { cluster_type = "threat-actor"; value = "APT29"; description = "" } ∷ [];
      }
      ∷ [];
  sightings = [];
  org = none;
  orgc = none;
}

normalize_tests :
    ((normalize_misp_event raw_event).cvss ≡ 98)
    × ((normalize_misp_event raw_event).source_confidence ≡ "low")
    × ((normalize_misp_event raw_event).threat_actors ≡ "APT29" ∷ [])
    × (length (normalize_misp_event raw_event).iocs ≡ 1)
    × (unix (normalize_misp_event raw_event).timestamp ≡ 1704067200)
unfolding normalize_misp_event
normalize_tests = (refl, refl, refl, refl, refl)

normalize_misp_event_lem_example :
    let event = normalize_misp_event raw_event in
    (event.cves ≡ map (λ attr. attr.value) (with_cve raw_event.attributes))
    × (event.references ≡ map (λ attr. attr.value) (links raw_event.attributes))
    × (event.affected_products ≡ collect products_of raw_event.attributes)
    × (event.iocs ≡ collect (iocs_of raw_event.info) raw_event.attributes)
    × (event.cvss ≡ last_of 0 (all_scores raw_event.attributes))
    × (event.threat_actors
        ≡ collect (λ galaxy. actors_of galaxy.galaxy_clusters) raw_event.galaxies)
normalize_misp_event_lem_example = normalize_misp_event_lem raw_event

fetch_and_send_lem_example :
    let s' = fetch_and_send (some (an_entry ∷ [])) 5000 empty_feed in
    (length s'.events ≤ 5000)
    × (Memᴰ (normalize_kev an_entry) empty_feed.events
        ⊎ ((entry : KevEntry) × Memᴰ entry (an_entry ∷ [])
            × (normalize_kev an_entry ≡ normalize_kev entry)
            × ((normalize_cve entry.cve_id ≡ "")
                ⊎ Memᴰ (hit entry.cve_id) (match s'.matcher (normalize_kev an_entry) bank))))
unfolding fetch_and_send
fetch_and_send_lem_example =
    fetch_and_send_lem (an_entry ∷ []) 5000 empty_feed bank (normalize_kev an_entry) (omega arith)
      (Memᴰ.head refl)

abbrev idle : MispPoller
idle = record {
  cold_start = false;
  cursor = "1704000000";
  stored = [];
  alerts = record { dedup_hashes = []; alerts = [] };
  sent = [];
}

-- One page with one event.
abbrev fetch : String → ℕ → Option (List MispEvent)
fetch since page = if eqb page 0 then some (raw_event ∷ []) else none

poll_lem_example :
    let since = since_of 100 idle in
    let events = pulled fetch since 5 0 in
    let p' = process_events events idle in
    let last = last_page fetch since [] 5 0 in
    poll fetch 100 idle ≡ (
      if fetch_failed fetch since 5 0
      then (record p' { cursor = idle.cursor; cold_start = idle.cold_start }, false)
      else (
        record p' {
          cursor =
              if eqb (length last) 100 && ltb 0 (latest 0 events)
              then show (latest 0 events)
              else show (unix 100);
          cold_start = false;
        },
        true,
      ))
poll_lem_example = poll_lem fetch 100 idle

poll-IsNews_example :
    Memᴰ (normalize_misp_event raw_event) idle.sent
    ⊎ IsNews (pulled fetch (since_of 100 idle) max_pages 0) idle (normalize_misp_event raw_event)
unfolding poll normalize_misp_event
poll-IsNews_example = poll-IsNews fetch 100 idle (normalize_misp_event raw_event) (Memᴰ.head refl)

-- The one server has an answer, the other has not.
abbrev get_nothing : List (String × String) → Fetched HttpReply
get_nothing query = fetched (answered 200 "{}")

abbrev get_catalog : String → HttpReply
get_catalog url = answered 404 "not here"

-- A decoder that fails on the texts beyond the bound, and one that does not look.
abbrev strict {ℓ} : {A : Type ℓ} → String → Fetched (List A)
strict text = if ltb (128 * 2 ^ 20) (text_length text) then fetch_error "too long" else fetched []

abbrev lax {ℓ} : {A : Type ℓ} → String → Fetched (List A)
lax text = fetched []

strict-Agree : (A : Type 0) → Agree (128 * 2 ^ 20) (strict {A = A}) (lax {A = A})
unfolding Agree
strict-Agree A text h =
    let short : ltb (128 * 2 ^ 20) (text_length text) ≡ false = ground (arith, h) in rw short refl

fetch-Agree_example :
    (fetch_events get_nothing strict "1700000000" 100 0
      ≡ fetch_events get_nothing lax "1700000000" 100 0)
    × (fetch_kev get_catalog strict "https://kev.local"
        ≡ fetch_kev get_catalog lax "https://kev.local")
fetch-Agree_example =
    fetch-Agree get_nothing strict lax "1700000000" 100 0 get_catalog strict lax "https://kev.local"
      (strict-Agree _) (strict-Agree _)
