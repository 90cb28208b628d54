-- ===== src/Source/Kev.antt =====
-- internal/source/kev.go: the CISA catalog of known exploited vulnerabilities. The request and the
-- decoding of its answer are an argument.
pub mod Catalog
use Prim.Native.String.{◌++◌ as append}
use mathlib.Core.List.{List, [], ◌∷◌, ◌++◌}
use threat_intel_arbiter.Common.{ℕ, Option, none, some, String, ltb, if◌then◌else◌, length, map}
use threat_intel_arbiter.Model.{ThreatEvent}
use threat_intel_arbiter.Matching.Kev.{KevMatcher, replace}

pub record KevEntry : Type 0 where
  pub cve_id : String
  pub vendor_project : String
  pub product : String
  pub vulnerability_name : String
  pub date_added : String
  pub short_description : String
  pub required_action : String
  pub due_date : String
  pub known_ransomware : String
  pub notes : String

unfoldable pub normalize_kev : KevEntry → ThreatEvent
normalize_kev entry = record {
  id = entry.cve_id;
  source = "cisa-kev";
  source_confidence = "high";
  title = append entry.cve_id (append " — " entry.vulnerability_name);
  cves = entry.cve_id ∷ [];
  cvss = 0;
  tags = "exploit:in-the-wild" ∷ "source:cisa-kev" ∷ [];
  description = entry.short_description;
  timestamp = 0;
  affected_products =
      record {
        vendor = entry.vendor_project;
        product = entry.product;
        version_start = "";
        version_end = "";
        version_scheme = "";
      }
      ∷ [];
  threat_actors = [];
  references = "https://www.cisa.gov/known-exploited-vulnerabilities-catalog" ∷ [];
  iocs = [];
}

-- The catalog that the poller and the matcher share, and the events that wait in the queue.
pub record Feed : Type 0 where
  pub matcher : KevMatcher
  pub events : List ThreatEvent

-- A full queue takes no event: the send has a default.
unfoldable pub send_entries : ℕ → List KevEntry → List ThreatEvent → List ThreatEvent
unfolding normalize_kev
send_entries capacity [] events = events
send_entries capacity (entry ∷ entries) events =
    send_entries capacity entries
      (if ltb (length events) capacity then events ++ (normalize_kev entry ∷ []) else events)

-- The catalog is replaced before the first event is sent; a fetch that fails changes nothing.
unfoldable pub fetch_and_send : Option (List KevEntry) → ℕ → Feed → Feed
unfolding replace send_entries
fetch_and_send fetched capacity s = elim fetched [
  | none ↦ s
  | some entries ↦ record {
    matcher = replace (map (λ entry. entry.cve_id) entries) s.matcher;
    events = send_entries capacity entries s.events;
  }
]
