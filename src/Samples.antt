-- ===== src/Samples.antt =====
-- An event, an organisation, matches, an alert and a feed on which the theorems are instantiated.
use threat_intel_arbiter.Common.{true, false, [], ◌∷◌}
use threat_intel_arbiter.Source.Kev.{KevEntry, Feed}
use threat_intel_arbiter.Model.{Alert, AffectedProduct, App, OrgContext, Match, ThreatEvent}

abbrev pub affected_openssl : AffectedProduct
affected_openssl = record {
  vendor = "OpenSSL";
  product = "openssl";
  version_start = "3.0.0";
  version_end = "3.0.7";
  version_scheme = "semver";
}

abbrev pub openssl_event : ThreatEvent
openssl_event = record {
  id = "42";
  source = "misp";
  source_confidence = "high";
  title = "OpenSSL buffer overflow";
  cves = "CVE-2022-3602" ∷ [];
  cvss = 75;
  tags = "dhs-ciip-sectors:dhs-sector=\"finance\"" ∷ "exploit:in-the-wild" ∷ [];
  description = "Phishing by APT29 against banks";
  timestamp = 1000;
  affected_products = affected_openssl ∷ [];
  threat_actors = "APT29" ∷ [];
  references = [];
  iocs = [];
}

abbrev pub openssl_app : App
openssl_app = record {
  name = "openssl";
  version = "3.0.5";
  vendor = "openssl";
  category = "library";
  criticality = "critical";
  owner_team = "platform";
  internet_facing = true;
  hosts = "web1";
  data_sensitivity = "high";
  last_verified = "";
}

abbrev pub bank : OrgContext
bank = record {
  org_id = "default";
  name = "Bank";
  sector = "finance";
  country = "";
  timezone = "";
  data_sensitivity = "high";
  tech_stack = openssl_app ∷ [];
}

abbrev pub openssl_match : Match
openssl_match = record {
  matcher = "cve";
  cve = "CVE-2022-3602";
  app_name = "openssl";
  app_version = "3.0.5";
  version_affected = true;
  match_confidence = "exact_version_match";
  sector_match = false;
  kev_match = false;
  details = "";
  suppressed = true;
  suppress_reason = "";
}

abbrev pub an_alert : Alert
an_alert = record {
  id = "a1";
  event_id = "42";
  severity = "critical";
  confidence = "HIGH";
  action = "Act";
  explanation = "";
  status = "new";
  matched_apps = [];
  routed_to = [];
  created_at = 0;
}

abbrev pub an_entry : KevEntry
an_entry = record {
  cve_id = "CVE-2021-44228";
  vendor_project = "Apache";
  product = "Log4j2";
  vulnerability_name = "Remote code execution";
  date_added = "2021-12-10";
  short_description = "";
  required_action = "";
  due_date = "";
  known_ransomware = "";
  notes = "";
}

abbrev pub empty_feed : Feed
empty_feed = record { matcher = record { kev = [] }; events = [] }
