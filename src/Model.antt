-- ===== src/Model.antt =====
-- internal/model/threat_event.go: the data types that every component works on.
-- A CVSS score is counted in tenths, in which CVSS scores are published. A time is the number of
-- nanoseconds since Go's zero time, so that the zero `time.Time` is 0.
use threat_intel_arbiter.Common.{ℕ, ◌*◌, ◌^◌, String, Bool, List}

abbrev pub Time : Type 0
Time = ℕ

abbrev pub second : Time
second = 10 ^ 9

abbrev pub minute : Time
minute = 60 * second

abbrev pub hour : Time
hour = 60 * minute

pub record AffectedProduct : Type 0 where
  pub vendor : String
  pub product : String
  pub version_start : String
  pub version_end : String
  pub version_scheme : String

pub record Ioc : Type 0 where
  pub ioc_type : String
  pub value : String
  pub description : String
  pub severity : String
  pub source : String
  pub tags : List String

pub record ThreatEvent : Type 0 where
  pub id : String
  pub source : String
  pub source_confidence : String
  pub title : String
  pub cves : List String
  pub cvss : ℕ
  pub tags : List String
  pub description : String
  pub timestamp : Time
  pub affected_products : List AffectedProduct
  pub threat_actors : List String
  pub references : List String
  pub iocs : List Ioc

pub record App : Type 0 where
  pub name : String
  pub version : String
  pub vendor : String
  pub category : String
  pub criticality : String
  pub owner_team : String
  pub internet_facing : Bool
  pub hosts : String
  pub data_sensitivity : String
  pub last_verified : String

pub record OrgContext : Type 0 where
  pub org_id : String
  pub name : String
  pub sector : String
  pub country : String
  pub timezone : String
  pub data_sensitivity : String
  pub tech_stack : List App

pub record Match : Type 0 where
  pub matcher : String
  pub cve : String
  pub app_name : String
  pub app_version : String
  pub version_affected : Bool
  pub match_confidence : String
  pub sector_match : Bool
  pub kev_match : Bool
  pub details : String
  pub suppressed : Bool
  pub suppress_reason : String

pub record Alert : Type 0 where
  pub id : String
  pub event_id : String
  pub severity : String
  pub confidence : String
  pub action : String
  pub explanation : String
  pub status : String
  pub matched_apps : List String
  pub routed_to : List String
  pub created_at : Time
