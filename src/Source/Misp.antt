-- ===== src/Source/Misp.antt =====
-- internal/source/misp.go: the events of a MISP server and how they become threat events. The request
-- and the decoding of its answer are an argument. A CVSS score is read in tenths.
pub mod Cpe
pub mod Indicators
pub mod Fields
use Prim.Native.Char.{Char, code}
use Prim.Native.String.{[], ◌∷◌}
use mathlib.Core.List.{List, [], ◌∷◌, ◌++◌}
use threat_intel_arbiter.Common.{
  ℕ, zero, suc, ◌+◌, ◌-◌, ◌*◌, ◌^◌, ◌≡◌, refl, Bool, true, false, not, ◌&&◌, ◌||◌, Option, none,
  some, String, ◌==◌, leb, ltb, eqb, if◌then◌else◌, map, has_prefix, trim_prefix, trim_space,
}
use threat_intel_arbiter.Model.{Time, second, Ioc, ThreatEvent}
use threat_intel_arbiter.Matching.Scan.{span_digits}
use threat_intel_arbiter.Source.Misp.Cpe.{parse_cpe}

pub record MispEventTag : Type 0 where
  pub id : String
  pub name : String

pub record MispAttribute : Type 0 where
  pub id : String
  pub category : String
  pub attribute_type : String
  pub value : String
  pub comment : String
  pub tags : List MispEventTag

pub record MispGalaxyCluster : Type 0 where
  pub cluster_type : String
  pub value : String
  pub description : String

pub record MispGalaxy : Type 0 where
  pub name : String
  pub galaxy_type : String
  pub galaxy_clusters : List MispGalaxyCluster

pub record MispOrg : Type 0 where
  pub id : String
  pub name : String

pub record MispSighting : Type 0 where
  pub id : String
  pub attribute_id : String
  pub event_id : String
  pub org_id : String
  pub date_sighting : String
  pub org : Option MispOrg

pub record MispEvent : Type 0 where
  pub id : String
  pub uuid : String
  pub org_id : String
  pub orgc_id : String
  pub date : String
  pub threat_level : String
  pub info : String
  pub published : Bool
  pub analysis : String
  pub timestamp : String
  pub distribution : String
  pub tags : List MispEventTag
  pub attributes : List MispAttribute
  pub galaxies : List MispGalaxy
  pub sightings : List MispSighting
  pub org : Option MispOrg
  pub orgc : Option MispOrg

pub record MispResponseItem : Type 0 where
  pub event : MispEvent

-- The pages of the server count from 1. A request that fails, or an answer that cannot be decoded, is
-- `none`.
unfoldable pub fetch_events :
    (String → ℕ → ℕ → Option (List MispResponseItem)) → String → ℕ → ℕ → Option (List MispEvent)
fetch_events request since limit page = elim (request since limit (page + 1)) [
  | none ↦ none
  | some response ↦ some (map (λ item. item.event) response)
]

unfoldable pub map_tlp_to_confidence : String → String
map_tlp_to_confidence tlp =
    if tlp == "tlp:red"
    then "high"
    else if tlp == "tlp:amber"
    then "medium"
    else if tlp == "tlp:green"
    then "medium"
    else if tlp == "tlp:white"
    then "low"
    else "medium"

unfoldable pub extract_tlp : List MispEventTag → String
unfolding has_prefix
extract_tlp [] = ""
extract_tlp (tag ∷ tags) =
    let rest = extract_tlp tags in if has_prefix tag.name "tlp:" then tag.name else rest

-- The value of a text of digits.
digits_value : ℕ → String → ℕ
digits_value n [] = n
digits_value n (c ∷ s) = digits_value (10 * n + (code c - b'0')) s

-- The digits at the front and the rest, if there is a digit.
number_at : String → Option (ℕ × String)
unfolding span_digits digits_value
number_at s =
    let (ds, rest) = span_digits s in if ds == "" then none else some (digits_value 0 ds, rest)

-- The seconds from Go's zero time to the Unix epoch.
abbrev pub epoch : ℕ
epoch = 62135596800

-- `%d` takes an integer of 64 bits after spaces and a sign, and leaves what follows it. A time before
-- Go's zero time is the zero time here.
unfoldable pub str_to_unix : String → Option Time
unfolding trim_space has_prefix trim_prefix number_at
str_to_unix s =
    let t = trim_space s in
    let negative = has_prefix t "-" in
    let unsigned = if negative then trim_prefix t "-" else trim_prefix t "+" in
    elim (number_at unsigned) [
      | none ↦ none
      | some (n, rest) ↦
          if negative
          then (if leb n (2 ^ 63) then some ((epoch - n) * second) else none)
          else if ltb n (2 ^ 63)
          then some ((epoch + n) * second)
          else none
    ]

-- The first digit after a dot.
tenths_at : String → ℕ
unfolding span_digits has_prefix trim_prefix
tenths_at s = elim (span_digits (trim_prefix s ".")).0 [
  | [] ↦ 0
  | c ∷ ds ↦ if has_prefix s "." then code c - b'0' else 0
]

-- A score in tenths, as scores are published: it begins with a digit and has no exponent.
unfoldable pub parse_cvss : String → Option ℕ
unfolding trim_space number_at tenths_at
parse_cvss s = elim (number_at (trim_space s)) [
  | none ↦ none
  | some (n, rest) ↦ some (10 * n + tenths_at rest)
]

unfoldable pub map_misp_to_ioc_type : String → String
map_misp_to_ioc_type misp_type =
    if misp_type == "ip-src" || (misp_type == "ip-dst" || misp_type == "ip")
    then "ipv4"
    else if misp_type == "ipv6"
    then "ipv6"
    else if misp_type == "domain" || misp_type == "hostname"
    then "domain"
    else if misp_type == "sha256"
    then "hash_sha256"
    else if misp_type == "md5"
    then "hash_md5"
    else ""

unfoldable pub event_tags : List MispEventTag → List String
event_tags tags = map (λ t. t.name) tags

-- The last score among the tags of an attribute that can be read, or else the one found before.
unfoldable pub scan_cvss : List MispEventTag → ℕ → ℕ
unfolding has_prefix trim_prefix parse_cvss
scan_cvss [] cvss = cvss
scan_cvss (tag ∷ tags) cvss = scan_cvss tags (
    if has_prefix tag.name "cvss:"
    then elim (parse_cvss (trim_prefix tag.name "cvss:")) [ none ↦ cvss | some c ↦ c ]
    else cvss)

-- The attribute is an indicator.
unfoldable pub is_ioc : MispAttribute → Bool
unfolding map_misp_to_ioc_type
is_ioc attr = not (map_misp_to_ioc_type attr.attribute_type == "") && not (attr.value == "")

unfoldable pub to_ioc : String → MispAttribute → Ioc
unfolding map_misp_to_ioc_type event_tags
to_ioc info attr = record {
  ioc_type = map_misp_to_ioc_type attr.attribute_type;
  value = attr.value;
  description = if attr.comment == "" then info else attr.comment;
  severity = "";
  source = "misp";
  tags = event_tags attr.tags;
}

-- One round of the loop over the attributes.
unfoldable pub add_attribute : String → MispAttribute → ThreatEvent → ThreatEvent
unfolding has_prefix scan_cvss parse_cpe is_ioc to_ioc
add_attribute info attr event = record event {
  cves = if has_prefix attr.value "CVE-" then event.cves ++ (attr.value ∷ []) else event.cves;
  cvss = scan_cvss attr.tags event.cvss;
  references =
      if attr.attribute_type == "link"
      then event.references ++ (attr.value ∷ [])
      else event.references;
  affected_products =
      if attr.attribute_type == "cpe"
      then elim (parse_cpe attr.value) [
        | none ↦ event.affected_products
        | some product ↦ event.affected_products ++ (product ∷ [])
      ]
      else event.affected_products;
  iocs = if is_ioc attr then event.iocs ++ (to_ioc info attr ∷ []) else event.iocs;
}

unfoldable pub add_attributes : String → List MispAttribute → ThreatEvent → ThreatEvent
unfolding add_attribute
add_attributes info [] event = event
add_attributes info (attr ∷ attributes) event =
    add_attributes info attributes (add_attribute info attr event)

unfoldable pub cluster_actors : List MispGalaxyCluster → List String
cluster_actors [] = []
cluster_actors (cluster ∷ clusters) =
    let rest = cluster_actors clusters in
    if cluster.cluster_type == "threat-actor" then cluster.value ∷ rest else rest

unfoldable pub galaxy_actors : List MispGalaxy → List String
unfolding cluster_actors
galaxy_actors [] = []
galaxy_actors (galaxy ∷ galaxies) = cluster_actors galaxy.galaxy_clusters ++ galaxy_actors galaxies

-- The event before the loops: its timestamp is the zero time where it cannot be read.
unfoldable pub empty_event : MispEvent → ThreatEvent
unfolding map_tlp_to_confidence extract_tlp str_to_unix
empty_event raw = record {
  id = raw.uuid;
  source = "misp";
  source_confidence = map_tlp_to_confidence (extract_tlp raw.tags);
  title = raw.info;
  cves = [];
  cvss = 0;
  tags = [];
  description = raw.info;
  timestamp = elim (str_to_unix raw.timestamp) [ none ↦ 0 | some t ↦ t ];
  affected_products = [];
  threat_actors = [];
  references = [];
  iocs = [];
}

unfoldable pub normalize_misp_event : MispEvent → ThreatEvent
unfolding empty_event add_attributes galaxy_actors
normalize_misp_event raw = record (add_attributes raw.info raw.attributes (empty_event raw)) {
  tags = map (λ tag. tag.name) raw.tags;
  threat_actors = galaxy_actors raw.galaxies;
}
