-- ===== src/Notify/Crowdstrike/Export.antt =====
-- internal/notify/crowdstrike.go: from the indicators of an event to those that may be exported.
use Prim.Native.Char.{code}
use Prim.Native.String.{[], ◌∷◌, ◌++◌ as append}
use mathlib.Core.List.{List, [], ◌∷◌, ◌++◌}
use threat_intel_arbiter.Common.{
  take_text, ℕ, Bool, false, not, ◌&&◌, ◌||◌, none, some, String, ◌==◌, leb, ltb, eqb,
  if◌then◌else◌,
}
use threat_intel_arbiter.Common.Dict.{lookup, has}
use threat_intel_arbiter.Model.{Ioc, ThreatEvent}
use threat_intel_arbiter.Risk.Assets.{is_nil}
use threat_intel_arbiter.Notify.Crowdstrike.Ip.{is_private_ip}
use threat_intel_arbiter.Notify.Crowdstrike.Validation.{validate_ioc, blocked_tlp, never_block}

-- The settings of the notifier; `prevent_types` is the set of the keys of its map.
pub record Settings : Type 0 where
  pub action : String
  pub min_severity : String
  pub mock : Bool
  pub prevent_types : List String
  pub max_tlp : String

pub record Indicator : Type 0 where
  pub source : String
  pub action : String
  pub expiration : String
  pub ioc_type : String
  pub value : String
  pub description : String
  pub severity : String
  pub platforms : List String
  pub tags : List String

unfoldable pub severity_ranks : List (String × ℕ)
severity_ranks = ("critical", 4) ∷ ("high", 3) ∷ ("medium", 2) ∷ ("low", 1) ∷ []

-- An unknown severity has the rank 0.
unfoldable pub rank : String → ℕ
unfolding lookup severity_ranks
rank severity = elim (lookup severity severity_ranks) [ none ↦ 0 | some r ↦ r ]

unfoldable pub meets_severity : String → String → Bool
unfolding rank
meets_severity event_severity floor = leb (rank floor) (rank event_severity)

unfoldable pub map_to_cs_severity : String → String
map_to_cs_severity severity =
    if severity == "critical"
    then "critical"
    else if severity == "high"
    then "high"
    else if severity == "medium"
    then "medium"
    else "low"

without_control : String → String
without_control [] = []
without_control (c ∷ s) =
    if ltb (code c) 32 && (not (eqb (code c) 10) && not (eqb (code c) 9))
    then without_control s
    else c ∷ without_control s

-- The cap is on characters here, which are the bytes of an ASCII text.
unfoldable pub clean_desc : String → String
unfolding take_text without_control
clean_desc d = without_control (take_text 256 d)

unfoldable pub copy_tags : ThreatEvent → List String
copy_tags event = event.tags ++ event.cves

abbrev pub is_ip : String → Bool
is_ip ioc_type = ioc_type == "ipv4" || ioc_type == "ipv6"

-- The checks of one indicator of an event, in the order of the source.
unfoldable pub is_exportable : Settings → ThreatEvent → Ioc → Bool
unfolding validate_ioc is_private_ip blocked_tlp has never_block
is_exportable settings event ioc =
    let clean = validate_ioc ioc.ioc_type ioc.value in
    if clean == ""
    then false
    else if is_ip ioc.ioc_type && is_private_ip clean
    then false
    else if blocked_tlp settings.max_tlp (ioc.tags ++ event.tags)
    then false
    else not (has clean never_block)

-- An indicator whose type is not allowed is downgraded only if some type is allowed.
unfoldable pub indicator_action : Settings → String → String
unfolding has
indicator_action settings ioc_type =
    if settings.action == "prevent"
      && (not (is_nil settings.prevent_types) && not (has ioc_type settings.prevent_types))
    then "detect"
    else settings.action

unfoldable pub to_indicator : Settings → String → String → ThreatEvent → Ioc → Indicator
unfolding validate_ioc indicator_action clean_desc map_to_cs_severity copy_tags
to_indicator settings expiration severity event ioc = record {
  source = ioc.source;
  action = indicator_action settings ioc.ioc_type;
  expiration = expiration;
  ioc_type = ioc.ioc_type;
  value = validate_ioc ioc.ioc_type ioc.value;
  description = clean_desc (
      if ioc.description == "" || ioc.description == event.title
      then append ioc.ioc_type " IOC from MISP event"
      else ioc.description);
  severity = map_to_cs_severity severity;
  platforms = "windows" ∷ "mac" ∷ "linux" ∷ [];
  tags = copy_tags event;
}

-- `ioc.Type + ":" + clean`
abbrev pub dedup_key : Indicator → String
dedup_key i = append i.ioc_type (append ":" i.value)
