-- ===== src/Notify.antt =====
-- internal/notify/router.go: the rule that an alert takes and the channels it reaches. What a
-- registered notifier does is an argument: `some true` is a notifier that sends, `some false` one
-- that fails, `none` a channel without one.
pub mod Routing
pub mod Crowdstrike
pub mod Email
pub mod Webhook
pub mod Channels
mod Tests
use threat_intel_arbiter.Common.{
  Bool, false, ◌&&◌, ◌||◌, List, [], ◌∷◌, Option, none, some, String, ◌==◌, if◌then◌else◌, any,
  select, to_lower, equal_fold,
}
use threat_intel_arbiter.Model.{Alert}
use threat_intel_arbiter.Risk.Assets.{is_nil}

pub record Rule : Type 0 where
  pub severity : String
  pub confidence : List String
  pub channels : List String

unfoldable pub contains_any : List String → String → Bool
unfolding any to_lower
contains_any list s = any (λ item. to_lower item == s) list

unfoldable pub rule_matches : Alert → Rule → Bool
unfolding equal_fold contains_any to_lower
rule_matches alert rule =
    equal_fold rule.severity alert.severity
    && (is_nil rule.confidence || contains_any rule.confidence (to_lower alert.confidence))

abbrev pub reaches : (String → Option Bool) → String → Bool
reaches send channel = elim (send channel) [ none ↦ false | some ok ↦ ok ]

-- The channels that got the alert: those of the first rule that matches.
unfoldable pub route : (String → Option Bool) → List Rule → Alert → List String
unfolding rule_matches select
route send [] alert = []
route send (rule ∷ rules) alert =
    if rule_matches alert rule then select (reaches send) rule.channels else route send rules alert
