-- ===== src/Notify/Channels/Unconfigured.antt =====
-- internal/notify: alerts where no channel but the console is configured.
use mathlib.Core.List.{List, []}
use threat_intel_arbiter.Common.{
  ◌≡◌, subst, ◌↔◌, ◌∙◌, refl, sym, Bool, true, false, Memᴰ, Option, none, some, String, ◌==◌,
  eq_iff, if◌then◌else◌, Bool-cases, inl, inr, arith,
}
use threat_intel_arbiter.Common.Dict.{lookup, lookup-insert}
use threat_intel_arbiter.Model.{Alert}
use threat_intel_arbiter.Notify.{Rule, reaches, route}
use threat_intel_arbiter.Notify.Routing.{IsFirst, mem-route}
use threat_intel_arbiter.Notify.Email.{new_email_notifier, send_email}
use threat_intel_arbiter.Notify.Webhook.{new_webhook, send_slack, send_teams}
use threat_intel_arbiter.Notify.Channels.{Clients, Send, Registry, register, channel, notifiers}

slack_fails :
    (c : Clients) (alert : Alert)
    → c.getenv "SLACK_WEBHOOK_URL" ≡ ""
    → (error : String) × (send_slack c.post_slack c.now
          (new_webhook c.getenv "SLACK_WEBHOOK_URL" "")
          alert
        ≡ some error)
unfolding new_webhook send_slack
slack_fails c alert h = rw h (_, refl)

teams_fails :
    (c : Clients) (alert : Alert)
    → c.getenv "TEAMS_WEBHOOK_URL" ≡ ""
    → (error : String) × (send_teams c.post_teams
          (new_webhook c.getenv "TEAMS_WEBHOOK_URL" "")
          alert
        ≡ some error)
unfolding new_webhook send_teams
teams_fails c alert h = rw h (_, refl)

email_fails :
    (c : Clients) (alert : Alert)
    → c.getenv "SMTP_HOST" ≡ ""
    → (error : String) × (send_email c.send_mail (new_email_notifier c.getenv "" "" "" "") alert
        ≡ some error)
unfolding new_email_notifier send_email
email_fails c alert h = rw h (_, refl)

abbrev sent : Option String → Bool
sent result =
    elim (elim result as (λ it. Option Bool) [ none ↦ some true | some error ↦ some false ]) [
      | none ↦ false
      | some ok ↦ ok
    ]

reaches-channel-register :
    (key : String) (notifier : Send) (registry : Registry) (alert : Alert) (name : String)
    → reaches (channel (register key notifier registry) alert) name
      ≡ (if key == name then sent (notifier alert) else reaches (channel registry alert) name)
unfolding channel register
reaches-channel-register key notifier registry alert name =
    rw (reaches, channel, lookup-insert key name notifier registry)
      (elim (Bool-cases (key == name)) [ inl same ↦ rw same refl | inr other ↦ rw other refl ])

reaches-register_fails :
    (key : String) (notifier : Send) (registry : Registry) (alert : Alert) (name error : String)
    → (key == "console") ≡ false
    → notifier alert ≡ some error
    → reaches (channel registry alert) name ≡ ("console" == name)
    → reaches (channel (register key notifier registry) alert) name ≡ ("console" == name)
reaches-register_fails key notifier registry alert name error differs fails rest =
    reaches-channel-register key notifier registry alert name ∙ (elim (Bool-cases (key == name)) [
      | inl same ↦
          let is_key : key ≡ name = (eq_iff key name).0 same in
          rw (same, fails)
            (sym (
              subst (λ k. ("console" == k) ≡ false) is_key
                (ground (arith, eq_iff key "console", eq_iff "console" key))))
      | inr other ↦ rw other rest
    ])

-- Without settings, the console alone sends.
reaches_unconfigured :
    (c : Clients) (alert : Alert) (name : String)
    → c.getenv "SLACK_WEBHOOK_URL" ≡ ""
    → c.getenv "TEAMS_WEBHOOK_URL" ≡ ""
    → c.getenv "SMTP_HOST" ≡ ""
    → reaches (channel (notifiers c) alert) name ≡ ("console" == name)
unfolding notifiers channel lookup
reaches_unconfigured c alert name no_slack no_teams no_host =
    let (slack, s) = slack_fails c alert no_slack in
    let (teams, t) = teams_fails c alert no_teams in
    let (email, e) = email_fails c alert no_host in
    let console_left : (if "console" == name then sent none else reaches (channel [] alert) name)
        ≡ ("console" == name) =
      elim (Bool-cases ("console" == name)) [ inl y ↦ rw y refl | inr n ↦ rw n refl ] in
    let by_slack : Send =
      λ alert. send_slack c.post_slack c.now (new_webhook c.getenv "SLACK_WEBHOOK_URL" "") alert in
    let by_teams : Send =
      λ alert. send_teams c.post_teams (new_webhook c.getenv "TEAMS_WEBHOOK_URL" "") alert in
    let by_email : Send =
      λ alert. send_email c.send_mail (new_email_notifier c.getenv "" "" "" "") alert in
    let first = register "console" (λ it. none) [] in
    let second = register "slack" by_slack first in
    reaches-register_fails "email" by_email (register "teams" by_teams second) alert name email refl
      e
      (reaches-register_fails "teams" by_teams second alert name teams refl t (
        reaches-register_fails "slack" by_slack first alert name slack refl s
          (reaches-channel-register "console" (λ it. none) [] alert name ∙ console_left)))

-- With no webhook of Slack and of Teams and no SMTP host in the environment, an alert reaches the
-- console, when the first rule that matches the alert lists it, and no other channel.
pub mem-route_unconfigured :
    (c : Clients) (rules : List Rule) (alert : Alert) (name : String)
    → c.getenv "SLACK_WEBHOOK_URL" ≡ ""
    → c.getenv "TEAMS_WEBHOOK_URL" ≡ ""
    → c.getenv "SMTP_HOST" ≡ ""
    → Memᴰ name (route (channel (notifiers c) alert) rules alert) ↔ (
        (name ≡ "console")
        × (rule : Rule) × IsFirst alert rules rule
        × Memᴰ "console" rule.channels)
mem-route_unconfigured c rules alert name no_slack no_teams no_host =
    let reached = reaches_unconfigured c alert name no_slack no_teams no_host in
    let on_route = mem-route (channel (notifiers c) alert) rules alert name in
    (
      (λ m.
          let (rule, first, listed, sends) = on_route.0 m in
          let e : name ≡ "console" = sym ((eq_iff "console" name).0 (sym reached ∙ sends)) in
          (e, rule, first, subst (λ n. Memᴰ n rule.channels) e listed)),
      (λ (e, rule, first, listed). on_route.1 (
        rule,
        first,
        subst (λ n. Memᴰ n rule.channels) (sym e) listed,
        reached ∙ (eq_iff "console" name).1 (sym e),
      )),
    )
