-- ===== src/Notify/Channels.antt =====
-- internal/notify/router.go and cmd/arbiter/main.go: the console and file notifiers, and the notifiers
-- that the program registers. What the terminal and the file system do is an argument; the text of a
-- time is one too.
pub mod Unconfigured
use mathlib.Core.List.{List, [], ◌∷◌}
use Prim.Native.String.{◌++◌}
use threat_intel_arbiter.Common.{
  ℕ, Bool, true, false, Option, none, some, String, ◌==◌, if◌then◌else◌, to_upper, join,
}
use threat_intel_arbiter.Common.Dict.{lookup, insert}
use threat_intel_arbiter.Model.{Time, Alert}
use threat_intel_arbiter.Risk.Assets.{is_nil}
use threat_intel_arbiter.Notify.Email.{new_email_notifier, send_email}
use threat_intel_arbiter.Notify.Webhook.{
  Reply, SlackMessage, TeamsMessage, new_webhook, send_slack, send_teams,
}

unfoldable pub console_color : String → String
console_color severity =
    if severity == "critical"
    then "\u{1b}[1;31m"
    else if severity == "high"
    then "\u{1b}[1;33m"
    else if severity == "medium"
    then "\u{1b}[1;36m"
    else "\u{1b}[1;37m"

abbrev plain_color : String
plain_color = "\u{1b}[0m"

abbrev double_line : String
double_line = "══════════════════════════════════════════════════════════"

abbrev single_line : String
single_line = "──────────────────────────────────────────────────────────────"

-- What ConsoleNotifier's Send prints.
unfoldable pub console_text : (Time → String) → String → Alert → String
unfolding console_color to_upper join
console_text show_time name alert =
    let color = console_color alert.severity in
    let apps =
      if is_nil alert.matched_apps
      then ""
      else "\nMatched applications: " ++ (join alert.matched_apps ", " ++ "\n") in
    join
      ("\n"
        ∷ color
        ∷ double_line
        ∷ plain_color
        ∷ "\n"
        ∷ color
        ∷ "  ▸▸▸ "
        ∷ to_upper alert.severity
        ∷ " ALERT · "
        ∷ alert.confidence
        ∷ " · "
        ∷ name
        ∷ "▸▸▸"
        ∷ plain_color
        ∷ "\n"
        ∷ color
        ∷ double_line
        ∷ plain_color
        ∷ "\n\n"
        ∷ alert.explanation
        ∷ "\n"
        ∷ apps
        ∷ "\n"
        ∷ color
        ∷ single_line
        ∷ plain_color
        ∷ "\n"
        ∷ "Alert ID: "
        ∷ alert.id
        ∷ " · Event: "
        ∷ alert.event_id
        ∷ " · Time: "
        ∷ show_time alert.created_at
        ∷ "\n"
        ∷ color
        ∷ single_line
        ∷ plain_color
        ∷ "\n\n"
        ∷ [])
      ""

abbrev file_line : String
file_line = "══════════════════════════════════════════════════"

-- What FileNotifier's Send appends to its file.
unfoldable pub file_text : (Time → String) → Alert → String
unfolding to_upper join
file_text show_time alert =
    join
      ("\n"
        ∷ file_line
        ∷ "\n"
        ∷ "  "
        ∷ to_upper alert.severity
        ∷ " ALERT · "
        ∷ alert.confidence
        ∷ "\n"
        ∷ file_line
        ∷ "\n\n"
        ∷ alert.explanation
        ∷ "\n"
        ∷ "Alert ID: "
        ∷ alert.id
        ∷ " · Event: "
        ∷ alert.event_id
        ∷ " · Time: "
        ∷ show_time alert.created_at
        ∷ "\n\n"
        ∷ [])
      ""

-- A file that cannot be opened gives its error.
unfoldable pub send_file :
    (String → String → Option String) → (Time → String) → String → Alert → Option String
unfolding file_text
send_file append_file show_time path alert = elim (append_file path (file_text show_time alert)) [
  | none ↦ none
  | some reason ↦ some ("open " ++ (path ++ (": " ++ reason)))
]

-- A notifier as what its Send returns.
abbrev pub Send : Type 0
Send = Alert → Option String

abbrev pub Registry : Type 0
Registry = List (String × Send)

unfoldable pub register : String → Send → Registry → Registry
unfolding insert
register name notifier registry = insert name notifier registry

-- What happens to an alert on a channel: `none` is a channel without a notifier.
unfoldable pub channel : Registry → Alert → String → Option Bool
unfolding lookup
channel registry alert name = elim (lookup name registry) [
  | none ↦ none
  | some notifier ↦ elim (notifier alert) [ none ↦ some true | some error ↦ some false ]
]

-- The clients that the notifiers use.
pub record Clients : Type 0 where
  pub getenv : String → String
  pub now : ℕ
  pub post_slack : String → SlackMessage → Reply
  pub post_teams : String → TeamsMessage → Reply
  pub send_mail : String → String → String → Option String

-- The notifiers that the program registers; printing to the console cannot fail.
unfoldable pub notifiers : Clients → Registry
unfolding register new_webhook new_email_notifier send_slack send_teams send_email
notifiers c =
    register "email"
      (λ alert. send_email c.send_mail (new_email_notifier c.getenv "" "" "" "") alert)
      (register "teams"
        (λ alert. send_teams c.post_teams (new_webhook c.getenv "TEAMS_WEBHOOK_URL" "") alert)
        (register "slack"
          (λ alert.
            send_slack c.post_slack c.now (new_webhook c.getenv "SLACK_WEBHOOK_URL" "") alert)
          (register "console" (λ alert. none) [])))
