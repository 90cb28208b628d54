-- ===== src/Notify/Webhook.antt =====
-- internal/notify/slack.go: the messages to the webhooks of Slack and Teams. The HTTP client is an
-- argument: what a POST of a message to a URL comes to. The environment and the clock are arguments.
pub mod Secrecy
use mathlib.Core.List.{List, [], ◌∷◌}
use Prim.Native.String.{◌++◌}
use threat_intel_arbiter.Common.{
  ℕ, Bool, true, false, not, ◌&&◌, Option, none, some, String, ◌==◌, eqb, if◌then◌else◌, to_upper,
  take_text, show,
}
use threat_intel_arbiter.Common.Dict.{lookup}
use threat_intel_arbiter.Model.{Time, Alert}

-- An error of the transport is a `url.Error` with its operation, URL and cause, or some other one.
pub data PostError : Type 0 where
  url_error : String → String → String → PostError
  other_error : String → PostError

pub data Reply : Type 0 where
  answered : ℕ → Reply
  failed : PostError → Reply

-- The URL is left out.
unfoldable pub redact_post_err : String → PostError → String
redact_post_err what (url_error op url reason) = what ++ (" failed: " ++ (op ++ (": " ++ reason)))
redact_post_err what (other_error reason) = what ++ (" failed: " ++ reason)

unfoldable pub new_webhook : (String → String) → String → String → String
new_webhook getenv env given = if given == "" then getenv env else given

pub record SlackMessage : Type 0 where
  pub color : String
  pub title : String
  pub text : String
  pub fields : List (String × String)
  pub footer : String
  pub ts : ℕ

unfoldable pub colors : List (String × String)
colors =
    ("critical", "#DC2626") ∷ ("high", "#EA580C") ∷ ("medium", "#CA8A04") ∷ ("low", "#6B7280") ∷ []

unfoldable pub color_of : String → String
unfolding lookup colors
color_of severity = elim (lookup severity colors) [ none ↦ "#6B7280" | some color ↦ color ]

-- The title is cut at 120 characters; the source counts bytes.
unfoldable pub slack_message : ℕ → Alert → SlackMessage
unfolding color_of to_upper take_text
slack_message now alert = record {
  color = color_of alert.severity;
  title =
      "["
      ++ (to_upper alert.severity
          ++ ("] "
              ++ (take_text 120 alert.explanation
                  ++ (" · " ++ (alert.confidence ++ " confidence")))));
  text = alert.explanation;
  fields = ("Severity", to_upper alert.severity) ∷ ("Confidence", alert.confidence) ∷ [];
  footer = "Alert ID: " ++ (alert.id ++ (" · Event: " ++ alert.event_id));
  ts = now;
}

unfoldable pub slack_result : Reply → Option String
unfolding redact_post_err show
slack_result (failed error) = some (redact_post_err "slack post" error)
slack_result (answered status) =
    if eqb status 200 then none else some ("slack returned " ++ show status)

-- What Send returns: `none` is a message that has been accepted.
unfoldable pub send_slack : (String → SlackMessage → Reply) → ℕ → String → Alert → Option String
unfolding slack_message slack_result
send_slack post now webhook alert =
    if webhook == ""
    then some "slack: no webhook URL configured"
    else slack_result (post webhook (slack_message now alert))

pub record TeamsMessage : Type 0 where
  pub summary : String
  pub title : String
  pub text : String
  pub facts : List (String × String)

unfoldable pub teams_message : Alert → TeamsMessage
unfolding to_upper take_text
teams_message alert = record {
  summary = "Threat Intel Arbiter: " ++ (alert.severity ++ " alert");
  title = "[" ++ (to_upper alert.severity ++ ("] " ++ take_text 100 alert.explanation));
  text = alert.explanation;
  facts =
      ("Severity", to_upper alert.severity)
      ∷ ("Confidence", alert.confidence)
      ∷ ("Alert ID", alert.id)
      ∷ [];
}

unfoldable pub teams_result : Reply → Option String
unfolding redact_post_err show
teams_result (failed error) = some (redact_post_err "teams post" error)
teams_result (answered status) =
    if not (eqb status 200) && not (eqb status 202)
    then some ("teams returned " ++ show status)
    else none

unfoldable pub send_teams : (String → TeamsMessage → Reply) → String → Alert → Option String
unfolding teams_message teams_result
send_teams post webhook alert =
    if webhook == ""
    then some "teams: no webhook URL configured"
    else teams_result (post webhook (teams_message alert))
