-- ===== src/Notify/Tests.antt =====
-- internal/notify/router.go: the theorem at concrete rules and an alert.
use threat_intel_arbiter.Samples.{an_alert}
use threat_intel_arbiter.Common.{
  ◌≡◌, ◌↔◌, List, [], ◌∷◌, Memᴰ, Option, some, none, String, ◌==◌, if◌then◌else◌, true, Bool,
}
use threat_intel_arbiter.Notify.{Rule, reaches, route}
use threat_intel_arbiter.Notify.Routing.{IsFirst, mem-route}
use Prim.Native.String.{◌++◌ as append}
use threat_intel_arbiter.Model.{Alert}
use threat_intel_arbiter.Notify.Email.{EmailNotifier, header_safe, subject, message}
use threat_intel_arbiter.Notify.Email.Headers.{read_headers, read_headers-message}
use threat_intel_arbiter.Notify.Webhook.{Reply, failed, url_error, send_slack, send_teams}
use threat_intel_arbiter.Notify.Webhook.Secrecy.{other_url, send_hides_webhook}

abbrev rules : List Rule
rules =
    record { severity = "high"; confidence = []; channels = "email" ∷ [] }
    ∷ record { severity = "Critical"; confidence = "high" ∷ []; channels = "slack" ∷ "pager" ∷ [] }
    ∷ []

-- Only the channel "slack" is registered.
abbrev send : String → Option Bool
send channel = if channel == "slack" then some true else none

mem-route_example : Memᴰ "slack" (route send rules an_alert) ↔ (
    (rule : Rule) × IsFirst an_alert rules rule
    × Memᴰ "slack" rule.channels
    × (reaches send "slack" ≡ true))
mem-route_example = mem-route send rules an_alert "slack"

abbrev mailer : EmailNotifier
mailer = record {
  host = "mail.local";
  port = "25";
  from = "arbiter@local\nBcc: all@local";
  password = "";
}

-- The ID of the event comes with a line break.
abbrev injected : Alert
injected = record an_alert { event_id = "42\r\nBcc: all@local"; explanation = "a\n\nb" }

read_headers-message_example :
    read_headers (message mailer injected)
    ≡ append "From: " (append (header_safe mailer.from) "\r")
      ∷ append "To: " (append (header_safe mailer.from) "\r")
      ∷ append "Subject: " (append (subject injected) "\r")
      ∷ "MIME-Version: 1.0\r"
      ∷ "Content-Type: text/plain; charset=\"utf-8\"\r"
      ∷ []
read_headers-message_example = read_headers-message mailer injected

-- Nothing is reachable, and the error of the transport carries the address.
abbrev post_nowhere : {A : Type 0} → String → A → Reply
post_nowhere url body = failed (url_error "Post" url "no such host")

send_hides_webhook_example :
    (send_slack post_nowhere 7 "https://hooks.local/secret" an_alert
      ≡ send_slack post_nowhere 7 "https://hooks.local/other" an_alert)
    × (send_teams post_nowhere "https://hooks.local/secret" an_alert
        ≡ send_teams post_nowhere "https://hooks.local/other" an_alert)
send_hides_webhook_example =
    send_hides_webhook post_nowhere post_nowhere 7 an_alert "https://hooks.local/secret"
      "https://hooks.local/other" (λ e. cc) (λ e. cc) (other_url _ _ _ _) (other_url _ _ _ _)
