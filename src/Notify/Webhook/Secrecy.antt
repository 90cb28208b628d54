-- ===== src/Notify/Webhook/Secrecy.antt =====
-- internal/notify/slack.go: the URL of a webhook does not come out in an error.
use threat_intel_arbiter.Common.{ℕ, ◌≡◌, ◌≢◌, refl, false, String, ◌==◌, eq_iff, arith}
use threat_intel_arbiter.Model.{Alert}
use threat_intel_arbiter.Notify.Webhook.{
  url_error, Reply, failed, redact_post_err, SlackMessage, slack_message, slack_result, send_slack,
  TeamsMessage, teams_message, teams_result, send_teams,
}

-- Two replies that differ at most in the URL that a `url.Error` carries.
pub data IsSameButUrl : Reply → Reply → Type 0 where
  same : (r : Reply) → IsSameButUrl r r
  other_url :
      (op url url' reason : String)
      → IsSameButUrl (failed (url_error op url reason)) (failed (url_error op url' reason))

slack_result_same : (r r' : Reply) → IsSameButUrl r r' → slack_result r ≡ slack_result r'
unfolding slack_result redact_post_err
slack_result_same r r' (same it) = refl
slack_result_same r r' (other_url op url url' reason) = refl

teams_result_same : (r r' : Reply) → IsSameButUrl r r' → teams_result r ≡ teams_result r'
unfolding teams_result redact_post_err
teams_result_same r r' (same it) = refl
teams_result_same r r' (other_url op url url' reason) = refl

given : (webhook : String) → webhook ≢ "" → (webhook == "") ≡ false
given webhook ne = ground (arith, eq_iff webhook "")

-- What Send of Slack and of Teams returns is the same for two webhooks that are configured, when the
-- replies to the posts differ at most in the URL that a transport error carries: the error, which is
-- logged, does not tell the URL, which is the secret.
pub send_hides_webhook :
    (post : String → SlackMessage → Reply) (post_card : String → TeamsMessage → Reply) (now : ℕ)
    (alert : Alert) (webhook webhook' : String)
    → webhook ≢ ""
    → webhook' ≢ ""
    → IsSameButUrl
        (post webhook (slack_message now alert))
        (post webhook' (slack_message now alert))
    → IsSameButUrl
        (post_card webhook (teams_message alert))
        (post_card webhook' (teams_message alert))
    → (send_slack post now webhook alert ≡ send_slack post now webhook' alert)
      × (send_teams post_card webhook alert ≡ send_teams post_card webhook' alert)
unfolding send_slack send_teams
send_hides_webhook post post_card now alert webhook webhook' ne ne' slack teams =
    let e = given webhook ne in
    let e' = given webhook' ne' in
    (rw (e, e') (slack_result_same _ _ slack), rw (e, e') (teams_result_same _ _ teams))
