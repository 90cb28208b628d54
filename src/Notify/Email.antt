-- ===== src/Notify/Email.antt =====
-- internal/notify/email.go: the mail that an alert becomes. The environment is an argument, and so is
-- the SMTP client: it gets the address, the sender, and the text of the mail.
pub mod Headers
use Prim.Native.Char.{code}
use Prim.Native.String.{[], ◌∷◌, ◌++◌}
use threat_intel_arbiter.Common.{
  ◌≡◌, refl, Bool, true, false, ◌||◌, Option, none, some, String, ◌==◌, ltb, eqb, if◌then◌else◌,
  to_upper,
}
use threat_intel_arbiter.Model.{Alert}

pub record EmailNotifier : Type 0 where
  pub host : String
  pub port : String
  pub from : String
  pub password : String

-- The given text, else that of the environment, else a fixed one.
abbrev pub first_given : String → String → String → String
first_given given env default = if given == "" then (if env == "" then default else env) else given

unfoldable pub new_email_notifier :
    (String → String) → String → String → String → String → EmailNotifier
new_email_notifier getenv host port from password = record {
  host = first_given host (getenv "SMTP_HOST") "";
  port = first_given port (getenv "SMTP_PORT") "587";
  from = first_given from (getenv "SMTP_FROM") "arbiter@localhost";
  password = first_given password (getenv "SMTP_PASSWORD") "";
}

-- Control characters are dropped.
unfoldable pub header_safe : String → String
header_safe [] = []
header_safe (c ∷ s) =
    if eqb (code c) 13 || (eqb (code c) 10 || ltb (code c) 32)
    then header_safe s
    else c ∷ header_safe s

abbrev pub raw_subject : Alert → String
raw_subject alert =
    "[Threat Intel Arbiter] "
    ++ (to_upper alert.severity
        ++ (": " ++ (alert.event_id ++ (" (confidence: " ++ (alert.confidence ++ ")")))))

unfoldable pub subject : Alert → String
unfolding header_safe
subject alert = header_safe (raw_subject alert)

-- A line of the mail that ends in CR and LF, in front of the rest.
unfoldable pub header : String → String → String → String
header name value rest = (name ++ (value ++ "\r")) ++ ("\n" ++ rest)

-- What follows the header lines: an empty line, the explanation and the footer.
unfoldable pub content : Alert → String
unfolding to_upper
content alert =
    alert.explanation
    ++ ("\n\nSeverity: "
        ++ (to_upper alert.severity
            ++ (" · Confidence: "
                ++ (alert.confidence
                    ++ ("\nAlert ID: "
                        ++ (alert.id ++ (" · Event: " ++ (alert.event_id ++ "\n"))))))))

unfoldable pub message : EmailNotifier → Alert → String
unfolding header header_safe subject content
message n alert = header "From: " (header_safe n.from) (
    header "To: " (header_safe n.from) (
      header "Subject: " (subject alert) (
        header "MIME-Version: " "1.0" (
          header "Content-Type: " "text/plain; charset=\"utf-8\"" (header "" "" (content alert))))))

-- What Send returns: `none` is a mail that has been accepted.
unfoldable pub send_email :
    (String → String → String → Option String) → EmailNotifier → Alert → Option String
unfolding message
send_email send_mail n alert =
    if n.host == ""
    then some "email: no SMTP host configured"
    else elim (send_mail (n.host ++ (":" ++ n.port)) n.from (message n alert)) [
      | none ↦ none
      | some reason ↦ some ("email send: " ++ reason)
    ]
