-- ===== src/Notify/Crowdstrike/Sending.antt =====
-- internal/notify/crowdstrike.go: the request that delivers a batch, and a whole flush with no other
-- goroutine in between. The encoding of the batch and the HTTP client are arguments.
pub mod Outcome
use Prim.Native.String.{◌++◌}
use mathlib.Core.List.{List, [], ◌∷◌}
use threat_intel_arbiter.Common.{
  ℕ, Bool, true, false, Option, none, some, String, leb, length, show, if◌then◌else◌,
}
use threat_intel_arbiter.Risk.Assets.{is_nil}
use threat_intel_arbiter.Notify.Crowdstrike.Export.{Indicator}
use threat_intel_arbiter.Notify.Crowdstrike.Queue.{Falcon, take_batch, requeue, mark_delivered}
use threat_intel_arbiter.Notify.Crowdstrike.Token.Waiting.{TokenResult, token_is, token_error}

-- How the request ends.
pub data ApiReply : Type 0 where
  no_request : String → ApiReply
  no_reply : String → ApiReply
  replied : ℕ → String → ApiReply

-- The number of indicators sent, or the error.
pub data SendResult : Type 0 where
  sent_all : ℕ → SendResult
  send_error : String → SendResult

unfoldable pub reply_result : ℕ → ApiReply → SendResult
unfolding show
reply_result n (no_request reason) = send_error ("request: " ++ reason)
reply_result n (no_reply reason) = send_error ("send: " ++ reason)
reply_result n (replied status body) =
    if leb 400 status
    then send_error ("crowdstrike API error " ++ (show status ++ (": " ++ body)))
    else sent_all n

unfoldable pub with_token : (String → ApiReply) → ℕ → TokenResult → SendResult
unfolding reply_result
with_token post n (token_error reason) = send_error ("auth: " ++ reason)
with_token post n (token_is token) = reply_result n (post token)

-- `marshal` is the error of the encoding, if there is one.
unfoldable pub send :
    (List Indicator → Option String)
    → TokenResult
    → (String → List Indicator → ApiReply)
    → List Indicator
    → SendResult
unfolding with_token
send marshal token post batch = if is_nil batch then sent_all 0 else elim (marshal batch) [
  | some reason ↦ send_error ("marshal: " ++ reason)
  | none ↦ with_token (λ t. post t batch) (length batch) token
]

-- The lock behind the request.
unfoldable pub settle : List Indicator → SendResult → Falcon → Falcon
unfolding requeue mark_delivered
settle batch (sent_all n) f = mark_delivered batch f
settle batch (send_error reason) f = requeue batch f

unfoldable pub flush : (List Indicator → SendResult) → Falcon → Falcon
unfolding take_batch settle
flush send f =
    if is_nil f.pending then f else let (batch, f') = take_batch f in settle batch (send batch) f'
