-- ===== src/Notify/Crowdstrike/Sending/Outcome.antt =====
-- internal/notify/crowdstrike.go: what a flush leaves when the request fails and when it is accepted.
use mathlib.Core.List
use mathlib.Core.List.{List, [], ◌∷◌, ◌++◌}
use threat_intel_arbiter.Common.{
  ℕ, ◌≤◌, ◌≡◌, ◌⊎◌, ◌∙◌, refl, ap, Bool, true, false, ◌||◌, Option, String, leb, ltb, length,
  if◌then◌else◌, Bool-cases, Option-cases, inl, inr, arith,
}
use threat_intel_arbiter.Common.Dict.{has}
use threat_intel_arbiter.Risk.Assets.{is_nil}
use threat_intel_arbiter.Notify.Crowdstrike.Export.{Indicator}
use threat_intel_arbiter.Notify.Crowdstrike.Queue.{Falcon, take_batch, requeue}
use threat_intel_arbiter.Notify.Crowdstrike.Counting.{
  occurs, pending_keys-mark_delivered, sent-mark_delivered, pending-mark_delivered,
}
use threat_intel_arbiter.Notify.Crowdstrike.Token.Waiting.{TokenResult, token_is, token_error}
use threat_intel_arbiter.Notify.Crowdstrike.Sending.{
  ApiReply, no_request, no_reply, replied, SendResult, sent_all, send_error, with_token,
  reply_result, send, settle, flush,
}

-- A batch that is not empty and is sent: the API has answered, and not with an error.
unfoldable pub Accepted :
    TokenResult → (String → List Indicator → ApiReply) → List Indicator → Type 0
Accepted token post batch =
    (secret : String) × (status : ℕ) × (body : String) × (token ≡ token_is secret)
    × (post secret batch ≡ replied status body)
    × (leb 400 status ≡ false)

unfoldable is_failure : SendResult → Bool
is_failure (sent_all n) = false
is_failure (send_error reason) = true

reply_cases :
    (n : ℕ) (r : ApiReply)
    → (is_failure (reply_result n r) ≡ true)
      ⊎ ((status : ℕ) × (body : String) × (r ≡ replied status body)
          × (leb 400 status ≡ false)
          × (reply_result n r ≡ sent_all n))
unfolding reply_result is_failure
reply_cases n (no_request reason) = inl refl
reply_cases n (no_reply reason) = inl refl
reply_cases n (replied status body) = elim (Bool-cases (leb 400 status)) [
  | inl e ↦ inl (rw (reply_result, e) refl)
  | inr e ↦ inr (status, body, refl, e, rw (reply_result, e) refl)
]

with_token_cases :
    (token : TokenResult) (post : String → List Indicator → ApiReply) (batch : List Indicator)
    → (is_failure (with_token (λ t. post t batch) (length batch) token) ≡ true)
      ⊎ (Accepted token post batch
          × (with_token (λ t. post t batch) (length batch) token ≡ sent_all (length batch)))
unfolding with_token Accepted is_failure
with_token_cases (token_error reason) post batch = inl refl
with_token_cases (token_is secret) post batch =
    elim (reply_cases (length batch) (post secret batch)) [
      | inl failed ↦ inl failed
      | inr (status, body, reply, low, same) ↦ inr ((secret, status, body, refl, reply, low), same)
    ]

send_cases :
    (marshal : List Indicator → Option String) (token : TokenResult)
    (post : String → List Indicator → ApiReply) (batch : List Indicator)
    → is_nil batch ≡ false
    → (is_failure (send marshal token post batch) ≡ true)
      ⊎ (Accepted token post batch × (send marshal token post batch ≡ sent_all (length batch)))
unfolding send is_failure
send_cases marshal token post batch some_there = elim (Option-cases (marshal batch)) [
  | inr (reason, e) ↦ inl (rw (send, some_there, e) refl)
  | inl e ↦ elim (with_token_cases token post batch) [
    | inl f ↦ inl (rw (send, some_there, e) f)
    | inr (accepted, f) ↦ inr (accepted, rw (send, some_there, e) f)
  ]
]

flush_nil : (s : List Indicator → SendResult) (f : Falcon) → is_nil f.pending ≡ true → flush s f ≡ f
unfolding flush
flush_nil s f h = rw (flush, h) refl

flush-settle :
    (s : List Indicator → SendResult) (f : Falcon)
    → is_nil f.pending ≡ false
    → flush s f ≡ settle f.pending (s f.pending) (take_batch f).1
unfolding flush take_batch
flush-settle s f h = rw (flush, h) refl

settle_failure :
    (batch : List Indicator) (r : SendResult) (f : Falcon)
    → is_failure r ≡ true
    → settle batch r f ≡ requeue batch f
unfolding settle is_failure
settle_failure batch (sent_all n) f h = let wrong : false ≡ true = h in absurd cc
settle_failure batch (send_error reason) f h = refl

-- A batch that went back with nothing else pending.
requeue-take_batch : (f : Falcon) → length f.pending ≤ 1000 → requeue f.pending (take_batch f).1 ≡ f
unfolding requeue take_batch
requeue-take_batch f h =
    let short : ltb 1000 (length f.pending) ≡ false = ground (arith, h) in
    ap (λ is. record f { pending = is }) (rw (List.append-nil f.pending) (rw short refl))

-- A batch that has been delivered.
flushed :
    (f : Falcon)
    → let after = settle f.pending (sent_all (length f.pending)) (take_batch f).1 in
      (after.pending ≡ [])
      × ((k : String)
          → (has k after.sent ≡ (ltb 0 (occurs k f.pending) || has k f.sent))
            × (has k after.pending_keys
                ≡ (if ltb 0 (occurs k f.pending) then false else has k f.pending_keys)))
unfolding settle take_batch
flushed f = (
  pending-mark_delivered f.pending (take_batch f).1,
  (λ k. (
    sent-mark_delivered k f.pending (take_batch f).1,
    pending_keys-mark_delivered k f.pending (take_batch f).1,
  )),
)

-- With at most 1000 indicators pending, a flush that no other goroutine interrupts either leaves the
-- notifier as it was, to try again, or the API has answered to the batch with a status below 400: then
-- nothing is pending, and exactly the keys of the batch are added to those sent and are no longer in
-- flight.
pub flush-send :
    (marshal : List Indicator → Option String) (token : TokenResult)
    (post : String → List Indicator → ApiReply) (f : Falcon)
    → length f.pending ≤ 1000
    → (flush (send marshal token post) f ≡ f)
      ⊎ (Accepted token post f.pending
          × ((flush (send marshal token post) f).pending ≡ [])
          × ((k : String)
              → (has k (flush (send marshal token post) f).sent
                  ≡ (ltb 0 (occurs k f.pending) || has k f.sent))
                × (has k (flush (send marshal token post) f).pending_keys
                    ≡ (if ltb 0 (occurs k f.pending) then false else has k f.pending_keys))))
flush-send marshal token post f h = elim (Bool-cases (is_nil f.pending)) [
  | inl e ↦ inl (flush_nil (send marshal token post) f e)
  | inr e ↦
      let settled = flush-settle (send marshal token post) f e in
      elim (send_cases marshal token post f.pending e) [
        | inl failed ↦
            inl (
              settled ∙ settle_failure f.pending _ (take_batch f).1 failed ∙ requeue-take_batch f h)
        | inr (accepted, sent) ↦
            let marked = settled ∙ ap (λ r. settle f.pending r (take_batch f).1) sent in
            inr (accepted, rw marked (flushed f).0, (λ k. rw marked ((flushed f).1 k)))
      ]
]
