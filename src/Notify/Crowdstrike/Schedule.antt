-- ===== src/Notify/Crowdstrike/Schedule.antt =====
-- internal/notify/crowdstrike.go: every interleaving of calls of Notify, of flushes and of prunings
-- while the notifier is not in mock mode. A schedule is the sequence of the stretches of code under
-- the mutex; the requests of the flushes take place between them.
use mathlib.Core.List.{List, [], ◌∷◌, ◌++◌}
use threat_intel_arbiter.Common.{ℕ, zero, suc, Option, none, some, if◌then◌else◌}
use threat_intel_arbiter.Risk.Assets.{is_nil}
use threat_intel_arbiter.Notify.Crowdstrike.Export.{Indicator}
use threat_intel_arbiter.Notify.Crowdstrike.Queue.{
  Falcon, reserve, push, take_batch, requeue, mark_delivered, prune_sent,
}

-- The notifier, the indicators between the two locks of Notify, the batches under way, and the
-- indicators of the batches whose request has succeeded so far.
pub record System : Type 0 where
  pub falcon : Falcon
  pub reserved : List Indicator
  pub in_flight : List (List Indicator)
  pub delivered : List Indicator

-- The n-th item and the others.
unfoldable pub pick {ℓ} : {A : Type ℓ} → ℕ → List A → Option (A × List A)
pick n [] = none
pick zero (x ∷ xs) = some (x, xs)
pick (suc n) (x ∷ xs) = elim (pick n xs) [ none ↦ none | some (y, ys) ↦ some (y, x ∷ ys) ]

-- The indicator of a reservation, which reserved one is pushed, a flush that begins, the outcome of
-- a batch under way, and a pruning. An action on what is not there does nothing.
pub data Action : Type 0 where
  reserving : Indicator → Action
  pushing : ℕ → Action
  flushing : Action
  delivering : ℕ → Action
  failing : ℕ → Action
  pruning : Action

unfoldable pub perform : Action → System → System
unfolding reserve push take_batch requeue mark_delivered prune_sent pick
perform (reserving i) s =
    let (is_new, f) = reserve i s.falcon in
    if is_new then record s { falcon = f; reserved = i ∷ s.reserved } else s
perform (pushing n) s = elim (pick n s.reserved) [
  | none ↦ s
  | some (i, rest) ↦ record s { falcon = push i s.falcon; reserved = rest }
]
perform flushing s =
    let (batch, f) = take_batch s.falcon in
    if is_nil s.falcon.pending then s else record s { falcon = f; in_flight = batch ∷ s.in_flight }
perform (delivering n) s = elim (pick n s.in_flight) [
  | none ↦ s
  | some (batch, rest) ↦ record s {
    falcon = mark_delivered batch s.falcon;
    in_flight = rest;
    delivered = s.delivered ++ batch;
  }
]
perform (failing n) s = elim (pick n s.in_flight) [
  | none ↦ s
  | some (batch, rest) ↦ record s { falcon = requeue batch s.falcon; in_flight = rest }
]
perform pruning s = record s { falcon = prune_sent s.falcon }

unfoldable pub run_schedule : List Action → System → System
unfolding perform
run_schedule [] s = s
run_schedule (a ∷ actions) s = run_schedule actions (perform a s)

abbrev pub initial : System
initial = record {
  falcon = record { sent = []; pending_keys = []; pending = [] };
  reserved = [];
  in_flight = [];
  delivered = [];
}
