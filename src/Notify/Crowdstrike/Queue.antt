-- ===== src/Notify/Crowdstrike/Queue.antt =====
-- internal/notify/crowdstrike.go: the queue of indicators. Each stretch of code under the mutex is
-- one function: what a goroutine does between two locks can be interleaved with others.
use mathlib.Core.List.{List, [], ◌∷◌, ◌++◌}
use threat_intel_arbiter.Common.{
  ℕ, ◌+◌, ◌-◌, Bool, true, false, not, ◌||◌, String, leb, ltb, if◌then◌else◌, length, drop,
}
use threat_intel_arbiter.Common.Dict.{has, add, remove}
use threat_intel_arbiter.Model.{Ioc, ThreatEvent}
use threat_intel_arbiter.Risk.Assets.{is_nil}
use threat_intel_arbiter.Notify.Crowdstrike.Export.{
  Settings, Indicator, dedup_key, is_exportable, to_indicator, meets_severity,
}

-- The maps `sent` and `pendingKeys` only ever hold `true`, so each is the set of its keys.
pub record Falcon : Type 0 where
  pub sent : List String
  pub pending_keys : List String
  pub pending : List Indicator

-- The first lock of Notify: whether the indicator is new; then its key is in flight.
unfoldable pub reserve : Indicator → Falcon → Bool × Falcon
unfolding has add
reserve i f =
    if has (dedup_key i) f.sent || has (dedup_key i) f.pending_keys
    then (false, f)
    else (true, record f { pending_keys = add (dedup_key i) f.pending_keys })

-- The second lock of Notify, in mock mode and else.
unfoldable pub mark_mocked : Indicator → Falcon → Falcon
unfolding add
mark_mocked i f = record f { sent = add (dedup_key i) f.sent }

unfoldable pub push : Indicator → Falcon → Falcon
push i f = record f { pending = f.pending ++ (i ∷ []) }

-- One round of the loop of Notify: the number of the indicators taken, whether a flush is asked for,
-- and the notifier.
unfoldable pub notify_ioc :
    Settings → String → String → ThreatEvent → Ioc → ℕ × Bool × Falcon → ℕ × Bool × Falcon
unfolding is_exportable to_indicator reserve mark_mocked push
notify_ioc settings expiration severity event ioc (count, flush, f) =
    let i = to_indicator settings expiration severity event ioc in
    let (is_new, reserved) = reserve i f in
    let pushed = push i reserved in
    if not (is_exportable settings event ioc)
    then (count, flush, f)
    else if not is_new
    then (count, flush, f)
    else if settings.mock
    then (count + 1, flush, mark_mocked i reserved)
    else (count + 1, flush || leb 100 (length pushed.pending), pushed)

unfoldable pub notify_iocs :
    Settings → String → String → ThreatEvent → List Ioc → ℕ × Bool × Falcon → ℕ × Bool × Falcon
unfolding notify_ioc
notify_iocs settings expiration severity event [] s = s
notify_iocs settings expiration severity event (ioc ∷ iocs) s =
    notify_iocs settings expiration severity event iocs
      (notify_ioc settings expiration severity event ioc s)

unfoldable pub notify : Settings → String → String → ThreatEvent → Falcon → ℕ × Bool × Falcon
unfolding meets_severity notify_iocs
notify settings expiration severity event f =
    if is_nil event.iocs
    then (0, false, f)
    else if not (meets_severity severity settings.min_severity)
    then (0, false, f)
    else notify_iocs settings expiration severity event event.iocs (0, false, f)

-- The first lock of flush: the batch is all that is pending.
unfoldable pub take_batch : Falcon → List Indicator × Falcon
take_batch f = (f.pending, record f { pending = [] })

-- The lock after a failed request: the batch goes back to the front, and the oldest beyond 1000
-- are dropped.
unfoldable pub requeue : List Indicator → Falcon → Falcon
requeue batch f =
    let pending = batch ++ f.pending in
    record f {
      pending =
          (if ltb 1000 (length pending) then drop (length pending - 1000) pending else pending);
    }

-- The lock after a delivery: each key of the batch is sent and no longer in flight.
unfoldable pub mark_delivered : List Indicator → Falcon → Falcon
unfolding add remove
mark_delivered [] f = f
mark_delivered (i ∷ batch) f = mark_delivered batch (record f {
  sent = add (dedup_key i) f.sent;
  pending_keys = remove (dedup_key i) f.pending_keys;
})

unfoldable pub prune_sent : Falcon → Falcon
prune_sent f = if ltb 10000 (length f.sent) then record f { sent = [] } else f
