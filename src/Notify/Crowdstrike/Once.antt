-- ===== src/Notify/Crowdstrike/Once.antt =====
-- internal/notify/crowdstrike.go: no indicator is in the queue twice or delivered twice, and one that
-- an overflow has dropped is never delivered.
use mathlib.Core.List.{List, [], ◌∷◌, ◌++◌}
use threat_intel_arbiter.Common.{
  ℕ, suc, ◌+◌, ◌-◌, ◌≤◌, ◌<◌, ◌≡◌, refl, subst, Bool, true, false, some, String, ◌==◌, eq_refl, ltb,
  length, arith, All,
}
use threat_intel_arbiter.Common.Dict.{has}
use threat_intel_arbiter.Notify.Crowdstrike.Export.{Indicator, dedup_key}
use threat_intel_arbiter.Notify.Crowdstrike.Queue.{Falcon, requeue}
use threat_intel_arbiter.Notify.Crowdstrike.Schedule.{
  System, Action, failing, pick, perform, run_schedule, initial,
}
use threat_intel_arbiter.Notify.Crowdstrike.Moves.{
  bit_le, in_system, Counts, counts, Move, keep, enter, lose, deliver, forget, is_pruning,
  perform-Move,
}
use threat_intel_arbiter.Notify.Crowdstrike.Counting.{
  bit, total, total-pick, occurs, occurs-append, occurs-drop,
}

-- An indicator that waits is in flight, and waits once.
Move-waiting :
    {b : Bool} {c c' : Counts}
    → Move b c c'
    → c.waiting ≤ bit c.in_flight_key
    → c'.waiting ≤ bit c'.in_flight_key
Move-waiting (keep c) h = h
Move-waiting (enter a b w d f s) h = ground arith
Move-waiting (lose w d f s) h = ground arith
Move-waiting (deliver n pos w d f s) h = ground arith
Move-waiting (forget w d f s) h = ground arith

-- At every point of every schedule, an indicator's type and value stand at most once among the
-- indicators that are reserved, pending or in a batch under way, and then only while the key is
-- marked as in flight.
pub waiting_le :
    (k : String) (actions : List Action) (s : System)
    → in_system k s ≤ bit (has k s.falcon.pending_keys)
    → let s' = run_schedule actions s in in_system k s' ≤ bit (has k s'.falcon.pending_keys)
unfolding run_schedule counts
waiting_le k [] s h = h
waiting_le k (a ∷ actions) s h =
    waiting_le k actions (perform a s) (Move-waiting (perform-Move k a s) h)

-- What has been delivered is not waiting, is marked as sent, and was delivered once.
abbrev IsOnce : Counts → Type 0
IsOnce c = (c.waiting ≤ bit c.in_flight_key) × (c.done ≤ bit c.sent_key) × (c.waiting + c.done ≤ 1)

Move-IsOnce : {c c' : Counts} → Move false c c' → IsOnce c → IsOnce c'
Move-IsOnce (keep c) h = h
Move-IsOnce (enter a b w d f s) h = (ground arith, ground arith, ground arith)
Move-IsOnce (lose w d f s) h = (ground arith, ground arith, ground arith)
Move-IsOnce (deliver n pos w d f s) h = (ground arith, ground arith, ground arith)

run_schedule-IsOnce :
    (k : String) (actions : List Action) (s : System)
    → All (λ a. is_pruning a ≡ false) actions
    → IsOnce (counts k s)
    → IsOnce (counts k (run_schedule actions s))
unfolding run_schedule
run_schedule-IsOnce k [] s free h = h
run_schedule-IsOnce k (a ∷ actions) s (e, free) h =
    run_schedule-IsOnce k actions (perform a s) free (
      Move-IsOnce (subst (λ b. Move b (counts k s) (counts k (perform a s))) e (perform-Move k a s))
        h)

-- From the start, on every schedule without a pruning of the sent keys, an indicator's type and value
-- are in successful requests at most once, however other requests fail and flushes overlap.
pub delivered_once :
    (k : String) (actions : List Action)
    → All (λ a. is_pruning a ≡ false) actions
    → occurs k (run_schedule actions initial).delivered ≤ 1
unfolding counts in_system occurs total has
delivered_once k actions free =
    let h = run_schedule-IsOnce k actions initial free (omega arith, omega arith, omega arith) in
    omega (arith, h.2)

-- The key is marked as in flight and nothing with it waits.
abbrev IsLost : ℕ → Counts → Type 0
IsLost done c = (c.waiting ≡ 0) × (c.in_flight_key ≡ true) × (c.done ≡ done)

Move-IsLost : {b : Bool} {done : ℕ} {c c' : Counts} → Move b c c' → IsLost done c → IsLost done c'
Move-IsLost (keep c) h = h
Move-IsLost (enter a b w d f s) h = absurd (ground arith)
Move-IsLost (lose w d f s) h = (ground arith, ground arith, ground arith)
Move-IsLost (deliver n pos w d f s) h = absurd (ground arith)
Move-IsLost (forget w d f s) h = (ground arith, ground arith, ground arith)

run_schedule-IsLost :
    (k : String) (done : ℕ) (actions : List Action) (s : System)
    → IsLost done (counts k s)
    → IsLost done (counts k (run_schedule actions s))
unfolding run_schedule
run_schedule-IsLost k done [] s h = h
run_schedule-IsLost k done (a ∷ actions) s h =
    run_schedule-IsLost k done actions (perform a s) (Move-IsLost (perform-Move k a s) h)

-- An overflow drops the first of the batch.
requeue_drops :
    (k : String) (i : Indicator) (batch : List Indicator) (f : Falcon)
    → 1000 < length ((i ∷ batch) ++ f.pending)
    → occurs k (requeue (i ∷ batch) f).pending ≤ occurs k batch + occurs k f.pending
unfolding requeue
requeue_drops k i batch f long =
    let rest = batch ++ f.pending in
    let over : ltb 1000 (suc (length rest)) ≡ true = ground arith in
    let first : suc (length rest) - 1000 ≡ suc (length rest - 1000) = omega arith in
    rw (over, first)
      (omega (arith, occurs-append k batch f.pending, occurs-drop k (length rest - 1000) rest))

-- When a request fails and its batch and what is pending are more than 1000, the first indicator of
-- the batch is dropped, and its key stays marked as in flight: whatever happens later, no indicator
-- with the same type and value is in a successful request any more.
pub overflow_loses :
    (n : ℕ) (i : Indicator) (batch : List Indicator) (rest : List (List Indicator))
    (actions : List Action) (s : System)
    → in_system (dedup_key i) s ≤ bit (has (dedup_key i) s.falcon.pending_keys)
    → pick n s.in_flight ≡ some (i ∷ batch, rest)
    → 1000 < length ((i ∷ batch) ++ s.falcon.pending)
    → let s' = run_schedule actions (perform (failing n) s) in
      occurs (dedup_key i) s'.delivered ≡ occurs (dedup_key i) s.delivered
unfolding counts in_system occurs total perform requeue
overflow_loses n i batch rest actions s consistent there long =
    let k = dedup_key i in
    let here : bit (k == k) ≡ 1 = rw (eq_refl k) in
    let among = total-pick (occurs k) n s.in_flight (i ∷ batch) rest there in
    let gone : in_system k (record s { falcon = requeue (i ∷ batch) s.falcon; in_flight = rest })
        ≡ 0 =
      omega (
        arith,
        requeue_drops k i batch s.falcon long,
        here,
        among,
        consistent,
        bit_le (has k s.falcon.pending_keys),
      ) in
    let marked : has k s.falcon.pending_keys ≡ true = ground (arith, here, among, consistent) in
    (run_schedule-IsLost (dedup_key i) (occurs (dedup_key i) s.delivered) actions
      (perform (failing n) s) (rw (there, perform) (gone, marked, refl))).2
