-- ===== src/Notify/Crowdstrike/Moves.antt =====
-- internal/notify/crowdstrike.go: what each stretch of code under the mutex does to the counts of one
-- key.
use mathlib.Core.List.{List, [], ◌∷◌, ◌++◌}
use threat_intel_arbiter.Common.{
  ℕ, ◌+◌, ◌-◌, ◌≤◌, ◌<◌, ◌≡◌, ◌∙◌, refl, ap, Bool, true, false, ◌||◌, String, ◌==◌, eq_iff, ltb,
  length, arith, inl, inr, Bool-cases, Option-cases,
}
use threat_intel_arbiter.Common.Dict.{has, has-add}
use threat_intel_arbiter.Risk.Assets.{is_nil}
use threat_intel_arbiter.Notify.Crowdstrike.Export.{Indicator, dedup_key}
use threat_intel_arbiter.Notify.Crowdstrike.Queue.{Falcon, reserve, requeue, take_batch, prune_sent}
use threat_intel_arbiter.Notify.Crowdstrike.Schedule.{
  System, Action, reserving, pushing, flushing, delivering, failing, pruning, pick, perform,
}
use threat_intel_arbiter.Notify.Crowdstrike.Counting.{
  bit, total, total-append, total-drop, total-pick, occurs, occurs-append,
  pending_keys-mark_delivered, sent-mark_delivered, pending-mark_delivered,
}

pub bit_le : (b : Bool) → bit b ≤ 1
bit_le b = ground arith

-- How many indicators with the key are reserved, in a batch under way, or pending.
unfoldable pub in_system : String → System → ℕ
unfolding occurs total
in_system k s = occurs k s.reserved + total (occurs k) s.in_flight + occurs k s.falcon.pending

-- The counts of one key, and whether the two maps have it.
pub record Counts : Type 0 where
  pub waiting : ℕ
  pub done : ℕ
  pub in_flight_key : Bool
  pub sent_key : Bool

unfoldable pub counts : String → System → Counts
unfolding in_system has
counts k s = record {
  waiting = in_system k s;
  done = occurs k s.delivered;
  in_flight_key = has k s.falcon.pending_keys;
  sent_key = has k s.falcon.sent;
}

-- What one action can do to the counts of a key; only a pruning forgets that the key was sent.
pub data Move : Bool → Counts → Counts → Type 0 where
  keep : {b : Bool} (c : Counts) → Move b c c
  enter :
      {b : Bool} {c c' : Counts}
      → c.in_flight_key ≡ false
      → c.sent_key ≡ false
      → c'.waiting ≡ c.waiting + 1
      → c'.done ≡ c.done
      → c'.in_flight_key ≡ true
      → c'.sent_key ≡ false
      → Move b c c'
  lose :
      {b : Bool} {c c' : Counts}
      → c'.waiting ≤ c.waiting
      → c'.done ≡ c.done
      → c'.in_flight_key ≡ c.in_flight_key
      → c'.sent_key ≡ c.sent_key
      → Move b c c'
  deliver :
      {b : Bool} {c c' : Counts} (n : ℕ)
      → 0 < n
      → c.waiting ≡ c'.waiting + n
      → c'.done ≡ c.done + n
      → c'.in_flight_key ≡ false
      → c'.sent_key ≡ true
      → Move b c c'
  forget :
      {c c' : Counts}
      → c'.waiting ≡ c.waiting
      → c'.done ≡ c.done
      → c'.in_flight_key ≡ c.in_flight_key
      → c'.sent_key ≡ false
      → Move true c c'

abbrev pub is_pruning : Action → Bool
is_pruning pruning = true
is_pruning a = false

has_same : (k j : String) (s : List String) → k ≡ j → has k s ≡ has j s
has_same k j s e = rw e

perform-reserving :
    (k : String) (i : Indicator) (s : System)
    → Move false (counts k s) (counts k (perform (reserving i) s))
unfolding counts perform in_system occurs total reserve
perform-reserving k i s =
    elim (Bool-cases (has (dedup_key i) s.falcon.sent || has (dedup_key i) s.falcon.pending_keys)) [
      | inl e ↦ rw e (keep _)
      | inr e ↦ elim (Bool-cases (dedup_key i == k)) [
        | inl same ↦
            let here = (eq_iff (dedup_key i) k).0 same in
            let sent = has_same (dedup_key i) k s.falcon.sent here in
            let pending = has_same (dedup_key i) k s.falcon.pending_keys here in
            rw (e, reserve)
              (enter (ground (arith, pending)) (ground (arith, sent)) (ground (arith, same)) refl
                (has-add (dedup_key i) k s.falcon.pending_keys ∙ ground (arith, same))
                (ground (arith, sent)))
        | inr other ↦
            rw (e, reserve)
              (lose (ground (arith, other)) refl
                (has-add (dedup_key i) k s.falcon.pending_keys ∙ ground (arith, other)) refl)
      ]
    ]

perform-pushing :
    (k : String) (n : ℕ) (s : System) → Move false (counts k s) (counts k (perform (pushing n) s))
unfolding counts perform in_system occurs
perform-pushing k n s = elim (Option-cases (pick n s.reserved)) [
  | inl e ↦ rw (e, perform) (keep _)
  | inr ((i, rest), e) ↦
      rw (e, perform)
        (lose
          (omega (
            arith,
            total-pick (λ i. bit (dedup_key i == k)) n s.reserved i rest e,
            total-append (λ i. bit (dedup_key i == k)) s.falcon.pending (i ∷ []),
          ))
          refl refl refl)
]

perform-flushing :
    (k : String) (s : System) → Move false (counts k s) (counts k (perform flushing s))
unfolding counts perform in_system occurs total take_batch
perform-flushing k s = elim (Bool-cases (is_nil s.falcon.pending)) [
  | inl e ↦ rw (e, perform) (keep _)
  | inr e ↦ rw (e, perform, take_batch) (lose (omega arith) refl refl refl)
]

pub requeue_le :
    (k : String) (batch : List Indicator) (f : Falcon)
    → occurs k (requeue batch f).pending ≤ occurs k batch + occurs k f.pending
unfolding requeue occurs
requeue_le k batch f =
    let w = λ (i : Indicator). bit (dedup_key i == k) in
    let all = batch ++ f.pending in
    elim (Bool-cases (ltb 1000 (length all))) [
      | inl e ↦
          rw (e, requeue)
            (omega (arith, total-append w batch f.pending, total-drop w (length all - 1000) all))
      | inr e ↦ rw (e, requeue) (omega (arith, total-append w batch f.pending))
    ]

perform-failing :
    (k : String) (n : ℕ) (s : System) → Move false (counts k s) (counts k (perform (failing n) s))
unfolding counts perform in_system
perform-failing k n s = elim (Option-cases (pick n s.in_flight)) [
  | inl e ↦ rw (e, perform) (keep _)
  | inr ((batch, rest), e) ↦
      rw (e, perform)
        (lose
          (omega
            (arith, requeue_le k batch s.falcon, total-pick (occurs k) n s.in_flight batch rest e))
          refl refl refl)
]

perform-delivering :
    (k : String) (n : ℕ) (s : System)
    → Move false (counts k s) (counts k (perform (delivering n) s))
unfolding counts perform in_system
perform-delivering k n s = elim (Option-cases (pick n s.in_flight)) [
  | inl e ↦ rw (e, perform) (keep _)
  | inr ((batch, rest), e) ↦
      let taken = total-pick (occurs k) n s.in_flight batch rest e in
      let left = ap (occurs k) (pending-mark_delivered batch s.falcon) in
      let added : occurs k (s.delivered ++ batch) ≡ occurs k s.delivered + occurs k batch =
        occurs-append k s.delivered batch in
      elim (Bool-cases (ltb 0 (occurs k batch))) [
        | inl some_there ↦
            rw (e, perform)
              (deliver (occurs k batch) (ground arith) (omega (arith, taken, left)) added
                (pending_keys-mark_delivered k batch s.falcon ∙ rw some_there)
                (sent-mark_delivered k batch s.falcon ∙ rw some_there))
        | inr none_there ↦
            rw (e, perform)
              (lose (omega (arith, taken, left)) (added ∙ ground (arith, none_there))
                (pending_keys-mark_delivered k batch s.falcon ∙ rw none_there)
                (sent-mark_delivered k batch s.falcon ∙ rw none_there))
      ]
]

perform-pruning : (k : String) (s : System) → Move true (counts k s) (counts k (perform pruning s))
unfolding counts perform in_system prune_sent has
perform-pruning k s = elim (Bool-cases (ltb 10000 (length s.falcon.sent))) [
  | inl e ↦ rw (e, prune_sent) (forget refl refl refl refl)
  | inr e ↦ rw (e, prune_sent) (keep _)
]

pub perform-Move :
    (k : String) (a : Action) (s : System)
    → Move (is_pruning a) (counts k s) (counts k (perform a s))
perform-Move k (reserving i) s = perform-reserving k i s
perform-Move k (pushing n) s = perform-pushing k n s
perform-Move k flushing s = perform-flushing k s
perform-Move k (delivering n) s = perform-delivering k n s
perform-Move k (failing n) s = perform-failing k n s
perform-Move k pruning s = perform-pruning k s
