-- ===== src/Notify/Crowdstrike/Tests.antt =====
-- internal/notify/crowdstrike.go: the theorems at concrete schedules and an event.
use mathlib.Core.List.{List, [], ◌∷◌}
use threat_intel_arbiter.Common.{◌≤◌, ◌≡◌, ◌⊎◌, refl, true, false, String, Memᴰ, arith, repeat}
use threat_intel_arbiter.Common.Dict.{has}
use threat_intel_arbiter.Model.{Ioc, ThreatEvent}
use threat_intel_arbiter.Samples.{openssl_event}
use threat_intel_arbiter.Notify.Crowdstrike.Export.{
  Settings, Indicator, meets_severity, to_indicator,
}
use threat_intel_arbiter.Notify.Crowdstrike.Queue.{Falcon, notify}
use threat_intel_arbiter.Notify.Crowdstrike.Schedule.{
  System, Action, reserving, pushing, flushing, failing, delivering, pick, perform, run_schedule,
  initial,
}
use threat_intel_arbiter.Notify.Crowdstrike.Counting.{bit, total, occurs}
use threat_intel_arbiter.Notify.Crowdstrike.Moves.{in_system}
use threat_intel_arbiter.Notify.Crowdstrike.Once.{waiting_le, delivered_once, overflow_loses}
use threat_intel_arbiter.Notify.Crowdstrike.Checked.{IsChecked, notify-IsChecked}
use threat_intel_arbiter.Common.{if◌then◌else◌, ◌==◌}
use threat_intel_arbiter.Notify.Crowdstrike.Token.{Token, get_token, give_up}
use threat_intel_arbiter.Common.{ℕ, zero, suc, ◌*◌}
use threat_intel_arbiter.Model.{Time}
use threat_intel_arbiter.Notify.Crowdstrike.Token.Waiting.{token_is}
use threat_intel_arbiter.Common.{Option, none, ltb, ◌||◌}
use threat_intel_arbiter.Notify.Crowdstrike.Sending.{ApiReply, replied, send, flush}
use threat_intel_arbiter.Notify.Crowdstrike.Sending.Outcome.{Accepted, flush-send}
use threat_intel_arbiter.Notify.Crowdstrike.Token.Flight.{
  Reaches, start, after, asking, failing as failed, single_flight,
}

-- An indicator of one value.
abbrev indicator : String → Indicator
indicator value = record {
  source = "misp";
  action = "detect";
  expiration = "";
  ioc_type = "domain";
  value = value;
  description = "";
  severity = "high";
  platforms = [];
  tags = [];
}

abbrev retried : List Action
retried =
    reserving (indicator "evil.example")
    ∷ pushing 0
    ∷ flushing
    ∷ failing 0
    ∷ reserving (indicator "evil.example")
    ∷ flushing
    ∷ delivering 0
    ∷ []

waiting_le_example :
    let s' = run_schedule retried initial in
    in_system "domain:evil.example" s' ≤ bit (has "domain:evil.example" s'.falcon.pending_keys)
unfolding in_system occurs total
waiting_le_example = waiting_le "domain:evil.example" retried initial (omega arith)

delivered_once_example : occurs "domain:evil.example" (run_schedule retried initial).delivered ≤ 1
delivered_once_example =
    delivered_once "domain:evil.example" retried
      (refl, (refl, (refl, (refl, (refl, (refl, (refl, tt)))))))

-- A batch under way is as long as the queue may be, and one more indicator.
abbrev full : System
full = record {
  falcon = record { sent = []; pending_keys = "domain:a" ∷ []; pending = [] };
  reserved = [];
  in_flight = (indicator "a" ∷ repeat 1000 (indicator "b")) ∷ [];
  delivered = [];
}

overflow_loses_example :
    occurs "domain:a"
      (run_schedule (flushing ∷ delivering 0 ∷ []) (perform (failing 0) full)).delivered
    ≡ occurs "domain:a" full.delivered
unfolding in_system occurs total has pick
overflow_loses_example =
    overflow_loses 0 (indicator "a") (repeat 1000 (indicator "b")) [] (flushing ∷ delivering 0 ∷ [])
      full (omega arith) refl (omega arith)

abbrev settings : Settings
settings = record {
  action = "detect";
  min_severity = "medium";
  mock = false;
  prevent_types = [];
  max_tlp = "amber";
}

abbrev a_domain : Ioc
a_domain = record {
  ioc_type = "domain";
  value = "evil[.]example";
  description = "";
  source = "misp";
  severity = "";
  tags = "tlp:green" ∷ [];
}

abbrev shared_event : ThreatEvent
shared_event = record openssl_event { iocs = a_domain ∷ [] }

abbrev empty_queue : Falcon
empty_queue = record { sent = []; pending_keys = []; pending = [] }

notify-IsChecked_example :
    Memᴰ (to_indicator settings "later" "high" shared_event a_domain) empty_queue.pending
    ⊎ ((ioc : Ioc) × Memᴰ ioc shared_event.iocs
        × (to_indicator settings "later" "high" shared_event a_domain
            ≡ to_indicator settings "later" "high" shared_event ioc)
        × IsChecked settings shared_event ioc
        × (meets_severity "high" settings.min_severity ≡ true))
unfolding notify to_indicator
notify-IsChecked_example =
    notify-IsChecked settings "later" "high" shared_event empty_queue
      (to_indicator settings "later" "high" shared_event a_domain) (Memᴰ.head refl)

abbrev no_token : Token
no_token = record { token = ""; expires = 0; refreshing = false }

-- A request that fails, and the next one under way.
abbrev retry : Reaches no_token 1 (get_token 5 (give_up (get_token 3 no_token).1)).1
unfolding get_token give_up
retry = after (after (after start (asking 3 refl)) failed) (asking 5 refl)

single_flight_example :
    (1 ≡ bit (get_token 5 (give_up (get_token 3 no_token).1)).1.refreshing) × (1 ≤ 1)
unfolding get_token give_up
single_flight_example = single_flight refl retry

-- Only the action is set.
abbrev only_action : String → String
only_action key = if key == "CROWDSTRIKE_ACTION" then "prevent" else ""

-- Another goroutine's request fails while this call sleeps for the second time.
abbrev under_way : Token
under_way = record { token = ""; expires = 0; refreshing = true }

abbrev clock : ℕ → Time
clock k = 100 * k

abbrev meanwhile : ℕ → Token → Token
meanwhile zero t = t
meanwhile (suc k) t = give_up t

abbrev one_pending : Falcon
one_pending = record { sent = []; pending_keys = "domain:a.b" ∷ []; pending = indicator "a.b" ∷ [] }

abbrev marshal : List Indicator → Option String
marshal batch = none

abbrev refusing : String → List Indicator → ApiReply
refusing token batch = replied 503 "later"

flush_tests : flush (send marshal (token_is "tok") refusing) one_pending ≡ one_pending
unfolding flush send
flush_tests = refl

flush-send_example :
    (flush (send marshal (token_is "tok") refusing) one_pending ≡ one_pending)
    ⊎ (Accepted (token_is "tok") refusing one_pending.pending
        × ((flush (send marshal (token_is "tok") refusing) one_pending).pending ≡ [])
        × ((k : String)
            → (has k (flush (send marshal (token_is "tok") refusing) one_pending).sent
                ≡ (ltb 0 (occurs k one_pending.pending) || has k one_pending.sent))
              × (has k (flush (send marshal (token_is "tok") refusing) one_pending).pending_keys ≡ (
                  if ltb 0 (occurs k one_pending.pending)
                  then false
                  else has k one_pending.pending_keys))))
flush-send_example = flush-send marshal (token_is "tok") refusing one_pending (omega arith)
