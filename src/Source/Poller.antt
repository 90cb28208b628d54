-- ===== src/Source/Poller.antt =====
-- internal/source/poller.go: one cycle of the MISP poller on its rows of the database and on the
-- events that it sends. The clock and the client are arguments; a page that cannot be fetched is
-- `none`. The queue is read by the main loop, so a send succeeds in the end; a shutdown is not
-- modelled.
pub mod Paging
pub mod Retraction
use mathlib.Core.List.{List, [], ◌∷◌, ◌++◌}
use threat_intel_arbiter.Common.{
  ℕ, zero, suc, ◌+◌, ◌-◌, ◌*◌, ◌/◌, Bool, true, false, not, ◌&&◌, Option, none, some, String, ltb,
  eqb, if◌then◌else◌, length, show, ◌==◌,
}
use threat_intel_arbiter.Common.Dict.{lookup, insert}
use threat_intel_arbiter.Model.{Time, second, hour, ThreatEvent}
use threat_intel_arbiter.Alerts.{AlertTables, suppress_alerts_for_event}
use threat_intel_arbiter.Source.Misp.{MispEvent, epoch, normalize_misp_event}

-- The cursor and the stored events are rows of the database; without a cursor it is the empty text.
pub record MispPoller : Type 0 where
  pub cold_start : Bool
  pub cursor : String
  pub stored : List (String × ThreatEvent)
  pub alerts : AlertTables
  pub sent : List ThreatEvent

-- `t.Unix()`; a time before 1970 is 0 here, which no comparison with a larger number tells apart.
abbrev pub unix : Time → ℕ
unix t = t / second - epoch

-- `INSERT OR REPLACE`; the status of a deleted event is not written.
unfoldable pub store_event : ThreatEvent → MispPoller → MispPoller
unfolding insert
store_event event p = record p { stored = insert event.id event p.stored }

-- The event is stored and sent.
unfoldable pub forward : ThreatEvent → MispPoller → MispPoller
unfolding store_event
forward event p = record (store_event event p) { sent = p.sent ++ (event ∷ []) }

-- Every stored event is one that storeEvent has written, so that it can be decoded; the errors of the
-- database, at which an event is passed over, are not modelled.
-- A stored event that is no longer published is retracted, and one that is older than the stored one
-- is passed over.
unfoldable pub process_event : MispEvent → MispPoller → MispPoller
unfolding lookup normalize_misp_event store_event forward suppress_alerts_for_event
process_event raw p =
    let event = normalize_misp_event raw in
    elim (lookup event.id p.stored) [
      | none ↦ forward event p
      | some existing ↦
          if not raw.published
          then record (store_event event p) { alerts = suppress_alerts_for_event event.id p.alerts }
          else if ltb event.timestamp existing.timestamp
          then p
          else forward event p
    ]

-- The poller, the largest timestamp so far and whether the last page was full.
pub record Progress : Type 0 where
  pub poller : MispPoller
  pub max_timestamp : ℕ
  pub last_page_full : Bool

abbrev pub max : ℕ → ℕ → ℕ
max a b = if ltb a b then b else a

unfoldable pub process_page : List MispEvent → Progress → Progress
unfolding normalize_misp_event process_event
process_page [] s = s
process_page (raw ∷ events) s = process_page events (record s {
  poller = process_event raw s.poller;
  max_timestamp = max s.max_timestamp (unix (normalize_misp_event raw).timestamp);
})

-- The loop over at most so many pages, and whether every page asked for could be fetched.
unfoldable pub pull_pages :
    (String → ℕ → Option (List MispEvent)) → String → ℕ → ℕ → Progress → Progress × Bool
unfolding process_page
pull_pages fetch since zero page s = (s, true)
pull_pages fetch since (suc left) page s = elim (fetch since page) [
  | none ↦ (s, false)
  | some [] ↦ (s, true)
  | some (raw ∷ events) ↦
      let s' : Progress = record (process_page (raw ∷ events) s) {
        last_page_full = eqb (length (raw ∷ events)) 100;
      } in
      let rest = pull_pages fetch since left (page + 1) s' in
      if ltb (length (raw ∷ events)) 100 then (s', true) else rest
]

unfoldable pub max_pages : ℕ
max_pages = 5

-- What is asked for: everything after the cursor, and the last seven days on a cold start.
unfoldable pub since_of : Time → MispPoller → String
unfolding show
since_of now p = if p.cold_start then show (unix (now - 168 * hour)) else p.cursor

unfoldable pub next_cursor : Time → Progress → String
unfolding show
next_cursor now s =
    if s.last_page_full && ltb 0 s.max_timestamp then show s.max_timestamp else show (unix now)

-- `poll`, and whether it ends without an error.
unfoldable pub poll : (String → ℕ → Option (List MispEvent)) → Time → MispPoller → MispPoller × Bool
unfolding pull_pages since_of next_cursor max_pages
poll fetch now p =
    let (s, ok) =
      pull_pages fetch (since_of now p) max_pages 0
        (record { poller = p; max_timestamp = 0; last_page_full = false }) in
    if ok
    then (record s.poller { cursor = next_cursor now s; cold_start = false }, true)
    else (s.poller, false)

-- The start of `Run`: with a cursor of an earlier run there is no cold start.
unfoldable pub start : MispPoller → MispPoller
start p = record p {
  cold_start = if p.cold_start && not (p.cursor == "") then false else p.cold_start;
}
