-- ===== src/Source/Poller/Paging.antt =====
-- internal/source/poller.go: the paged loop of poll is one pass over the events pulled.
use mathlib.Core.List.{List, [], ◌∷◌, ◌++◌}
use threat_intel_arbiter.Common.{
  ℕ, zero, suc, ◌+◌, ◌≡◌, ◌∙◌, refl, ap, ap₂, sym, Bool, true, false, not, ◌&&◌, Option, none, some,
  String, ltb, eqb, if◌then◌else◌, length, show, inl, inr, Bool-cases, Option-cases,
}
use threat_intel_arbiter.Common.Dict.{lookup}
use threat_intel_arbiter.Model.{Time}
use threat_intel_arbiter.Source.Misp.{MispEvent, normalize_misp_event}
use threat_intel_arbiter.Source.Poller.{
  MispPoller, Progress, unix, max, max_pages, process_event, store_event, forward, process_page,
  pull_pages, since_of, next_cursor, poll,
}

-- The events of the pages up to the first that is short or cannot be fetched.
unfoldable pub pulled : (String → ℕ → Option (List MispEvent)) → String → ℕ → ℕ → List MispEvent
pulled fetch since zero page = []
pulled fetch since (suc left) page = elim (fetch since page) [
  | none ↦ []
  | some events ↦
      if ltb (length events) 100 then events else events ++ pulled fetch since left (page + 1)
]

unfoldable pub process_events : List MispEvent → MispPoller → MispPoller
unfolding process_event
process_events [] p = p
process_events (raw ∷ events) p = process_events events (process_event raw p)

-- The largest of a number and the timestamps of events.
unfoldable pub latest : ℕ → List MispEvent → ℕ
unfolding normalize_misp_event
latest n [] = n
latest n (raw ∷ events) = latest (max n (unix (normalize_misp_event raw).timestamp)) events

-- One of the pages up to the first short one cannot be fetched.
unfoldable pub fetch_failed : (String → ℕ → Option (List MispEvent)) → String → ℕ → ℕ → Bool
fetch_failed fetch since zero page = false
fetch_failed fetch since (suc left) page =
    let rest = fetch_failed fetch since left (page + 1) in
    elim (fetch since page) [ none ↦ true | some events ↦ not (ltb (length events) 100) && rest ]

-- The last page that is pulled and has events; where there is none, the one given.
unfoldable pub last_page :
    (String → ℕ → Option (List MispEvent)) → String → List MispEvent → ℕ → ℕ → List MispEvent
last_page fetch since last zero page = last
last_page fetch since last (suc left) page = elim (fetch since page) [
  | none ↦ last
  | some [] ↦ last
  | some (raw ∷ events) ↦
      let rest = last_page fetch since (raw ∷ events) left (page + 1) in
      if ltb (length (raw ∷ events)) 100 then raw ∷ events else rest
]

process_events-append :
    (xs ys : List MispEvent) (p : MispPoller)
    → process_events (xs ++ ys) p ≡ process_events ys (process_events xs p)
unfolding process_events
process_events-append [] ys p = refl
process_events-append (x ∷ xs) ys p = process_events-append xs ys (process_event x p)

latest-append : (xs ys : List MispEvent) (n : ℕ) → latest n (xs ++ ys) ≡ latest (latest n xs) ys
unfolding latest
latest-append [] ys n = refl
latest-append (x ∷ xs) ys n = latest-append xs ys (max n (unix (normalize_misp_event x).timestamp))

process_page_lem :
    (events : List MispEvent) (s : Progress)
    → ((process_page events s).poller ≡ process_events events s.poller)
      × ((process_page events s).max_timestamp ≡ latest s.max_timestamp events)
unfolding process_page process_events latest
process_page_lem [] s = (refl, refl)
process_page_lem (raw ∷ events) s = process_page_lem events (record s {
  poller = process_event raw s.poller;
  max_timestamp = max s.max_timestamp (unix (normalize_misp_event raw).timestamp);
})

pull_pages_lem :
    (fetch : String → ℕ → Option (List MispEvent)) (since : String) (left page : ℕ) (s : Progress)
    → let s' = (pull_pages fetch since left page s).0 in
      let events = pulled fetch since left page in
      (s'.poller ≡ process_events events s.poller)
      × (s'.max_timestamp ≡ latest s.max_timestamp events)
unfolding pull_pages pulled process_events latest
pull_pages_lem fetch since zero page s = (refl, refl)
pull_pages_lem fetch since (suc left) page s = elim (Option-cases (fetch since page)) [
  | inl e ↦ rw (e, pull_pages, pulled) (refl, refl)
  | inr ([], e) ↦ rw (e, pull_pages, pulled) (refl, refl)
  | inr (raw ∷ events, e) ↦
      let done = process_page_lem (raw ∷ events) s in
      let s' : Progress = record (process_page (raw ∷ events) s) {
        last_page_full = eqb (length (raw ∷ events)) 100;
      } in
      elim (Bool-cases (ltb (length (raw ∷ events)) 100)) [
        | inl short ↦ rw (e, pull_pages, pulled, short) done
        | inr full ↦
            let rest = pull_pages_lem fetch since left (page + 1) s' in
            let later = pulled fetch since left (page + 1) in
            rw (e, pull_pages, pulled, full)
              (
                rest.0
                    ∙ ap (process_events later) done.0
                    ∙ sym (process_events-append (raw ∷ events) later s.poller),
                rest.1
                    ∙ ap (λ n. latest n later) done.1
                    ∙ sym (latest-append (raw ∷ events) later s.max_timestamp),
              )
      ]
]

process_event-cursor :
    (raw : MispEvent) (p : MispPoller)
    → ((process_event raw p).cursor ≡ p.cursor) × ((process_event raw p).cold_start ≡ p.cold_start)
unfolding process_event forward store_event
process_event-cursor raw p =
    let event = normalize_misp_event raw in
    elim (Option-cases (lookup event.id p.stored)) [
      | inl e ↦ rw (e, process_event) (refl, refl)
      | inr (existing, e) ↦ elim (Bool-cases raw.published) [
        | inr retracted ↦ rw (e, retracted, process_event) (refl, refl)
        | inl published ↦ elim (Bool-cases (ltb event.timestamp existing.timestamp)) [
          | inl old ↦ rw (e, published, old, process_event) (refl, refl)
          | inr new ↦ rw (e, published, new, process_event) (refl, refl)
        ]
      ]
    ]

-- The events do not touch the cursor and the cold start.
process_events-cursor :
    (events : List MispEvent) (p : MispPoller)
    → record (process_events events p) { cursor = p.cursor; cold_start = p.cold_start }
      ≡ process_events events p
unfolding process_events
process_events-cursor [] p = refl
process_events-cursor (raw ∷ events) p =
    let (cursor, cold) = process_event-cursor raw p in
    ap₂ (λ c b. record (process_events events (process_event raw p)) { cursor = c; cold_start = b })
      (sym cursor) (sym cold)
    ∙ process_events-cursor events (process_event raw p)

-- The loop ends with an error exactly when a page up to the first short one cannot be fetched.
pull_pages-fetch_failed :
    (fetch : String → ℕ → Option (List MispEvent)) (since : String) (left page : ℕ) (s : Progress)
    → (pull_pages fetch since left page s).1 ≡ not (fetch_failed fetch since left page)
unfolding pull_pages fetch_failed
pull_pages-fetch_failed fetch since zero page s = refl
pull_pages-fetch_failed fetch since (suc left) page s = elim (Option-cases (fetch since page)) [
  | inl e ↦ rw (e, pull_pages, fetch_failed) refl
  | inr ([], e) ↦ rw (e, pull_pages, fetch_failed) refl
  | inr (raw ∷ events, e) ↦ elim (Bool-cases (ltb (length (raw ∷ events)) 100)) [
    | inl short ↦ rw (e, pull_pages, fetch_failed, short) refl
    | inr full ↦
        rw (e, pull_pages, fetch_failed, full)
          (pull_pages-fetch_failed fetch since left (page + 1)
            (record (process_page (raw ∷ events) s) {
              last_page_full = eqb (length (raw ∷ events)) 100;
            }))
  ]
]

-- The mark of a full page is that of the last page with events.
pull_pages-last_page :
    (fetch : String → ℕ → Option (List MispEvent)) (since : String) (last : List MispEvent)
    (left page : ℕ) (s : Progress)
    → s.last_page_full ≡ eqb (length last) 100
    → (pull_pages fetch since left page s).0.last_page_full
      ≡ eqb (length (last_page fetch since last left page)) 100
unfolding pull_pages last_page
pull_pages-last_page fetch since last zero page s h = h
pull_pages-last_page fetch since last (suc left) page s h = elim (Option-cases (fetch since page)) [
  | inl e ↦ rw (e, pull_pages, last_page) h
  | inr ([], e) ↦ rw (e, pull_pages, last_page) h
  | inr (raw ∷ events, e) ↦ elim (Bool-cases (ltb (length (raw ∷ events)) 100)) [
    | inl short ↦ rw (e, pull_pages, last_page, short) refl
    | inr full ↦
        rw (e, pull_pages, last_page, full)
          (pull_pages-last_page fetch since (raw ∷ events) left (page + 1)
            (record (process_page (raw ∷ events) s) {
              last_page_full = eqb (length (raw ∷ events)) 100;
            })
            refl)
  ]
]

-- A poll treats the pulled events as one pass over them would, whatever the pages, also when a page
-- cannot be fetched. When one of at most five pages up to the first short one cannot be fetched, it
-- ends with an error and the cursor and the cold start are as before, so that the next poll pulls the
-- same again. Else it ends without an error and the cold start is over; the cursor is the largest
-- timestamp of the pulled events when the last page with events has 100 of them and that timestamp
-- is not 0, and the present time otherwise.
pub poll_lem :
    (fetch : String → ℕ → Option (List MispEvent)) (now : Time) (p : MispPoller)
    → let since = since_of now p in
      let events = pulled fetch since 5 0 in
      let p' = process_events events p in
      let last = last_page fetch since [] 5 0 in
      poll fetch now p ≡ (
        if fetch_failed fetch since 5 0
        then (record p' { cursor = p.cursor; cold_start = p.cold_start }, false)
        else (
          record p' {
            cursor =
                if eqb (length last) 100 && ltb 0 (latest 0 events)
                then show (latest 0 events)
                else show (unix now);
            cold_start = false;
          },
          true,
        ))
unfolding poll next_cursor max_pages
poll_lem fetch now p =
    let s0 : Progress = record { poller = p; max_timestamp = 0; last_page_full = false } in
    let done = pull_pages_lem fetch (since_of now p) 5 0 s0 in
    let ends = pull_pages-fetch_failed fetch (since_of now p) 5 0 s0 in
    let full = pull_pages-last_page fetch (since_of now p) [] 5 0 s0 refl in
    let events = pulled fetch (since_of now p) 5 0 in
    elim (Bool-cases (fetch_failed fetch (since_of now p) 5 0)) [
      | inl failed ↦
          rw (failed, poll, ends ∙ ap not failed)
            (ap (λ q. (q, false)) (done.0 ∙ sym (process_events-cursor events p)))
      | inr ok ↦ rw (ok, poll, ends ∙ ap not ok, next_cursor, full, done.0, done.1) refl
    ]
