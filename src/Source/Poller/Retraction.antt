-- ===== src/Source/Poller/Retraction.antt =====
-- internal/source/poller.go: what a poll sends.
use mathlib.Core.List.Memᴰ
use mathlib.Core.List.{List, [], ◌∷◌}
use threat_intel_arbiter.Common.{
  ℕ, ◌≡◌, ◌⊎◌, refl, ap, sym, subst, ◌∙◌, true, Memᴰ, Option, none, some, String, ◌==◌, ltb,
  if◌then◌else◌, inl, inr, Bool-cases, Option-cases,
}
use threat_intel_arbiter.Common.Dict.{lookup, insert, lookup-insert}
use threat_intel_arbiter.Model.{Time, ThreatEvent}
use threat_intel_arbiter.Source.Misp.{MispEvent, normalize_misp_event}
use threat_intel_arbiter.Source.Poller.{
  MispPoller, max_pages, store_event, forward, process_event, since_of, poll,
}
use threat_intel_arbiter.Source.Poller.Paging.{pulled, process_events, poll_lem, fetch_failed}

-- What an event does to the poller: it is passed over, retracted, or stored and sent.
data Handled (raw : MispEvent) (p : MispPoller) : MispPoller → Type 0 where
  passed_over :
      {existing : ThreatEvent}
      → lookup (normalize_misp_event raw).id p.stored ≡ some existing
      → Handled raw p p
  retracted :
      {p' : MispPoller} {existing : ThreatEvent}
      → lookup (normalize_misp_event raw).id p.stored ≡ some existing
      → p'.sent ≡ p.sent
      → p'.stored ≡ insert (normalize_misp_event raw).id (normalize_misp_event raw) p.stored
      → Handled raw p p'
  sent :
      (raw.published ≡ true) ⊎ (lookup (normalize_misp_event raw).id p.stored ≡ none)
      → Handled raw p (forward (normalize_misp_event raw) p)

process_event-Handled : (raw : MispEvent) (p : MispPoller) → Handled raw p (process_event raw p)
unfolding process_event store_event
process_event-Handled raw p =
    let event = normalize_misp_event raw in
    elim (Option-cases (lookup event.id p.stored)) [
      | inl e ↦ rw (e, process_event) (sent (inr e))
      | inr (existing, e) ↦ elim (Bool-cases raw.published) [
        | inr gone ↦ rw (e, gone, process_event) (retracted e refl refl)
        | inl published ↦ elim (Bool-cases (ltb event.timestamp existing.timestamp)) [
          | inl old ↦ rw (e, published, old, process_event) (passed_over e)
          | inr new ↦
              let step : process_event raw p ≡ forward event p =
                rw (e, published, new, process_event) in
              subst (Handled raw p) (sym step) (sent (inl published))
        ]
      ]
    ]

-- A stored event stays stored.
insert-none :
    (id asked : String) (event : ThreatEvent) (stored : List (String × ThreatEvent))
    → lookup asked (insert id event stored) ≡ none
    → lookup asked stored ≡ none
insert-none id asked event stored h =
    let after : (if id == asked then some event else lookup asked stored) ≡ none =
      sym (lookup-insert id asked event stored) ∙ h in
    elim (Bool-cases (id == asked)) [
      | inl e ↦ let there : ◌≡◌ {A = Option ThreatEvent} (some event) none = rw e at after in cc
      | inr e ↦ rw e at after
    ]

Handled-stored :
    {raw : MispEvent} {p p' : MispPoller} (asked : String)
    → Handled raw p p'
    → lookup asked p'.stored ≡ none
    → lookup asked p.stored ≡ none
unfolding forward store_event
Handled-stored asked (passed_over e) h = h
Handled-stored {raw = raw} {p = p} asked (retracted e same stored) h =
    insert-none (normalize_misp_event raw).id asked (normalize_misp_event raw) p.stored
      (sym (ap (lookup asked) stored) ∙ h)
Handled-stored {raw = raw} {p = p} asked (sent e) h =
    insert-none (normalize_misp_event raw).id asked (normalize_misp_event raw) p.stored h

-- The event is new to the poller or still published.
abbrev pub IsNews : List MispEvent → MispPoller → ThreatEvent → Type 0
IsNews pulled p event =
    (raw : MispEvent) × Memᴰ raw pulled
    × (event ≡ normalize_misp_event raw)
    × ((raw.published ≡ true) ⊎ (lookup event.id p.stored ≡ none))

Handled-sent :
    {raw : MispEvent} {p p' : MispPoller} (event : ThreatEvent)
    → Handled raw p p'
    → Memᴰ event p'.sent
    → Memᴰ event p.sent ⊎ IsNews (raw ∷ []) p event
unfolding forward store_event
Handled-sent event (passed_over e) m = inl m
Handled-sent event (retracted e same stored) m = inl (subst (λ l. Memᴰ event l) same m)
Handled-sent {raw = raw} {p = p} event (sent e) m = elim (Memᴰ.append_cases p.sent m) [
  | inl before ↦ inl before
  | inr now ↦
      let it = Memᴰ.eq_of_singleton now in
      inr (
        raw,
        Memᴰ.head refl,
        it,
        elim e [
          | inl published ↦ inl published
          | inr new ↦ inr (ap (λ v. lookup v.id p.stored) it ∙ new)
        ],
      )
]

process_events-sent :
    (events : List MispEvent) (p : MispPoller) (event : ThreatEvent)
    → Memᴰ event (process_events events p).sent
    → Memᴰ event p.sent ⊎ IsNews events p event
unfolding process_events
process_events-sent [] p event m = inl m
process_events-sent (raw ∷ events) p event m =
    let step = process_event-Handled raw p in
    elim (process_events-sent events (process_event raw p) event m) [
      | inl before ↦ elim (Handled-sent event step before) [
        | inl earlier ↦ inl earlier
        | inr (it, n, e, news) ↦ inr (it, Memᴰ.head (Memᴰ.eq_of_singleton n), e, news)
      ]
      | inr (it, n, e, news) ↦ inr (
        it,
        Memᴰ.tail n,
        e,
        elim news [
          | inl published ↦ inl published
          | inr new ↦ inr (Handled-stored event.id step new)
        ],
      )
    ]

-- Each event in the queue after a poll was there before, or is made from an event that the poll pulled
-- and that is published or was not stored before the poll: a poll never sends the retraction of an
-- event that it knows, also when it ends with an error.
pub poll-IsNews :
    (fetch : String → ℕ → Option (List MispEvent)) (now : Time) (p : MispPoller)
    (event : ThreatEvent)
    → Memᴰ event (poll fetch now p).0.sent
    → Memᴰ event p.sent ⊎ IsNews (pulled fetch (since_of now p) max_pages 0) p event
unfolding max_pages
poll-IsNews fetch now p event m =
    let events = pulled fetch (since_of now p) max_pages 0 in
    let same : (poll fetch now p).0.sent ≡ (process_events events p).sent =
      elim (Bool-cases (fetch_failed fetch (since_of now p) max_pages 0)) [
        | inl failed ↦ rw (poll_lem fetch now p, failed) refl
        | inr ok ↦ rw (poll_lem fetch now p, ok) refl
      ] in
    process_events-sent events p event (subst (λ l. Memᴰ event l) same m)
