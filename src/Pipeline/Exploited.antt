-- ===== src/Pipeline/Exploited.antt =====
-- cmd/arbiter/main.go, internal/source/kev.go and internal/match/kev_matcher.go: a known exploited
-- vulnerability raises an alert.
use mathlib.Core.List.{List, [], ◌∷◌, ◌++◌}
use threat_intel_arbiter.Common.{
  ℕ, some, ◌≡◌, ◌≢◌, refl, sym, subst, true, false, Memᴰ, map, map-mem, mem-collect,
}
use threat_intel_arbiter.Model.{Time, Match, Alert}
use threat_intel_arbiter.Risk.Assets.{is_nil}
use threat_intel_arbiter.Filter.{allow}
use threat_intel_arbiter.Matching.Kev.{KevMatcher, replace, hit, normalize_cve}
use threat_intel_arbiter.Matching.Kev
use threat_intel_arbiter.Matching.Kev.Laws.{mem-match-replace}
use threat_intel_arbiter.Matching.Engine.{kev_matcher, run}
use threat_intel_arbiter.Matching.Tag.{tag_event}
use threat_intel_arbiter.Alerts.{new_alert}
use threat_intel_arbiter.Notify.{route}
use threat_intel_arbiter.Source.Kev.{KevEntry, Feed, normalize_kev, fetch_and_send}
use threat_intel_arbiter.Pipeline.{
  MatcherConfig, Setup, State, configured_matcher, build_matchers, matches_of, alert_of,
  raise_alert, routing_rules, handle_event,
}

mem-build_matchers :
    (kev : KevMatcher) (configs : List MatcherConfig) (m : MatcherConfig)
    → Memᴰ m configs
    → m.name ≡ "KEVMatcher"
    → m.enabled ≡ true
    → Memᴰ (kev_matcher kev) (build_matchers kev configs)
unfolding build_matchers configured_matcher
mem-build_matchers kev configs m n named on =
    mem-collect (configured_matcher kev) configs n (rw (on, named) (Memᴰ.head refl))

mem_not_nil {ℓ} : {A : Type ℓ} (xs : List A) {a : A} → Memᴰ a xs → is_nil xs ≡ false
mem_not_nil [] n = elim n [ ]
mem_not_nil (x ∷ xs) n = refl

-- The matches of the event of an entry have the hit of its CVE.
mem-matches_of :
    (c : Setup) (s : State) (entries : List KevEntry) (entry : KevEntry) (m : MatcherConfig)
    (kev : KevMatcher)
    → Memᴰ entry entries
    → normalize_cve entry.cve_id ≢ ""
    → Memᴰ m c.matchers
    → m.name ≡ "KEVMatcher"
    → m.enabled ≡ true
    → s.kev ≡ replace (map (λ e. e.cve_id) entries) kev
    → Memᴰ (hit entry.cve_id) (matches_of c s (tag_event (normalize_kev entry)))
unfolding matches_of run tag_event normalize_kev
mem-matches_of c s entries entry m kev n named k is_kev on shared =
    let ids = map (λ (e : KevEntry). e.cve_id) entries in
    let event = tag_event (normalize_kev entry) in
    mem-collect (λ matcher. matcher.run_match event c.org) (build_matchers s.kev c.matchers)
      (mem-build_matchers s.kev c.matchers m k is_kev on)
      (subst (λ catalog. Memᴰ (hit entry.cve_id) (Kev.match catalog event c.org)) (sym shared)
        ((mem-match-replace ids kev event c.org (hit entry.cve_id)).1 (
          entry.cve_id,
          Memᴰ.head refl,
          (named, (entry.cve_id, map-mem (λ e. e.cve_id) entries n, refl)),
          refl,
        )))

alert-event_id :
    (c : Setup) (now : Time) (entry : KevEntry) (matches : List Match)
    → (alert_of c now (tag_event (normalize_kev entry)) matches).event_id ≡ entry.cve_id
unfolding new_alert tag_event normalize_kev
alert-event_id c now entry matches = refl

-- When the shared catalog is that of a fetch of the feed, the matcher for known exploited
-- vulnerabilities is enabled, and the filter lets the tagged event of an entry with a CVE pass, then
-- the loop raises an alert for that event: it is the next that is routed, its event is the entry's
-- CVE, and the channels that it reaches are those of the rules.
pub exploited_is_routed :
    (c : Setup) (now : Time) (s : State) (entries : List KevEntry) (entry : KevEntry)
    (m : MatcherConfig) (capacity : ℕ) (feed : Feed)
    → Memᴰ entry entries
    → normalize_cve entry.cve_id ≢ ""
    → Memᴰ m c.matchers
    → m.name ≡ "KEVMatcher"
    → m.enabled ≡ true
    → s.kev ≡ (fetch_and_send (some entries) capacity feed).matcher
    → allow c.filter (tag_event (normalize_kev entry)) ≡ true
    → (alert : Alert) × (alert.event_id ≡ entry.cve_id)
      × ((handle_event c now (normalize_kev entry) s).routed
          ≡ s.routed ++ ((alert, route c.send (routing_rules c.rules) alert) ∷ []))
unfolding handle_event raise_alert fetch_and_send
exploited_is_routed c now s entries entry m capacity feed n named k is_kev on shared passed =
    let event = tag_event (normalize_kev entry) in
    let matched : is_nil (matches_of c s event) ≡ false =
      mem_not_nil (matches_of c s event)
        (mem-matches_of c s entries entry m feed.matcher n named k is_kev on shared) in
    (
      alert_of c now event (matches_of c s event),
      alert-event_id c now entry (matches_of c s event),
      rw (passed, matched, handle_event),
    )
