-- ===== src/Filter/Laws.antt =====
-- What passes the filter.
use mathlib.Core.List.Memᴰ
use threat_intel_arbiter.Common.{
  ◌≡◌, refl, sym, ◌↔◌, inl, inr, true, false, ◌||◌, List, [], ◌∷◌, Memᴰ, String, ◌==◌, eq_iff,
  eq_refl, to_upper, any, any_witness, any_of_mem, any-eq-false, mem_of_mem-select,
  mem-select_of_mem, Bool-cases, arith,
}
use threat_intel_arbiter.Common.Dict.{has, add, has-add}
use threat_intel_arbiter.Model.{ThreatEvent}
use threat_intel_arbiter.Filter.{
  Filter, load_warning_cves, load_notice_events, allow, filter_events,
}

-- What an event must satisfy to go on to the matchers.
pub record IsAllowed (f : Filter) (event : ThreatEvent) : Type 0 where
  pub not_noticed : has event.id f.notice_events ≡ false
  pub not_warned : (cve : String) → Memᴰ cve event.cves → has (to_upper cve) f.warning_cves ≡ false
  pub not_red : ¬ Memᴰ "tlp:red" event.tags

pub allow→IsAllowed : (f : Filter) (event : ThreatEvent) → allow f event ≡ true → IsAllowed f event
unfolding allow
allow→IsAllowed f event h = record {
  not_noticed = ground arith;
  not_warned =
      λ cve m. any-eq-false (λ cve. has (to_upper cve) f.warning_cves) event.cves (ground arith) m;
  not_red = λ m. cc (any_of_mem (λ tag. tag == "tlp:red") event.tags m refl, not_any);
}
  where
    not_any : any (λ tag. tag == "tlp:red") event.tags ≡ false
    not_any = ground arith

IsAllowed→allow : (f : Filter) (event : ThreatEvent) → IsAllowed f event → allow f event ≡ true
unfolding allow
IsAllowed→allow f event h = ground (arith, h.not_noticed, warned, red)
  where
    warned : any (λ cve. has (to_upper cve) f.warning_cves) event.cves ≡ false
    warned = elim (Bool-cases (any (λ cve. has (to_upper cve) f.warning_cves) event.cves)) [
      | inl e ↦ let (cve, m, k) = any_witness _ event.cves e in cc (h.not_warned cve m, k)
      | inr e ↦ e
    ]

    red : any (λ tag. tag == "tlp:red") event.tags ≡ false
    red = elim (Bool-cases (any (λ tag. tag == "tlp:red") event.tags)) [
      | inl e ↦
          let (tag, m, k) = any_witness _ event.tags e in
          absurd (h.not_red (Memᴰ.cast (sym ((eq_iff tag "tlp:red").0 k)) m))
      | inr e ↦ e
    ]

-- An event comes out of `filter_events` exactly when it went in, its ID is not on a notice list,
-- none of its CVEs is on a warning list in upper case, and it has no tag "tlp:red".
pub mem-filter_events :
    (f : Filter) (events : List ThreatEvent) (event : ThreatEvent)
    → Memᴰ event (filter_events f events) ↔ (Memᴰ event events × IsAllowed f event)
unfolding filter_events
mem-filter_events f events event = (
  λ m. let (n, h) = mem_of_mem-select (allow f) events m in (n, allow→IsAllowed f event h),
  λ h. mem-select_of_mem (allow f) events h.0 (IsAllowed→allow f event h.1),
)

has-load_warning_cves :
    (cves : List String) (f : Filter) (k : String)
    → has k (load_warning_cves cves f).warning_cves
      ≡ (any (λ cve. to_upper cve == k) cves || has k f.warning_cves)
unfolding load_warning_cves any
has-load_warning_cves [] f k = refl
has-load_warning_cves (cve ∷ cves) f k = ground (
  arith,
  has-load_warning_cves cves (record f { warning_cves = add (to_upper cve) f.warning_cves }) k,
  has-add (to_upper cve) k f.warning_cves,
)

has-load_notice_events :
    (ids : List String) (f : Filter) (k : String)
    → has k (load_notice_events ids f).notice_events
      ≡ (any (λ id. id == k) ids || has k f.notice_events)
unfolding load_notice_events any
has-load_notice_events [] f k = refl
has-load_notice_events (id ∷ ids) f k = ground (
  arith,
  has-load_notice_events ids (record f { notice_events = add id f.notice_events }) k,
  has-add id k f.notice_events,
)

-- Once warning lists are loaded, an event with a CVE that is on them, whatever the case of either
-- spelling, does not pass. The filter may have held other entries before.
pub warned_is_dropped :
    (f : Filter) (cves : List String) (event : ThreatEvent) (listed cve : String)
    → Memᴰ listed cves
    → Memᴰ cve event.cves
    → to_upper listed ≡ to_upper cve
    → allow (load_warning_cves cves f) event ≡ false
warned_is_dropped f cves event listed cve m n same =
    elim (Bool-cases (allow (load_warning_cves cves f) event)) [
      | inl e ↦ cc (
        (allow→IsAllowed (load_warning_cves cves f) event e).not_warned cve n,
        has-load_warning_cves cves f (to_upper cve),
        any_of_mem (λ c. to_upper c == to_upper cve) cves m ((eq_iff _ _).1 same),
      )
      | inr e ↦ e
    ]

-- Once notice lists are loaded, an event whose ID is on them does not pass.
pub noticed_is_dropped :
    (f : Filter) (ids : List String) (event : ThreatEvent)
    → Memᴰ event.id ids
    → allow (load_notice_events ids f) event ≡ false
noticed_is_dropped f ids event m = elim (Bool-cases (allow (load_notice_events ids f) event)) [
  | inl e ↦ cc (
    (allow→IsAllowed (load_notice_events ids f) event e).not_noticed,
    has-load_notice_events ids f event.id,
    any_of_mem (λ id. id == event.id) ids m (eq_refl event.id),
  )
  | inr e ↦ e
]
