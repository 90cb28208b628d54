-- ===== src/Source/Kev/Catalog.antt =====
-- internal/source/kev.go: a feed never outgrows the queue, and its events are known to be exploited.
use mathlib.Core.List.Memᴰ
use mathlib.Core.List.{List, [], ◌∷◌, ◌++◌}
use threat_intel_arbiter.Common.{
  map-mem, ℕ, ◌≤◌, ◌≡◌, ◌⊎◌, refl, sym, subst, ◌==◌, eq_iff, Memᴰ, some, ltb, length, length-append,
  map, inl, inr, Bool-cases, arith,
}
use threat_intel_arbiter.Model.{ThreatEvent, OrgContext}
use threat_intel_arbiter.Matching.Kev.{KevMatcher, replace, hit, normalize_cve, match}
use threat_intel_arbiter.Matching.Kev.Laws.{mem-match-replace}
use threat_intel_arbiter.Source.Kev.{KevEntry, Feed, normalize_kev, send_entries, fetch_and_send}

-- An event of the queue was there, or is made from an entry, and the queue keeps to its capacity.
mem-send_entries :
    (capacity : ℕ) (entries : List KevEntry) (events : List ThreatEvent) (event : ThreatEvent)
    → Memᴰ event (send_entries capacity entries events)
    → Memᴰ event events ⊎ ((entry : KevEntry) × Memᴰ entry entries × (event ≡ normalize_kev entry))
unfolding send_entries
mem-send_entries capacity [] events event m = inl m
mem-send_entries capacity (entry ∷ entries) events event m =
    elim (mem-send_entries capacity entries _ event m) [
      | inr (other, n, e) ↦ inr (other, Memᴰ.tail n, e)
      | inl before ↦ elim (Bool-cases (ltb (length events) capacity)) [
        | inr full ↦ inl (rw full at before)
        | inl free ↦
            let sent : Memᴰ event (events ++ (normalize_kev entry ∷ [])) = rw free at before in
            elim (Memᴰ.append_cases events sent) [
              | inl earlier ↦ inl earlier
              | inr now ↦ inr (entry, Memᴰ.head refl, Memᴰ.eq_of_singleton now)
            ]
      ]
    ]

send_entries_le :
    (capacity : ℕ) (entries : List KevEntry) (events : List ThreatEvent)
    → length events ≤ capacity
    → length (send_entries capacity entries events) ≤ capacity
unfolding send_entries
send_entries_le capacity [] events h = h
send_entries_le capacity (entry ∷ entries) events h =
    send_entries_le capacity entries _ (elim (Bool-cases (ltb (length events) capacity)) [
      | inr full ↦ rw full h
      | inl free ↦ rw free (ground (arith, length-append events (normalize_kev entry ∷ [])))
    ])

-- The event of an entry is matched by the catalog, unless its CVE is blank.
known :
    (entries : List KevEntry) (m : KevMatcher) (org : OrgContext) (entry : KevEntry)
    (event : ThreatEvent)
    → Memᴰ entry entries
    → event ≡ normalize_kev entry
    → (normalize_cve entry.cve_id ≡ "")
      ⊎ Memᴰ (hit entry.cve_id) (match (replace (map (λ e. e.cve_id) entries) m) event org)
unfolding normalize_kev
known entries m org entry event n e =
    let ids = map (λ (e : KevEntry). e.cve_id) entries in
    elim (Bool-cases (normalize_cve entry.cve_id == "")) [
      | inl blank ↦ inl ((eq_iff _ _).0 blank)
      | inr named ↦ inr (
          subst (λ ev. Memᴰ (hit entry.cve_id) (match (replace ids m) ev org)) (sym e)
            ((mem-match-replace ids m (normalize_kev entry) org (hit entry.cve_id)).1 (
              entry.cve_id,
              Memᴰ.head refl,
              (
                ground (arith, eq_iff (normalize_cve entry.cve_id) ""),
                (entry.cve_id, map-mem (λ e. e.cve_id) entries n, refl),
              ),
              refl,
            )))
    ]

-- After a successful fetch the queue is within its capacity if it was before, and each of its events
-- was there before or comes from an entry of the catalog; then it carries the entry's CVE, and the
-- shared matcher finds that CVE to be known to be exploited unless it is blank, whether or not other
-- entries found the queue full.
pub fetch_and_send_lem :
    (entries : List KevEntry) (capacity : ℕ) (s : Feed) (org : OrgContext) (event : ThreatEvent)
    → length s.events ≤ capacity
    → Memᴰ event (fetch_and_send (some entries) capacity s).events
    → let s' = fetch_and_send (some entries) capacity s in
      (length s'.events ≤ capacity)
      × (Memᴰ event s.events
          ⊎ ((entry : KevEntry) × Memᴰ entry entries
              × (event ≡ normalize_kev entry)
              × ((normalize_cve entry.cve_id ≡ "")
                  ⊎ Memᴰ (hit entry.cve_id) (match s'.matcher event org))))
unfolding fetch_and_send
fetch_and_send_lem entries capacity s org event h m = (
  send_entries_le capacity entries s.events h,
  elim (mem-send_entries capacity entries s.events event m) [
    | inl before ↦ inl before
    | inr (entry, n, e) ↦ inr (entry, n, e, known entries s.matcher org entry event n e)
  ],
)
