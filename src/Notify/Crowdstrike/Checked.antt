-- ===== src/Notify/Crowdstrike/Checked.antt =====
-- internal/notify/crowdstrike.go: what Notify lets into the queue.
use mathlib.Core.List.Memᴰ
use mathlib.Core.List.{List, [], ◌∷◌, ◌++◌}
use threat_intel_arbiter.Common.{
  ℕ, ◌≡◌, ◌≢◌, ◌⊎◌, refl, Bool, true, false, not, ◌&&◌, Memᴰ, String, ◌==◌, eq_iff, if◌then◌else◌,
  inl, inr, Bool-cases, ◌||◌, arith,
}
use threat_intel_arbiter.Common.Dict.{has}
use threat_intel_arbiter.Model.{Ioc, ThreatEvent}
use threat_intel_arbiter.Risk.Assets.{is_nil}
use threat_intel_arbiter.Notify.Crowdstrike.Ip.{is_private_ip}
use threat_intel_arbiter.Notify.Crowdstrike.Validation.{validate_ioc, blocked_tlp, never_block}
use threat_intel_arbiter.Notify.Crowdstrike.Export.{
  Settings, Indicator, meets_severity, dedup_key, to_indicator, is_ip, is_exportable,
}
use threat_intel_arbiter.Notify.Crowdstrike.Queue.{
  Falcon, reserve, notify_ioc, mark_mocked, push, notify_iocs, notify,
}

-- The checks that an indicator of an event has passed.
abbrev pub IsChecked : Settings → ThreatEvent → Ioc → Type 0
IsChecked settings event ioc =
    let clean = validate_ioc ioc.ioc_type ioc.value in
    (clean ≢ "")
    × ((is_ip ioc.ioc_type && is_private_ip clean) ≡ false)
    × (blocked_tlp settings.max_tlp (ioc.tags ++ event.tags) ≡ false)
    × (has clean never_block ≡ false)

-- A chain of four tests that ends in true has passed each.
chain_split :
    (a b c d : Bool)
    → (if a then false else if b then false else if c then false else not d) ≡ true
    → (a ≡ false) × (b ≡ false) × (c ≡ false) × (d ≡ false)
chain_split true b c d h = cc
chain_split false true c d h = cc
chain_split false false true d h = cc
chain_split false false false true h = cc
chain_split false false false false h = (refl, refl, refl, refl)

is_exportable→IsChecked :
    (settings : Settings) (event : ThreatEvent) (ioc : Ioc)
    → is_exportable settings event ioc ≡ true
    → IsChecked settings event ioc
unfolding is_exportable
is_exportable→IsChecked settings event ioc h =
    let clean = validate_ioc ioc.ioc_type ioc.value in
    let passed =
      chain_split (clean == "") (is_ip ioc.ioc_type && is_private_ip clean)
        (blocked_tlp settings.max_tlp (ioc.tags ++ event.tags)) (has clean never_block) h in
    ((λ e. ground (arith, eq_iff clean "", e, passed.0)), passed.1, passed.2, passed.3)

module _ (settings : Settings) (expiration severity : String) (event : ThreatEvent) where
  -- The indicator was pending before, or is made from one of the event that passes the checks.
  abbrev IsAccounted : List Ioc → Falcon → Indicator → Type 0
  IsAccounted iocs f x =
      Memᴰ x f.pending
      ⊎ ((ioc : Ioc) × Memᴰ ioc iocs
          × (x ≡ to_indicator settings expiration severity event ioc)
          × IsChecked settings event ioc)

  reserve_pending : (i : Indicator) (f : Falcon) → (reserve i f).1.pending ≡ f.pending
  unfolding reserve
  reserve_pending i f =
      elim (Bool-cases (has (dedup_key i) f.sent || has (dedup_key i) f.pending_keys)) [
        | inl e ↦ rw (e, reserve)
        | inr e ↦ rw (e, reserve)
      ]

  -- What is pending after one round was pending, or is the indicator of a checked one.
  notify_ioc_pending :
      (ioc : Ioc) (count : ℕ) (flush : Bool) (f : Falcon) (x : Indicator)
      → Memᴰ x (notify_ioc settings expiration severity event ioc (count, flush, f)).2.pending
      → Memᴰ x f.pending
        ⊎ ((x ≡ to_indicator settings expiration severity event ioc) × IsChecked settings event ioc)
  unfolding notify_ioc push mark_mocked
  notify_ioc_pending ioc count flush f x m =
      let i = to_indicator settings expiration severity event ioc in
      elim (Bool-cases (is_exportable settings event ioc)) [
        | inr e ↦ inl (rw (e, notify_ioc) at m)
        | inl e ↦ elim (Bool-cases (reserve i f).0) [
          | inr old ↦ inl (rw (e, old, notify_ioc) at m)
          | inl fresh ↦ elim (Bool-cases settings.mock) [
            | inl mocked ↦ inl (rw (e, fresh, mocked, notify_ioc, reserve_pending i f) at m)
            | inr real ↦
                let m' : Memᴰ x (f.pending ++ (i ∷ [])) =
                  rw (e, fresh, real, notify_ioc, reserve_pending i f) at m in
                elim (Memᴰ.append_cases f.pending m') [
                  | inl before ↦ inl before
                  | inr now ↦
                      inr (Memᴰ.eq_of_singleton now, is_exportable→IsChecked settings event ioc e)
                ]
          ]
        ]
      ]

  notify_iocs_pending :
      (iocs : List Ioc) (count : ℕ) (flush : Bool) (f : Falcon) (x : Indicator)
      → Memᴰ x (notify_iocs settings expiration severity event iocs (count, flush, f)).2.pending
      → IsAccounted iocs f x
  unfolding notify_iocs
  notify_iocs_pending [] count flush f x m = inl m
  notify_iocs_pending (ioc ∷ iocs) count flush f x m =
      let s = notify_ioc settings expiration severity event ioc (count, flush, f) in
      elim (notify_iocs_pending iocs s.0 s.1 s.2 x m) [
        | inr (later, n, made, checked) ↦ inr (later, Memᴰ.tail n, made, checked)
        | inl earlier ↦ elim (notify_ioc_pending ioc count flush f x earlier) [
          | inl before ↦ inl before
          | inr (made, checked) ↦ inr (ioc, Memᴰ.head refl, made, checked)
        ]
      ]

-- What is pending after Notify was pending before, or it is made from an indicator of the event
-- whose severity reaches the floor, and that indicator has passed every check: its value is valid,
-- it is no private address, no TLP level above the limit is the first known one among its tags and
-- the event's, and it is not on the list of what must never be blocked.
pub notify-IsChecked :
    (settings : Settings) (expiration severity : String) (event : ThreatEvent) (f : Falcon)
    (x : Indicator)
    → Memᴰ x (notify settings expiration severity event f).2.pending
    → Memᴰ x f.pending
      ⊎ ((ioc : Ioc) × Memᴰ ioc event.iocs
          × (x ≡ to_indicator settings expiration severity event ioc)
          × IsChecked settings event ioc
          × (meets_severity severity settings.min_severity ≡ true))
unfolding notify
notify-IsChecked settings expiration severity event f x m = elim (Bool-cases (is_nil event.iocs)) [
  | inl e ↦ inl (rw (e, notify) at m)
  | inr e ↦ elim (Bool-cases (meets_severity severity settings.min_severity)) [
    | inr low ↦ inl (rw (e, low, notify) at m)
    | inl high ↦
        elim (notify_iocs_pending settings expiration severity event event.iocs 0 false f x
          (rw (e, high, notify) at m)) [
            | inl before ↦ inl before
            | inr (ioc, n, made, checked) ↦ inr (ioc, n, made, checked, high)
          ]
  ]
]
