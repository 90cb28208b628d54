-- ===== src/Matching/Sector/Laws.antt =====
-- Which events `SectorMatcher` of internal/match/sector_matcher.go reports.
use mathlib.Core.List.Memᴰ
use threat_intel_arbiter.Common.{
  ◌≡◌, ◌≢◌, refl, ap, ◌⊎◌, subst, ◌↔◌, inl, inr, Bool, true, false, ◌&&◌, List, [], ◌∷◌, Memᴰ,
  String, to_lower, has_prefix, contains, any_witness, any_of_mem, Bool-cases, arith,
}
use threat_intel_arbiter.Common.Text.{contains-nil, to_lower-nil}
use threat_intel_arbiter.Model.{Match, ThreatEvent, OrgContext}
use threat_intel_arbiter.Matching.Sector.{
  sector_taxonomies, sector_matched, tag_match, name_actors, first_tag, match,
}

-- The tag belongs to a sector taxonomy and contains the organisation's sector, up to case.
abbrev pub IsSectorTag : OrgContext → String → Type 0
IsSectorTag org tag =
    ((prefix : String) × Memᴰ prefix sector_taxonomies × (has_prefix (to_lower tag) prefix ≡ true))
    × (contains (to_lower tag) (to_lower org.sector) ≡ true)

abbrev names : String → String → String → Bool
names tag_lower org_sector prefix = has_prefix tag_lower prefix && contains tag_lower org_sector

sector_matched_iff :
    (org : OrgContext) (tag : String)
    → (sector_matched (to_lower tag) (to_lower org.sector) ≡ true) ↔ IsSectorTag org tag
unfolding sector_matched
sector_matched_iff org tag = (
  λ h.
      let (prefix, n, e) =
        any_witness (names (to_lower tag) (to_lower org.sector)) sector_taxonomies h in
      ((prefix, n, ground arith), ground arith),
  λ ((prefix, n, e), k).
      any_of_mem (names (to_lower tag) (to_lower org.sector)) sector_taxonomies n (ground arith),
)

-- The tag loop: nothing for lack of a sector tag, or the match of one of them.
first_tag_cases :
    (org : OrgContext) (tags : List String)
    → ((first_tag org tags ≡ []) × ((tag : String) → Memᴰ tag tags → ¬ IsSectorTag org tag))
      ⊎ ((tag : String) × Memᴰ tag tags
          × IsSectorTag org tag
          × (first_tag org tags ≡ tag_match tag org ∷ []))
unfolding first_tag
first_tag_cases org [] = inl (refl, λ tag n. absurd (elim n [ ]))
first_tag_cases org (t ∷ tags) =
    elim (Bool-cases (sector_matched (to_lower t) (to_lower org.sector))) [
      | inl e ↦ inr (t, Memᴰ.head refl, (sector_matched_iff org t).0 e, rw e)
      | inr e ↦ elim (first_tag_cases org tags) [
        | inl (empty, others) ↦ inl (
          rw e empty,
          λ tag n s. elim (Memᴰ.cases_cons n) [
            | inl k ↦ cc ((sector_matched_iff org t).1 (subst (IsSectorTag org) k s), e)
            | inr k ↦ others tag k s
          ],
        )
        | inr (tag, n, s, one) ↦ inr (tag, Memᴰ.tail n, s, rw e one)
      ]
    ]

no_match :
    (event : ThreatEvent) (org : OrgContext) → first_tag org event.tags ≡ [] → match event org ≡ []
unfolding match
no_match event org e = ground arith

one_match :
    (event : ThreatEvent) (org : OrgContext) (tag : String)
    → first_tag org event.tags ≡ tag_match tag org ∷ []
    → (r : Match) × (match event org ≡ r ∷ [])
      × ((r.sector_match ≡ true) × (r.kev_match ≡ false) × (r.cve ≡ "") × (r.app_name ≡ ""))
unfolding match
one_match event org tag e = go event.threat_actors
  where
    go :
        (actors : List String)
        → (r : Match) × (name_actors actors (first_tag org event.tags) ≡ r ∷ [])
          × ((r.sector_match ≡ true) × (r.kev_match ≡ false) × (r.cve ≡ "") × (r.app_name ≡ ""))
    go [] = (tag_match tag org, e, (refl, refl, refl, refl))
    go (a ∷ others) = (_, ap (name_actors (a ∷ others)) e, (refl, refl, refl, refl))

-- The matcher reports nothing exactly when no tag of the event is a sector tag of the organisation.
-- Otherwise it reports a single match, which has `SectorMatch` and no CVE and names no app.
pub match_cases :
    (event : ThreatEvent) (org : OrgContext)
    → ((match event org ≡ []) × ((tag : String) → Memᴰ tag event.tags → ¬ IsSectorTag org tag))
      ⊎ ((r : Match) × (match event org ≡ r ∷ [])
          × (r.sector_match ≡ true)
          × (r.kev_match ≡ false)
          × (r.cve ≡ "")
          × (r.app_name ≡ "")
          × ((tag : String) × Memᴰ tag event.tags × IsSectorTag org tag))
match_cases event org = elim (first_tag_cases org event.tags) [
  | inl (empty, others) ↦ inl (no_match event org empty, others)
  | inr (tag, n, s, one) ↦
      let (r, e, facts) = one_match event org tag one in
      inr (r, e, facts.0, facts.1, facts.2, facts.3, (tag, n, s))
]

-- An organisation with an empty sector gets a sector match from every event with a tag of a sector
-- taxonomy, whatever sector that tag names.
pub empty_sector_matches :
    (event : ThreatEvent) (org : OrgContext) (tag prefix : String)
    → org.sector ≡ ""
    → Memᴰ tag event.tags
    → Memᴰ prefix sector_taxonomies
    → has_prefix (to_lower tag) prefix ≡ true
    → match event org ≢ []
empty_sector_matches event org tag prefix e n k h = elim (match_cases event org) [
  | inl (empty, others) ↦
      absurd (others tag n ((prefix, k, h), rw e (rw to_lower-nil (contains-nil (to_lower tag)))))
  | inr (r, one, a, b, c, d, f) ↦ λ empty. cc (one, empty)
]
