-- ===== src/Matching/Kev/Laws.antt =====
-- The catalog after `Replace`, and which CVEs `KEVMatcher` of internal/match/kev_matcher.go reports.
use mathlib.Core.List.Memᴰ
use threat_intel_arbiter.Common.{
  ◌≡◌, ◌≢◌, refl, ◌↔◌, Bool, true, false, ◌||◌, ◌&&◌, not, any, any_witness, any_of_mem, List, [],
  ◌∷◌, Memᴰ, String, ◌==◌, eq_iff, if◌then◌else◌, collect_witness, mem-collect, arith,
}
use threat_intel_arbiter.Common.Dict
use threat_intel_arbiter.Common.Dict.{add, has-add}
use threat_intel_arbiter.Model.{Match, ThreatEvent, OrgContext}
use threat_intel_arbiter.Matching.Kev.{KevMatcher, normalize_cve, fill, replace, has, hit, match}

-- The CVE is on a list, up to case and the spaces around it, and is not blank.
abbrev pub IsListed : List String → String → Type 0
IsListed ids cve =
    (normalize_cve cve ≢ "")
    × ((id : String) × Memᴰ id ids × (normalize_cve id ≡ normalize_cve cve))

has-fill :
    (set ids : List String) (k : String)
    → Dict.has k (fill set ids)
      ≡ (Dict.has k set || (not (k == "") && any (λ id. normalize_cve id == k) ids))
unfolding fill any
has-fill set [] k = ground arith
has-fill set (i ∷ ids) k = ground (
  arith,
  has-fill (if normalize_cve i == "" then set else add (normalize_cve i) set) ids k,
  has-add (normalize_cve i) k set,
  eq_iff (normalize_cve i) k,
  eq_iff (normalize_cve i) "",
  eq_iff k "",
)

has-replace_bool :
    (ids : List String) (m : KevMatcher) (cve : String)
    → has (replace ids m) cve
      ≡ (not (normalize_cve cve == "") && any (λ id. normalize_cve id == normalize_cve cve) ids)
unfolding has replace Dict.has
has-replace_bool ids m cve = has-fill [] ids (normalize_cve cve)

-- After `Replace` the catalog holds exactly the CVEs of the new list that are not blank, up to case
-- and the spaces around them, whatever it held before.
pub has-replace :
    (ids : List String) (m : KevMatcher) (cve : String)
    → (has (replace ids m) cve ≡ true) ↔ IsListed ids cve
has-replace ids m cve = (
  λ h.
      let (id, n, e) =
        any_witness (λ id. normalize_cve id == normalize_cve cve) ids
          (ground (arith, has-replace_bool ids m cve)) in
      (
        ground (arith, has-replace_bool ids m cve, eq_iff (normalize_cve cve) ""),
        (id, n, (eq_iff _ _).0 e),
      ),
  λ (ne, (id, n, e)). ground (
    arith,
    has-replace_bool ids m cve,
    any_of_mem (λ id. normalize_cve id == normalize_cve cve) ids n ((eq_iff _ _).1 e),
    eq_iff (normalize_cve cve) "",
  ),
)

mem-hit_if :
    (b : Bool) (cve : String) (r : Match)
    → Memᴰ r (if b then hit cve ∷ [] else [])
    → (b ≡ true) × (r ≡ hit cve)
mem-hit_if true cve r n = (refl, Memᴰ.eq_of_singleton n)
mem-hit_if false cve r n = absurd (elim n [ ])

-- With the catalog of the last `Replace`, the matches are exactly the hits of those CVEs of the
-- event that are on the list.
pub mem-match-replace :
    (ids : List String) (m : KevMatcher) (event : ThreatEvent) (org : OrgContext) (r : Match)
    → Memᴰ r (match (replace ids m) event org)
      ↔ ((cve : String) × Memᴰ cve event.cves × IsListed ids cve × (r ≡ hit cve))
unfolding match
mem-match-replace ids m event org r = (
  λ n.
      let (cve, k, n') =
        collect_witness (λ cve. if has (replace ids m) cve then hit cve ∷ [] else []) event.cves
          n in
      let (h, e) = mem-hit_if (has (replace ids m) cve) cve r n' in
      (cve, k, (has-replace ids m cve).0 h, e),
  λ (cve, k, listed, e).
      mem-collect _ event.cves k (rw ((has-replace ids m cve).1 listed) (Memᴰ.head e)),
)
