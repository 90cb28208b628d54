-- ===== src/Dashboard/Search/Placeholders.antt =====
-- internal/api/server.go: no text of a request gets into the query.
use Prim.Native.Char.{code}
use Prim.Native.String.{[], ◌∷◌}
use mathlib.Core.List.{[], ◌∷◌, ◌++◌}
use threat_intel_arbiter.Common.{
  ℕ, suc, ◌≡◌, refl, ap, Bool, true, false, String, ◌==◌, eqb, if◌then◌else◌, join, length,
}
use threat_intel_arbiter.Dashboard.Search.{
  Filters, unless, like, conditions_without, select_where, conditions, arguments, alerts_query,
}

-- How often a character stands in a text.
unfoldable pub count_code : ℕ → String → ℕ
count_code k [] = 0
count_code k (c ∷ s) = let rest = count_code k s in if eqb (code c) k then suc rest else rest

counted :
    (a b c d : Bool) (s t u v : String)
    → count_code b'?' (select_where (conditions_without a b c d))
      ≡ length (
          unless a (like s ∷ like s ∷ [])
          ++ (unless b (like t ∷ []) ++ (unless c (u ∷ []) ++ unless d (v ∷ []))))
unfolding count_code select_where conditions_without join
counted true true true true s t u v = refl
counted true true true false s t u v = refl
counted true true false true s t u v = refl
counted true true false false s t u v = refl
counted true false true true s t u v = refl
counted true false true false s t u v = refl
counted true false false true s t u v = refl
counted true false false false s t u v = refl
counted false true true true s t u v = refl
counted false true true false s t u v = refl
counted false true false true s t u v = refl
counted false true false false s t u v = refl
counted false false true true s t u v = refl
counted false false true false s t u v = refl
counted false false false true s t u v = refl
counted false false false false s t u v = refl

-- No text of a request gets into the query of the search: two requests that give the same parameters,
-- with whatever texts, have the same query; and the query has as many placeholders as arguments.
pub alerts_query_lem :
    (q q' : Filters)
    → (q.search == "") ≡ (q'.search == "")
    → (q.app == "") ≡ (q'.app == "")
    → (q.status == "") ≡ (q'.status == "")
    → (q.severity == "") ≡ (q'.severity == "")
    → (alerts_query q ≡ alerts_query q') × (count_code b'?' (alerts_query q) ≡ length (arguments q))
unfolding alerts_query conditions arguments
alerts_query_lem q q' h1 h2 h3 h4 =
    let same : conditions q ≡ conditions q' = rw (conditions, h1, h2, h3, h4) refl in
    (
      ap select_where same,
      counted (q.search == "") (q.app == "") (q.status == "") (q.severity == "") q.search q.app
          q.status q.severity,
    )
