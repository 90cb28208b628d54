-- ===== src/Matching/Tag/Case.antt =====
-- Aliases of internal/match/tag.go that are written with an upper-case letter.
use threat_intel_arbiter.Common.{
  ◌≡◌, refl, not, List, [], ◌∷◌, String, to_lower, select, any, arith,
}
use threat_intel_arbiter.Common.Text.LetterCase.{has_upper, contains-to_lower}
use threat_intel_arbiter.Matching.Tag.{mentions}

-- Which keywords a description mentions depends only on those with no upper-case letter: a keyword
-- with one, such as the alias "menuPass" of APT10, never counts, since `Tag` lowers the text first.
pub mentions_without_upper :
    (description : String) (keywords : List String)
    → mentions (to_lower description) keywords
      ≡ mentions (to_lower description) (select (λ k. not (has_upper k)) keywords)
unfolding mentions any select
mentions_without_upper description [] = refl
mentions_without_upper description (k ∷ ks) =
    ground (arith, contains-to_lower description k, mentions_without_upper description ks)
