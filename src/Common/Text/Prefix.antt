-- ===== src/Common/Text/Prefix.antt =====
-- A text put in front of another.
use Prim.Native.Char.{code}
use Prim.Native.String.{String, [], ◌∷◌, ◌++◌ as append}
use Prim.Native.Nat.{◌+◌, ◌<◌}
use mathlib.Core.Path.{◌≡◌, refl, ap, ◌∙◌}
use mathlib.Core.Bool.{true, false}
use mathlib.Core.Logic.{inl, inr}
use native.Mathlib.Omega.{arith}
use text.Mathlib.Text.{◌==◌}
use text.Mathlib.TextEquality.{eq_iff}
use text.Mathlib.TextLemmas.{nil-append, cons-append}
use threat_intel_arbiter.Common.Tests.{eqb_iff, Bool-cases}
use threat_intel_arbiter.Common.Text.{has_prefix, trim_prefix, drop_like, text_length}

pub has_prefix-append : (s t : String) → has_prefix (append s t) s ≡ true
unfolding has_prefix
has_prefix-append [] t = refl
has_prefix-append (c ∷ s) t =
    rw (cons-append c s t) (rw ((eqb_iff (code c) (code c)).1 refl) (has_prefix-append s t))

drop_like-append : (s t : String) → drop_like (append s t) s ≡ t
unfolding drop_like
drop_like-append [] t = nil-append t
drop_like-append (c ∷ s) t = rw (cons-append c s t) (drop_like-append s t)

pub trim_prefix-append : (s t : String) → trim_prefix (append s t) s ≡ t
unfolding trim_prefix
trim_prefix-append s t = rw (trim_prefix, has_prefix-append s t) (drop_like-append s t)

text_length-append : (s t : String) → text_length (append s t) ≡ text_length s + text_length t
unfolding text_length
text_length-append [] t = rw (nil-append t) (omega arith)
text_length-append (c ∷ s) t = rw (cons-append c s t) (omega (arith, text_length-append s t))

-- A text is not the same with something in front.
pub append_not_same : (s t : String) → 0 < text_length s → (t == append s t) ≡ false
append_not_same s t h = elim (Bool-cases (t == append s t)) [
  | inr e ↦ e
  | inl e ↦
      let same : text_length t ≡ text_length s + text_length t =
        ap text_length ((eq_iff t (append s t)).0 e) ∙ text_length-append s t in
      ground (arith, same, h)
]
