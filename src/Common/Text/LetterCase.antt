-- ===== src/Common/Text/LetterCase.antt =====
-- No upper-case letter is left by `to_lower`, so it finds no word that has one.
use Prim.Native.Nat.{ℕ, ◌-◌, ◌<◌}
use Prim.Native.Char.{Char, code}
use Prim.Native.String.{String, [], ◌∷◌, char_at}
use mathlib.Core.Path.{◌≡◌, refl}
use mathlib.Core.Bool.{Bool, true, false, not, ◌&&◌, ◌||◌}
use native.Mathlib.Omega.{arith}
use threat_intel_arbiter.Common.Tests.{leb, eqb, Bool-cases, every_below, every_below_lem}
use threat_intel_arbiter.Common.Text.{lower_char, to_lower, has_prefix, contains}
use mathlib.Core.Logic.{inl, inr}

is_upper : Char → Bool
is_upper c = leb b'A' (code c) && leb (code c) b'Z'

unfoldable pub has_upper : String → Bool
unfolding is_upper
has_upper [] = false
has_upper (c ∷ s) = is_upper c || has_upper s

abbrev lower_at : ℕ → Char
lower_at k = char_at "abcdefghijklmnopqrstuvwxyz" k

lower_table : every_below (λ k. not (is_upper (lower_at k))) 26 ≡ true
unfolding every_below is_upper
lower_table = refl

lower_at_lem : (k : ℕ) → k < 26 → is_upper (lower_at k) ≡ false
lower_at_lem k h =
    ground (arith, every_below_lem (λ k. not (is_upper (lower_at k))) 26 k lower_table h)

is_upper-lower_char : (c : Char) → is_upper (lower_char c) ≡ false
unfolding lower_char is_upper
is_upper-lower_char c = elim (Bool-cases (leb b'A' (code c) && leb (code c) b'Z')) [
  | inl e ↦ rw e (unfold is_upper in lower_at_lem (code c - b'A') (ground arith))
  | inr e ↦ rw e e
]

pub has_upper-to_lower : (s : String) → has_upper (to_lower s) ≡ false
unfolding has_upper to_lower
has_upper-to_lower [] = refl
has_upper-to_lower (c ∷ s) = ground (arith, is_upper-lower_char c, has_upper-to_lower s)

is_upper_same :
    (c d : Char) → eqb (code c) (code d) ≡ true → is_upper c ≡ false → is_upper d ≡ false
unfolding is_upper
is_upper_same c d e h = ground arith

has_prefix-has_upper :
    (s t : String) → has_upper s ≡ false → has_prefix s t ≡ true → has_upper t ≡ false
unfolding has_upper has_prefix
has_prefix-has_upper s [] h e = refl
has_prefix-has_upper [] (d ∷ t) h e = cc
has_prefix-has_upper (c ∷ s) (d ∷ t) h e =
    ground (arith, is_upper_same c d, has_prefix-has_upper s t)

contains-has_upper :
    (s t : String) → has_upper s ≡ false → contains s t ≡ true → has_upper t ≡ false
unfolding contains has_upper
contains-has_upper [] t h e = has_prefix-has_upper [] t refl e
contains-has_upper (c ∷ s) t h e =
    ground (arith, has_prefix-has_upper (c ∷ s) t, contains-has_upper s t)

-- A word with an upper-case letter stands in no lower-case text.
pub contains-to_lower : (s t : String) → has_upper t ≡ true → contains (to_lower s) t ≡ false
contains-to_lower s t h = elim (Bool-cases (contains (to_lower s) t)) [
  | inl e ↦ cc (contains-has_upper (to_lower s) t (has_upper-to_lower s) e, h)
  | inr e ↦ e
]
