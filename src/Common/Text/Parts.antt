-- ===== src/Common/Text/Parts.antt =====
-- Texts that are split at a character which their parts do not have.
use Prim.Native.Char.{Char, code}
use Prim.Native.String.{[], ◌∷◌, ◌++◌ as append}
use Prim.Native.Nat.{ℕ}
use mathlib.Core.Path.{◌≡◌, refl}
use mathlib.Core.Bool.{Bool, true, false, not, ◌&&◌}
use mathlib.Core.List.{[], ◌∷◌}
use native.Mathlib.Omega.{arith}
use Prim.Native.String.{String}
use text.Mathlib.TextLemmas.{nil-append, cons-append}
use threat_intel_arbiter.Common.Tests.{eqb, eqb_iff}
use threat_intel_arbiter.Common.Text.{split}

-- No character has the code.
unfoldable pub lacks : ℕ → String → Bool
lacks sep [] = true
lacks sep (c ∷ s) = not (eqb (code c) sep) && lacks sep s

lacks_cons :
    (sep : ℕ) (c : Char) (s : String)
    → lacks sep (c ∷ s) ≡ true
    → (eqb (code c) sep ≡ false) × (lacks sep s ≡ true)
unfolding lacks
lacks_cons sep c s h = (ground (arith, h), ground (arith, h))

pub lacks-append :
    (sep : ℕ) (s t : String)
    → lacks sep s ≡ true
    → lacks sep t ≡ true
    → lacks sep (append s t) ≡ true
unfolding lacks
lacks-append sep [] t h k = rw (nil-append t) k
lacks-append sep (c ∷ s) t h k =
    rw (cons-append c s t) (ground (arith, h, lacks-append sep s t (ground (arith, h)) k))

pub split_free :
    (sep : Char) (s t : String)
    → lacks (code sep) s ≡ true
    → split (append s (sep ∷ t)) (code sep) ≡ s ∷ split t (code sep)
unfolding split lacks
split_free sep [] t h = rw (nil-append (sep ∷ t)) (rw ((eqb_iff (code sep) (code sep)).1 refl))
split_free sep (c ∷ s) t h =
    let (other, rest) = lacks_cons (code sep) c s h in
    rw (cons-append c s (sep ∷ t)) (rw (other, split_free sep s t rest))

pub split_whole : (sep : ℕ) (s : String) → lacks sep s ≡ true → split s sep ≡ s ∷ []
unfolding split lacks
split_whole sep [] h = refl
split_whole sep (c ∷ s) h =
    let (other, rest) = lacks_cons sep c s h in rw (other, split_whole sep s rest)
