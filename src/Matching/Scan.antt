-- ===== src/Matching/Scan.antt =====
-- The regular expressions of internal/match/version/version.go, as scans from left to right.
use Prim.Native.Char.{Char, code}
use Prim.Native.String.{String, [], ◌∷◌}
use mathlib.Core.Option.{Option, none, some}
use threat_intel_arbiter.Common.{
  ℕ, suc, ◌≡◌, refl, Bool, true, false, ◌&&◌, leb, eqb, if◌then◌else◌, has_prefix, trim_prefix,
  ◌==◌,
}

unfoldable pub is_digit : Char → Bool
is_digit c = leb b'0' (code c) && leb (code c) b'9'

-- In a shape the letter `d` stands for a digit, and every other character for itself.
fits : Char → Char → Bool
unfolding is_digit
fits d c = if eqb (code d) b'd' then is_digit c else eqb (code d) (code c)

-- The whole text has the shape: `^…$`.
unfoldable pub has_shape : String → String → Bool
unfolding fits
has_shape [] [] = true
has_shape [] (c ∷ s) = false
has_shape (d ∷ p) [] = false
has_shape (d ∷ p) (c ∷ s) = fits d c && has_shape p s

-- The digits at the front of a text, and what follows them.
unfoldable pub span_digits : String → String × String
unfolding is_digit
span_digits [] = ([], [])
span_digits (c ∷ s) =
    let (ds, rest) = span_digits s in if is_digit c then (c ∷ ds, rest) else ([], c ∷ s)

-- `\d+` at the front of a text: the digits, and what follows them.
unfoldable pub digits_at : String → Option (String × String)
unfolding span_digits
digits_at s = let (ds, rest) = span_digits s in if ds == "" then none else some (ds, rest)

infixl 5 ◌>>=◌
abbrev ◌>>=◌ {ℓ κ} : {A : Type ℓ} {B : Type κ} → Option A → (A → Option B) → Option B
none >>= f = none
some a >>= f = f a

abbrev dot_at : String → Option String
dot_at s = if has_prefix s "." then some (trim_prefix s ".") else none

-- `(\d+)\.(\d+)` at the front of a text: both runs of digits, and what follows them.
unfoldable pub pair_at : String → Option (String × String × String)
unfolding digits_at has_prefix trim_prefix
pair_at s = do (a, r) ← digits_at s; r ← dot_at r; (b, r) ← digits_at r; some (a, b, r)

abbrev is_some {ℓ} : {A : Type ℓ} → Option A → Bool
is_some none = false
is_some (some a) = true

-- `^\d+\.\d+`, which is also when `^\d+\.\d+(\.\d+)?` matches.
unfoldable pub starts_pair : String → Bool
unfolding pair_at
starts_pair s = is_some (pair_at s)

-- `^\d+\.\d+\.\d+`.
unfoldable pub starts_triple : String → Bool
unfolding pair_at
starts_triple s = is_some do (a, b, r) ← pair_at s; r ← dot_at r; digits_at r

abbrev or_else {ℓ} : {A : Type ℓ} → Option A → Option A → Option A
or_else none o = o
or_else (some a) o = some a

-- The leftmost match of `(\d+)\.(\d+)`.
unfoldable pub find_pair : String → Option (String × String)
unfolding pair_at
find_pair [] = none
find_pair (c ∷ s) =
    let here : Option (String × String) = (do (a, b, r) ← pair_at (c ∷ s); some (a, b)) in
    or_else here (find_pair s)

-- The digits of the leftmost match of `SPS(\d+)`.
unfoldable pub find_sps : String → Option String
unfolding digits_at has_prefix trim_prefix
find_sps [] = none
find_sps (c ∷ s) =
    let here : Option String =
      if has_prefix (c ∷ s) "SPS"
      then (do (ds, r) ← digits_at (trim_prefix (c ∷ s) "SPS"); some ds)
      else none in
    or_else here (find_sps s)

-- `strings.Count(s, sep)` for a separator of one character, given by its code.
unfoldable pub count : String → ℕ → ℕ
count [] sep = 0
count (c ∷ s) sep = if eqb (code c) sep then suc (count s sep) else count s sep

scan_tests :
    (has_shape "dddd-dd-dd" "2024-01-15" ≡ true)
    × (has_shape "10.0.dddd" "10.0.20348" ≡ false)
    × (starts_triple "5.10.0-26-generic" ≡ true)
    × (starts_triple "5.10" ≡ false)
    × (find_pair "SAP 7.5 SPS22" ≡ some ("7", "5"))
    × (find_sps "7.5 SPS SPS22" ≡ some "22")
    × (count "a-b-c" b'-' ≡ 2)
unfolding has_shape starts_triple find_pair find_sps count
scan_tests = (refl, refl, refl, refl, refl, refl, refl)
