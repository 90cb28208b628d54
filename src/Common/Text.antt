-- ===== src/Common/Text.antt =====
-- The operations of Go's package `strings` that the program uses, over native texts.
-- A Go string is read as its characters. `to_lower` and `to_upper` map the letters of ASCII and
-- leave every other character; `is_space` is Go's `unicode.IsSpace`.
pub mod LetterCase
pub mod Parts
pub mod Prefix
use Prim.Native.Nat.{ℕ, zero, suc, ◌-◌, ◌/◌, ◌%◌}
use Prim.Native.Char.{Char, code}
use Prim.Native.String.{String, [], ◌∷◌, ◌++◌, char_at}
use text.Mathlib.Text.{◌==◌}
use mathlib.Core.Path.{◌≡◌, refl}
use mathlib.Core.Bool.{Bool, true, false, ◌&&◌, ◌||◌}
use mathlib.Core.List.{List, [], ◌∷◌}
use native.Mathlib.Omega.{arith}
use threat_intel_arbiter.Common.Tests.{leb, ltb, eqb, if◌then◌else◌}

lower_char : Char → Char
lower_char c =
    if leb b'A' (code c) && leb (code c) b'Z'
    then char_at "abcdefghijklmnopqrstuvwxyz" (code c - b'A')
    else c

upper_char : Char → Char
upper_char c =
    if leb b'a' (code c) && leb (code c) b'z'
    then char_at "ABCDEFGHIJKLMNOPQRSTUVWXYZ" (code c - b'a')
    else c

unfoldable pub to_lower : String → String
unfolding lower_char
to_lower [] = []
to_lower (c ∷ s) = lower_char c ∷ to_lower s

unfoldable pub to_upper : String → String
unfolding upper_char
to_upper [] = []
to_upper (c ∷ s) = upper_char c ∷ to_upper s

is_space : Char → Bool
is_space c =
    (leb 9 (code c) && leb (code c) 13)
    || eqb (code c) 0x20
    || eqb (code c) 0x85
    || eqb (code c) 0xa0
    || eqb (code c) 0x1680
    || (leb 0x2000 (code c) && leb (code c) 0x200a)
    || eqb (code c) 0x2028
    || eqb (code c) 0x2029
    || eqb (code c) 0x202f
    || eqb (code c) 0x205f
    || eqb (code c) 0x3000

trim_left : String → String
unfolding is_space
trim_left [] = []
trim_left (c ∷ s) = if is_space c then trim_left s else c ∷ s

-- A space is dropped where only spaces follow.
push_trimmed : Char → String → String
unfolding is_space
push_trimmed c [] = if is_space c then [] else c ∷ []
push_trimmed c (d ∷ s) = c ∷ d ∷ s

trim_right : String → String
unfolding push_trimmed
trim_right [] = []
trim_right (c ∷ s) = push_trimmed c (trim_right s)

unfoldable pub trim_space : String → String
unfolding trim_left trim_right
trim_space s = trim_right (trim_left s)

-- `strings.HasPrefix(s, t)`.
unfoldable pub has_prefix : String → String → Bool
has_prefix s [] = true
has_prefix [] (d ∷ t) = false
has_prefix (c ∷ s) (d ∷ t) = eqb (code c) (code d) && has_prefix s t

-- `strings.HasSuffix(s, t)`.
unfoldable pub has_suffix : String → String → Bool
has_suffix [] t = [] == t
has_suffix (c ∷ s) t = (c ∷ s) == t || has_suffix s t

-- What is left of `s` behind as many characters as `t` has.
unfoldable drop_like : String → String → String
drop_like s [] = s
drop_like [] (d ∷ t) = []
drop_like (c ∷ s) (d ∷ t) = drop_like s t

-- `strings.TrimPrefix(s, t)`.
unfoldable pub trim_prefix : String → String → String
unfolding has_prefix drop_like
trim_prefix s t = if has_prefix s t then drop_like s t else s

-- `strings.Contains(s, t)`.
unfoldable pub contains : String → String → Bool
unfolding has_prefix
contains [] t = has_prefix [] t
contains (c ∷ s) t = has_prefix (c ∷ s) t || contains s t

-- `len(s)`, for a text of ASCII characters.
unfoldable pub text_length : String → ℕ
text_length [] = 0
text_length (c ∷ s) = suc (text_length s)

-- `s[:n]`, or the whole text where it is shorter.
unfoldable pub take_text : ℕ → String → String
take_text zero s = []
take_text (suc n) [] = []
take_text (suc n) (c ∷ s) = c ∷ take_text n s

-- `s[n:]`, or the empty text.
unfoldable pub drop_text : ℕ → String → String
drop_text zero s = s
drop_text (suc n) [] = []
drop_text (suc n) (c ∷ s) = drop_text n s

-- A character in front of the first part.
push_part : Char → List String → List String
push_part c [] = (c ∷ []) ∷ []
push_part c (p ∷ ps) = (c ∷ p) ∷ ps

-- `strings.Split(s, sep)` for a separator of one character, given by its code.
unfoldable pub split : String → ℕ → List String
unfolding push_part
split [] sep = [] ∷ []
split (c ∷ s) sep = if eqb (code c) sep then [] ∷ split s sep else push_part c (split s sep)

-- `strings.Join(parts, sep)`.
unfoldable pub join : List String → String → String
join [] sep = ""
join (p ∷ []) sep = p
join (p ∷ q ∷ ps) sep = p ++ (sep ++ join (q ∷ ps) sep)

-- `strings.EqualFold(s, t)`.
unfoldable pub equal_fold : String → String → Bool
unfolding to_lower
equal_fold s t = to_lower s == to_lower t

-- The decimal digits of a number, on fuel: a number has no more digits than its successor says.
show_from : ℕ → ℕ → String → String
show_from zero n acc = acc
show_from (suc fuel) n acc =
    let longer : String = char_at "0123456789" (n % 10) ∷ acc in
    let rest = show_from fuel (n / 10) longer in if ltb n 10 then longer else rest

-- `fmt.Sprintf("%d", n)` for a number that is not negative.
unfoldable pub show : ℕ → String
unfolding show_from
show n = show_from (suc n) n ""

text_tests :
    (to_lower "CVE-2024 Ä" ≡ "cve-2024 Ä")
    × (to_upper " cve-1z" ≡ " CVE-1Z")
    × (trim_space "  a b \n" ≡ "a b")
    × (contains "openssl" "ssl" ≡ true)
    × (contains "ssl" "" ≡ true)
    × (trim_prefix "v1.2" "v" ≡ "1.2")
    × (split "1.2.3" b'.' ≡ "1" ∷ "2" ∷ "3" ∷ [])
    × (join ("a" ∷ "b" ∷ []) ", " ≡ "a, b")
    × (has_suffix "host.local" ".local" ≡ true)
    × (show 907 ≡ "907")
unfolding to_lower to_upper trim_space contains trim_prefix split join has_suffix show
text_tests = (refl, refl, refl, refl, refl, refl, refl, refl, refl, refl)

pub contains-nil : (s : String) → contains s "" ≡ true
unfolding contains
contains-nil [] = refl
contains-nil (c ∷ s) = refl

pub has_prefix_refl : (s : String) → has_prefix s s ≡ true
unfolding has_prefix
has_prefix_refl [] = refl
has_prefix_refl (c ∷ s) = ground (arith, has_prefix_refl s)

pub contains_refl : (s : String) → contains s s ≡ true
unfolding contains
contains_refl [] = refl
contains_refl (c ∷ s) = ground (arith, has_prefix_refl s)

pub to_lower-nil : to_lower "" ≡ ""
unfolding to_lower
to_lower-nil = refl
