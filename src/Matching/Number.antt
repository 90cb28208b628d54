-- ===== src/Matching/Number.antt =====
-- `strconv.Atoi`, and the day number that `time.Parse("2006-01-02", …)` and `Unix() / 86400` give.
use Prim.Native.Char.{code}
use Prim.Native.String.{String, [], ◌∷◌}
use threat_intel_arbiter.Common.{
  ℕ, ◌+◌, ◌-◌, ◌*◌, ◌/◌, ◌%◌, ◌^◌, ◌≡◌, refl, Bool, ◌&&◌, ◌||◌, not, Option, none, some, leb, ltb,
  eqb, if◌then◌else◌,
}
use threat_intel_arbiter.Common.Int.{ℤ, pos, negsuc, sub_ℕ}
use threat_intel_arbiter.Matching.Scan.{is_digit}

-- The outcome of `ParseUint` and of `Atoi`: `ErrRange` comes with the nearest value.
pub data Parsed (A : Type 0) : Type 0 where
  ok : A → Parsed A
  err_syntax : Parsed A
  err_range : A → Parsed A

abbrev max_uint : ℕ
max_uint = 2 ^ 64 - 1

-- `strconv.ParseUint(s, 10, 64)` behind its check for the empty text; it stops at the first overflow.
scan_uint : String → ℕ → Parsed ℕ
unfolding is_digit
scan_uint [] n = ok n
scan_uint (c ∷ s) n =
    let next = n * 10 + (code c - b'0') in
    let rest = scan_uint s next in
    if not (is_digit c) then err_syntax else if ltb max_uint next then err_range max_uint else rest

abbrev parse_uint : String → Parsed ℕ
parse_uint [] = err_syntax
parse_uint (c ∷ s) = scan_uint (c ∷ s) 0

abbrev positive : Parsed ℕ → Parsed ℤ
positive (ok n) = if ltb n (2 ^ 63) then ok (pos n) else err_range (pos (2 ^ 63 - 1))
positive err_syntax = err_syntax
positive (err_range n) = err_range (pos (2 ^ 63 - 1))

abbrev negative : Parsed ℕ → Parsed ℤ
negative (ok n) = if leb n (2 ^ 63) then ok (sub_ℕ 0 n) else err_range (sub_ℕ 0 (2 ^ 63))
negative err_syntax = err_syntax
negative (err_range n) = err_range (sub_ℕ 0 (2 ^ 63))

unfoldable pub atoi : String → Parsed ℤ
unfolding scan_uint
atoi [] = err_syntax
atoi (c ∷ s) =
    if eqb (code c) b'+'
    then positive (parse_uint s)
    else if eqb (code c) b'-'
    then negative (parse_uint s)
    else positive (parse_uint (c ∷ s))

-- `n, _ := strconv.Atoi(s)`: the value where the error is dropped.
unfoldable pub atoi_value : String → ℤ
unfolding atoi
atoi_value s = elim (atoi s) [ ok n ↦ n | err_syntax ↦ pos 0 | err_range n ↦ n ]

abbrev is_leap : ℕ → Bool
is_leap y = eqb (y % 4) 0 && not (eqb (y % 100) 0) || eqb (y % 400) 0

abbrev days_in : ℕ → ℕ → ℕ
days_in y m =
    if eqb m 2
    then (if is_leap y then 29 else 28)
    else if eqb m 4 || eqb m 6 || eqb m 9 || eqb m 11
    then 30
    else 31

days_before_month : ℕ → ℕ → ℕ
days_before_month y ℕ.zero = 0
days_before_month y (ℕ.suc m) = days_before_month y m + (if eqb m 0 then 0 else days_in y m)

-- Days from 1 January of year 0 to 1 January of year `y`.
abbrev days_before_year : ℕ → ℕ
days_before_year y = 365 * y + (y + 3) / 4 + (y + 399) / 400 - (y + 99) / 100

-- The days from 1 January 1970; `none` is Go's error "month out of range" or "day out of range".
unfoldable pub unix_day : ℕ → ℕ → ℕ → Option ℤ
unfolding days_before_month
unix_day y m d =
    if leb 1 m && leb m 12 && leb 1 d && leb d (days_in y m)
    then some (sub_ℕ (days_before_year y + days_before_month y m + d - 1) 719528)
    else none

number_tests :
    (atoi "42" ≡ ok (pos 42))
    × (atoi "-7" ≡ ok (negsuc 6))
    × (atoi "" ≡ err_syntax)
    × (atoi "1x" ≡ err_syntax)
    × (atoi_value "9223372036854775808" ≡ pos (2 ^ 63 - 1))
    × (unix_day 1970 1 1 ≡ some (pos 0))
    × (unix_day 2000 3 1 ≡ some (pos 11017))
    × (unix_day 1969 12 31 ≡ some (negsuc 0))
    × (unix_day 2023 2 29 ≡ none)
    × (unix_day 2024 1 15 ≡ some (pos 19737))
unfolding atoi atoi_value unix_day
number_tests = (refl, refl, refl, refl, refl, refl, refl, refl, refl, refl)
