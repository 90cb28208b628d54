-- ===== src/Matching/Version.antt =====
-- internal/match/version/version.go: version schemes, and the affected range of a version.
-- An error value is `none`: the callers look only at whether there is one.
pub mod Order
pub mod Range
use Prim.Native.Nat.{Ordering}
use threat_intel_arbiter.Common.{
  ℕ, leb, ◌≡◌, refl, Bool, true, false, not, ◌&&◌, ◌||◌, List, [], ◌∷◌, Option, none, some, String,
  ◌==◌, if◌then◌else◌, trim_space, trim_prefix, to_upper, contains, split,
}
use threat_intel_arbiter.Common
use threat_intel_arbiter.Common.Int.{ℤ, pos, pos_part, ltb_ℤ}
use threat_intel_arbiter.Matching.Scan.{
  has_shape, starts_pair, starts_triple, find_pair, find_sps, count,
}
use threat_intel_arbiter.Matching.Number.{
  Parsed, ok, err_syntax, err_range, atoi, atoi_value, unix_day,
}

pub data Scheme : Type 0 where
  semver date sap windows linux_kernel unknown : Scheme

abbrev is_kernel : String → Bool
is_kernel v = contains v "-generic" || contains v "-aws" || leb 2 (count v b'-')

abbrev has_dots : String → Bool
has_dots v = leb 2 (count v b'.') || Common.eqb (count v b'.') 1

abbrev detect_trimmed : String → Scheme
detect_trimmed v =
    if has_shape "dddd-dd-dd" v
    then date
    else if contains (to_upper v) "SPS"
    then sap
    else if has_shape "10.0.dddd" v || has_shape "10.0.ddddd" v
    then windows
    else if starts_triple v && is_kernel v
    then linux_kernel
    else if starts_pair v && has_dots v
    then semver
    else unknown

unfoldable pub detect : String → Scheme
detect v = detect_trimmed (trim_prefix (trim_space v) "v")

-- One round of the loop of `parseSemver`: the error of `Atoi` ends it.
abbrev and_then : Parsed ℤ → Option (List ℤ) → Option (List ℤ)
and_then (ok n) (some ns) = some (n ∷ ns)
and_then (ok n) none = none
and_then err_syntax rest = none
and_then (err_range n) rest = none

unfoldable pub parse_parts : List String → Option (List ℤ)
unfolding atoi trim_space
parse_parts [] = some []
parse_parts (p ∷ ps) = and_then (atoi (trim_space p)) (parse_parts ps)

unfoldable pub parse_semver : String → Option (List ℤ)
unfolding parse_parts split trim_prefix
parse_semver v = parse_parts (split (trim_prefix v "v") b'.')

abbrev day_of : List String → Option (List ℤ)
day_of (y ∷ m ∷ d ∷ []) =
    elim (unix_day (pos_part (atoi_value y)) (pos_part (atoi_value m)) (pos_part (atoi_value d))) [
      | none ↦ none
      | some day ↦ some (day ∷ [])
    ]
day_of _ = none

-- `time.Parse("2006-01-02", v)` refuses all but four, two and two digits with dashes.
unfoldable pub parse_date : String → Option (List ℤ)
unfolding has_shape split atoi_value unix_day
parse_date v = if has_shape "dddd-dd-dd" v then day_of (split v b'-') else none

abbrev sps_number : Option String → ℤ
sps_number none = pos 0
sps_number (some ds) = atoi_value ds

abbrev base_number : Option (String × String) → ℤ × ℤ
base_number none = (pos 0, pos 0)
base_number (some (a, b)) = (atoi_value a, atoi_value b)

unfoldable pub parse_sap : String → Option (List ℤ)
unfolding to_upper find_sps find_pair atoi_value
parse_sap v =
    let upper = to_upper v in
    let sps_num = sps_number (find_sps upper) in
    let (major, minor) = base_number (find_pair upper) in some (major ∷ minor ∷ sps_num ∷ [])

-- The first three parts; the errors of `Atoi` are dropped.
abbrev three_values : List String → Option (List ℤ)
three_values (a ∷ b ∷ c ∷ rest) = some (atoi_value a ∷ atoi_value b ∷ atoi_value c ∷ [])
three_values _ = none

unfoldable pub parse_windows : String → Option (List ℤ)
unfolding split atoi_value
parse_windows v = three_values (split v b'.')

-- `strings.SplitN(v, "-", 2)[0]`: what stands before the first dash.
abbrev first_part : List String → String
first_part [] = ""
first_part (p ∷ ps) = p

unfoldable pub parse_linux_kernel : String → Option (List ℤ)
unfolding split atoi_value
parse_linux_kernel v = three_values (split (first_part (split v b'-')) b'.')

abbrev pub parse_as : Scheme → String → Option (List ℤ)
parse_as semver v = parse_semver v
parse_as date v = parse_date v
parse_as sap v = parse_sap v
parse_as windows v = parse_windows v
parse_as linux_kernel v = parse_linux_kernel v
parse_as unknown v = none

-- The scheme, and the tuple if there is no error.
unfoldable pub parse : String → Scheme × Option (List ℤ)
parse v = let scheme = detect v in (scheme, parse_as scheme (trim_space v))

-- `Ordering.lt`, `eq` and `gt` are the results -1, 0 and 1.
unfoldable pub compare_tuples : List ℤ → List ℤ → Ordering
compare_tuples [] [] = Ordering.eq
compare_tuples [] (y ∷ b) = Ordering.lt
compare_tuples (x ∷ a) [] = Ordering.gt
compare_tuples (x ∷ a) (y ∷ b) =
    if ltb_ℤ x y then Ordering.lt else if ltb_ℤ y x then Ordering.gt else compare_tuples a b

abbrev pub is_lt : Ordering → Bool
is_lt Ordering.lt = true
is_lt Ordering.eq = false
is_lt Ordering.gt = false

abbrev pub is_gt : Ordering → Bool
is_gt Ordering.lt = false
is_gt Ordering.eq = false
is_gt Ordering.gt = true

abbrev pub is_unknown : Scheme → Bool
is_unknown unknown = true
is_unknown _ = false

-- How the installed version stands to one bound of the range.
pub data Bound : Type 0 where
  within outside unparsed : Bound

unfoldable pub check_bound : (Ordering → Bool) → List ℤ → String → Bound
check_bound beyond tuple bound = if bound == "" then within else elim ((parse bound).1) [
  | none ↦ unparsed
  | some other ↦ if beyond (compare_tuples tuple other) then outside else within
]

-- `boundsConfirmed` is true if neither bound was unparsed.
abbrev settle : Scheme → Bound → Bound → Bool × String
settle scheme outside end = (false, "exact_version_match")
settle scheme within outside = (false, "exact_version_match")
settle scheme unparsed outside = (false, "exact_version_match")
settle scheme within within =
    if not (is_unknown scheme) then (true, "exact_version_match") else (true, "product_only_match")
settle scheme within unparsed = (true, "product_only_match")
settle scheme unparsed within = (true, "product_only_match")
settle scheme unparsed unparsed = (true, "product_only_match")

abbrev range_of : Scheme → Option (List ℤ) → String → String → Bool × String
range_of scheme none start end = (true, "product_only_match")
range_of scheme (some tuple) start end =
    settle scheme (check_bound is_lt tuple start) (check_bound is_gt tuple end)

unfoldable pub in_range : String → String → String → Bool × String
in_range version start end = let (scheme, tuple) = parse version in range_of scheme tuple start end
