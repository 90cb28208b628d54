-- ===== src/Notify/Crowdstrike/Validation.antt =====
-- internal/notify/crowdstrike.go: the cleaning and the checks of an indicator's value, and the TLP
-- marking. The environment's CROWDSTRIKE_MAX_TLP is an argument.
use Prim.Native.Char.{Char, code}
use Prim.Native.String.{[], ◌∷◌, ◌++◌}
use mathlib.Core.List.{List, [], ◌∷◌}
use threat_intel_arbiter.Common.{
  text_length, ℕ, zero, suc, ◌-◌, ◌≡◌, refl, Bool, true, false, not, ◌&&◌, ◌||◌, Option, none, some,
  String, ◌==◌, leb, ltb, eqb, if◌then◌else◌, split, to_lower, trim_space, trim_prefix, has_prefix,
  has_suffix,
}
use threat_intel_arbiter.Common.Dict.{lookup}
use threat_intel_arbiter.Notify.Crowdstrike.Ip.{parse_ip, show_ip}

-- `strings.ReplaceAll`, with the number of characters of the last match still to skip.
replace_from : String → String → ℕ → String → String
unfolding has_prefix text_length
replace_from old new skip [] = []
replace_from old new (suc skip) (c ∷ s) = replace_from old new skip s
replace_from old new zero (c ∷ s) =
    let matched = replace_from old new (text_length old - 1) s in
    let unmatched = replace_from old new 0 s in
    if has_prefix (c ∷ s) old then new ++ matched else c ∷ unmatched

unfoldable pub replace_all : String → String → String → String
unfolding replace_from
replace_all s old new = replace_from old new 0 s

is_dot : Char → Bool
is_dot c = eqb (code c) b'.'

trim_left_dots : String → String
unfolding is_dot
trim_left_dots [] = []
trim_left_dots (c ∷ s) = if is_dot c then trim_left_dots s else c ∷ s

push_undotted : Char → String → String
unfolding is_dot
push_undotted c [] = if is_dot c then [] else c ∷ []
push_undotted c (d ∷ s) = c ∷ d ∷ s

trim_right_dots : String → String
unfolding push_undotted
trim_right_dots [] = []
trim_right_dots (c ∷ s) = push_undotted c (trim_right_dots s)

-- The value with its scheme taken off and its dots put back.
unfoldable pub refang : String → String
unfolding to_lower trim_space trim_prefix replace_all trim_left_dots trim_right_dots
refang value =
    let v = trim_space (to_lower value) in
    let v = trim_prefix (trim_prefix v "http://") "https://" in
    let v = trim_prefix (trim_prefix v "hxxp://") "hxxps://" in
    let v = replace_all (replace_all v "[.]" ".") "(dot)" "." in trim_right_dots (trim_left_dots v)

is_alnum : Char → Bool
is_alnum c =
    (leb b'0' (code c) && leb (code c) b'9')
    || (leb b'a' (code c) && leb (code c) b'z')
    || (leb b'A' (code c) && leb (code c) b'Z')

-- The characters after the first: letters, digits and hyphens, and no hyphen at the end.
label_rest : String → Bool
unfolding is_alnum
label_rest [] = true
label_rest (c ∷ []) = is_alnum c
label_rest (c ∷ d ∷ s) = (is_alnum c || eqb (code c) b'-') && label_rest (d ∷ s)

is_label : String → Bool
unfolding is_alnum label_rest text_length
is_label [] = false
is_label (c ∷ s) = is_alnum c && (label_rest s && leb (text_length s) 62)

are_labels : List String → Bool
unfolding is_label
are_labels [] = true
are_labels (p ∷ []) = is_label p || p == ""
are_labels (p ∷ q ∷ ps) = is_label p && are_labels (q ∷ ps)

-- `domainRE`: labels between dots, and perhaps a dot at the end.
unfoldable pub is_domain : String → Bool
unfolding split are_labels
is_domain v = not (v == "") && are_labels (split v b'.')

unfoldable pub is_hex : String → Bool
is_hex [] = true
is_hex (c ∷ s) =
    ((leb b'0' (code c) && leb (code c) b'9') || (leb b'a' (code c) && leb (code c) b'f'))
    && is_hex s

-- An invalid value gives the empty text.
unfoldable pub validate_ioc : String → String → String
unfolding refang parse_ip show_ip is_domain has_suffix is_hex text_length
validate_ioc ioc_type value =
    let v = refang value in
    if ioc_type == "ipv4" || ioc_type == "ipv6"
    then elim (parse_ip v) [ none ↦ "" | some ip ↦ show_ip ip ]
    else if ioc_type == "domain"
    then (if is_domain v && not (has_suffix v ".local") then v else "")
    else if ioc_type == "hash_sha256"
    then (if eqb (text_length v) 64 && is_hex v then v else "")
    else if ioc_type == "hash_md5"
    then (if eqb (text_length v) 32 && is_hex v then v else "")
    else ""

unfoldable pub never_block : List String
never_block =
    "1.1.1.1" ∷ "1.0.0.1" ∷ "8.8.8.8" ∷ "8.8.4.4" ∷ "9.9.9.9" ∷ "149.112.112.112" ∷ "208.67.222.222"
    ∷ "208.67.220.220" ∷ "google.com" ∷ "cloudflare.com" ∷ "akamai.net" ∷ "fastly.net"
    ∷ "amazonaws.com" ∷ "azure.com" ∷ []

unfoldable pub tlp_ranks : List (String × ℕ)
tlp_ranks = ("red", 4) ∷ ("amber", 3) ∷ ("green", 2) ∷ ("white", 1) ∷ ("clear", 1) ∷ []

-- The rank that a tag names, if it is a TLP tag of a known level.
unfoldable pub tlp_level : String → Option ℕ
unfolding to_lower has_prefix trim_prefix lookup tlp_ranks
tlp_level tag =
    if has_prefix (to_lower tag) "tlp:"
    then lookup (trim_prefix (to_lower tag) "tlp:") tlp_ranks
    else none

unfoldable pub tlp_threshold : String → ℕ
unfolding to_lower lookup tlp_ranks
tlp_threshold max_tlp =
    elim (lookup (to_lower (if max_tlp == "" then "green" else max_tlp)) tlp_ranks) [
      | none ↦ 0
      | some level ↦ level
    ]

-- The first tag of a known level decides; without one, nothing is blocked.
unfoldable pub blocked_tlp : String → List String → Bool
unfolding tlp_level tlp_threshold
blocked_tlp max_tlp [] = false
blocked_tlp max_tlp (tag ∷ tags) =
    let rest = blocked_tlp max_tlp tags in
    elim (tlp_level tag) [ none ↦ rest | some level ↦ ltb (tlp_threshold max_tlp) level ]

validation_tests :
    (validate_ioc "domain" "hxxps://Evil[.]example(dot)com." ≡ "evil.example.com")
    × (validate_ioc "domain" "-evil.com" ≡ "")
    × (validate_ioc "domain" "printer.local" ≡ "")
    × (validate_ioc "ipv4" "8[.]8.8.8" ≡ "8.8.8.8")
    × (validate_ioc "hash_md5" "D41D8CD98F00B204E9800998ECF8427E"
        ≡ "d41d8cd98f00b204e9800998ecf8427e")
    × (validate_ioc "url" "x" ≡ "")
    × (blocked_tlp "" ("TLP:Amber" ∷ []) ≡ true)
    × (blocked_tlp "amber" ("tlp:amber" ∷ []) ≡ false)
    × (blocked_tlp "" ("tlp:amber+strict" ∷ []) ≡ false)
    × (blocked_tlp "" ("tlp:green" ∷ "tlp:red" ∷ []) ≡ false)
unfolding validate_ioc blocked_tlp
validation_tests = (refl, refl, refl, refl, refl, refl, refl, refl, refl, refl)
