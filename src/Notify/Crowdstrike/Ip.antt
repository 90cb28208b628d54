-- ===== src/Notify/Crowdstrike/Ip.antt =====
-- What internal/notify/crowdstrike.go uses of Go's net package: `ParseIP`, `IP.String`, and the
-- classes of addresses of `isPrivateIP` with its networks.
use Prim.Native.Char.{Char, code}
use Prim.Native.String.{[], ◌∷◌, ◌++◌, char_at}
use mathlib.Core.List.{List, [], ◌∷◌}
use mathlib.Core.List.{◌++◌ as concat}
use threat_intel_arbiter.Common.{
  ℕ, zero, suc, ◌+◌, ◌-◌, ◌*◌, ◌/◌, ◌%◌, ◌^◌, ◌≡◌, refl, Bool, true, false, not, ◌&&◌, ◌||◌, Option,
  none, some, String, ◌==◌, leb, ltb, eqb, if◌then◌else◌, any, split, join, show, length, map,
  has_prefix, take, drop, repeat,
}

-- An address: its 32 bits, or its eight groups of 16 bits. An IPv4-mapped IPv6 address is the IPv4
-- address, as Go's `To4` and `String` treat it.
pub data Ip : Type 0 where
  v4 : ℕ → Ip
  v6 : List ℕ → Ip

abbrev digit_value : Char → Option ℕ
digit_value c =
    if leb b'0' (code c) && leb (code c) b'9'
    then some (code c - b'0')
    else if leb b'a' (code c) && leb (code c) b'f'
    then some (code c - b'a' + 10)
    else if leb b'A' (code c) && leb (code c) b'F'
    then some (code c - b'A' + 10)
    else none

-- The value of the digits below the base that a text starts with, their number, and the rest.
scan_digits : ℕ → ℕ → ℕ → String → ℕ × ℕ × String
scan_digits base value count [] = (value, count, "")
scan_digits base value count (c ∷ s) = elim (digit_value c) [
  | none ↦ (value, count, c ∷ s)
  | some d ↦
      let more = scan_digits base (value * base + d) (suc count) s in
      if ltb d base then more else (value, count, c ∷ s)
]

-- One of the four numbers: no sign, no leading zero, at most 255.
octet : String → Option ℕ
unfolding scan_digits has_prefix
octet s =
    let (value, count, rest) = scan_digits 10 0 0 s in
    if rest == ""
      && (leb 1 count && leb count 3)
      && ((eqb count 1 || not (has_prefix s "0")) && leb value 255)
    then some value
    else none

is_none : Option ℕ → Bool
is_none none = true
is_none (some n) = false

parse_v4 : String → Option ℕ
unfolding split octet
parse_v4 s = octets (map octet (split s b'.'))
  where
    octets : List (Option ℕ) → Option ℕ
    octets (some a ∷ some b ∷ some c ∷ some d ∷ []) = some (((a * 256 + b) * 256 + c) * 256 + d)
    octets parts = none

-- The groups after those read so far, on as many rounds as groups may follow, and the place of "::".
-- The source's loop is Go's: a group, the end or a colon, and the ellipsis.
parse_groups : ℕ → Option ℕ → List ℕ → String → Option (List ℕ × Option ℕ)
unfolding scan_digits parse_v4 is_none has_prefix
parse_groups zero ellipsis groups s = if s == "" then some (groups, ellipsis) else none
parse_groups (suc fuel) ellipsis groups s =
    let (value, count, rest) = scan_digits 16 0 0 s in
    let groups' = concat groups (value ∷ []) in
    let next = λ (e : Option ℕ) (t : String). parse_groups fuel e groups' t in
    if eqb count 0 || ltb 4 count
    then none
    else if has_prefix rest "."
    then embedded ellipsis groups fuel (parse_v4 s)
    else after ellipsis groups' next rest
  where
    embedded : Option ℕ → List ℕ → ℕ → Option ℕ → Option (List ℕ × Option ℕ)
    embedded ellipsis groups fuel none = none
    embedded ellipsis groups fuel (some n) =
        let all = concat groups (n / 2 ^ 16 ∷ n % 2 ^ 16 ∷ []) in
        if eqb fuel 0 || (is_none ellipsis && not (eqb (length groups) 6))
        then none
        else some (all, ellipsis)

    after :
        Option ℕ
        → List ℕ
        → (Option ℕ → String → Option (List ℕ × Option ℕ))
        → String
        → Option (List ℕ × Option ℕ)
    after ellipsis groups next [] = some (groups, ellipsis)
    after ellipsis groups next (c ∷ []) = none
    after ellipsis groups next (c ∷ d ∷ s) =
        if not (eqb (code c) b':')
        then none
        else if not (eqb (code d) b':')
        then next ellipsis (d ∷ s)
        else elim ellipsis [
          | some at ↦ none
          | none ↦
              if s == "" then some (groups, some (length groups)) else next (some (length groups)) s
        ]

-- The groups with zeros at the place of "::", which stands for at least one group.
expand : Option (List ℕ × Option ℕ) → Option (List ℕ)
expand none = none
expand (some (groups, none)) = if eqb (length groups) 8 then some groups else none
expand (some (groups, some at)) =
    if ltb (length groups) 8
    then some (concat (take at groups) (concat (repeat (8 - length groups) 0) (drop at groups)))
    else none

-- ::ffff:a.b.c.d is a.b.c.d.
unmapped : List ℕ → Ip
unmapped (a ∷ b ∷ c ∷ d ∷ e ∷ f ∷ high ∷ low ∷ []) =
    if eqb (a + b + c + d + e) 0 && eqb f 0xffff
    then v4 (high * 2 ^ 16 + low)
    else v6 (a ∷ b ∷ c ∷ d ∷ e ∷ f ∷ high ∷ low ∷ [])
unmapped groups = v6 groups

parse_v6 : String → Option Ip
unfolding expand parse_groups unmapped has_prefix
parse_v6 s =
    let parsed =
      if s == "::"
      then some (repeat 8 0)
      else if has_prefix s "::"
      then expand (parse_groups 8 (some 0) [] (tail (tail s)))
      else expand (parse_groups 8 none [] s) in
    elim parsed [ none ↦ none | some groups ↦ some (unmapped groups) ]
  where
    tail : String → String
    tail [] = []
    tail (c ∷ t) = t

-- The first dot or colon tells the kind of address.
kind : String → Bool
kind [] = false
kind (c ∷ s) = if eqb (code c) b'.' then true else if eqb (code c) b':' then false else kind s

unfoldable pub parse_ip : String → Option Ip
unfolding kind parse_v4 parse_v6
parse_ip s = if kind s then elim (parse_v4 s) [ none ↦ none | some n ↦ some (v4 n) ] else parse_v6 s

hex_from : ℕ → ℕ → String → String
hex_from zero n acc = acc
hex_from (suc fuel) n acc =
    let longer : String = char_at "0123456789abcdef" (n % 16) ∷ acc in
    let rest = hex_from fuel (n / 16) longer in if ltb n 16 then longer else rest

-- The zeros that a list starts with.
zeros : List ℕ → ℕ
zeros [] = 0
zeros (g ∷ groups) = let more = zeros groups in if eqb g 0 then suc more else 0

-- The place and the length of the first longest run of zeros.
longest : ℕ → List ℕ → ℕ × ℕ → ℕ × ℕ
unfolding zeros
longest at [] best = best
longest at (g ∷ groups) best =
    let run = zeros (g ∷ groups) in
    longest (suc at) groups (if ltb best.1 run then (at, run) else best)

hex_join : List ℕ → String
unfolding hex_from join
hex_join groups = join (map (λ g. hex_from 4 g "") groups) ":"

unfoldable pub show_ip : Ip → String
unfolding show join longest hex_join
show_ip (v4 n) =
    join (map show (n / 2 ^ 24 ∷ n / 2 ^ 16 % 256 ∷ n / 2 ^ 8 % 256 ∷ n % 256 ∷ [])) "."
show_ip (v6 groups) =
    let (at, run) = longest 0 groups (0, 0) in
    if ltb run 2
    then hex_join groups
    else hex_join (take at groups) ++ ("::" ++ hex_join (drop (at + run) groups))

-- The networks of the source, each with its first address and the bits of its prefix.
unfoldable pub private_nets : List (ℕ × ℕ)
private_nets =
    (10 * 2 ^ 24, 8)
    ∷ (172 * 2 ^ 24 + 16 * 2 ^ 16, 12)
    ∷ (192 * 2 ^ 24 + 168 * 2 ^ 16, 16)
    ∷ (127 * 2 ^ 24, 8)
    ∷ (169 * 2 ^ 24 + 254 * 2 ^ 16, 16)
    ∷ (100 * 2 ^ 24 + 64 * 2 ^ 16, 10)
    ∷ (224 * 2 ^ 24, 4)
    ∷ (0, 8)
    ∷ (240 * 2 ^ 24, 4)
    ∷ []

abbrev in_net : ℕ → ℕ × ℕ → Bool
in_net n (base, bits) = eqb (n / 2 ^ (32 - bits)) (base / 2 ^ (32 - bits))

-- IsLoopback, IsPrivate, IsLinkLocalUnicast, IsLinkLocalMulticast, IsMulticast, IsUnspecified.
unfoldable pub is_special : Ip → Bool
unfolding any
is_special (v4 n) = any (in_net n) (
    (127 * 2 ^ 24, 8)
    ∷ (10 * 2 ^ 24, 8)
    ∷ (172 * 2 ^ 24 + 16 * 2 ^ 16, 12)
    ∷ (192 * 2 ^ 24 + 168 * 2 ^ 16, 16)
    ∷ (169 * 2 ^ 24 + 254 * 2 ^ 16, 16)
    ∷ (224 * 2 ^ 24, 24)
    ∷ (224 * 2 ^ 24, 4)
    ∷ (0, 32)
    ∷ [])
is_special (v6 groups) = elim groups [
  | [] ↦ false
  | first ∷ rest ↦
      all_zero_but_last (first ∷ rest)
      || (eqb (first / 2 ^ 9) 0x7e || eqb (first / 2 ^ 6) 0x3fa || eqb (first / 2 ^ 8) 0xff)
]
  where
    all_zero_but_last : List ℕ → Bool
    all_zero_but_last [] = true
    all_zero_but_last (g ∷ []) = leb g 1
    all_zero_but_last (g ∷ h ∷ groups) = eqb g 0 && all_zero_but_last (h ∷ groups)

-- A text that is no address counts as private. The step for an IPv4-mapped address changes nothing:
-- such an address is written as its IPv4 address already.
unfoldable pub is_private_ip : String → Bool
unfolding parse_ip is_special any private_nets
is_private_ip s = elim (parse_ip s) [
  | none ↦ true
  | some (v4 n) ↦ is_special (v4 n) || any (in_net n) private_nets
  | some (v6 groups) ↦ is_special (v6 groups)
]

again : String → Option String
unfolding parse_ip show_ip
again s = elim (parse_ip s) [ none ↦ none | some ip ↦ some (show_ip ip) ]

ip_tests :
    (again "8.8.8.8" ≡ some "8.8.8.8")
    × (again "08.8.8.8" ≡ none)
    × (again "8.8.8.256" ≡ none)
    × (again "2001:DB8:0:0:1::1" ≡ some "2001:db8::1:0:0:1")
    × (again "::" ≡ some "::")
    × (again "::ffff:10.0.0.1" ≡ some "10.0.0.1")
    × (again "1::2::3" ≡ none)
    × (again "1:2:3:4:5:6:7::" ≡ some "1:2:3:4:5:6:7:0")
    × (again "fe80::%eth0" ≡ none)
    × (is_private_ip "100.127.255.255" ≡ true)
    × (is_private_ip "100.128.0.0" ≡ false)
    × (is_private_ip "fd00::1" ≡ true)
    × (is_private_ip "::1" ≡ true)
    × (is_private_ip "2001:db8::1" ≡ false)
unfolding again is_private_ip has_prefix
ip_tests = (refl, refl, refl, refl, refl, refl, refl, refl, refl, refl, refl, refl, refl, refl)
