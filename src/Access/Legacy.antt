-- ===== src/Access/Legacy.antt =====
-- internal/store/users.go: the check of a password against a hash of the old form. The decoding of
-- hexadecimal text and the digest of a text are arguments.
pub mod Parts
use Prim.Native.String.{[], ◌∷◌, ◌++◌ as append}
use mathlib.Core.List.{List, [], ◌∷◌}
use threat_intel_arbiter.Common.{
  ℕ, zero, suc, ◌+◌, ◌-◌, ◌≡◌, refl, Bool, true, false, Option, none, some, String, ◌==◌,
  if◌then◌else◌, has_prefix, text_length, take_text, drop_text,
}

-- The first position at which the separator stands.
unfoldable pub index_of : String → String → Option ℕ
unfolding has_prefix
index_of [] sep = if has_prefix [] sep then some 0 else none
index_of (c ∷ s) sep =
    let later : Option ℕ = elim (index_of s sep) [ none ↦ none | some i ↦ some (suc i) ] in
    if has_prefix (c ∷ s) sep then some 0 else later

-- The loop of splitN, with the number of parts still to split off.
unfoldable pub split_off : ℕ → String → String → List String
unfolding index_of take_text drop_text text_length
split_off zero s sep = s ∷ []
split_off (suc n) s sep = elim (index_of s sep) [
  | none ↦ s ∷ []
  | some i ↦ take_text i s ∷ split_off n (drop_text (i + text_length sep) s) sep
]

unfoldable pub split_n : String → String → ℕ → List String
unfolding split_off
split_n s sep n = split_off (n - 1) s sep

unfoldable pub verify_legacy : (String → Option String) → (String → String) → String → String → Bool
unfolding split_n
verify_legacy decode_hex sha256_hex password stored = elim (split_n stored ":" 2) [
  | [] ↦ false
  | salt ∷ [] ↦ false
  | salt ∷ hash ∷ [] ↦ elim (decode_hex salt) [
    | none ↦ false
    | some bytes ↦ sha256_hex (append bytes password) == hash
  ]
  | salt ∷ hash ∷ other ∷ parts ↦ false
]

split_tests :
    (split_n "a:b:c" ":" 2 ≡ "a" ∷ "b:c" ∷ [])
    × (split_n "a:b:c" ":" 3 ≡ "a" ∷ "b" ∷ "c" ∷ [])
    × (split_n "abc" ":" 2 ≡ "abc" ∷ [])
    × (split_n "" ":" 2 ≡ "" ∷ [])
unfolding split_n
split_tests = (refl, refl, refl, refl)
