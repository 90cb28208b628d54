-- ===== src/Access/Argon/Tests.antt =====
-- internal/store/users.go: the round trip of a password at a small code and key derivation.
use Prim.Native.Char.{code}
use Prim.Native.String.{[], ◌∷◌}
use mathlib.Core.List.{List, [], ◌∷◌}
use threat_intel_arbiter.Common.{
  ℕ, zero, suc, ◌+◌, ◌≡◌, ◌∙◌, refl, ap, true, false, Option, none, some, String, ◌==◌, eqb,
  if◌then◌else◌, text_length, repeat, arith,
}
use threat_intel_arbiter.Common.Text.Parts.{lacks}
use threat_intel_arbiter.Access.Login.{is_legacy_hash}
use threat_intel_arbiter.Access.Argon.{Crypto, hash_password, same_bytes, verify_hash}
use threat_intel_arbiter.Access.Argon.RoundTrip.{verify_hash-hash_password}

-- A byte as that many times `a`, and `b` behind it.
in_front : ℕ → String → String
in_front zero s = "b" ∷ s
in_front (suc n) s = "a" ∷ in_front n s

encode : List ℕ → String
unfolding in_front
encode [] = ""
encode (x ∷ xs) = in_front x (encode xs)

-- The bytes of a text, the first one counted from `n`.
decode_from : ℕ → String → List ℕ
decode_from n [] = []
decode_from n (c ∷ s) =
    let more = decode_from (suc n) s in
    let next = decode_from 0 s in if eqb (code c) b'a' then more else n ∷ next

decode : String → Option (List ℕ)
unfolding decode_from
decode s = some (decode_from 0 s)

decode_from-in_front :
    (n k : ℕ) (s : String) → decode_from k (in_front n s) ≡ (n + k) ∷ decode_from 0 s
unfolding decode_from in_front
decode_from-in_front zero k s = let same : 0 + k ≡ k = omega arith in rw same refl
decode_from-in_front (suc n) k s =
    let same : n + suc k ≡ suc n + k = omega arith in
    decode_from-in_front n (suc k) s ∙ ap (λ m. m ∷ decode_from 0 s) same

decode_from-encode : (xs : List ℕ) → decode_from 0 (encode xs) ≡ xs
unfolding encode decode_from
decode_from-encode [] = refl
decode_from-encode (x ∷ xs) =
    let same : x + 0 ≡ x = omega arith in
    decode_from-in_front x 0 (encode xs) ∙ rw (same, decode_from-encode xs) refl

decode-encode : (xs : List ℕ) → decode (encode xs) ≡ some xs
unfolding decode
decode-encode xs = ap some (decode_from-encode xs)

lacks-in_front : (n : ℕ) (s : String) → lacks b'$' s ≡ true → lacks b'$' (in_front n s) ≡ true
unfolding lacks in_front
lacks-in_front zero s h = h
lacks-in_front (suc n) s h = lacks-in_front n s h

lacks-encode : (xs : List ℕ) → lacks b'$' (encode xs) ≡ true
unfolding lacks encode
lacks-encode [] = refl
lacks-encode (x ∷ xs) = lacks-in_front x (encode xs) (lacks-encode xs)

-- The key is the length of the password, as often as asked for.
abbrev crypto : Crypto
crypto = record {
  id_key = λ password salt time memory threads n. repeat n (text_length password);
  encode = encode;
  decode = decode;
  scan_int = λ text.
      if text == "65536"
      then some 65536
      else if text == "3"
      then some 3
      else if text == "4"
      then some 4
      else none;
  decode_hex = λ text. none;
  sha256_hex = λ text. text;
}

verify_hash-hash_password_example :
    (verify_hash crypto "hunter3" (hash_password crypto (1 ∷ 7 ∷ []) "hunter22")
      ≡ same_bytes (repeat 32 7) (repeat 32 8))
    × (verify_hash crypto "hunter22" (hash_password crypto (1 ∷ 7 ∷ []) "hunter22") ≡ true)
    × (is_legacy_hash (hash_password crypto (1 ∷ 7 ∷ []) "hunter22") ≡ false)
unfolding text_length
verify_hash-hash_password_example =
    verify_hash-hash_password crypto "hunter3" "hunter22" (1 ∷ 7 ∷ []) decode-encode lacks-encode
      refl refl refl refl
