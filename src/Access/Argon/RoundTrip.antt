-- ===== src/Access/Argon/RoundTrip.antt =====
-- internal/store/users.go: a password passes the check of its own hash.
use Prim.Native.Char.{code}
use Prim.Native.String.{[], ◌∷◌, ◌++◌ as append}
use text.Mathlib.TextLemmas.{nil-append, cons-append, append_assoc}
use mathlib.Core.List.{List, [], ◌∷◌}
use threat_intel_arbiter.Common.{
  ℕ, suc, ◌+◌, ◌≡◌, ◌∙◌, refl, ap, true, false, Option, some, String, ◌==◌, eqb, has_prefix,
  trim_prefix, split, text_length, take_text, drop_text, length, arith,
}
use threat_intel_arbiter.Common.Text.Parts.{lacks}
use threat_intel_arbiter.Common.Text.Prefix.{has_prefix-append, trim_prefix-append, append_not_same}
use threat_intel_arbiter.Access.Legacy.{index_of, split_off, split_n}
use threat_intel_arbiter.Access.Login.{is_legacy_hash}
use threat_intel_arbiter.Access.Argon.{
  Crypto, hash_password, Params, set_param, read_param, read_params, default_params, same_bytes,
  verify_parts, verify_split, verify_rest, verify_argon2, verify_hash,
}

dollar : (t : String) → append "$" t ≡ "$" ∷ t
dollar t = cons-append "$" "" t ∙ ap (λ u. "$" ∷ u) (nil-append t)

index_of_free :
    (s t : String) → lacks b'$' s ≡ true → index_of (append s ("$" ∷ t)) "$" ≡ some (text_length s)
unfolding index_of lacks has_prefix text_length
index_of_free [] t h = rw (nil-append ("$" ∷ t)) refl
index_of_free (c ∷ s) t h =
    let other : eqb (code c) b'$' ≡ false = ground (arith, h) in
    let rest : lacks b'$' s ≡ true = ground (arith, h) in
    rw (cons-append c s ("$" ∷ t)) (rw (other, index_of_free s t rest) refl)

take_all : (s t : String) → take_text (text_length s) (append s t) ≡ s
unfolding take_text text_length
take_all [] t = refl
take_all (c ∷ s) t = rw (cons-append c s t) (ap (λ u. c ∷ u) (take_all s t))

drop_all : (s t : String) → drop_text (text_length s + 1) (append s ("$" ∷ t)) ≡ t
unfolding drop_text text_length
drop_all [] t = rw (nil-append ("$" ∷ t)) refl
drop_all (c ∷ s) t =
    let past : suc (text_length s) + 1 ≡ suc (text_length s + 1) = omega arith in
    rw (cons-append c s ("$" ∷ t), past) (drop_all s t)

split_off_free :
    (n : ℕ) (s t : String)
    → lacks b'$' s ≡ true
    → split_off (suc n) (append s ("$" ∷ t)) "$" ≡ s ∷ split_off n t "$"
unfolding split_off
split_off_free n s t h =
    rw (split_off, index_of_free s t h)
      (rw (take_all s ("$" ∷ t)) (ap (λ u. s ∷ split_off n u "$") (drop_all s t)))

-- The three parts of a stored hash.
split_stored :
    (salt hash : String)
    → lacks b'$' salt ≡ true
    → split_n (append "m=65536,t=3,p=4" ("$" ∷ append salt ("$" ∷ hash))) "$" 3
      ≡ "m=65536,t=3,p=4" ∷ salt ∷ hash ∷ []
unfolding split_n lacks split_off
split_stored salt hash h =
    split_off_free 1 "m=65536,t=3,p=4" (append salt ("$" ∷ hash)) refl
    ∙ ap (λ ps. "m=65536,t=3,p=4" ∷ ps) (split_off_free 0 salt hash h)

read_param_known :
    (scan_int : String → Option ℕ) (entry key text : String) (n : ℕ) (ps : Params)
    → split_n entry "=" 2 ≡ key ∷ text ∷ []
    → scan_int text ≡ some n
    → read_param scan_int entry ps ≡ set_param key n ps
unfolding read_param
read_param_known scan_int entry key text n ps h k = rw (read_param, h) (rw k refl)

read_own_params :
    (scan_int : String → Option ℕ)
    → scan_int "65536" ≡ some 65536
    → scan_int "3" ≡ some 3
    → scan_int "4" ≡ some 4
    → read_params scan_int (split "m=65536,t=3,p=4" b',') default_params ≡ default_params
unfolding read_params set_param split_n split
read_own_params scan_int m t p =
    ap (λ ps. read_param scan_int "p=4" (read_param scan_int "t=3" ps))
      (read_param_known scan_int "m=65536" "m" "65536" 65536 default_params refl m)
    ∙ ap (read_param scan_int "p=4")
        (read_param_known scan_int "t=3" "t" "3" 3 default_params refl t)
    ∙ read_param_known scan_int "p=4" "p" "4" 4 default_params refl p

same_bytes_refl : (xs : List ℕ) → same_bytes xs xs ≡ true
unfolding same_bytes
same_bytes_refl [] = refl
same_bytes_refl (x ∷ xs) = ground (arith, same_bytes_refl xs)

stored_parts :
    (c : Crypto) (salt : List ℕ) (password : String)
    → hash_password c salt password
      ≡ append "$argon2id$v=19$" (
          append "m=65536,t=3,p=4"
            ("$" ∷ append (c.encode salt) ("$" ∷ c.encode (c.id_key password salt 3 65536 4 32))))
unfolding hash_password
stored_parts c salt password =
    let hash = c.encode (c.id_key password salt 3 65536 4 32) in
    let rest = append (c.encode salt) ("$" ∷ hash) in
    rw (dollar hash) (
      append_assoc "$argon2id$v=19$" "m=65536,t=3,p=4$" rest
      ∙ ap (λ u. append "$argon2id$v=19$" u)
          (append_assoc "m=65536,t=3,p=4" "$" rest
            ∙ ap (λ u. append "m=65536,t=3,p=4" u) (dollar rest)))

verify_own_parts :
    (c : Crypto) (p password : String) (salt : List ℕ)
    → ((bytes : List ℕ) → c.decode (c.encode bytes) ≡ some bytes)
    → c.scan_int "65536" ≡ some 65536
    → c.scan_int "3" ≡ some 3
    → c.scan_int "4" ≡ some 4
    → length (c.id_key password salt 3 65536 4 32) ≡ 32
    → verify_parts c p "m=65536,t=3,p=4"
        (c.encode salt)
        (c.encode (c.id_key password salt 3 65536 4 32))
      ≡ same_bytes (c.id_key p salt 3 65536 4 32) (c.id_key password salt 3 65536 4 32)
unfolding verify_parts
verify_own_parts c p password salt decoded m t th long =
    rw (verify_parts, decoded salt)
      (rw (decoded (c.id_key password salt 3 65536 4 32))
        (rw (read_own_params c.scan_int m t th) (rw long refl)))

-- A check that is given its parts.
verify_argon2_split :
    (c : Crypto) (p stored rest params salt hash : String)
    → trim_prefix stored "$argon2id$v=19$" ≡ rest
    → (rest == stored) ≡ false
    → split_n rest "$" 3 ≡ params ∷ salt ∷ hash ∷ []
    → verify_argon2 c p stored ≡ verify_parts c p params salt hash
unfolding verify_argon2 verify_rest verify_split
verify_argon2_split c p stored rest params salt hash trimmed differs parts =
    ap (verify_rest c p stored) trimmed ∙ rw (verify_rest, differs) (ap (verify_split c p) parts)

argon_has_prefix : (rest : String) → has_prefix (append "$argon2id$v=19$" rest) "$argon2id$" ≡ true
argon_has_prefix rest =
    ap (λ u. has_prefix u "$argon2id$") (append_assoc "$argon2id$" "v=19$" rest)
    ∙ has_prefix-append "$argon2id$" (append "v=19$" rest)

-- The check of a hash of Argon2id, with its three parts.
verify_hash_parts :
    (c : Crypto) (p salt hash : String)
    → lacks b'$' salt ≡ true
    → verify_hash c p
        (append "$argon2id$v=19$" (append "m=65536,t=3,p=4" ("$" ∷ append salt ("$" ∷ hash))))
      ≡ verify_parts c p "m=65536,t=3,p=4" salt hash
unfolding verify_hash text_length
verify_hash_parts c p salt hash h =
    let rest = append "m=65536,t=3,p=4" ("$" ∷ append salt ("$" ∷ hash)) in
    rw (verify_hash, argon_has_prefix rest)
      (verify_argon2_split c p _ rest _ salt hash (trim_prefix-append "$argon2id$v=19$" rest)
        (append_not_same "$argon2id$v=19$" rest (omega arith)) (split_stored salt hash h))

-- A password passes the check of the hash made of another exactly when Argon2id gives the two the same
-- key under the salt of the hash; so a password passes the check of its own hash, and the hash is never
-- taken for one of the old form; when the base64 code is read back as it was written and has no `$`,
-- `%d` reads the three parameters that are written, and the key has the length asked for.
pub verify_hash-hash_password :
    (c : Crypto) (p password : String) (salt : List ℕ)
    → ((bytes : List ℕ) → c.decode (c.encode bytes) ≡ some bytes)
    → ((bytes : List ℕ) → lacks b'$' (c.encode bytes) ≡ true)
    → c.scan_int "65536" ≡ some 65536
    → c.scan_int "3" ≡ some 3
    → c.scan_int "4" ≡ some 4
    → length (c.id_key password salt 3 65536 4 32) ≡ 32
    → (verify_hash c p (hash_password c salt password)
        ≡ same_bytes (c.id_key p salt 3 65536 4 32) (c.id_key password salt 3 65536 4 32))
      × (verify_hash c password (hash_password c salt password) ≡ true)
      × (is_legacy_hash (hash_password c salt password) ≡ false)
unfolding is_legacy_hash
verify_hash-hash_password c p password salt decoded no_dollar m t th long =
    let hash = c.encode (c.id_key password salt 3 65536 4 32) in
    let stored = stored_parts c salt password in
    let checked : (q : String)
        → verify_hash c q (hash_password c salt password)
          ≡ same_bytes (c.id_key q salt 3 65536 4 32) (c.id_key password salt 3 65536 4 32) =
      λ q.
        ap (verify_hash c q) stored
        ∙ verify_hash_parts c q (c.encode salt) hash (no_dollar salt)
        ∙ verify_own_parts c q password salt decoded m t th long in
    (
      checked p,
      checked password ∙ same_bytes_refl _,
      ap is_legacy_hash stored ∙ rw (argon_has_prefix _) refl,
    )
