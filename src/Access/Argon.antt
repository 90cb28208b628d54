-- ===== src/Access/Argon.antt =====
-- internal/store/users.go: hashes of passwords. The key derivation of Argon2id, the base64 code, the
-- reading of a number with `%d`, and the digest and the hexadecimal code of hashes of the old form are
-- arguments. A number that `%d` reads is given by its 64 bits, bytes are a list of numbers.
pub mod RoundTrip
mod Tests
use mathlib.Core.List.{List, [], ◌∷◌}
use Prim.Native.String.{◌++◌}
use threat_intel_arbiter.Common.{
  ℕ, ◌*◌, ◌%◌, ◌^◌, ◌≡◌, refl, Bool, true, false, ◌&&◌, Option, none, some, String, ◌==◌, eqb,
  if◌then◌else◌, has_prefix, trim_prefix, split, length,
}
use threat_intel_arbiter.Access.Legacy.{split_n, verify_legacy}

pub record Crypto : Type 0 where
  -- Password, salt, iterations, memory, threads and the length of the key.
  pub id_key : String → List ℕ → ℕ → ℕ → ℕ → ℕ → List ℕ
  pub encode : List ℕ → String
  pub decode : String → Option (List ℕ)
  pub scan_int : String → Option ℕ
  pub decode_hex : String → Option String
  pub sha256_hex : String → String

abbrev pub argon_time : ℕ
argon_time = 3

abbrev pub argon_memory : ℕ
argon_memory = 64 * 1024

abbrev pub argon_threads : ℕ
argon_threads = 4

abbrev pub argon_key_len : ℕ
argon_key_len = 32

abbrev pub argon_prefix : String
argon_prefix = "$argon2id$v=19$m=65536,t=3,p=4$"

-- The random salt is an argument.
unfoldable pub hash_password : Crypto → List ℕ → String → String
hash_password c salt password =
    let hash = c.id_key password salt argon_time argon_memory argon_threads argon_key_len in
    argon_prefix ++ (c.encode salt ++ ("$" ++ c.encode hash))

pub record Params : Type 0 where
  pub memory : ℕ
  pub iterations : ℕ
  pub threads : ℕ

unfoldable pub set_param : String → ℕ → Params → Params
set_param key v ps =
    if key == "m"
    then record ps { memory = v % 2 ^ 32 }
    else if key == "t"
    then record ps { iterations = v % 2 ^ 32 }
    else if key == "p"
    then record ps { threads = v % 2 ^ 8 }
    else ps

-- An entry `key=number`; another text leaves the parameters as they are.
unfoldable pub read_param : (String → Option ℕ) → String → Params → Params
unfolding set_param split_n
read_param scan_int entry ps = elim (split_n entry "=" 2) [
  | [] ↦ ps
  | key ∷ [] ↦ ps
  | key ∷ text ∷ [] ↦ elim (scan_int text) [ none ↦ ps | some v ↦ set_param key v ps ]
  | key ∷ text ∷ other ∷ others ↦ ps
]

unfoldable pub read_params : (String → Option ℕ) → List String → Params → Params
unfolding read_param
read_params scan_int [] ps = ps
read_params scan_int (entry ∷ entries) ps =
    read_params scan_int entries (read_param scan_int entry ps)

abbrev pub default_params : Params
default_params = record { memory = argon_memory; iterations = argon_time; threads = argon_threads }

-- `subtle.ConstantTimeCompare`.
unfoldable pub same_bytes : List ℕ → List ℕ → Bool
same_bytes [] [] = true
same_bytes [] (y ∷ ys) = false
same_bytes (x ∷ xs) [] = false
same_bytes (x ∷ xs) (y ∷ ys) = eqb x y && same_bytes xs ys

-- The check of the password with the three parts of a stored hash.
unfoldable pub verify_parts : Crypto → String → String → String → String → Bool
unfolding read_params same_bytes
verify_parts c password params salt64 hash64 =
    let ps = read_params c.scan_int (split params b',') default_params in
    elim (c.decode salt64) [
      | none ↦ false
      | some salt ↦ elim (c.decode hash64) [
        | none ↦ false
        | some expected ↦
            same_bytes
              (c.id_key password salt ps.iterations ps.memory ps.threads (length expected % 2 ^ 32))
              expected
      ]
    ]

-- The check with what follows the dollar signs split at; another number of parts is no hash.
unfoldable pub verify_split : Crypto → String → List String → Bool
unfolding verify_parts
verify_split c password [] = false
verify_split c password (params ∷ []) = false
verify_split c password (params ∷ salt64 ∷ []) = false
verify_split c password (params ∷ salt64 ∷ hash64 ∷ []) =
    verify_parts c password params salt64 hash64
verify_split c password (params ∷ salt64 ∷ hash64 ∷ other ∷ others) = false

-- The check with the stored hash and what is left of it behind the prefix.
unfoldable pub verify_rest : Crypto → String → String → String → Bool
unfolding verify_split split_n
verify_rest c password stored rest =
    if rest == stored then false else verify_split c password (split_n rest "$" 3)

unfoldable pub verify_argon2 : Crypto → String → String → Bool
unfolding verify_rest
verify_argon2 c password stored =
    verify_rest c password stored (trim_prefix stored "$argon2id$v=19$")

unfoldable pub verify_hash : Crypto → String → String → Bool
unfolding verify_argon2 verify_legacy
verify_hash c password stored =
    if has_prefix stored "$argon2id$"
    then verify_argon2 c password stored
    else verify_legacy c.decode_hex c.sha256_hex password stored
