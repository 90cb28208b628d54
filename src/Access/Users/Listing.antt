-- ===== src/Access/Users/Listing.antt =====
-- internal/store/users.go: the list of the users, and what the random bytes of a token and of a first
-- password become. The bytes, their text in hexadecimal and the ordering of rows are arguments.
use Prim.Native.String.{[], ◌∷◌, char_at}
use mathlib.Core.List.{List, [], ◌∷◌}
use threat_intel_arbiter.Common.{ℕ, ◌%◌, ◌≡◌, refl, ap, String, map}
use threat_intel_arbiter.Access.Users.{User}
use threat_intel_arbiter.Access.Argon.{Crypto, hash_password}

-- A user as the handler writes it: without the hash.
abbrev listed : User → String × String
listed u = (u.username, u.role)

unfoldable pub list_users :
    (List (String × String) → List (String × String)) → List User → List (String × String)
list_users order users = order (map listed users)

unfoldable pub generate_token : (List ℕ → String) → List ℕ → String
generate_token hex bytes = hex bytes

abbrev password_chars : String
password_chars = "abcdefghijklmnopqrstuvwxyzABCDEFGHIJKLMNOPQRSTUVWXYZ0123456789"

unfoldable pub random_password : List ℕ → String
random_password [] = ""
random_password (b ∷ bytes) =
    let rest = random_password bytes in char_at password_chars (b % 62) ∷ rest

unfoldable pub rehash_password : Crypto → List ℕ → String → String
unfolding hash_password
rehash_password c salt password = hash_password c salt password

abbrev with_hash : (User → String) → User → User
with_hash hash u = record u { password_hash = hash u }

-- Other hashes of the users do not show in the list.
list_users_hides :
    (order : List (String × String) → List (String × String)) (hash : User → String)
    (users : List User)
    → list_users order (map (with_hash hash) users) ≡ list_users order users
unfolding list_users
list_users_hides order hash users = ap order (same users)
  where
    same : (us : List User) → map listed (map (with_hash hash) us) ≡ map listed us
    same [] = refl
    same (u ∷ us) = ap (λ rest. listed u ∷ rest) (same us)

password_tests : random_password (0 ∷ 61 ∷ 62 ∷ 255 ∷ []) ≡ "a9ah"
unfolding random_password
password_tests = refl
