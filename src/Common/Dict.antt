-- ===== src/Common/Dict.antt =====
-- A Go map with text keys, as an association list in which a key stands once.
use Prim.Native.String.{String}
use text.Mathlib.Text.{◌==◌}
use text.Mathlib.TextEquality.{eq_iff}
use mathlib.Core.Path.{◌≡◌, refl}
use mathlib.Core.Bool.{Bool, false, ◌||◌}
use mathlib.Core.Option.{Option, none, some}
use mathlib.Core.List.{List, [], ◌∷◌}
use native.Mathlib.Omega.{arith}
use threat_intel_arbiter.Common.Tests.{if◌then◌else◌}

-- The entry for the key comes first, if there is one.
module _ {ℓ} {V : Type ℓ} where
  unfoldable pub lookup : String → List (String × V) → Option V
  lookup key [] = none
  lookup key ((other, value) ∷ rest) = if other == key then some value else lookup key rest

  unfoldable pub insert : String → V → List (String × V) → List (String × V)
  insert key value [] = (key, value) ∷ []
  insert key value ((other, old) ∷ rest) =
      if other == key then (key, value) ∷ rest else (other, old) ∷ insert key value rest

  unfoldable pub delete : String → List (String × V) → List (String × V)
  delete key [] = []
  delete key ((other, old) ∷ rest) =
      if other == key then delete key rest else (other, old) ∷ delete key rest

  pub lookup-insert :
      (key asked : String) (value : V) (entries : List (String × V))
      → lookup asked (insert key value entries)
        ≡ (if key == asked then some value else lookup asked entries)
  unfolding lookup insert
  lookup-insert key asked value [] = refl
  lookup-insert key asked value ((other, old) ∷ rest) = ground (
    arith,
    lookup-insert key asked value rest,
    eq_iff other asked,
    eq_iff other key,
    eq_iff key asked,
  )

  pub lookup-delete :
      (key asked : String) (entries : List (String × V))
      → lookup asked (delete key entries) ≡ (if key == asked then none else lookup asked entries)
  unfolding lookup delete
  lookup-delete key asked [] = ground arith
  lookup-delete key asked ((other, old) ∷ rest) =
      ground (
        arith,
        lookup-delete key asked rest,
        eq_iff other asked,
        eq_iff other key,
        eq_iff key asked,
      )

-- A Go `map[string]bool` that only ever holds `true`: a set of texts.
unfoldable pub has : String → List String → Bool
has k [] = false
has k (j ∷ s) = j == k || has k s

unfoldable pub add : String → List String → List String
unfolding has
add k s = if has k s then s else k ∷ s

unfoldable pub remove : String → List String → List String
remove k [] = []
remove k (j ∷ s) = if j == k then remove k s else j ∷ remove k s

pub has-add : (k j : String) (s : List String) → has j (add k s) ≡ (k == j || has j s)
unfolding add
has-add k j s = go
  where
    same : k ≡ j → has k s ≡ has j s
    same e = rw e

    go : has j (add k s) ≡ (k == j || has j s)
    go = ground (arith, eq_iff k j, same)

pub has-remove :
    (k j : String) (s : List String) → has j (remove k s) ≡ (if k == j then false else has j s)
unfolding has remove
has-remove k j [] = ground arith
has-remove k j (i ∷ s) = ground (arith, eq_iff k j, eq_iff i k, eq_iff i j, has-remove k j s)
