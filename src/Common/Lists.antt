-- ===== src/Common/Lists.antt =====
-- Lists measured by native numbers and searched by Boolean tests.
use Prim.Native.Nat.{ℕ, zero, suc, ◌+◌, ◌≤◌}
use mathlib.Core.Path.{◌≡◌, refl, sym, ap, ◌∙◌, subst}
use mathlib.Core.Logic.{inl, inr}
use mathlib.Core.Bool.{Bool, true, false, ◌||◌}
use mathlib.Core.List.{List, [], ◌∷◌, ◌++◌, map, Memᴰ}
use mathlib.Core.List.Memᴰ
use native.Mathlib.Omega.{arith}
use threat_intel_arbiter.Common.Tests.{if◌then◌else◌, Bool-cases}

abbrev pub length {ℓ} : {A : Type ℓ} → List A → ℕ
length [] = 0
length (x ∷ xs) = suc (length xs)

-- A property of every item.
abbrev pub All {ℓ κ} : {A : Type ℓ} → (A → Type κ) → List A → Type κ
All P [] = Unit
All P (x ∷ xs) = P x × All P xs

abbrev pub take {ℓ} : {A : Type ℓ} → ℕ → List A → List A
take zero xs = []
take (suc n) [] = []
take (suc n) (x ∷ xs) = x ∷ take n xs

abbrev pub drop {ℓ} : {A : Type ℓ} → ℕ → List A → List A
drop zero xs = xs
drop (suc n) [] = []
drop (suc n) (x ∷ xs) = drop n xs

abbrev pub repeat {ℓ} : {A : Type ℓ} → ℕ → A → List A
repeat zero x = []
repeat (suc n) x = x ∷ repeat n x

module _ {ℓ} {A : Type ℓ} where
  -- A loop that stops at the first item for which the test holds.
  unfoldable pub any : (A → Bool) → List A → Bool
  any p [] = false
  any p (x ∷ xs) = p x || any p xs

  -- A loop that appends the items for which the test holds.
  unfoldable pub select : (A → Bool) → List A → List A
  select p [] = []
  select p (x ∷ xs) = if p x then x ∷ select p xs else select p xs

  pub length-append : (xs ys : List A) → length (xs ++ ys) ≡ length xs + length ys
  length-append [] ys = omega arith
  length-append (x ∷ xs) ys = omega (arith, length-append xs ys)

  pub length-select : (p : A → Bool) (xs : List A) → length (select p xs) ≤ length xs
  unfolding select
  length-select p [] = omega arith
  length-select p (x ∷ xs) = ground (arith, length-select p xs)

  pub any_witness :
      (p : A → Bool) (xs : List A) → any p xs ≡ true → (x : A) × Memᴰ x xs × (p x ≡ true)
  unfolding any
  any_witness p [] h = cc
  any_witness p (x ∷ xs) h = elim (Bool-cases (p x)) [
    | inl e ↦ (x, Memᴰ.head refl, e)
    | inr e ↦ let (y, m, k) = any_witness p xs (rw e at h) in (y, Memᴰ.tail m, k)
  ]

  pub any_of_mem : (p : A → Bool) (xs : List A) {a : A} → Memᴰ a xs → p a ≡ true → any p xs ≡ true
  unfolding any
  any_of_mem p [] m h = elim m [ ]
  any_of_mem p (x ∷ xs) (Memᴰ.head e) h = ground (arith, ap p e)
  any_of_mem p (x ∷ xs) (Memᴰ.tail m) h = ground (arith, any_of_mem p xs m h)

  pub any-eq-false :
      (p : A → Bool) (xs : List A) {a : A} → any p xs ≡ false → Memᴰ a xs → p a ≡ false
  unfolding any
  any-eq-false p [] h m = elim m [ ]
  any-eq-false p (x ∷ xs) h (Memᴰ.head e) = ground (arith, ap p e)
  any-eq-false p (x ∷ xs) h (Memᴰ.tail m) = any-eq-false p xs (ground arith) m

  pub any-append : (p : A → Bool) (xs ys : List A) → any p (xs ++ ys) ≡ (any p xs || any p ys)
  unfolding any
  any-append p [] ys = refl
  any-append p (x ∷ xs) ys = ground (arith, any-append p xs ys)

  -- What is kept was there, and passes the test.
  pub mem_of_mem-select :
      (p : A → Bool) (xs : List A) {a : A} → Memᴰ a (select p xs) → Memᴰ a xs × (p a ≡ true)
  unfolding select
  mem_of_mem-select p [] m = elim m [ ]
  mem_of_mem-select p (x ∷ xs) m = elim (Bool-cases (p x)) [
    | inl e ↦ elim (Memᴰ.cases_cons (rw e at m)) [
      | inl k ↦ (Memᴰ.head k, ap p k ∙ e)
      | inr k ↦ let (n, h) = mem_of_mem-select p xs k in (Memᴰ.tail n, h)
    ]
    | inr e ↦ let (n, h) = mem_of_mem-select p xs (rw e at m) in (Memᴰ.tail n, h)
  ]

  -- What passes the test is kept.
  pub mem-select_of_mem :
      (p : A → Bool) (xs : List A) {a : A} → Memᴰ a xs → p a ≡ true → Memᴰ a (select p xs)
  unfolding select
  mem-select_of_mem p [] m h = elim m [ ]
  mem-select_of_mem p (x ∷ xs) (Memᴰ.head e) h = rw (sym (ap p e) ∙ h) (Memᴰ.head e)
  mem-select_of_mem p (x ∷ xs) (Memᴰ.tail m) h = elim (Bool-cases (p x)) [
    | inl e ↦ rw e (Memᴰ.tail (mem-select_of_mem p xs m h))
    | inr e ↦ rw e (mem-select_of_mem p xs m h)
  ]

-- Membership of a concatenation of blocks, one for each item.
module _ {ℓ κ} {A : Type ℓ} {B : Type κ} where
  -- A loop that appends a block of results for each item.
  unfoldable pub collect : (A → List B) → List A → List B
  collect f [] = []
  collect f (x ∷ xs) = f x ++ collect f xs

  pub collect_witness :
      (f : A → List B) (xs : List A) {b : B}
      → Memᴰ b (collect f xs)
      → (x : A) × Memᴰ x xs × Memᴰ b (f x)
  unfolding collect
  collect_witness f [] m = elim m [ ]
  collect_witness f (x ∷ xs) m = elim (Memᴰ.append_cases (f x) m) [
    | inl k ↦ (x, Memᴰ.head refl, k)
    | inr k ↦ let (y, n, e) = collect_witness f xs k in (y, Memᴰ.tail n, e)
  ]

  pub map-mem : (f : A → B) (xs : List A) {a : A} → Memᴰ a xs → Memᴰ (f a) (map f xs)
  map-mem f [] n = elim n [ ]
  map-mem f (x ∷ xs) (Memᴰ.head e) = Memᴰ.head (ap f e)
  map-mem f (x ∷ xs) (Memᴰ.tail n) = Memᴰ.tail (map-mem f xs n)

  pub mem-collect :
      (f : A → List B) (xs : List A) {a : A} {b : B}
      → Memᴰ a xs
      → Memᴰ b (f a)
      → Memᴰ b (collect f xs)
  unfolding collect
  mem-collect f [] n m = elim n [ ]
  mem-collect f (x ∷ xs) {b = b} (Memᴰ.head e) m =
      Memᴰ.append_left _ (subst (λ y. Memᴰ b (f y)) e m)
  mem-collect f (x ∷ xs) (Memᴰ.tail n) m = Memᴰ.append_right (f x) (mem-collect f xs n m)
