-- ===== src/Matching/Version/Order.antt =====
-- `compareTuples` of internal/match/version/version.go is a total order: the lexicographic one.
use Prim.Native.Nat.{Ordering}
use threat_intel_arbiter.Common.{◌≡◌, refl, ◌∙◌, ◌↔◌, inl, inr, Bool-cases, List, [], ◌∷◌, arith}
use threat_intel_arbiter.Common.Int.{ℤ, ltb_ℤ, ◌<ℤ◌, ltb_ℤ_iff}
use threat_intel_arbiter.Matching.Version.{compare_tuples}

-- One tuple comes before another.
pub data Before : List ℤ → List ℤ → Type 0 where
  shorter : {y : ℤ} {b : List ℤ} → Before [] (y ∷ b)
  less : {x y : ℤ} {a b : List ℤ} → x <ℤ y → Before (x ∷ a) (y ∷ b)
  same : {x y : ℤ} {a b : List ℤ} → x ≡ y → Before a b → Before (x ∷ a) (y ∷ b)

lt→Before : (a b : List ℤ) → compare_tuples a b ≡ Ordering.lt → Before a b
unfolding compare_tuples
lt→Before [] [] h = cc
lt→Before [] (y ∷ b) h = shorter
lt→Before (x ∷ a) [] h = cc
lt→Before (x ∷ a) (y ∷ b) h = elim (Bool-cases (ltb_ℤ x y)) [
  | inl e ↦ less ((ltb_ℤ_iff x y).0 e)
  | inr e ↦ elim (Bool-cases (ltb_ℤ y x)) [
    | inl k ↦ cc (rw (e, k) at h)
    | inr k ↦ same (ground arith) (lt→Before a b (rw (e, k) at h))
  ]
]

Before→lt : {a b : List ℤ} → Before a b → compare_tuples a b ≡ Ordering.lt
unfolding compare_tuples
Before→lt shorter = refl
Before→lt (less {x = x} {y = y} h) = rw ((ltb_ℤ_iff x y).1 h)
Before→lt (same {a = a} {b = b} e h) = ground (arith, Before→lt h)

eq→≡ : (a b : List ℤ) → compare_tuples a b ≡ Ordering.eq → a ≡ b
unfolding compare_tuples
eq→≡ [] [] h = refl
eq→≡ [] (y ∷ b) h = cc
eq→≡ (x ∷ a) [] h = cc
eq→≡ (x ∷ a) (y ∷ b) h = ground (arith, eq→≡ a b)

compare_tuples_refl : (a : List ℤ) → compare_tuples a a ≡ Ordering.eq
unfolding compare_tuples
compare_tuples_refl [] = refl
compare_tuples_refl (x ∷ a) = ground (arith, compare_tuples_refl a)

abbrev flip : Ordering → Ordering
flip Ordering.lt = Ordering.gt
flip Ordering.eq = Ordering.eq
flip Ordering.gt = Ordering.lt

compare_tuples_swap : (a b : List ℤ) → compare_tuples b a ≡ flip (compare_tuples a b)
unfolding compare_tuples
compare_tuples_swap [] [] = refl
compare_tuples_swap [] (y ∷ b) = refl
compare_tuples_swap (x ∷ a) [] = refl
compare_tuples_swap (x ∷ a) (y ∷ b) = ground (arith, compare_tuples_swap a b)

gt→Before : (a b : List ℤ) → compare_tuples a b ≡ Ordering.gt → Before b a
gt→Before a b h = lt→Before b a (cc (compare_tuples_swap a b, h))

Before→gt : {a b : List ℤ} → Before b a → compare_tuples a b ≡ Ordering.gt
Before→gt {a} {b} h = cc (compare_tuples_swap b a, Before→lt h)

-- The three results of a comparison of version tuples say exactly that the first comes before the
-- second in the lexicographic order, that they are equal, and that the second comes before the
-- first. A tuple that another one continues comes before it.
pub compare_tuples_decides :
    (a b : List ℤ)
    → ((compare_tuples a b ≡ Ordering.lt) ↔ Before a b)
      × ((compare_tuples a b ≡ Ordering.eq) ↔ (a ≡ b))
      × ((compare_tuples a b ≡ Ordering.gt) ↔ Before b a)
compare_tuples_decides a b = (
  (lt→Before a b, Before→lt),
  (eq→≡ a b, λ e. rw e (compare_tuples_refl b)),
  (gt→Before a b, Before→gt),
)

Before-trans : {a b c : List ℤ} → Before a b → Before b c → Before a c
Before-trans shorter (less h) = shorter
Before-trans shorter (same e h) = shorter
Before-trans (less h) (less k) = less (omega arith)
Before-trans (less h) (same e k) = less (rw (← e) h)
Before-trans (same e h) (less k) = less (rw e k)
Before-trans (same e h) (same k l) = same (e ∙ k) (Before-trans h l)

-- The comparison is transitive.
pub compare_tuples_trans :
    (a b c : List ℤ)
    → compare_tuples a b ≡ Ordering.lt
    → compare_tuples b c ≡ Ordering.lt
    → compare_tuples a c ≡ Ordering.lt
compare_tuples_trans a b c h k = Before→lt (Before-trans (lt→Before a b h) (lt→Before b c k))
