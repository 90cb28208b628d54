-- ===== src/Matching/Version/Range.antt =====
-- When `InRange` of internal/match/version/version.go says that a version is not affected, and when
-- it claims an exact match.
use Prim.Native.Nat.{Ordering}
use threat_intel_arbiter.Common.{
  ◌≡◌, ◌≢◌, ap, sym, ◌∙◌, ◌↔◌, ◌⊎◌, inl, inr, Bool, true, false, List, some, none, String, eq_iff,
  Option-cases, Bool-cases, arith,
}
use threat_intel_arbiter.Common.Int.{ℤ}
use threat_intel_arbiter.Matching.Version.{
  parse, compare_tuples, is_lt, is_gt, in_range, within, is_unknown, outside, check_bound,
}
use threat_intel_arbiter.Matching.Version.Order.{Before, compare_tuples_decides}

-- The bound is given, can be parsed, and the comparison with it comes out as stated.
abbrev IsBeyond : (Ordering → Bool) → List ℤ → String → Type 0
IsBeyond beyond tuple bound =
    (bound ≢ "")
    × ((u : List ℤ) × ((parse bound).1 ≡ some u) × (beyond (compare_tuples tuple u) ≡ true))

-- The bound is not given, or can be parsed and the comparison with it does not come out so.
abbrev IsKept : (Ordering → Bool) → List ℤ → String → Type 0
IsKept beyond tuple bound =
    (bound ≡ "")
    ⊎ ((u : List ℤ) × ((parse bound).1 ≡ some u) × (beyond (compare_tuples tuple u) ≡ false))

module _ (beyond : Ordering → Bool) (tuple : List ℤ) (bound : String) where
  check_bound-outside : (check_bound beyond tuple bound ≡ outside) ↔ IsBeyond beyond tuple bound
  unfolding check_bound
  check_bound-outside = elim (Option-cases ((parse bound).1)) [
    | inl e ↦ (λ h. absurd (ground (arith, eq_iff bound "")), λ h. absurd (ground (arith, h.1.1)))
    | inr (u, e) ↦ (
      λ h. (ground (arith, eq_iff bound ""), (u, e, ground arith)),
      λ h. ground (arith, eq_iff bound "", h.0, h.1.1, h.1.2),
    )
  ]

  check_bound-within : (check_bound beyond tuple bound ≡ within) ↔ IsKept beyond tuple bound
  unfolding check_bound
  check_bound-within = elim (Option-cases ((parse bound).1)) [
    | inl e ↦ (λ h. inl (ground (arith, eq_iff bound "")), λ h. ground (arith, eq_iff bound ""))
    | inr (u, e) ↦ (λ h. ground (arith, eq_iff bound ""), λ h. ground (arith, eq_iff bound ""))
  ]

-- The range starts after the version: the start is given, can be parsed, and is larger.
abbrev pub StartsAfter : List ℤ → String → Type 0
StartsAfter tuple start =
    (start ≢ "") × ((u : List ℤ) × ((parse start).1 ≡ some u) × Before tuple u)

-- The range ends before the version: the end is given, can be parsed, and is smaller.
abbrev pub EndsBefore : List ℤ → String → Type 0
EndsBefore tuple end = (end ≢ "") × ((u : List ℤ) × ((parse end).1 ≡ some u) × Before u tuple)

is_lt_iff : (o : Ordering) → (is_lt o ≡ true) ↔ (o ≡ Ordering.lt)
is_lt_iff o = ground arith

is_gt_iff : (o : Ordering) → (is_gt o ≡ true) ↔ (o ≡ Ordering.gt)
is_gt_iff o = ground arith

IsBeyond→StartsAfter : (t : List ℤ) (start : String) → IsBeyond is_lt t start → StartsAfter t start
IsBeyond→StartsAfter t start (given, (u, e, h)) =
    (given, (u, e, (compare_tuples_decides t u).0.0 ((is_lt_iff _).0 h)))

StartsAfter→IsBeyond : (t : List ℤ) (start : String) → StartsAfter t start → IsBeyond is_lt t start
StartsAfter→IsBeyond t start (given, (u, e, h)) =
    (given, (u, e, (is_lt_iff _).1 ((compare_tuples_decides t u).0.1 h)))

IsBeyond→EndsBefore : (t : List ℤ) (end : String) → IsBeyond is_gt t end → EndsBefore t end
IsBeyond→EndsBefore t end (given, (u, e, h)) =
    (given, (u, e, (compare_tuples_decides t u).2.0 ((is_gt_iff _).0 h)))

EndsBefore→IsBeyond : (t : List ℤ) (end : String) → EndsBefore t end → IsBeyond is_gt t end
EndsBefore→IsBeyond t end (given, (u, e, h)) =
    (given, (u, e, (is_gt_iff _).1 ((compare_tuples_decides t u).2.1 h)))

in_range-outside :
    (version start end : String) (t : List ℤ)
    → (parse version).1 ≡ some t
    → (in_range version start end).0 ≡ false
    → (check_bound is_lt t start ≡ outside) ⊎ (check_bound is_gt t end ≡ outside)
unfolding in_range
in_range-outside version start end t p h = ground arith

outside-in_range :
    (version start end : String) (t : List ℤ)
    → (parse version).1 ≡ some t
    → (check_bound is_lt t start ≡ outside) ⊎ (check_bound is_gt t end ≡ outside)
    → (in_range version start end).0 ≡ false
unfolding in_range
outside-in_range version start end t p h = ground arith

in_range-unparsed :
    (version start end : String)
    → (parse version).1 ≡ none
    → in_range version start end ≡ (true, "product_only_match")
unfolding in_range
in_range-unparsed version start end p = ground arith

-- A version is said to be not affected exactly when it can be parsed, and a start that is given and
-- can be parsed lies above it or an end that is given and can be parsed lies below it. So neither a
-- version nor a bound that cannot be parsed ever makes a version not affected.
pub not_affected_iff :
    (version start end : String)
    → ((in_range version start end).0 ≡ false)
      ↔ ((t : List ℤ) × ((parse version).1 ≡ some t) × (StartsAfter t start ⊎ EndsBefore t end))
not_affected_iff version start end = (to, from)
  where
    to :
        (in_range version start end).0 ≡ false
        → (t : List ℤ) × ((parse version).1 ≡ some t) × (StartsAfter t start ⊎ EndsBefore t end)
    to h = elim (Option-cases ((parse version).1)) [
      | inl p ↦ cc (ap (λ r. r.0) (in_range-unparsed version start end p), h)
      | inr (t, p) ↦ elim (in_range-outside version start end t p h) [
        | inl k ↦
            (t, p, inl (IsBeyond→StartsAfter t start ((check_bound-outside is_lt t start).0 k)))
        | inr k ↦ (t, p, inr (IsBeyond→EndsBefore t end ((check_bound-outside is_gt t end).0 k)))
      ]
    ]

    from :
        ((t : List ℤ) × ((parse version).1 ≡ some t) × (StartsAfter t start ⊎ EndsBefore t end))
        → (in_range version start end).0 ≡ false
    from (t, p, inl k) =
        outside-in_range version start end t p
          (inl ((check_bound-outside is_lt t start).1 (StartsAfter→IsBeyond t start k)))
    from (t, p, inr k) =
        outside-in_range version start end t p
          (inr ((check_bound-outside is_gt t end).1 (EndsBefore→IsBeyond t end k)))

parsed-is_known : (v : String) (t : List ℤ) → (parse v).1 ≡ some t → is_unknown (parse v).0 ≡ false
unfolding parse
parsed-is_known v t h = ground arith

labels_differ : ◌≢◌ {A = String} "product_only_match" "exact_version_match"
labels_differ = ground (arith, eq_iff "product_only_match" "exact_version_match")

in_range-exact :
    (version start end : String) (t : List ℤ)
    → (parse version).1 ≡ some t
    → in_range version start end ≡ (true, "exact_version_match")
    → (check_bound is_lt t start ≡ within) × (check_bound is_gt t end ≡ within)
unfolding in_range
in_range-exact version start end t p h = ground (arith, parsed-is_known version t p, labels_differ)

exact-in_range :
    (version start end : String) (t : List ℤ)
    → (parse version).1 ≡ some t
    → check_bound is_lt t start ≡ within
    → check_bound is_gt t end ≡ within
    → in_range version start end ≡ (true, "exact_version_match")
unfolding in_range
exact-in_range version start end t p h k = ground (arith, parsed-is_known version t p)

-- The range admits the version at both ends: a bound is not given, or it can be parsed and does not
-- exclude the version.
abbrev pub Admits : List ℤ → String → String → Type 0
Admits t start end =
    ((start ≡ "") ⊎ ((u : List ℤ) × ((parse start).1 ≡ some u) × (¬ Before t u)))
    × ((end ≡ "") ⊎ ((u : List ℤ) × ((parse end).1 ≡ some u) × (¬ Before u t)))

is_lt-false : (t u : List ℤ) → (is_lt (compare_tuples t u) ≡ false) ↔ (¬ Before t u)
is_lt-false t u = (
  λ h b. cc (h, ap is_lt ((compare_tuples_decides t u).0.1 b)),
  λ n. elim (Bool-cases (is_lt (compare_tuples t u))) [
    | inl e ↦ absurd (n ((compare_tuples_decides t u).0.0 ((is_lt_iff _).0 e)))
    | inr e ↦ e
  ],
)

is_gt-false : (t u : List ℤ) → (is_gt (compare_tuples t u) ≡ false) ↔ (¬ Before u t)
is_gt-false t u = (
  λ h b. cc (h, ap is_gt ((compare_tuples_decides t u).2.1 b)),
  λ n. elim (Bool-cases (is_gt (compare_tuples t u))) [
    | inl e ↦ absurd (n ((compare_tuples_decides t u).2.0 ((is_gt_iff _).0 e)))
    | inr e ↦ e
  ],
)

kept_start :
    (t : List ℤ) (start : String)
    → (check_bound is_lt t start ≡ within)
      ↔ ((start ≡ "") ⊎ ((u : List ℤ) × ((parse start).1 ≡ some u) × (¬ Before t u)))
kept_start t start = (
  λ h. elim ((check_bound-within is_lt t start).0 h) [
    | inl e ↦ inl e
    | inr (u, e, k) ↦ inr (u, e, (is_lt-false t u).0 k)
  ],
  elim [
    | inl e ↦ (check_bound-within is_lt t start).1 (inl e)
    | inr (u, e, k) ↦ (check_bound-within is_lt t start).1 (inr (u, e, (is_lt-false t u).1 k))
  ],
)

kept_end :
    (t : List ℤ) (end : String)
    → (check_bound is_gt t end ≡ within)
      ↔ ((end ≡ "") ⊎ ((u : List ℤ) × ((parse end).1 ≡ some u) × (¬ Before u t)))
kept_end t end = (
  λ h. elim ((check_bound-within is_gt t end).0 h) [
    | inl e ↦ inl e
    | inr (u, e, k) ↦ inr (u, e, (is_gt-false t u).0 k)
  ],
  elim [
    | inl e ↦ (check_bound-within is_gt t end).1 (inl e)
    | inr (u, e, k) ↦ (check_bound-within is_gt t end).1 (inr (u, e, (is_gt-false t u).1 k))
  ],
)

-- The answer is "affected, exact version match" exactly when the version can be parsed and the
-- range admits it, each of its bounds being left out or parsed.
pub exact_match_iff :
    (version start end : String)
    → (in_range version start end ≡ (true, "exact_version_match"))
      ↔ ((t : List ℤ) × ((parse version).1 ≡ some t) × Admits t start end)
exact_match_iff version start end = (
  λ h. elim (Option-cases ((parse version).1)) [
    | inl p ↦
        absurd (labels_differ (ap (λ r. r.1) (sym (in_range-unparsed version start end p) ∙ h)))
    | inr (t, p) ↦
        let (s, e) = in_range-exact version start end t p h in
        (t, p, ((kept_start t start).0 s, (kept_end t end).0 e))
  ],
  λ h.
      exact-in_range version start end h.0 h.1 ((kept_start h.0 start).1 h.2.0)
        ((kept_end h.0 end).1 h.2.1),
)
