-- ===== src/Notify/Crowdstrike/Counting.antt =====
-- How often a key stands in lists of indicators.
use mathlib.Core.List.{List, [], ◌∷◌, ◌++◌}
use threat_intel_arbiter.Common.{
  ℕ, zero, suc, ◌+◌, ◌≤◌, ◌≡◌, refl, Bool, false, ◌||◌, Option, none, some, String, ◌==◌, ltb,
  if◌then◌else◌, drop, arith, inl, inr, Option-cases,
}
use threat_intel_arbiter.Common.Dict.{has, add, remove, has-add, has-remove}
use threat_intel_arbiter.Notify.Crowdstrike.Export.{Indicator, dedup_key}
use threat_intel_arbiter.Notify.Crowdstrike.Queue.{Falcon, mark_delivered}
use threat_intel_arbiter.Notify.Crowdstrike.Schedule.{pick}

abbrev pub bit : Bool → ℕ
bit b = if b then 1 else 0

unfoldable pub total {ℓ} : {A : Type ℓ} → (A → ℕ) → List A → ℕ
total w [] = 0
total w (x ∷ xs) = w x + total w xs

module _ {ℓ} {A : Type ℓ} (w : A → ℕ) where
  pub total-append : (xs ys : List A) → total w (xs ++ ys) ≡ total w xs + total w ys
  unfolding total
  total-append [] ys = omega arith
  total-append (x ∷ xs) ys = omega (arith, total-append xs ys)

  pub total-drop : (n : ℕ) (xs : List A) → total w (drop n xs) ≤ total w xs
  unfolding total
  total-drop zero xs = omega arith
  total-drop (suc n) [] = omega arith
  total-drop (suc n) (x ∷ xs) = omega (arith, total-drop n xs)

  pub total-pick :
      (n : ℕ) (xs : List A) (x : A) (rest : List A)
      → pick n xs ≡ some (x, rest)
      → total w xs ≡ w x + total w rest
  unfolding total pick
  total-pick n [] x rest h = cc
  total-pick zero (y ∷ ys) x rest h =
      let same : y ≡ x = cc in let others : ys ≡ rest = cc in rw (same, others)
  total-pick (suc n) (y ∷ ys) x rest h = elim (Option-cases (pick n ys)) [
    | inl e ↦ let absent : ◌≡◌ {A = Option (A × List A)} none (some (x, rest)) = rw e at h in cc
    | inr ((z, zs), e) ↦
        let found : ◌≡◌ {A = Option (A × List A)} (some (z, y ∷ zs)) (some (x, rest)) = rw e at h in
        let same : z ≡ x = cc in
        let others : y ∷ zs ≡ rest = cc in
        rw (← others) (rw (← same) (omega (arith, total-pick n ys z zs e)))
  ]

-- How many indicators of a list have the key.
unfoldable pub occurs : String → List Indicator → ℕ
unfolding total
occurs k is = total (λ i. bit (dedup_key i == k)) is

pub occurs-append :
    (k : String) (is js : List Indicator) → occurs k (is ++ js) ≡ occurs k is + occurs k js
unfolding occurs
occurs-append k is js = total-append (λ i. bit (dedup_key i == k)) is js

pub occurs-drop : (k : String) (n : ℕ) (is : List Indicator) → occurs k (drop n is) ≤ occurs k is
unfolding occurs
occurs-drop k n is = total-drop (λ i. bit (dedup_key i == k)) n is

-- After a delivery exactly the keys of the batch are no longer in flight.
pub pending_keys-mark_delivered :
    (k : String) (batch : List Indicator) (f : Falcon)
    → has k (mark_delivered batch f).pending_keys
      ≡ (if ltb 0 (occurs k batch) then false else has k f.pending_keys)
unfolding mark_delivered occurs total
pending_keys-mark_delivered k [] f = refl
pending_keys-mark_delivered k (i ∷ batch) f = ground (
  arith,
  pending_keys-mark_delivered k batch (record f {
    sent = add (dedup_key i) f.sent;
    pending_keys = remove (dedup_key i) f.pending_keys;
  }),
  has-remove (dedup_key i) k f.pending_keys,
)

pub sent-mark_delivered :
    (k : String) (batch : List Indicator) (f : Falcon)
    → has k (mark_delivered batch f).sent ≡ (ltb 0 (occurs k batch) || has k f.sent)
unfolding mark_delivered occurs total
sent-mark_delivered k [] f = refl
sent-mark_delivered k (i ∷ batch) f = ground (
  arith,
  sent-mark_delivered k batch (record f {
    sent = add (dedup_key i) f.sent;
    pending_keys = remove (dedup_key i) f.pending_keys;
  }),
  has-add (dedup_key i) k f.sent,
)

pub pending-mark_delivered :
    (batch : List Indicator) (f : Falcon) → (mark_delivered batch f).pending ≡ f.pending
unfolding mark_delivered
pending-mark_delivered [] f = refl
pending-mark_delivered (i ∷ batch) f = pending-mark_delivered batch _
