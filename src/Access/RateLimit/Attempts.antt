-- ===== src/Access/RateLimit/Attempts.antt =====
-- internal/api/ratelimit.go: what one call of `allow` does to the attempts of each key.
use threat_intel_arbiter.Common.{
  sym, ◌∙◌, ◌≤◌, ◌<◌, ap, length-append, length-select, ℕ, Bool, true, false, ◌≡◌, refl, List, [],
  ◌∷◌, ◌++◌, String, ◌==◌, eq_iff, leb, if◌then◌else◌, length, any, select, arith, inl, inr,
  Bool-cases,
}
use threat_intel_arbiter.Common.Dict.{insert, delete, lookup-insert, lookup-delete}
use threat_intel_arbiter.Model.{Time}
use threat_intel_arbiter.Access.RateLimit.{Attempts, attempts_of, tracked, recent_attempts, allow}

module _ {ℓ} {A : Type ℓ} where
  pub select-append :
      (p : A → Bool) (xs ys : List A) → select p (xs ++ ys) ≡ select p xs ++ select p ys
  unfolding select
  select-append p [] ys = refl
  select-append p (x ∷ xs) ys = elim (Bool-cases (p x)) [
    | inl e ↦ rw e (rw (select-append p xs ys))
    | inr e ↦ rw e (select-append p xs ys)
  ]

  -- Selecting by a stronger test afterwards is selecting by it alone.
  pub select-select :
      (q p : A → Bool)
      → ((x : A) → q x ≡ true → p x ≡ true)
      → (xs : List A) → select q (select p xs) ≡ select q xs
  unfolding select
  select-select q p stronger [] = refl
  select-select q p stronger (x ∷ xs) = elim (Bool-cases (p x)) [
    | inl e ↦ elim (Bool-cases (q x)) [
      | inl f ↦ rw (e, f) (rw (select-select q p stronger xs))
      | inr f ↦ rw (e, f) (select-select q p stronger xs)
    ]
    | inr e ↦
        let absent : q x ≡ false = ground (arith, stronger x) in
        rw (e, absent) (select-select q p stronger xs)
  ]

  pub select-none :
      (q p : A → Bool)
      → ((x : A) → q x ≡ true → p x ≡ true)
      → (xs : List A) → any p xs ≡ false
      → select q xs ≡ []
  unfolding select any
  select-none q p stronger [] h = refl
  select-none q p stronger (x ∷ xs) h = elim (Bool-cases (q x)) [
    | inl f ↦ ground (arith, stronger x)
    | inr f ↦ rw f (select-none q p stronger xs (ground arith))
  ]

pub attempts_of-insert :
    (key k : String) (ts : List Time) (m : Attempts)
    → attempts_of k (insert key ts m) ≡ (if key == k then ts else attempts_of k m)
attempts_of-insert key k ts m =
    rw (lookup-insert key k ts m, attempts_of)
      (elim (Bool-cases (key == k)) [ inl e ↦ rw e | inr e ↦ rw e ])

pub attempts_of-delete :
    (key k : String) (m : Attempts)
    → attempts_of k (delete key m) ≡ (if key == k then [] else attempts_of k m)
attempts_of-delete key k m =
    rw (lookup-delete key k m, attempts_of)
      (elim (Bool-cases (key == k)) [ inl e ↦ rw e | inr e ↦ rw e ])

pub eq_self : (k : String) → (k == k) ≡ true
eq_self k = (eq_iff k k).1 refl

tracked-insert :
    (key : String) (ts : List Time) (m : Attempts) → tracked key (insert key ts m) ≡ true
tracked-insert key ts m = rw (lookup-insert key key ts m, tracked, eq_self key)

pub attempts_of-insert_self :
    (key : String) (ts : List Time) (m : Attempts) → attempts_of key (insert key ts m) ≡ ts
attempts_of-insert_self key ts m = rw (attempts_of-insert key key ts m) (rw (eq_self key))

-- A call of `allow` is refused, and stores the recent attempts, when these reach the maximum; else
-- it appends the present to them. The eviction inside it never happens, however many keys are
-- tracked, because the key has been stored just before the test for its absence.
pub allow_lem :
    (now : Time) (key : String) (max_attempts : ℕ) (window : Time) (m : Attempts)
    → let recent = recent_attempts now window key m in
      let stored = insert key recent m in
      allow now key max_attempts window m ≡ (
        if leb max_attempts (length recent)
        then (stored, false)
        else (insert key (recent ++ (now ∷ [])) stored, true))
unfolding allow
allow_lem now key max_attempts window m =
    let recent = recent_attempts now window key m in
    rw (tracked-insert key recent m, allow) (rw (attempts_of-insert_self key recent m))

pub both_grow :
    (q : Time → Bool) (now : Time) (xs ys : List Time)
    → select q xs ≡ select q ys
    → select q (xs ++ (now ∷ [])) ≡ select q (ys ++ (now ∷ []))
both_grow q now xs ys h =
    select-append q xs (now ∷ [])
    ∙ ap (λ zs. zs ++ select q (now ∷ [])) h
    ∙ sym (select-append q ys (now ∷ []))

pub one_more :
    (q : Time → Bool) (now : Time) (max_attempts : ℕ) (xs ys : List Time)
    → select q xs ≡ select q ys
    → length xs < max_attempts
    → length (select q (ys ++ (now ∷ []))) ≤ max_attempts
one_more q now max_attempts xs ys h few = omega (
  arith,
  ap length (select-append q ys (now ∷ [])),
  length-append (select q ys) (select q (now ∷ [])),
  length-select q (now ∷ []),
  length-select q xs,
  ap length h,
)
