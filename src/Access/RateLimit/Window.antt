-- ===== src/Access/RateLimit/Window.antt =====
-- internal/api/ratelimit.go: how many attempts a key is granted within one window, over every
-- sequence of login attempts and eviction ticks.
use threat_intel_arbiter.Common.{
  ℕ, ◌≤◌, false, ◌&&◌, ◌≡◌, refl, sym, subst, ◌∙◌, List, [], ◌∷◌, ◌++◌, String, ◌==◌, leb,
  if◌then◌else◌, length, any, select, map, arith, inl, inr, Bool-cases, eq_iff,
}
use threat_intel_arbiter.Common.Dict.{lookup, insert, delete}
use threat_intel_arbiter.Model.{Time}
use threat_intel_arbiter.Access.RateLimit.{
  Attempts, five_minutes, after_cutoff, attempts_of, evict_keys, evict_locked, recent_attempts,
  allow,
}
use threat_intel_arbiter.Access.RateLimit.Attempts.{
  select-select, select-none, attempts_of-insert, attempts_of-insert_self, attempts_of-delete,
  eq_self, allow_lem, both_grow, one_more,
}

-- A login attempt on a key, or a tick of the evictor, at a time.
pub data Call : Type 0 where
  attempt : String → Time → Call
  tick : Time → Call

abbrev pub time_of : Call → Time
time_of (attempt key now) = now
time_of (tick now) = now

-- The clock does not go back.
unfoldable pub IsOrdered : Time → List Call → Type 0
IsOrdered from [] = Unit
IsOrdered from (call ∷ calls) = (from ≤ time_of call) × IsOrdered (time_of call) calls

abbrev pub last_time : Time → List Call → Time
last_time from [] = from
last_time from (call ∷ calls) = last_time (time_of call) calls

-- The attempts, and the times at which the key `k` was granted one.
module _ (max_for : String → ℕ) (window_for : String → Time) (k : String) where
  unfoldable pub step : Attempts × List Time → Call → Attempts × List Time
  unfolding allow evict_locked
  step (m, log) (tick now) = (evict_locked now m, log)
  step (m, log) (attempt key now) =
      let (m', ok) = allow now key (max_for key) (window_for key) m in
      (m', if ok && (key == k) then log ++ (now ∷ []) else log)

  unfoldable pub replay : Attempts × List Time → List Call → Attempts × List Time
  unfolding step
  replay s [] = s
  replay s (call ∷ calls) = replay (step s call) calls

  -- From `now` on, the stored attempts of the key show the granted ones, and these are few enough.
  unfoldable pub Represents : Time → Attempts × List Time → Type 0
  unfolding select
  Represents now (m, log) =
      ((later : Time)
        → now ≤ later
        → select (after_cutoff (window_for k) later) (attempts_of k m)
          ≡ select (after_cutoff (window_for k) later) log)
      × (length (select (after_cutoff (window_for k) now) log) ≤ max_for k)

  fewer_later :
      (now later : Time) (log : List Time)
      → now ≤ later
      → length (select (after_cutoff (window_for k) later) log)
        ≤ length (select (after_cutoff (window_for k) now) log)
  unfolding select
  fewer_later now later [] h = ground arith
  fewer_later now later (t ∷ log) h = ground (arith, fewer_later now later log h)

  delete_kept :
      (now later : Time)
      → now ≤ later
      → window_for k ≤ five_minutes
      → (key : String) (m : Attempts)
      → any (after_cutoff five_minutes now) (attempts_of key m) ≡ false
      → select (after_cutoff (window_for k) later) (attempts_of k (delete key m))
        ≡ select (after_cutoff (window_for k) later) (attempts_of k m)
  unfolding select
  delete_kept now later h w key m stale = elim (Bool-cases (key == k)) [
    | inl c ↦
        let same = (eq_iff key k).0 c in
        let gone =
          select-none (after_cutoff (window_for k) later) (after_cutoff five_minutes now)
            (λ t inside. ground arith) (attempts_of k m)
            (subst (λ j. any (after_cutoff five_minutes now) (attempts_of j m) ≡ false) same
              stale) in
        rw (attempts_of-delete key k m) (rw c (sym gone))
    | inr c ↦ rw (attempts_of-delete key k m) (rw c)
  ]

  evict_keys_kept :
      (now later : Time)
      → now ≤ later
      → window_for k ≤ five_minutes
      → (keys : List String) (m : Attempts)
      → select (after_cutoff (window_for k) later) (attempts_of k (evict_keys now keys m))
        ≡ select (after_cutoff (window_for k) later) (attempts_of k m)
  unfolding evict_keys
  evict_keys_kept now later h w [] m = refl
  evict_keys_kept now later h w (key ∷ keys) m =
      elim (Bool-cases (any (after_cutoff five_minutes now) (attempts_of key m))) [
        | inl e ↦ rw e (evict_keys_kept now later h w keys m)
        | inr e ↦
            rw e (
              evict_keys_kept now later h w keys (delete key m) ∙ delete_kept now later h w key m e)
      ]

  tick-Represents :
      (from now : Time) (m : Attempts) (log : List Time)
      → from ≤ now
      → window_for k ≤ five_minutes
      → Represents from (m, log)
      → Represents now (step (m, log) (tick now))
  unfolding Represents step evict_locked
  tick-Represents from now m log h w (shown, few) = (
    λ later p.
        evict_keys_kept now later p w (map (λ entry. entry.0) m) m ∙ shown later (ground arith),
    ground (arith, fewer_later from now log h),
  )

  attempts_of_other :
      (now : Time) (key : String) (mx : ℕ) (w : Time) (m : Attempts)
      → (key == k) ≡ false
      → attempts_of k (allow now key mx w m).0 ≡ attempts_of k m
  attempts_of_other now key mx w m c =
      let recent = recent_attempts now w key m in
      rw (allow_lem now key mx w m) (elim (Bool-cases (leb mx (length recent))) [
        | inl e ↦ rw e (attempts_of-insert key k recent m ∙ rw c)
        | inr e ↦ rw e (
            attempts_of-insert key k (recent ++ (now ∷ [])) (insert key recent m)
            ∙ rw c (attempts_of-insert key k recent m ∙ rw c))
      ])

  other-Represents :
      (from now : Time) (m : Attempts) (log : List Time)
      → from ≤ now
      → (key : String) → (key == k) ≡ false
      → Represents from (m, log)
      → Represents now (step (m, log) (attempt key now))
  unfolding Represents step
  other-Represents from now m log h key c (shown, few) =
      let same = attempts_of_other now key (max_for key) (window_for key) m c in
      elim (Bool-cases (allow now key (max_for key) (window_for key) m).1) [
        | inl ok ↦
            rw (same, ok, c)
              (λ later p. shown later (ground arith), ground (arith, fewer_later from now log h))
        | inr ok ↦
            rw (same, ok)
              (λ later p. shown later (ground arith), ground (arith, fewer_later from now log h))
      ]

  -- Of the recent attempts, those that are recent later too.
  recent_later :
      (now later : Time)
      → now ≤ later
      → (m : Attempts)
      → select (after_cutoff (window_for k) later) (recent_attempts now (window_for k) k m)
        ≡ select (after_cutoff (window_for k) later) (attempts_of k m)
  unfolding recent_attempts
  recent_later now later h m =
      select-select (after_cutoff (window_for k) later) (after_cutoff (window_for k) now)
        (λ t inside. ground arith) (attempts_of k m)

  own-Represents :
      (from now : Time) (m : Attempts) (log : List Time)
      → from ≤ now
      → Represents from (m, log)
      → Represents now (step (m, log) (attempt k now))
  unfolding Represents step
  own-Represents from now m log h (shown, few) =
      let w = window_for k in
      let recent = recent_attempts now w k m in
      let recent_shown : (later : Time)
          → now ≤ later
          → select (after_cutoff w later) recent ≡ select (after_cutoff w later) log =
        λ later p. recent_later now later p m ∙ shown later (ground arith) in
      elim (Bool-cases (leb (max_for k) (length recent))) [
        | inl e ↦ rw (allow_lem now k (max_for k) w m) (
            rw e (
              λ later p. rw (attempts_of-insert_self k recent m) (recent_shown later p),
              ground (arith, fewer_later from now log h),
            ))
        | inr e ↦ rw (allow_lem now k (max_for k) w m) (
            rw (e, eq_self k)
              (
                λ later p.
                    rw (attempts_of-insert_self k (recent ++ (now ∷ [])) (insert k recent m))
                      (both_grow (after_cutoff w later) now recent log (recent_shown later p)),
                one_more (after_cutoff w now) now (max_for k) recent log
                    (recent_shown now (ground arith)) (ground arith),
              ))
      ]

  step-Represents :
      (from : Time) (m : Attempts) (log : List Time) (call : Call)
      → from ≤ time_of call
      → window_for k ≤ five_minutes
      → Represents from (m, log)
      → Represents (time_of call) (step (m, log) call)
  step-Represents from m log (tick now) h w r = tick-Represents from now m log h w r
  step-Represents from m log (attempt key now) h w r = elim (Bool-cases (key == k)) [
    | inl c ↦
        subst (λ j. Represents now (step (m, log) (attempt j now))) (sym ((eq_iff key k).0 c))
          (own-Represents from now m log h r)
    | inr c ↦ other-Represents from now m log h key c r
  ]

  replay-Represents :
      (from : Time) (s : Attempts × List Time) (calls : List Call)
      → IsOrdered from calls
      → window_for k ≤ five_minutes
      → Represents from s
      → Represents (last_time from calls) (replay s calls)
  unfolding IsOrdered replay
  replay-Represents from s [] o w r = r
  replay-Represents from s (call ∷ calls) (h, o) w r =
      replay-Represents (time_of call) (step s call) calls o w
        (step-Represents from s.0 s.1 call h w r)

-- Over every sequence of login attempts on any keys and ticks of the evictor, at times that do not
-- go back, from a limiter that has just been made: if the window of a key is at most five minutes,
-- the attempts granted to the key that lie within one window of the last call are at most the
-- maximum of the key.
pub granted_le :
    (max_for : String → ℕ) (window_for : String → Time) (k : String) (from : Time)
    (calls : List Call)
    → IsOrdered from calls
    → window_for k ≤ five_minutes
    → length (
        select
          (after_cutoff (window_for k) (last_time from calls))
          (replay max_for window_for k ([], []) calls).1)
      ≤ max_for k
unfolding Represents replay lookup select
granted_le max_for window_for k from calls o w =
    (replay-Represents max_for window_for k from ([], []) calls o w
      (λ later p. refl, ground arith)).1
