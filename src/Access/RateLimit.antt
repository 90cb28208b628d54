-- ===== src/Access/RateLimit.antt =====
-- internal/api/ratelimit.go: the attempts of each key, as times in nanoseconds. The clock is an
-- argument; the mutex makes each operation one step.
pub mod Attempts
pub mod Window
use threat_intel_arbiter.Common.{
  ℕ, ◌+◌, ◌*◌, Bool, true, false, not, ◌&&◌, List, [], ◌∷◌, ◌++◌, none, some, String, ltb, leb,
  if◌then◌else◌, length, any, select, map,
}
use threat_intel_arbiter.Common.Dict.{lookup, insert, delete}
use threat_intel_arbiter.Model.{Time, minute}

abbrev pub Attempts : Type 0
Attempts = List (String × List Time)

abbrev max_rate_limit_keys : ℕ
max_rate_limit_keys = 50000

abbrev pub five_minutes : Time
five_minutes = 5 * minute

-- `t.After(now.Add(-window))`
abbrev pub after_cutoff : Time → Time → Time → Bool
after_cutoff window now t = ltb now (t + window)

-- A missing key has no attempts.
abbrev pub attempts_of : String → Attempts → List Time
attempts_of key m = elim (lookup key m) [ none ↦ [] | some ts ↦ ts ]

abbrev pub tracked : String → Attempts → Bool
tracked key m = elim (lookup key m) [ none ↦ false | some ts ↦ true ]

-- The loop over the keys: a key whose attempts are all stale is deleted.
unfoldable pub evict_keys : Time → List String → Attempts → Attempts
unfolding any lookup delete
evict_keys now [] m = m
evict_keys now (key ∷ keys) m =
    evict_keys now keys
      (if any (after_cutoff five_minutes now) (attempts_of key m) then m else delete key m)

unfoldable pub evict_locked : Time → Attempts → Attempts
unfolding evict_keys
evict_locked now m = evict_keys now (map (λ entry. entry.0) m) m

unfoldable pub recent_attempts : Time → Time → String → Attempts → List Time
unfolding select lookup
recent_attempts now window key m = select (after_cutoff window now) (attempts_of key m)

unfoldable pub allow : Time → String → ℕ → Time → Attempts → Attempts × Bool
unfolding recent_attempts insert lookup evict_locked
allow now key max_attempts window m =
    let recent = recent_attempts now window key m in
    let stored = insert key recent m in
    if leb max_attempts (length recent)
    then (stored, false)
    else let pruned =
        if not (tracked key stored) && leb max_rate_limit_keys (length stored)
        then evict_locked now stored
        else stored in
      (insert key (attempts_of key pruned ++ (now ∷ [])) pruned, true)

unfoldable pub reset : String → Attempts → Attempts
unfolding delete
reset key m = delete key m

unfoldable pub size : Attempts → ℕ
size m = length m
