-- ===== src/Notify/Crowdstrike/Token/Flight.antt =====
-- internal/notify/crowdstrike.go: how goroutines share the refresh of the token.

use threat_intel_arbiter.Common.{
  ℕ, suc, ◌+◌, ◌≤◌, ◌≡◌, ◌∙◌, refl, Bool, true, false, not, ◌&&◌, String, ◌==◌, ltb, Bool-cases,
  inl, inr, arith,
}
use threat_intel_arbiter.Common.Int.{ℤ}
use threat_intel_arbiter.Model.{Time}
use threat_intel_arbiter.Notify.Crowdstrike.Counting.{bit}
use threat_intel_arbiter.Notify.Crowdstrike.Moves.{bit_le}
use threat_intel_arbiter.Notify.Crowdstrike.Export.{indicator_action}
use threat_intel_arbiter.Notify.Crowdstrike.Token.{
  Token, Decision, refresh, get_token, give_up, set_token, new_settings,
}

abbrev pub is_refresh : Decision → Bool
is_refresh refresh = true
is_refresh decision = false

-- The steps of all goroutines on the shared token; the number is that of the goroutines whose request
-- is under way. Any goroutine may ask at any time, one that waits asks again.
pub data Step : ℕ → Token → ℕ → Token → Type 0 where
  asking :
      {n k : ℕ} {t : Token} (now : Time)
      → k ≡ n + bit (is_refresh (get_token now t).0)
      → Step n t k (get_token now t).1
  failing : {n : ℕ} {t : Token} → Step (suc n) t n (give_up t)
  succeeding :
      {n : ℕ} {t : Token} (now : Time) (token : String) (expires_in : ℤ)
      → Step (suc n) t n (set_token now token expires_in t)

pub data Reaches (t : Token) : ℕ → Token → Type 0 where
  start : Reaches t 0 t
  after : {m k : ℕ} {u v : Token} → Reaches t m u → Step m u k v → Reaches t k v

asking_single :
    (now : Time) (n : ℕ) (t : Token)
    → n ≡ bit t.refreshing
    → n + bit (is_refresh (get_token now t).0) ≡ bit (get_token now t).1.refreshing
unfolding get_token
asking_single now n t h = elim (Bool-cases (not (t.token == "") && ltb now t.expires)) [
  | inl e ↦ rw (e, get_token) (omega (arith, h))
  | inr e ↦ elim (Bool-cases t.refreshing) [
    | inl busy ↦ rw (e, busy, get_token) (let one : n ≡ 1 = rw busy at h in omega (arith, one))
    | inr free ↦
        rw (e, free, get_token) (let none_there : n ≡ 0 = rw free at h in omega (arith, none_there))
  ]
]

Step-single :
    {n : ℕ} {t : Token} {k : ℕ} {u : Token}
    → Step n t k u
    → n ≡ bit t.refreshing
    → k ≡ bit u.refreshing
unfolding give_up set_token
Step-single {n = n} {t = t} (asking now e) h = e ∙ asking_single now n t h
Step-single {t = t} failing h = omega (arith, h, bit_le t.refreshing)
Step-single {t = t} (succeeding now token expires_in) h = omega (arith, h, bit_le t.refreshing)

reached :
    {t : Token} {n : ℕ} {u : Token} → t.refreshing ≡ false → Reaches t n u → n ≡ bit u.refreshing
reached free start = rw free refl
reached free (after r step) = Step-single step (reached free r)

-- However the goroutines interleave, whatever their requests come to: from a token that nobody
-- refreshes, the flag is set exactly while a request is under way, and there is never more than one.
-- So a goroutine that waits always waits for a request, also after requests that failed.
pub single_flight :
    {t : Token} {n : ℕ} {u : Token}
    → t.refreshing ≡ false
    → Reaches t n u
    → (n ≡ bit u.refreshing) × (n ≤ 1)
single_flight {u = u} free r = let h = reached free r in (h, omega (arith, h, bit_le u.refreshing))

-- With the action "prevent" and no approved types, every type of indicator is sent as "prevent".
pub prevent_without_types :
    (getenv : String → String) (ioc_type : String)
    → getenv "CROWDSTRIKE_ACTION" ≡ "prevent"
    → getenv "CROWDSTRIKE_PREVENT_IOC_TYPES" ≡ ""
    → indicator_action (new_settings getenv) ioc_type ≡ "prevent"
unfolding indicator_action new_settings
prevent_without_types getenv ioc_type action types = rw (action, types) refl
