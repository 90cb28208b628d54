-- ===== src/Notify/Crowdstrike/Token.antt =====
-- internal/notify/crowdstrike.go: the settings that the environment gives, and the token that getToken
-- shares between goroutines. Each stretch of code under the mutex is one function; the request takes
-- place between two of them, and its outcome and the clock are arguments.
pub mod Flight
pub mod Waiting
use mathlib.Core.List.{List, [], ◌∷◌}
use threat_intel_arbiter.Common.{
  ℕ, zero, suc, ◌+◌, ◌-◌, ◌*◌, ◌≡◌, refl, Bool, true, false, not, ◌&&◌, Option, none, some, String,
  ◌==◌, ltb, if◌then◌else◌, split, trim_space, map,
}
use threat_intel_arbiter.Common.Int.{ℤ, pos_part, neg_part}
use threat_intel_arbiter.Model.{Time, second}
use threat_intel_arbiter.Notify.Crowdstrike.Export.{Settings, indicator_action}

abbrev pub env_or_default : (String → String) → String → String → String
env_or_default getenv key default = if getenv key == "" then default else getenv key

-- The part of NewCrowdstrikeNotifier that the other files read.
unfoldable pub new_settings : (String → String) → Settings
unfolding split trim_space
new_settings getenv =
    let types = getenv "CROWDSTRIKE_PREVENT_IOC_TYPES" in
    record {
      action = env_or_default getenv "CROWDSTRIKE_ACTION" "detect";
      min_severity = env_or_default getenv "CROWDSTRIKE_SEVERITY" "medium";
      mock = getenv "CROWDSTRIKE_CLIENT_ID" == "";
      prevent_types =
          if env_or_default getenv "CROWDSTRIKE_ACTION" "detect" == "prevent" && not (types == "")
          then map trim_space (split types b',')
          else [];
      max_tlp = getenv "CROWDSTRIKE_MAX_TLP";
    }

pub record Token : Type 0 where
  pub token : String
  pub expires : Time
  pub refreshing : Bool

-- What the first lock of getToken decides: the token is valid, another goroutine refreshes it, or this
-- one has to.
pub data Decision : Type 0 where
  valid : String → Decision
  wait : Decision
  refresh : Decision

unfoldable pub get_token : Time → Token → Decision × Token
get_token now t =
    if not (t.token == "") && ltb now t.expires
    then (valid t.token, t)
    else if t.refreshing
    then (wait, t)
    else (refresh, record t { refreshing = true })

-- The lock after a request that failed, was refused or cannot be decoded.
unfoldable pub give_up : Token → Token
give_up t = record t { refreshing = false }

-- The lock after a request that gave a token and the number of seconds that it lasts, which may be
-- negative; a time before Go's zero time is the zero time here.
unfoldable pub set_token : Time → String → ℤ → Token → Token
set_token now token expires_in t = record {
  token = token;
  expires = now + pos_part expires_in * second - (neg_part expires_in + 60) * second;
  refreshing = false;
}
