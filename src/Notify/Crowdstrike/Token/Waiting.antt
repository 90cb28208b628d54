-- ===== src/Notify/Crowdstrike/Token/Waiting.antt =====
-- internal/notify/crowdstrike.go: a whole call of getToken, with the wait for another goroutine's
-- request. The clock at each look, what happens to the shared token while the call sleeps, and the
-- reply to the request are arguments; the number of looks is bounded by fuel.
use Prim.Native.String.{◌++◌}
use threat_intel_arbiter.Common.{
  ℕ, zero, suc, ◌+◌, ◌-◌, ◌*◌, ◌≡◌, ◌⊎◌, Bool, true, false, not, ◌&&◌, Option, none, some, String,
  ◌==◌, ltb, show,
}
use threat_intel_arbiter.Common.Int.{ℤ, pos_part, neg_part}
use threat_intel_arbiter.Model.{Time, second}
use threat_intel_arbiter.Notify.Crowdstrike.Token.{
  Token, valid, wait, refresh, get_token, give_up, set_token,
}

-- How the request for a token ends.
pub data TokenReply : Type 0 where
  not_built : String → TokenReply
  not_sent : String → TokenReply
  not_read : String → TokenReply
  answered : ℕ → String → TokenReply
  not_parsed : String → TokenReply
  granted : String → ℤ → TokenReply

-- The token, or the error.
pub data TokenResult : Type 0 where
  token_is : String → TokenResult
  token_error : String → TokenResult

-- What getToken returns behind the request, and the shared token it leaves. A reply with a status of
-- an error is `answered`.
unfoldable pub finish_refresh : Time → TokenReply → Token → TokenResult × Token
unfolding give_up set_token show
finish_refresh now (not_built reason) t = (token_error reason, give_up t)
finish_refresh now (not_sent reason) t = (token_error ("oauth2: " ++ reason), give_up t)
finish_refresh now (not_read reason) t = (token_error ("oauth2 read: " ++ reason), give_up t)
finish_refresh now (answered status body) t =
    (token_error ("oauth2 error " ++ (show status ++ (": " ++ body))), give_up t)
finish_refresh now (not_parsed reason) t = (token_error ("oauth2 parse: " ++ reason), give_up t)
finish_refresh now (granted token expires_in) t = (token_is token, set_token now token expires_in t)

-- The calls one after another: `clock k` is the time of the look number `k`, `meanwhile k` what the
-- other goroutines make of the shared token while the call sleeps behind it, `answered_at` the time
-- behind its own request.
unfoldable pub call_token :
    ℕ
    → ℕ
    → (ℕ → Time)
    → (ℕ → Token → Token)
    → Time
    → TokenReply
    → Token
    → Option (TokenResult × Token)
unfolding get_token finish_refresh
call_token zero k clock meanwhile answered_at reply t = none
call_token (suc fuel) k clock meanwhile answered_at reply t =
    let (decision, t') = get_token (clock k) t in
    let later = call_token fuel (suc k) clock meanwhile answered_at reply (meanwhile k t') in
    elim decision [
      | valid token ↦ some (token_is token, t')
      | refresh ↦ some (finish_refresh answered_at reply t')
      | wait ↦ later
    ]

-- The shared token at a look, when the looks before it all wait.
unfoldable pub token_at : (ℕ → Token → Token) → ℕ → ℕ → Token → Token
token_at meanwhile k zero t = t
token_at meanwhile k (suc n) t = token_at meanwhile (suc k) n (meanwhile k t)

-- The shared token is there and has not expired.
abbrev pub usable : Time → Token → Bool
usable now u = not (u.token == "") && ltb now u.expires

-- A look finds no usable token and another goroutine's request under way.
pub Waits : Time → Token → Type 0
Waits now u = (usable now u ≡ false) × (u.refreshing ≡ true)

-- The call gives an error, and of the shared token only the flag is changed.
pub Fails : Token → TokenResult × Token → Type 0
Fails u result =
    ((reason : String) × (result.0 ≡ token_error reason))
    × (result.1 ≡ record u { refreshing = false })

-- The call gives what the reply says. A token that is granted is shared, and expires a minute before
-- the reply says; no request is left under way, whichever way the request ended.
pub Answers : TokenReply → Time → Token → TokenResult × Token → Type 0
Answers (not_built reason) at u result = Fails u result
Answers (not_sent reason) at u result = Fails u result
Answers (not_read reason) at u result = Fails u result
Answers (answered status body) at u result = Fails u result
Answers (not_parsed reason) at u result = Fails u result
Answers (granted token expires_in) at u result =
    (result.0 ≡ token_is token)
    × (result.1 ≡ record {
      token = token;
      expires = at + pos_part expires_in * second - (neg_part expires_in + 60) * second;
      refreshing = false;
    })

-- A look that is the last one: it takes the usable token as it is shared, or there is none and no
-- request is under way, and the call makes the request.
pub Ends : Time → TokenReply → Time → Token → TokenResult × Token → Type 0
Ends now reply at u result =
    ((usable now u ≡ true) × (result ≡ (token_is u.token, u)))
    ⊎ ((usable now u ≡ false) × (u.refreshing ≡ false) × Answers reply at u result)
