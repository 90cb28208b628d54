-- ===== src/Dashboard/Routes/Tests.antt =====
-- internal/api/server.go: a request and the longest pattern that is for its path.
use mathlib.Core.List.{List, [], ◌∷◌}
use threat_intel_arbiter.Common.{◌≡◌, refl, true, none, some, Option, String, Memᴰ, text_length}
use threat_intel_arbiter.Common.{
  ◌⊎◌, ◌∙◌, ◌&&◌, sym, ltb, arith, ap, Bool-cases, if◌then◌else◌, inl, inr,
}
use threat_intel_arbiter.Access.Users.{Accounts}
use threat_intel_arbiter.Access.Guards.{Request, passed, unauthorized}
use threat_intel_arbiter.Dashboard.Routes.{
  Handling, Gate, is_for, serve, stopped, reached, handle_health, handle_admin_pull,
}
use threat_intel_arbiter.Dashboard.Routes.Guarded.{
  is_public_path, is_admin_handler, authenticated, administrates, serve-reached,
}

abbrev gate : Gate
gate = record { sha256_hex = λ text. text; now = 5; admin_key = "k3y" }

-- The longer of an entry that is for the path and the one picked so far.
longer : String → String × Handling → Option (String × Handling) → Option (String × Handling)
unfolding is_for text_length
longer path (pattern, x) none = if is_for path pattern then some (pattern, x) else none
longer path (pattern, x) (some (q, y)) =
    if is_for path pattern && ltb (text_length q) (text_length pattern)
    then some (pattern, x)
    else some (q, y)

longer_cases :
    (path : String) (e : String × Handling) (found : Option (String × Handling))
    → (longer path e found ≡ found) ⊎ ((longer path e found ≡ some e) × (is_for path e.0 ≡ true))
unfolding longer
longer_cases path (pattern, x) none = elim (Bool-cases (is_for path pattern)) [
  | inl e ↦ inr (rw (longer, e) refl, e)
  | inr e ↦ inl (rw (longer, e) refl)
]
longer_cases path (pattern, x) (some (q, y)) =
    elim (Bool-cases (is_for path pattern && ltb (text_length q) (text_length pattern))) [
      | inl e ↦ inr (rw (longer, e) refl, ground (arith, e))
      | inr e ↦ inl (rw (longer, e) refl)
    ]

-- The longest pattern that is for the path.
pick : List (String × Handling) → String → Option (String × Handling)
unfolding longer
pick [] path = none
pick (entry ∷ table) path = longer path entry (pick table path)

pick_picks :
    (table : List (String × Handling)) (path pattern : String) (x : Handling)
    → pick table path ≡ some (pattern, x)
    → Memᴰ (pattern, x) table × (is_for path pattern ≡ true)
unfolding pick
pick_picks [] path pattern x h =
    let wrong : ◌≡◌ {A = Option (String × Handling)} none (some (pattern, x)) = h in absurd cc
pick_picks (entry ∷ table) path pattern x h = elim (longer_cases path entry (pick table path)) [
  | inl kept ↦
      let (listed, matching) = pick_picks table path pattern x (sym kept ∙ h) in
      (Memᴰ.tail listed, matching)
  | inr (taken, matching) ↦
      let same : ◌≡◌ {A = Option (String × Handling)} (some entry) (some (pattern, x)) =
        sym taken ∙ h in
      let here : ◌≡◌ {A = String × Handling} (pattern, x) entry = cc in
      (Memᴰ.head here, ap (λ en. is_for path en.0) here ∙ matching)
]

abbrev with_key : Request
with_key = record { cookie = none; arbiter_key = "k3y"; path = "/admin/pull" }

abbrev no_accounts : Accounts
no_accounts = record { users = []; sessions = [] }

route_tests :
    (serve pick gate (record with_key { arbiter_key = "" }) no_accounts
      ≡ (no_accounts, stopped unauthorized))
    × (serve pick gate (record with_key { arbiter_key = ""; path = "/health" }) no_accounts
        ≡ (no_accounts, reached handle_health))
unfolding serve pick
route_tests = (refl, refl)

serve-reached_example :
    ((is_public_path "/admin/pull" ≡ true) ⊎ ((authenticated gate with_key no_accounts).1 ≡ passed))
    × (is_admin_handler handle_admin_pull ≡ true → administrates gate with_key no_accounts ≡ passed)
unfolding serve pick
serve-reached_example =
    serve-reached pick gate with_key no_accounts no_accounts handle_admin_pull pick_picks refl
