-- ===== src/Dashboard/Routes/Guarded.antt =====
-- internal/api/server.go: what a request passes on its way to a handler.
use mathlib.Core.List.{List}
use threat_intel_arbiter.Common.{
  ◌≡◌, ◌⊎◌, ◌∙◌, refl, ap, sym, subst, Bool, true, false, not, ◌&&◌, any, any-eq-false, ◌||◌, Memᴰ,
  Option, some, String, ◌==◌, eq_iff, has_suffix, Bool-cases, Option-cases, inl, inr, arith,
}
use threat_intel_arbiter.Access.Users.{Accounts}
use threat_intel_arbiter.Access.Guards.{
  Request, Verdict, passed, unauthorized, redirected, forbidden, require_auth, require_admin,
}
use threat_intel_arbiter.Dashboard.Routes.{
  Handler, handle_admin_import, handle_admin_ack, handle_admin_pull, handle_admin_tech_stack,
  handle_admin_users, handle_admin_settings, Handling, handle, secure, with_auth, with_admin,
  routes, Dispatch, reached, stopped, unrouted, Gate, next_if_passed, run, serve, is_for,
}

-- The paths that are open to everyone.
unfoldable pub is_public_path : String → Bool
is_public_path path =
    path == "/login"
    || (path == "/auth/login"
        || (path == "/auth/logout" || (path == "/auth/session" || path == "/health")))

-- The handlers that write or read on behalf of an administrator.
unfoldable pub is_admin_handler : Handler → Bool
is_admin_handler handle_admin_import = true
is_admin_handler handle_admin_ack = true
is_admin_handler handle_admin_pull = true
is_admin_handler handle_admin_tech_stack = true
is_admin_handler handle_admin_users = true
is_admin_handler handle_admin_settings = true
is_admin_handler other = false

-- The accounts behind `requireAuth`, and whether it let the request pass.
abbrev pub authenticated : Gate → Request → Accounts → Accounts × Verdict
authenticated g r db = require_auth g.sha256_hex g.now g.admin_key r db

abbrev admitted : Gate → Request → Accounts → Accounts × Verdict
admitted g r db = require_admin g.sha256_hex g.now g.admin_key r db

abbrev pub administrates : Gate → Request → Accounts → Verdict
administrates g r db = (admitted g r (authenticated g r db).0).1

unfoldable inner : Handling → Handler
inner (handle h) = h
inner (secure next) = inner next
inner (with_auth next) = inner next
inner (with_admin next) = inner next

-- `requireAuth` comes first, but for the headers.
asks_auth : Handling → Bool
asks_auth (handle h) = false
asks_auth (secure next) = asks_auth next
asks_auth (with_auth next) = true
asks_auth (with_admin next) = false

-- `requireAdmin` comes right behind it.
asks_admin : Handling → Bool
asks_admin (handle h) = false
asks_admin (secure next) = asks_admin next
asks_admin (with_auth (handle h)) = false
asks_admin (with_auth (secure next)) = false
asks_admin (with_auth (with_auth next)) = false
asks_admin (with_auth (with_admin next)) = true
asks_admin (with_admin next) = false

passed_next :
    (v : Verdict) (db db' : Accounts) (rest : Accounts × Dispatch) (h : Handler)
    → next_if_passed v db rest ≡ (db', reached h)
    → (v ≡ passed) × (rest ≡ (db', reached h))
unfolding next_if_passed
passed_next passed db db' rest h e = (refl, e)
passed_next unauthorized db db' rest h e =
    let wrong : stopped unauthorized ≡ reached h = ap (λ x. x.1) e in cc
passed_next redirected db db' rest h e =
    let wrong : stopped redirected ≡ reached h = ap (λ x. x.1) e in cc
passed_next forbidden db db' rest h e =
    let wrong : stopped forbidden ≡ reached h = ap (λ x. x.1) e in cc

admin_next :
    (g : Gate) (r : Request) (next : Handling) (db db' : Accounts) (h : Handler)
    → run g r next (authenticated g r db).0 ≡ (db', reached h)
    → asks_admin (with_auth next) ≡ true
    → administrates g r db ≡ passed
unfolding run asks_admin
admin_next g r (handle k) db db' h e w = let wrong : false ≡ true = w in cc
admin_next g r (secure next) db db' h e w = let wrong : false ≡ true = w in cc
admin_next g r (with_auth next) db db' h e w = let wrong : false ≡ true = w in cc
admin_next g r (with_admin next) db db' h e it =
    let (accounts, verdict) = admitted g r (authenticated g r db).0 in
    (passed_next verdict accounts db' (run g r next accounts) h e).0

-- What a request that reaches the handler has passed.
run-reached :
    (g : Gate) (r : Request) (x : Handling) (db db' : Accounts) (h : Handler)
    → run g r x db ≡ (db', reached h)
    → (inner x ≡ h)
      × (asks_auth x ≡ true → (authenticated g r db).1 ≡ passed)
      × (asks_admin x ≡ true → administrates g r db ≡ passed)
unfolding run inner asks_auth asks_admin
run-reached g r (handle k) db db' h e =
    let same : reached k ≡ reached h = ap (λ x. x.1) e in
    (cc, (λ w. let wrong : false ≡ true = w in cc), (λ w. let wrong : false ≡ true = w in cc))
run-reached g r (secure next) db db' h e = run-reached g r next db db' h e
run-reached g r (with_auth next) db db' h e =
    let (accounts, verdict) = authenticated g r db in
    let (ok, rest) = passed_next verdict accounts db' (run g r next accounts) h e in
    let (same, _, _) = run-reached g r next accounts db' h rest in
    (same, (λ it. ok), admin_next g r next db db' h rest)
run-reached g r (with_admin next) db db' h e =
    let (accounts, verdict) = admitted g r db in
    let (ok, rest) = passed_next verdict accounts db' (run g r next accounts) h e in
    let (same, _, _) = run-reached g r next accounts db' h rest in
    (same, (λ w. let wrong : false ≡ true = w in cc), (λ w. let wrong : false ≡ true = w in cc))

-- An entry of the table that would leave a handler open.
abbrev is_open_entry : String × Handling → Bool
is_open_entry (pattern, x) =
    not (asks_auth x) && (has_suffix pattern "/" || not (is_public_path pattern))
    || is_admin_handler (inner x) && not (asks_admin x)

no_open_entry : any is_open_entry routes ≡ false
unfolding any routes asks_auth asks_admin inner is_admin_handler is_public_path has_suffix
no_open_entry = refl

closed_admin :
    (pattern : String) (x : Handling)
    → is_open_entry (pattern, x) ≡ false
    → is_admin_handler (inner x) ≡ true
    → asks_admin x ≡ true
closed_admin pattern x h admin = ground (arith, h, admin)

closed_auth :
    (path pattern : String) (x : Handling)
    → is_open_entry (pattern, x) ≡ false
    → is_for path pattern ≡ true
    → (is_public_path path ≡ true) ⊎ (asks_auth x ≡ true)
unfolding is_for
closed_auth path pattern x h matching = elim (Bool-cases (asks_auth x)) [
  | inl asks ↦ inr asks
  | inr unasked ↦
      let alone : has_suffix pattern "/" ≡ false = ground (arith, h, unasked) in
      let public : is_public_path pattern ≡ true = ground (arith, h, unasked) in
      let same : path ≡ pattern = (eq_iff path pattern).0 (rw (is_for, alone) at matching) in
      inl (subst (λ p. is_public_path p ≡ true) (sym same) public)
]

-- A request that reaches a handler has passed `requireAuth`, or its path is one of the five that are
-- open to everyone; and where the handler is one for administrators, it has passed `requireAdmin` too,
-- when the mux picks a registered pattern that is for the path.
pub serve-reached :
    (pick : List (String × Handling) → String → Option (String × Handling)) (g : Gate) (r : Request)
    (db db' : Accounts) (h : Handler)
    → ((table : List (String × Handling)) (path pattern : String) (x : Handling)
        → pick table path ≡ some (pattern, x)
        → Memᴰ (pattern, x) table × (is_for path pattern ≡ true))
    → serve pick g r db ≡ (db', reached h)
    → ((is_public_path r.path ≡ true) ⊎ ((authenticated g r db).1 ≡ passed))
      × (is_admin_handler h ≡ true → administrates g r db ≡ passed)
unfolding serve is_for
serve-reached pick g r db db' h picks e = elim (Option-cases (pick routes r.path)) [
  | inl unpicked ↦
      let wrong : unrouted ≡ reached h = ap (λ x. x.1) (rw (serve, unpicked) at e) in cc
  | inr ((pattern, x), picked) ↦
      let went : run g r x db ≡ (db', reached h) = rw (serve, picked) at e in
      let (listed, matching) = picks routes r.path pattern x picked in
      let closed = any-eq-false is_open_entry routes no_open_entry listed in
      let (same, by_auth, by_admin) = run-reached g r x db db' h went in
      let guarded : (is_public_path r.path ≡ true) ⊎ ((authenticated g r db).1 ≡ passed) =
        elim (closed_auth r.path pattern x closed matching) [
          | inl public ↦ inl public
          | inr asks ↦ inr (by_auth asks)
        ] in
      (
        guarded,
        (λ admin. by_admin (closed_admin pattern x closed (ap is_admin_handler same ∙ admin))),
      )
]
