-- ===== src/Dashboard/Overview/Importing.antt =====
-- internal/api/server.go: what an import leaves in the table.
use mathlib.Core.List.{List, [], ◌∷◌}
use threat_intel_arbiter.Common.{
  ℕ, ◌≡◌, ◌⊎◌, ◌↔◌, refl, sym, subst, Bool, true, false, not, Memᴰ, Option, none, some, String,
  ◌==◌, All, Bool-cases, Option-cases, inl, inr,
}
use threat_intel_arbiter.Model.{App}
use threat_intel_arbiter.Inventory.{Row, Stack, parsed, error_at, parse_tech_stack}
use threat_intel_arbiter.Inventory.Validity.{IsValid, IsValidStack, parse_tech_stack-IsValidStack}
use threat_intel_arbiter.Dashboard.Stack.{
  stored, list_tech_stack, ImportFault, import_reason, replace_stack, import_tech_stack,
}
use threat_intel_arbiter.Dashboard.Stack.Import.{replace_stack_lem}
use threat_intel_arbiter.Dashboard.Overview.{
  ImportReply, bad_method, bad_header, bad_row, import_failed, imported, import_reply, import_stack,
  handle_admin_import, handle_tech_stack,
}

mem-IsValid : (apps : List App) (app : App) → All IsValid apps → Memᴰ app apps → IsValid app
mem-IsValid [] app h m = elim m [ ]
mem-IsValid (x ∷ apps) app (h, hs) (Memᴰ.head e) = subst IsValid (sym e) h
mem-IsValid (x ∷ apps) app (h, hs) (Memᴰ.tail m) = mem-IsValid apps app hs m

-- What a successful import has read, and what is listed behind it.
unfoldable pub IsImport :
    (List App → List App) → Option (List String × List Row) → ImportReply × List App → Type 0
unfolding handle_tech_stack
IsImport order body (reply, after) =
    (header : List String) × (records : List Row) × (apps : List App) × (body
      ≡ some (header, records))
    × (parse_tech_stack header records ≡ parsed apps)
    × ((row : App)
        → Memᴰ row (handle_tech_stack order after).0
          ↔ ((app : App) × Memᴰ app apps × (row ≡ stored app)))
    × ((row : App) → Memᴰ row (handle_tech_stack order after).0 → IsValid row)

-- The reply of an import that has not been done.
unfoldable pub is_refusal : ImportReply → Bool
is_refusal bad_method = true
is_refusal bad_header = true
is_refusal (bad_row line) = true
is_refusal (import_failed reason) = true
is_refusal (imported total added removed) = false

stack_cases :
    (s : Stack) → ((apps : List App) × (s ≡ parsed apps)) ⊎ ((line : ℕ) × (s ≡ error_at line))
stack_cases (parsed apps) = inl (apps, refl)
stack_cases (error_at line) = inr (line, refl)

stored-IsValid : (app : App) → IsValid app → IsValid (stored app)
unfolding IsValid
stored-IsValid app h = h

-- An import that is refused, because of its method, of a header or a row that cannot be read, or of an
-- error of the database at any step, leaves the table as it is. After one that is done, the list of the tech stack has
-- exactly the apps that the body names, without the dates of their last verification, and each has a
-- name and valid levels; if the ordering of rows keeps them.
pub handle_admin_import_lem :
    (fault : ImportFault) (order : List App → List App) (method : String)
    (body : Option (List String × List Row)) (rows : List App)
    → ((listed : List App) (app : App) → Memᴰ app (order listed) ↔ Memᴰ app listed)
    → ((is_refusal (handle_admin_import fault order method body rows).0 ≡ true)
        × ((handle_admin_import fault order method body rows).1 ≡ rows))
      ⊎ ((is_refusal (handle_admin_import fault order method body rows).0 ≡ false)
          × IsImport order body (handle_admin_import fault order method body rows))
unfolding handle_admin_import import_stack import_tech_stack import_reply replace_stack
    list_tech_stack is_refusal IsImport handle_tech_stack IsValidStack
handle_admin_import_lem fault order method none rows keeps =
    elim (Bool-cases (not (method == "POST"))) [
      | inl e ↦ inl (rw (handle_admin_import, e) refl, rw (handle_admin_import, e) refl)
      | inr e ↦ inl (rw (handle_admin_import, e) refl, rw (handle_admin_import, e) refl)
    ]
handle_admin_import_lem fault order method (some (header, records)) rows keeps =
    elim (Bool-cases (not (method == "POST"))) [
      | inl e ↦ inl (rw (handle_admin_import, e) refl, rw (handle_admin_import, e) refl)
      | inr e ↦ elim (stack_cases (parse_tech_stack header records)) [
        | inr (line, f) ↦
            inl (rw (handle_admin_import, e, f) refl, rw (handle_admin_import, e, f) refl)
        | inl (apps, f) ↦ elim (Option-cases (import_reason fault apps)) [
          | inr (reason, failed) ↦ inl (
            rw (handle_admin_import, e, f, import_stack, import_tech_stack, failed) refl,
            rw (handle_admin_import, e, f, import_stack, import_tech_stack, failed) refl,
          )
          | inl ok ↦
              let valid : IsValidStack (parsed apps) =
                subst IsValidStack f (parse_tech_stack-IsValidStack header records) in
              let listed = λ (row : App). (replace_stack_lem order apps rows row keeps).0 in
              inr (
                rw (handle_admin_import, e, f, import_stack, import_tech_stack, ok) refl,
                rw (handle_admin_import, e, f, import_stack, import_tech_stack, ok)
                    (
                      header,
                      records,
                      apps,
                      refl,
                      f,
                      listed,
                      λ row m.
                          let (app, named, same) = (listed row).0 m in
                          subst IsValid (sym same)
                            (stored-IsValid app (mem-IsValid apps app valid named)),
                    ),
              )
        ]
      ]
    ]
