-- ===== src/Inventory/Difference.antt =====
-- internal/config/techstack.go: what ComputeDelta finds added and removed.
use mathlib.Core.List.Memᴰ
use mathlib.Core.List.{List, [], ◌∷◌}
use threat_intel_arbiter.Common.{
  ◌≡◌, ◌↔◌, ◌⊎◌, ◌∙◌, refl, ap, ap₂, sym, subst, true, false, Memᴰ, Option, none, some, String,
  ◌==◌, eq_iff, map, map-mem, mem_of_mem-select, mem-select_of_mem, inl, inr, Bool-cases,
  Option-cases,
}
use threat_intel_arbiter.Common.Dict.{lookup, insert, lookup-insert}
use threat_intel_arbiter.Model.{App}
use threat_intel_arbiter.Inventory.{app_key, by_key, is_new, is_gone, compute_delta}

-- Some app of the list has the key.
abbrev pub IsKeyOf : List App → String → Type 0
IsKeyOf apps k = (app : App) × Memᴰ app apps × (app_key app ≡ k)

mem-insert :
    (k : String) (v : App) (m : List (String × App)) (e : String × App)
    → Memᴰ e (insert k v m)
    → Memᴰ e m ⊎ (e ≡ (k, v))
unfolding insert
mem-insert k v [] e n = inr (Memᴰ.eq_of_singleton n)
mem-insert k v ((j, w) ∷ m) e n = elim (Bool-cases (j == k)) [
  | inl same ↦ elim (Memᴰ.cases_cons (rw same at n)) [
    | inl new ↦ inr new
    | inr old ↦ inl (Memᴰ.tail old)
  ]
  | inr other ↦ elim (Memᴰ.cases_cons (rw other at n)) [
    | inl first ↦ inl (Memᴰ.head first)
    | inr later ↦ elim (mem-insert k v m e later) [
      | inl old ↦ inl (Memᴰ.tail old)
      | inr new ↦ inr new
    ]
  ]
]

-- An entry of the map was there, or is an app of the list under its key.
mem-by_key :
    (apps : List App) (m : List (String × App)) (e : String × App)
    → Memᴰ e (by_key apps m)
    → Memᴰ e m ⊎ (Memᴰ e.1 apps × (app_key e.1 ≡ e.0))
unfolding by_key
mem-by_key [] m e n = inl n
mem-by_key (app ∷ apps) m e n = elim (mem-by_key apps (insert (app_key app) app m) e n) [
  | inr (k, same) ↦ inr (Memᴰ.tail k, same)
  | inl before ↦ elim (mem-insert (app_key app) app m e before) [
    | inl earlier ↦ inl earlier
    | inr new ↦
        inr (Memᴰ.head (ap (λ p. p.1) new), ap (λ p. app_key p.1) new ∙ sym (ap (λ p. p.0) new))
  ]
]

lookup_witness :
    (k : String) (m : List (String × App)) (v : App) → lookup k m ≡ some v → Memᴰ (k, v) m
unfolding lookup
lookup_witness k [] v h = cc
lookup_witness k ((j, w) ∷ m) v h = elim (Bool-cases (j == k)) [
  | inl same ↦
      let found : some w ≡ some v = rw same at h in
      let it : w ≡ v = cc in Memᴰ.head (ap₂ (λ a b. (a, b)) (sym ((eq_iff j k).0 same)) (sym it))
  | inr other ↦ Memᴰ.tail (lookup_witness k m v (rw other at h))
]

-- A key is missing from the map exactly when it was and no app of the list has it.
lookup-by_key-none :
    (apps : List App) (m : List (String × App)) (k : String)
    → (lookup k (by_key apps m) ≡ none) ↔ ((lookup k m ≡ none) × ¬ IsKeyOf apps k)
unfolding by_key
lookup-by_key-none [] m k = ((λ h. (h, λ (app, n, e). elim n [ ])), λ (h, absent). h)
lookup-by_key-none (app ∷ apps) m k =
    let rest = lookup-by_key-none apps (insert (app_key app) app m) k in
    let step = lookup-insert (app_key app) k app m in
    (
      λ h.
          let (missing, others) = rest.0 h in
          elim (Bool-cases (app_key app == k)) [
            | inl same ↦
                let there : ◌≡◌ {A = Option App} (some app) none =
                  sym (rw same at step) ∙ missing in
                cc
            | inr other ↦ (
              sym (rw other at step) ∙ missing,
              λ (a, n, e). elim (Memᴰ.cases_cons n) [
                | inl it ↦
                    let key = (eq_iff (app_key app) k).1 (sym (ap app_key it) ∙ e) in
                    let wrong : true ≡ false = sym key ∙ other in cc
                | inr later ↦ others (a, later, e)
              ],
            )
          ],
      λ (missing, absent).
          let still : lookup k (insert (app_key app) app m) ≡ none =
            elim (Bool-cases (app_key app == k)) [
              | inl same ↦ absurd (absent (app, Memᴰ.head refl, (eq_iff (app_key app) k).0 same))
              | inr other ↦ step ∙ rw other missing
            ] in
          rest.1 (still, λ (a, n, e). absent (a, Memᴰ.tail n, e)),
    )

mem-values :
    (m : List (String × App)) (app : App)
    → Memᴰ app (map (λ entry. entry.1) m)
    → (e : String × App) × Memᴰ e m × (app ≡ e.1)
mem-values [] app n = absurd (elim n [ ])
mem-values (e ∷ m) app n = elim (Memᴰ.cases_cons n) [
  | inl it ↦ (e, Memᴰ.head refl, it)
  | inr later ↦ let (f, k, it) = mem-values m app later in (f, Memᴰ.tail k, it)
]

-- A key of the map by key belongs to its app.
key_of_mem :
    (apps : List App) (e : String × App)
    → Memᴰ e (by_key apps [])
    → Memᴰ e.1 apps × (app_key e.1 ≡ e.0)
key_of_mem apps e n = elim (mem-by_key apps [] e n) [
  | inl none_there ↦ absurd (elim none_there [ ])
  | inr k ↦ k
]

none_iff : (apps : List App) (k : String) → (lookup k (by_key apps []) ≡ none) ↔ ¬ IsKeyOf apps k
unfolding lookup
none_iff apps k = (
  (λ h. ((lookup-by_key-none apps [] k).0 h).1),
  λ absent. (lookup-by_key-none apps [] k).1 (refl, absent),
)

is_new_iff :
    (existing : List App) (app : App)
    → (is_new (by_key existing []) app ≡ true) ↔ ¬ IsKeyOf existing (app_key app)
is_new_iff existing app = elim (Option-cases (lookup (app_key app) (by_key existing []))) [
  | inl e ↦ ((λ h. (none_iff existing (app_key app)).0 e), λ absent. rw (e, is_new))
  | inr (old, e) ↦ (
    (λ h. let wrong : false ≡ true = rw (e, is_new) at h in cc),
    λ absent.
        let wrong : ◌≡◌ {A = Option App} none (some old) =
          sym ((none_iff existing (app_key app)).1 absent) ∙ e in
        cc,
  )
]

is_gone_iff :
    (new : List App) (e : String × App) → (is_gone (by_key new []) e ≡ true) ↔ ¬ IsKeyOf new e.0
is_gone_iff new e = elim (Option-cases (lookup e.0 (by_key new []))) [
  | inl h ↦ ((λ gone. (none_iff new e.0).0 h), λ absent. rw (h, is_gone))
  | inr (app, h) ↦ (
    (λ gone. let wrong : false ≡ true = rw (h, is_gone) at gone in cc),
    λ absent.
        let wrong : ◌≡◌ {A = Option App} none (some app) = sym ((none_iff new e.0).1 absent) ∙ h in
        cc,
  )
]

removed_key :
    (new existing : List App) (k : String)
    → IsKeyOf existing k
    → ¬ IsKeyOf new k
    → IsKeyOf (compute_delta new existing).removed k
unfolding compute_delta
removed_key new existing k there absent = elim (Option-cases (lookup k (by_key existing []))) [
  | inl missing ↦ absurd ((none_iff existing k).0 missing there)
  | inr (app, found) ↦
      let n = lookup_witness k (by_key existing []) app found in
      (
        app,
        map-mem (λ entry. entry.1) _
            (mem-select_of_mem (is_gone (by_key new [])) (by_key existing []) n
              ((is_gone_iff new (k, app)).1 absent)),
        (key_of_mem existing (k, app) n).1,
      )
]

-- ComputeDelta finds added exactly the new apps whose key no existing app has, and its removed apps
-- have exactly the keys of existing apps that no new app has, whatever keys stand there several times.
pub compute_delta_lem :
    (new existing : List App) (app : App) (k : String)
    → (Memᴰ app (compute_delta new existing).added
        ↔ (Memᴰ app new × ¬ IsKeyOf existing (app_key app)))
      × (IsKeyOf (compute_delta new existing).removed k ↔ (IsKeyOf existing k × ¬ IsKeyOf new k))
unfolding compute_delta
compute_delta_lem new existing app k = (
  (
    (λ n.
        let (m, h) = mem_of_mem-select (is_new (by_key existing [])) new n in
        (m, (is_new_iff existing app).0 h)),
    λ (m, absent).
        mem-select_of_mem (is_new (by_key existing [])) new m ((is_new_iff existing app).1 absent),
  ),
  (
    (λ (a, n, e).
        let (entry, m, it) = mem-values _ a n in
        let (m', gone) = mem_of_mem-select (is_gone (by_key new [])) (by_key existing []) m in
        let (there, key) = key_of_mem existing entry m' in
        let same : entry.0 ≡ k = sym key ∙ sym (ap app_key it) ∙ e in
        (
          (entry.1, there, key ∙ same),
          subst (λ j. ¬ IsKeyOf new j) same ((is_gone_iff new entry).0 gone),
        )),
    λ (there, absent). removed_key new existing k there absent,
  ),
)
