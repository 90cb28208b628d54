-- ===== src/Dashboard/Stack/Import.antt =====
-- internal/store/techstack.go: what an import counts and what it leaves in the table.
use mathlib.Core.List.Memᴰ
use mathlib.Core.List.{List, [], ◌∷◌}
use threat_intel_arbiter.Common.{
  ◌≡◌, ◌↔◌, refl, ap, sym, subst, Bool, true, false, Memᴰ, String, eq_iff, select, map, map-mem,
  length, inl, inr, arith,
}
use threat_intel_arbiter.Common.Dict.{has}
use threat_intel_arbiter.Model.{App}
use threat_intel_arbiter.Dashboard.Stack.{stack_key, stored, list_tech_stack, replace_stack}

has_of_mem : (k : String) (ks : List String) → Memᴰ k ks → has k ks ≡ true
unfolding has
has_of_mem k [] m = elim m [ ]
has_of_mem k (j ∷ ks) (Memᴰ.head e) = rw ((eq_iff j k).1 (sym e)) refl
has_of_mem k (j ∷ ks) (Memᴰ.tail n) = ground (arith, has_of_mem k ks n)

select_none {ℓ} :
    {A : Type ℓ} (p : A → Bool) (xs : List A)
    → ((a : A) → Memᴰ a xs → p a ≡ false)
    → length (select p xs) ≡ 0
unfolding select
select_none p [] h = refl
select_none p (x ∷ xs) h = rw (h x (Memᴰ.head refl)) (select_none p xs (λ a m. h a (Memᴰ.tail m)))

mem-map_stored :
    (apps : List App) (row : App)
    → Memᴰ row (map stored apps)
    → (app : App) × Memᴰ app apps × (row ≡ stored app)
mem-map_stored [] row m = elim m [ ]
mem-map_stored (app ∷ apps) row m = elim (Memᴰ.cases_cons m) [
  | inl e ↦ (app, Memᴰ.head refl, e)
  | inr n ↦ let (it, k, e) = mem-map_stored apps row n in (it, Memᴰ.tail k, e)
]

-- After an import, the listed apps are exactly the imported ones, without the dates of their last
-- verification, whatever the table had; and a second import of the same apps adds and removes none,
-- if the ordering of rows keeps them.
pub replace_stack_lem :
    (order : List App → List App) (apps rows : List App) (row : App)
    → ((listed : List App) (app : App) → Memᴰ app (order listed) ↔ Memᴰ app listed)
    → let after = (replace_stack order apps rows).2 in
      (Memᴰ row (list_tech_stack order after) ↔ ((app : App) × Memᴰ app apps × (row ≡ stored app)))
      × ((replace_stack order apps after).0 ≡ 0)
      × ((replace_stack order apps after).1 ≡ 0)
unfolding replace_stack list_tech_stack
replace_stack_lem order apps rows row keeps =
    let after = map stored apps in
    (
      (
        λ m. mem-map_stored apps row ((keeps after row).0 m),
        λ (app, n, e).
            (keeps after row).1 (subst (λ r. Memᴰ r after) (sym e) (map-mem stored apps n)),
      ),
      select_none _ apps (λ app n. rw (
          has_of_mem (stack_key app) (map stack_key (order after)) (
            map-mem stack_key (order after)
              ((keeps after (stored app)).1 (map-mem stored apps n))))),
      select_none _ (order after) (λ row' n.
          let (app, k, e) = mem-map_stored apps row' ((keeps after row').0 n) in
          rw (
            has_of_mem (stack_key row') (map stack_key apps) (
              subst (λ key. Memᴰ key (map stack_key apps)) (sym (ap stack_key e))
                (map-mem stack_key apps k)))),
    )
