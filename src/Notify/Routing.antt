-- ===== src/Notify/Routing.antt =====
-- internal/notify/router.go: the first rule that matches decides, alone.
use threat_intel_arbiter.Common.{
  ap, subst, sym, Bool, true, false, ◌≡◌, refl, List, [], ◌∷◌, ◌++◌, Option, String, any, select,
  arith, inl, inr, Bool-cases, Memᴰ, mem_of_mem-select, mem-select_of_mem, ◌↔◌,
}
use threat_intel_arbiter.Model.{Alert}
use threat_intel_arbiter.Notify.{Rule, rule_matches, reaches, route}

-- The rules that come before do not match the alert, this one does.
unfoldable pub IsFirst : Alert → List Rule → Rule → Type 0
unfolding any
IsFirst alert rules rule =
    (before after : List Rule) × (rules ≡ before ++ (rule ∷ after))
    × (any (rule_matches alert) before ≡ false)
    × (rule_matches alert rule ≡ true)

route_first :
    (send : String → Option Bool) (alert : Alert) (rule : Rule) (before after : List Rule)
    → any (rule_matches alert) before ≡ false
    → rule_matches alert rule ≡ true
    → route send (before ++ (rule ∷ after)) alert ≡ select (reaches send) rule.channels
unfolding route any
route_first send alert rule [] after none_before matching = rw matching
route_first send alert rule (r ∷ before) after none_before matching =
    elim (Bool-cases (rule_matches alert r)) [
      | inl e ↦ ground arith
      | inr e ↦ rw e (route_first send alert rule before after (rw e at none_before) matching)
    ]

route-IsFirst :
    (send : String → Option Bool) (rules : List Rule) (alert : Alert) (channel : String)
    → Memᴰ channel (route send rules alert)
    → (rule : Rule) × IsFirst alert rules rule
      × Memᴰ channel rule.channels
      × (reaches send channel ≡ true)
unfolding route IsFirst any
route-IsFirst send [] alert channel m = elim m [ ]
route-IsFirst send (r ∷ rules) alert channel m = elim (Bool-cases (rule_matches alert r)) [
  | inl e ↦
      let (named, ok) = mem_of_mem-select (reaches send) r.channels (rw e at m) in
      (r, ([], rules, refl, refl, e), named, ok)
  | inr e ↦
      let (rule, (before, after, split, unmatched, matching), named, ok) =
        route-IsFirst send rules alert channel (rw e at m) in
      (rule, (r ∷ before, after, ap (λ rs. r ∷ rs) split, rw e unmatched, matching), named, ok)
]

-- A channel gets an alert just when the first rule that matches the alert lists the channel and the
-- notifier registered for the channel sends it.
pub mem-route :
    (send : String → Option Bool) (rules : List Rule) (alert : Alert) (channel : String)
    → Memᴰ channel (route send rules alert) ↔ (
        (rule : Rule) × IsFirst alert rules rule
        × Memᴰ channel rule.channels
        × (reaches send channel ≡ true))
unfolding IsFirst
mem-route send rules alert channel = (
  route-IsFirst send rules alert channel,
  λ (rule, (before, after, split, unmatched, matching), named, ok).
      subst (λ rs. Memᴰ channel (route send rs alert)) (sym split)
        (rw (route_first send alert rule before after unmatched matching)
          (mem-select_of_mem (reaches send) rule.channels named ok)),
)
