-- ===== src/Config/Loading.antt =====
-- internal/config/config.go: the first part that fails decides the error of LoadAll.
use mathlib.Core.List.{List, [], ◌∷◌}
use Prim.Native.String.{◌++◌}
use threat_intel_arbiter.Common.{◌≡◌, ◌∙◌, refl, sym, ap, String}
use threat_intel_arbiter.Model.{App}
use threat_intel_arbiter.Config.{
  Config, loaded, Files, load_org, load_sources, load_routing, load_risk, load_matchers, load_apps,
  load_all,
}
use threat_intel_arbiter.Config.Reading.{
  reason_of, first_error, reason_of-and_then, loaded_and_then, file_reason, stack_reason, Holds,
  HoldsStack, reason_of-load_json, load_json-Holds, reason_of-load_apps, load_apps-HoldsStack,
}

loaded_parts :
    (whole : Config × List App) (cfg : Config) (apps : List App)
    → loaded whole ≡ loaded (cfg, apps)
    → (whole.0.org ≡ cfg.org)
      × (whole.0.sources ≡ cfg.sources)
      × (whole.0.routing ≡ cfg.routing)
      × (whole.0.risk ≡ cfg.risk)
      × (whole.0.matchers ≡ cfg.matchers)
      × (whole.1 ≡ apps)
loaded_parts whole cfg apps h =
    let same : whole ≡ (cfg, apps) = cc in
    (
      ap (λ w. w.0.org) same,
      ap (λ w. w.0.sources) same,
      ap (λ w. w.0.routing) same,
      ap (λ w. w.0.risk) same,
      ap (λ w. w.0.matchers) same,
      ap (λ w. w.1) same,
    )

load_all_loaded :
    (f : Files) (dir : String) (cfg : Config) (apps : List App)
    → load_all f dir ≡ loaded (cfg, apps)
    → (load_org f dir ≡ loaded cfg.org)
      × (load_sources f dir ≡ loaded cfg.sources)
      × (load_routing f dir ≡ loaded cfg.routing)
      × (load_risk f dir ≡ loaded cfg.risk)
      × (load_matchers f dir ≡ loaded cfg.matchers)
      × (load_apps f dir ≡ loaded apps)
unfolding load_all
load_all_loaded f dir cfg apps h =
    let (org, e, h1) = loaded_and_then "org" (load_org f dir) _ (cfg, apps) h in
    let (sources, e1, h2) = loaded_and_then "sources" (load_sources f dir) _ (cfg, apps) h1 in
    let (routing, e2, h3) = loaded_and_then "routing" (load_routing f dir) _ (cfg, apps) h2 in
    let (risk, e3, h4) = loaded_and_then "risk" (load_risk f dir) _ (cfg, apps) h3 in
    let (matchers, e4, h5) = loaded_and_then "matchers" (load_matchers f dir) _ (cfg, apps) h4 in
    let (stack, e5, h6) = loaded_and_then "techstack" (load_apps f dir) _ (cfg, apps) h5 in
    let (p, p1, p2, p3, p4, p5) =
      loaded_parts
        (
          record {
            org = org;
            sources = sources;
            routing = routing;
            risk = risk;
            matchers = matchers;
          },
          stack,
        )
        cfg apps h6 in
    (
      e ∙ ap loaded p,
      e1 ∙ ap loaded p1,
      e2 ∙ ap loaded p2,
      e3 ∙ ap loaded p3,
      e4 ∙ ap loaded p4,
      e5 ∙ ap loaded p5,
    )

reason_of-load_all :
    (f : Files) (dir : String)
    → reason_of (load_all f dir)
      ≡ first_error (
          ("org", reason_of (load_org f dir))
          ∷ ("sources", reason_of (load_sources f dir))
          ∷ ("routing", reason_of (load_routing f dir))
          ∷ ("risk", reason_of (load_risk f dir))
          ∷ ("matchers", reason_of (load_matchers f dir))
          ∷ ("techstack", reason_of (load_apps f dir))
          ∷ [])
unfolding load_all first_error
reason_of-load_all f dir = reason_of-and_then "org" (load_org f dir) _ _ (λ org e.
    reason_of-and_then "sources" (load_sources f dir) _ _ (λ sources e1.
      reason_of-and_then "routing" (load_routing f dir) _ _ (λ routing e2.
        reason_of-and_then "risk" (load_risk f dir) _ _ (λ risk e3.
          reason_of-and_then "matchers" (load_matchers f dir) _ _ (λ matchers e4.
            reason_of-and_then "techstack" (load_apps f dir) _ [] (λ apps e5. refl))))))

-- LoadAll fails exactly when one of the six files of the directory cannot be used: a file of JSON
-- cannot be read or its text not decoded, or the tech stack cannot be opened or has no header or a
-- wrong line. Its error is that of the first such file in the order org.json, sources.json,
-- routing.json, risk.json, matchers.json, techstack.csv, behind the name of its part. The
-- configuration that it gives holds what the texts of the six files say.
pub load_all_lem :
    (f : Files) (dir : String)
    → (reason_of (load_all f dir)
        ≡ first_error (
            ("org", file_reason f f.decode_org (dir ++ "/org.json"))
            ∷ ("sources", file_reason f f.decode_sources (dir ++ "/sources.json"))
            ∷ ("routing", file_reason f f.decode_routing (dir ++ "/routing.json"))
            ∷ ("risk", file_reason f f.decode_risk (dir ++ "/risk.json"))
            ∷ ("matchers", file_reason f f.decode_matchers (dir ++ "/matchers.json"))
            ∷ ("techstack", stack_reason f (dir ++ "/techstack.csv"))
            ∷ []))
      × ((cfg : Config) (apps : List App)
          → load_all f dir ≡ loaded (cfg, apps)
          → Holds f f.decode_org (dir ++ "/org.json") cfg.org
            × Holds f f.decode_sources (dir ++ "/sources.json") cfg.sources
            × Holds f f.decode_routing (dir ++ "/routing.json") cfg.routing
            × Holds f f.decode_risk (dir ++ "/risk.json") cfg.risk
            × Holds f f.decode_matchers (dir ++ "/matchers.json") cfg.matchers
            × HoldsStack f (dir ++ "/techstack.csv") apps)
unfolding load_org load_sources load_routing load_risk load_matchers
load_all_lem f dir = (
  rw
      (
        sym (reason_of-load_json f f.decode_org (dir ++ "/org.json")),
        sym (reason_of-load_json f f.decode_sources (dir ++ "/sources.json")),
        sym (reason_of-load_json f f.decode_routing (dir ++ "/routing.json")),
        sym (reason_of-load_json f f.decode_risk (dir ++ "/risk.json")),
        sym (reason_of-load_json f f.decode_matchers (dir ++ "/matchers.json")),
        sym (reason_of-load_apps f dir),
      )
      (reason_of-load_all f dir),
  λ cfg apps h.
      let (org, sources, routing, risk, matchers, stack) = load_all_loaded f dir cfg apps h in
      (
        load_json-Holds f f.decode_org (dir ++ "/org.json") cfg.org org,
        load_json-Holds f f.decode_sources (dir ++ "/sources.json") cfg.sources sources,
        load_json-Holds f f.decode_routing (dir ++ "/routing.json") cfg.routing routing,
        load_json-Holds f f.decode_risk (dir ++ "/risk.json") cfg.risk risk,
        load_json-Holds f f.decode_matchers (dir ++ "/matchers.json") cfg.matchers matchers,
        load_apps-HoldsStack f dir apps stack,
      ),
)
