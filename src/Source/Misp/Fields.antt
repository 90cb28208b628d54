-- ===== src/Source/Misp/Fields.antt =====
-- internal/source/misp.go: what NormalizeMISPEvent takes from the attributes.
use mathlib.Core.List.{List, [], ◌∷◌, ◌++◌}
use mathlib.Core.List
use threat_intel_arbiter.Common.{
  ℕ, ◌≡◌, ◌∙◌, refl, sym, ap, ap₂, trim_prefix, Bool, true, false, Option, none, some, String, ◌==◌,
  if◌then◌else◌, map, select, collect, has_prefix, inl, inr, Bool-cases, Option-cases,
}
use threat_intel_arbiter.Model.{ThreatEvent, AffectedProduct}
use threat_intel_arbiter.Source.Misp.Cpe.{parse_cpe}
use threat_intel_arbiter.Source.Misp.Indicators.{iocs_of, add_ioc}
use threat_intel_arbiter.Source.Misp.{
  MispEventTag, MispGalaxyCluster, MispGalaxy, MispAttribute, MispEvent, parse_cvss, scan_cvss,
  cluster_actors, galaxy_actors, is_ioc, to_ioc, empty_event, add_attribute, add_attributes,
  normalize_misp_event,
}

-- The product of an attribute that is a CPE name.
abbrev pub products_of : MispAttribute → List AffectedProduct
products_of attr =
    if attr.attribute_type == "cpe"
    then elim (parse_cpe attr.value) [ none ↦ [] | some product ↦ product ∷ [] ]
    else []

abbrev pub with_cve : List MispAttribute → List MispAttribute
with_cve attributes = select (λ attr. has_prefix attr.value "CVE-") attributes

abbrev pub links : List MispAttribute → List MispAttribute
links attributes = select (λ attr. attr.attribute_type == "link") attributes

cons_if {ℓ} :
    {A : Type ℓ} (b : Bool) (x : A) (ys : List A)
    → (if b then x ∷ ys else ys) ≡ (if b then x ∷ [] else []) ++ ys
cons_if true x ys = refl
cons_if false x ys = refl

append_if {ℓ} :
    {A : Type ℓ} (b : Bool) (xs : List A) (x : A) (ys : List A)
    → (if b then xs ++ (x ∷ []) else xs) ++ ys ≡ xs ++ (if b then x ∷ ys else ys)
append_if true xs x ys = List.append_assoc xs (x ∷ []) ys
append_if false xs x ys = refl

map-select_cons {ℓ κ} :
    {A : Type ℓ} {B : Type κ} (f : A → B) (p : A → Bool) (x : A) (xs : List A)
    → map f (select p (x ∷ xs)) ≡ (if p x then f x ∷ map f (select p xs) else map f (select p xs))
unfolding select
map-select_cons f p x xs = elim (Bool-cases (p x)) [ inl e ↦ rw e | inr e ↦ rw e ]

add_product :
    (attr : MispAttribute) (xs ys : List AffectedProduct)
    → (if attr.attribute_type == "cpe"
          then elim (parse_cpe attr.value) [ none ↦ xs | some product ↦ xs ++ (product ∷ []) ]
          else xs)
        ++ ys
      ≡ xs ++ (products_of attr ++ ys)
add_product attr xs ys = elim (Bool-cases (attr.attribute_type == "cpe")) [
  | inr e ↦ rw e
  | inl e ↦ elim (Option-cases (parse_cpe attr.value)) [
    | inl absent ↦ rw (e, absent)
    | inr (product, there) ↦ rw (e, there) (List.append_assoc xs (product ∷ []) ys)
  ]
]

add_attributes-cves :
    (info : String) (attributes : List MispAttribute) (event : ThreatEvent)
    → (add_attributes info attributes event).cves
      ≡ event.cves ++ map (λ attr. attr.value) (with_cve attributes)
unfolding add_attributes add_attribute select
add_attributes-cves info [] event = sym (List.append-nil event.cves)
add_attributes-cves info (attr ∷ attributes) event =
    add_attributes-cves info attributes (add_attribute info attr event)
    ∙ append_if (has_prefix attr.value "CVE-") event.cves attr.value _
    ∙ ap (λ l. event.cves ++ l)
        (sym (map-select_cons (λ x. x.value) (λ x. has_prefix x.value "CVE-") attr attributes))

add_attributes-references :
    (info : String) (attributes : List MispAttribute) (event : ThreatEvent)
    → (add_attributes info attributes event).references
      ≡ event.references ++ map (λ attr. attr.value) (links attributes)
unfolding add_attributes add_attribute select
add_attributes-references info [] event = sym (List.append-nil event.references)
add_attributes-references info (attr ∷ attributes) event =
    add_attributes-references info attributes (add_attribute info attr event)
    ∙ append_if (attr.attribute_type == "link") event.references attr.value _
    ∙ ap (λ l. event.references ++ l)
        (sym (map-select_cons (λ x. x.value) (λ x. x.attribute_type == "link") attr attributes))

add_attributes-iocs :
    (info : String) (attributes : List MispAttribute) (event : ThreatEvent)
    → (add_attributes info attributes event).iocs ≡ event.iocs ++ collect (iocs_of info) attributes
unfolding add_attributes add_attribute collect
add_attributes-iocs info [] event = sym (List.append-nil event.iocs)
add_attributes-iocs info (attr ∷ attributes) event =
    add_attributes-iocs info attributes (add_attribute info attr event)
    ∙ append_if (is_ioc attr) event.iocs (to_ioc info attr) (collect (iocs_of info) attributes)
    ∙ ap (λ l. event.iocs ++ l)
        (cons_if (is_ioc attr) (to_ioc info attr) (collect (iocs_of info) attributes)
          ∙ ap (λ l. l ++ collect (iocs_of info) attributes) (add_ioc info attr))

add_attributes-products :
    (info : String) (attributes : List MispAttribute) (event : ThreatEvent)
    → (add_attributes info attributes event).affected_products
      ≡ event.affected_products ++ collect products_of attributes
unfolding add_attributes add_attribute collect
add_attributes-products info [] event = sym (List.append-nil event.affected_products)
add_attributes-products info (attr ∷ attributes) event =
    add_attributes-products info attributes (add_attribute info attr event)
    ∙ add_product attr event.affected_products (collect products_of attributes)

-- The scores that a tag names, and the last of a list of them.
abbrev pub scores_of : MispEventTag → List ℕ
scores_of tag =
    if has_prefix tag.name "cvss:"
    then elim (parse_cvss (trim_prefix tag.name "cvss:")) [ none ↦ [] | some c ↦ c ∷ [] ]
    else []

unfoldable pub last_of : ℕ → List ℕ → ℕ
last_of n [] = n
last_of n (c ∷ scores) = last_of c scores

abbrev pub all_scores : List MispAttribute → List ℕ
all_scores attributes = collect (λ attr. collect scores_of attr.tags) attributes

last_of-append : (n : ℕ) (xs ys : List ℕ) → last_of n (xs ++ ys) ≡ last_of (last_of n xs) ys
unfolding last_of
last_of-append n [] ys = refl
last_of-append n (x ∷ xs) ys = last_of-append x xs ys

last_of_step :
    (b : Bool) (found : Option ℕ) (n : ℕ) (scores : List ℕ)
    → last_of (if b then elim found [ none ↦ n | some c ↦ c ] else n) scores
      ≡ last_of n ((if b then elim found [ none ↦ [] | some c ↦ c ∷ [] ] else []) ++ scores)
unfolding last_of
last_of_step true none n scores = refl
last_of_step true (some c) n scores = refl
last_of_step false found n scores = refl

scan_cvss_lem :
    (tags : List MispEventTag) (n : ℕ) → scan_cvss tags n ≡ last_of n (collect scores_of tags)
unfolding scan_cvss collect last_of
scan_cvss_lem [] n = refl
scan_cvss_lem (tag ∷ tags) n =
    scan_cvss_lem tags _
    ∙ last_of_step (has_prefix tag.name "cvss:") (parse_cvss (trim_prefix tag.name "cvss:")) n
        (collect scores_of tags)

add_attributes-cvss :
    (info : String) (attributes : List MispAttribute) (event : ThreatEvent)
    → (add_attributes info attributes event).cvss ≡ last_of event.cvss (all_scores attributes)
unfolding add_attributes add_attribute collect last_of
add_attributes-cvss info [] event = refl
add_attributes-cvss info (attr ∷ attributes) event =
    add_attributes-cvss info attributes (add_attribute info attr event)
    ∙ ap (λ n. last_of n (all_scores attributes)) (scan_cvss_lem attr.tags event.cvss)
    ∙ sym (last_of-append event.cvss (collect scores_of attr.tags) (all_scores attributes))

-- The values of the clusters of all galaxies that are threat actors.
abbrev pub actors_of : List MispGalaxyCluster → List String
actors_of clusters =
    map (λ cluster. cluster.value)
      (select (λ cluster. cluster.cluster_type == "threat-actor") clusters)

cluster_actors_lem :
    (clusters : List MispGalaxyCluster) → cluster_actors clusters ≡ actors_of clusters
unfolding cluster_actors select
cluster_actors_lem [] = refl
cluster_actors_lem (cluster ∷ clusters) =
    elim (Bool-cases (cluster.cluster_type == "threat-actor")) [
      | inl e ↦ rw e (ap (λ l. cluster.value ∷ l) (cluster_actors_lem clusters))
      | inr e ↦ rw e (cluster_actors_lem clusters)
    ]

galaxy_actors_lem :
    (galaxies : List MispGalaxy)
    → galaxy_actors galaxies ≡ collect (λ galaxy. actors_of galaxy.galaxy_clusters) galaxies
unfolding galaxy_actors collect
galaxy_actors_lem [] = refl
galaxy_actors_lem (galaxy ∷ galaxies) =
    ap₂ (λ xs ys. xs ++ ys) (cluster_actors_lem galaxy.galaxy_clusters) (galaxy_actors_lem galaxies)

-- The loops over a MISP event give what separate descriptions give, each in the order of the event:
-- the CVEs are the values that begin with "CVE-", the references those of the links, the affected
-- products those of the CPE names that can be parsed; the indicators are those of the attributes that
-- have a value and one of eight types, with the type of the table; the CVSS score is the last one that
-- a tag of an attribute names and that can be read, and 0 without one; the threat actors are the
-- values of the clusters of that type in all galaxies.
pub normalize_misp_event_lem :
    (raw : MispEvent)
    → let event = normalize_misp_event raw in
      (event.cves ≡ map (λ attr. attr.value) (with_cve raw.attributes))
      × (event.references ≡ map (λ attr. attr.value) (links raw.attributes))
      × (event.affected_products ≡ collect products_of raw.attributes)
      × (event.iocs ≡ collect (iocs_of raw.info) raw.attributes)
      × (event.cvss ≡ last_of 0 (all_scores raw.attributes))
      × (event.threat_actors ≡ collect (λ galaxy. actors_of galaxy.galaxy_clusters) raw.galaxies)
unfolding normalize_misp_event empty_event
normalize_misp_event_lem raw = (
  add_attributes-cves raw.info raw.attributes (empty_event raw),
  add_attributes-references raw.info raw.attributes (empty_event raw),
  add_attributes-products raw.info raw.attributes (empty_event raw),
  add_attributes-iocs raw.info raw.attributes (empty_event raw),
  add_attributes-cvss raw.info raw.attributes (empty_event raw),
  galaxy_actors_lem raw.galaxies,
)
