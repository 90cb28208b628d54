-- ===== src/Matching/Tag/Laws.antt =====
-- What `TagEvent` of internal/match/tag.go adds to the tags of an event.
use mathlib.Core.List.Memᴰ
use Prim.Native.String.{◌++◌}
use threat_intel_arbiter.Common.{
  map-mem, ◌≡◌, refl, ap, sym, ◌∙◌, ◌↔◌, ◌⊎◌, inl, inr, true, false, List, [], ◌∷◌, Memᴰ, String,
  ◌==◌, eq_iff, to_lower, contains, map, any_witness, any_of_mem, Bool-cases, arith,
}
use threat_intel_arbiter.Common.Dict.{has}
use threat_intel_arbiter.Model.{ThreatEvent}
use threat_intel_arbiter.Matching.Tag.Keywords.{Technique, attack_techniques, Actor, threat_actors}
use threat_intel_arbiter.Matching.Tag.{
  dedup_from, dedup, mentions, found_techniques, found_actors, match_techniques, match_actors, tag,
  tag_event,
}

-- No text stands twice.
abbrev pub IsDistinct : List String → Type 0
IsDistinct [] = Unit
IsDistinct (x ∷ xs) = (¬ Memᴰ x xs) × IsDistinct xs

mem-dedup_from :
    (seen s : List String) (x : String)
    → Memᴰ x (dedup_from seen s)
    → Memᴰ x s × (has x seen ≡ false)
unfolding dedup_from
mem-dedup_from seen [] x n = absurd (elim n [ ])
mem-dedup_from seen (v ∷ s) x n = elim (Bool-cases (has v seen)) [
  | inl old ↦ let (m, h) = mem-dedup_from seen s x (rw old at n) in (Memᴰ.tail m, h)
  | inr new ↦ elim (Memᴰ.cases_cons (rw new at n)) [
    | inl e ↦ (Memᴰ.head e, ap (λ y. has y seen) e ∙ new)
    | inr k ↦ let (m, h) = mem-dedup_from (v ∷ seen) s x k in (Memᴰ.tail m, ground arith)
  ]
]

dedup_from-mem :
    (seen s : List String) (x : String) → Memᴰ x s → has x seen ≡ false → Memᴰ x (dedup_from seen s)
unfolding dedup_from
dedup_from-mem seen [] x n h = elim n [ ]
dedup_from-mem seen (v ∷ s) x (Memᴰ.head e) h = rw (sym (ap (λ y. has y seen) e) ∙ h) (Memᴰ.head e)
dedup_from-mem seen (v ∷ s) x (Memᴰ.tail n) h = elim (Bool-cases (v == x)) [
  | inl e ↦ let same = (eq_iff v x).0 e in rw (ap (λ y. has y seen) same ∙ h) (Memᴰ.head (sym same))
  | inr e ↦ elim (Bool-cases (has v seen)) [
    | inl old ↦ rw old (dedup_from-mem seen s x n h)
    | inr new ↦ rw new (Memᴰ.tail (dedup_from-mem (v ∷ seen) s x n (ground arith)))
  ]
]

dedup_from-IsDistinct : (seen s : List String) → IsDistinct (dedup_from seen s)
unfolding dedup_from
dedup_from-IsDistinct seen [] = tt
dedup_from-IsDistinct seen (v ∷ s) = elim (Bool-cases (has v seen)) [
  | inl old ↦ rw old (dedup_from-IsDistinct seen s)
  | inr new ↦ rw new (
    λ n. ground (arith, (mem-dedup_from (v ∷ seen) s v n).1, eq_iff v v),
    dedup_from-IsDistinct (v ∷ seen) s,
  )
]

-- `dedup` keeps exactly the texts that it is given, each of them once.
pub dedup_lem :
    (s : List String) → IsDistinct (dedup s) × ((x : String) → Memᴰ x (dedup s) ↔ Memᴰ x s)
unfolding dedup has
dedup_lem s = (
  dedup_from-IsDistinct [] s,
  λ x. (λ n. (mem-dedup_from [] s x n).0, λ n. dedup_from-mem [] s x n refl),
)

mentions_iff :
    (text : String) (keywords : List String)
    → (mentions text keywords ≡ true) ↔ ((k : String) × Memᴰ k keywords × (contains text k ≡ true))
unfolding mentions
mentions_iff text keywords =
    (any_witness (contains text) keywords, λ (k, n, e). any_of_mem (contains text) keywords n e)

mem-found_techniques :
    (text : String) (ts : List Technique) (id : String)
    → Memᴰ id (found_techniques text ts)
    → (t : Technique) × Memᴰ t ts × (mentions text t.keywords ≡ true) × (id ≡ t.id)
unfolding found_techniques
mem-found_techniques text [] id n = absurd (elim n [ ])
mem-found_techniques text (t ∷ ts) id n = elim (Bool-cases (mentions text t.keywords)) [
  | inl e ↦ elim (Memᴰ.cases_cons (rw e at n)) [
    | inl k ↦ (t, Memᴰ.head refl, e, k)
    | inr k ↦ let (u, m, h, same) = mem-found_techniques text ts id k in (u, Memᴰ.tail m, h, same)
  ]
  | inr e ↦
      let (u, m, h, same) = mem-found_techniques text ts id (rw e at n) in (u, Memᴰ.tail m, h, same)
]

found_techniques-mem :
    (text : String) (ts : List Technique) (t : Technique)
    → Memᴰ t ts
    → mentions text t.keywords ≡ true
    → Memᴰ t.id (found_techniques text ts)
unfolding found_techniques
found_techniques-mem text [] t n h = elim n [ ]
found_techniques-mem text (u ∷ ts) t (Memᴰ.head e) h =
    rw (sym (ap (λ x. mentions text x.keywords) e) ∙ h) (Memᴰ.head (ap (λ x. x.id) e))
found_techniques-mem text (u ∷ ts) t (Memᴰ.tail n) h =
    elim (Bool-cases (mentions text u.keywords)) [
      | inl e ↦ rw e (Memᴰ.tail (found_techniques-mem text ts t n h))
      | inr e ↦ rw e (found_techniques-mem text ts t n h)
    ]

mem-found_actors :
    (text : String) (ts : List Actor) (id : String)
    → Memᴰ id (found_actors text ts)
    → (t : Actor) × Memᴰ t ts × (mentions text t.aliases ≡ true) × (id ≡ t.id)
unfolding found_actors
mem-found_actors text [] id n = absurd (elim n [ ])
mem-found_actors text (t ∷ ts) id n = elim (Bool-cases (mentions text t.aliases)) [
  | inl e ↦ elim (Memᴰ.cases_cons (rw e at n)) [
    | inl k ↦ (t, Memᴰ.head refl, e, k)
    | inr k ↦ let (u, m, h, same) = mem-found_actors text ts id k in (u, Memᴰ.tail m, h, same)
  ]
  | inr e ↦
      let (u, m, h, same) = mem-found_actors text ts id (rw e at n) in (u, Memᴰ.tail m, h, same)
]

found_actors-mem :
    (text : String) (ts : List Actor) (t : Actor)
    → Memᴰ t ts
    → mentions text t.aliases ≡ true
    → Memᴰ t.id (found_actors text ts)
unfolding found_actors
found_actors-mem text [] t n h = elim n [ ]
found_actors-mem text (u ∷ ts) t (Memᴰ.head e) h =
    rw (sym (ap (λ x. mentions text x.aliases) e) ∙ h) (Memᴰ.head (ap (λ x. x.id) e))
found_actors-mem text (u ∷ ts) t (Memᴰ.tail n) h = elim (Bool-cases (mentions text u.aliases)) [
  | inl e ↦ rw e (Memᴰ.tail (found_actors-mem text ts t n h))
  | inr e ↦ rw e (found_actors-mem text ts t n h)
]

-- Some keyword of the table's entry stands in the description, up to case.
abbrev pub IsMentioned : String → List String → Type 0
IsMentioned description keywords =
    (k : String) × Memᴰ k keywords × (contains (to_lower description) k ≡ true)

tag-techniques :
    (text id : String)
    → Memᴰ id (tag text).techniques
      ↔ ((t : Technique) × Memᴰ t attack_techniques × IsMentioned text t.keywords × (id ≡ t.id))
unfolding tag match_techniques
tag-techniques text id = (
  λ n.
      let (t, m, h, e) =
        mem-found_techniques (to_lower text) attack_techniques id (((dedup_lem _).1 id).0 n) in
      (t, m, (mentions_iff _ _).0 h, e),
  λ (t, m, h, e). ((dedup_lem _).1 id).1 (
      Memᴰ.cast e
        (found_techniques-mem (to_lower text) attack_techniques t m ((mentions_iff _ _).1 h))),
)

tag-actors :
    (text id : String)
    → Memᴰ id (tag text).actors
      ↔ ((t : Actor) × Memᴰ t threat_actors × IsMentioned text t.aliases × (id ≡ t.id))
unfolding tag match_actors
tag-actors text id = (
  λ n.
      let (t, m, h, e) =
        mem-found_actors (to_lower text) threat_actors id (((dedup_lem _).1 id).0 n) in
      (t, m, (mentions_iff _ _).0 h, e),
  λ (t, m, h, e).
      ((dedup_lem _).1 id).1
        (Memᴰ.cast e (found_actors-mem (to_lower text) threat_actors t m ((mentions_iff _ _).1 h))),
)

tag-IsDistinct : (text : String) → IsDistinct (tag text).techniques × IsDistinct (tag text).actors
unfolding tag match_techniques match_actors
tag-IsDistinct text = ((dedup_lem _).0, (dedup_lem _).0)

-- The IDs that the tagger reports for a text: each technique of which a keyword stands in the text,
-- and each actor of which an alias does, up to the case of the text, and each ID once.
pub tag_lem :
    (text : String)
    → (IsDistinct (tag text).techniques × IsDistinct (tag text).actors)
      × ((id : String)
          → Memᴰ id (tag text).techniques ↔ (
              (t : Technique) × Memᴰ t attack_techniques
              × IsMentioned text t.keywords
              × (id ≡ t.id)))
      × ((id : String)
          → Memᴰ id (tag text).actors
            ↔ ((t : Actor) × Memᴰ t threat_actors × IsMentioned text t.aliases × (id ≡ t.id)))
tag_lem text = (tag-IsDistinct text, tag-techniques text, tag-actors text)

mem-map_witness :
    (f : String → String) (xs : List String) (y : String)
    → Memᴰ y (map f xs)
    → (x : String) × Memᴰ x xs × (y ≡ f x)
mem-map_witness f [] y n = absurd (elim n [ ])
mem-map_witness f (x ∷ xs) y n = elim (Memᴰ.cases_cons n) [
  | inl e ↦ (x, Memᴰ.head refl, e)
  | inr k ↦ let (z, m, e) = mem-map_witness f xs y k in (z, Memᴰ.tail m, e)
]

-- The tags of an event after tagging are those that it had, one "att&ck:" tag for each technique
-- and one "threat-actor:" tag for each actor that the description mentions, and no other.
pub mem-tag_event :
    (event : ThreatEvent) (x : String)
    → Memᴰ x (tag_event event).tags ↔ (
        Memᴰ x event.tags
        ⊎ ((t : Technique) × Memᴰ t attack_techniques
            × IsMentioned event.description t.keywords
            × (x ≡ "att&ck:" ++ t.id))
        ⊎ ((a : Actor) × Memᴰ a threat_actors
            × IsMentioned event.description a.aliases
            × (x ≡ "threat-actor:" ++ a.id)))
unfolding tag_event
mem-tag_event event x = (
  λ n. elim (Memᴰ.append_cases _ n) [
    | inl n ↦ elim (Memᴰ.append_cases event.tags n) [
      | inl n ↦ inl n
      | inr n ↦
          let (id, m, e) = mem-map_witness (λ t. "att&ck:" ++ t) _ x n in
          let (t, k, h, same) = (tag-techniques event.description id).0 m in
          inr (inl (t, k, h, e ∙ ap (λ t. "att&ck:" ++ t) same))
    ]
    | inr n ↦
        let (id, m, e) = mem-map_witness (λ a. "threat-actor:" ++ a) _ x n in
        let (a, k, h, same) = (tag-actors event.description id).0 m in
        inr (inr (a, k, h, e ∙ ap (λ a. "threat-actor:" ++ a) same))
  ],
  elim [
    | inl n ↦ Memᴰ.append_left _ (Memᴰ.append_left _ n)
    | inr (inl (t, k, h, e)) ↦ Memᴰ.append_left _ (
        Memᴰ.append_right event.tags (
          Memᴰ.cast e (
            map-mem (λ t. "att&ck:" ++ t) _
              ((tag-techniques event.description t.id).1 (t, k, h, refl)))))
    | inr (inr (a, k, h, e)) ↦ Memᴰ.append_right _ (
        Memᴰ.cast e (
          map-mem (λ a. "threat-actor:" ++ a) _
            ((tag-actors event.description a.id).1 (a, k, h, refl))))
  ],
)
