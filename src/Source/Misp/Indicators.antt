-- ===== src/Source/Misp/Indicators.antt =====
-- internal/source/misp.go: mapMISPToIOCType and the indicator of an attribute, by a table.
use mathlib.Core.List.{List, [], ◌∷◌}
use threat_intel_arbiter.Common.{
  ◌≡◌, ◌⊎◌, refl, false, none, some, String, ◌==◌, if◌then◌else◌, map, eq_iff, arith, inl, inr,
  Bool-cases,
}
use threat_intel_arbiter.Common.Dict.{lookup}
use threat_intel_arbiter.Model.{Ioc}
use threat_intel_arbiter.Source.Misp.{
  MispAttribute, map_misp_to_ioc_type, event_tags, is_ioc, to_ioc,
}

-- The types of MISP that are indicators, and what they are here.
unfoldable pub indicator_types : List (String × String)
indicator_types =
    ("ip-src", "ipv4")
    ∷ ("ip-dst", "ipv4")
    ∷ ("ip", "ipv4")
    ∷ ("ipv6", "ipv6")
    ∷ ("domain", "domain")
    ∷ ("hostname", "domain")
    ∷ ("sha256", "hash_sha256")
    ∷ ("md5", "hash_md5")
    ∷ []

-- The indicator of an attribute that has a value and one of these types.
unfoldable pub iocs_of : String → MispAttribute → List Ioc
unfolding lookup indicator_types
iocs_of info attr = elim (lookup attr.attribute_type indicator_types) [
  | none ↦ []
  | some ioc_type ↦
      if attr.value == ""
      then []
      else record {
        ioc_type = ioc_type;
        value = attr.value;
        description = if attr.comment == "" then info else attr.comment;
        severity = "";
        source = "misp";
        tags = map (λ tag. tag.name) attr.tags;
      }
        ∷ []
]

-- A text is the key, or the tests in both orders fail.
equal_or_not : (k t : String) → (t ≡ k) ⊎ (((t == k) ≡ false) × ((k == t) ≡ false))
equal_or_not k t = ground (arith, eq_iff k t, eq_iff t k)

-- The function of the source gives the type of the table.
lookup-indicator_types :
    (t : String)
    → lookup t indicator_types
      ≡ (if map_misp_to_ioc_type t == "" then none else some (map_misp_to_ioc_type t))
unfolding lookup indicator_types map_misp_to_ioc_type
lookup-indicator_types t = elim (equal_or_not "ip-src" t) [
  | inl e ↦ rw e refl
  | inr (a0, b0) ↦ elim (equal_or_not "ip-dst" t) [
    | inl e ↦ rw e refl
    | inr (a1, b1) ↦ elim (equal_or_not "ip" t) [
      | inl e ↦ rw e refl
      | inr (a2, b2) ↦ elim (equal_or_not "ipv6" t) [
        | inl e ↦ rw e refl
        | inr (a3, b3) ↦ elim (equal_or_not "domain" t) [
          | inl e ↦ rw e refl
          | inr (a4, b4) ↦ elim (equal_or_not "hostname" t) [
            | inl e ↦ rw e refl
            | inr (a5, b5) ↦ elim (equal_or_not "sha256" t) [
              | inl e ↦ rw e refl
              | inr (a6, b6) ↦ elim (equal_or_not "md5" t) [
                | inl e ↦ rw e refl
                | inr (a7, b7) ↦
                    rw
                      (
                        map_misp_to_ioc_type, lookup, indicator_types, a0, b0, a1, b1, a2, b2, a3,
                        b3, a4, b4, a5, b5, a6, b6, a7, b7,
                      )
                      refl
              ]
            ]
          ]
        ]
      ]
    ]
  ]
]

pub add_ioc :
    (info : String) (attr : MispAttribute)
    → (if is_ioc attr then to_ioc info attr ∷ [] else []) ≡ iocs_of info attr
unfolding is_ioc to_ioc event_tags iocs_of
add_ioc info attr = elim (Bool-cases (map_misp_to_ioc_type attr.attribute_type == "")) [
  | inl e ↦ rw (iocs_of, lookup-indicator_types attr.attribute_type, is_ioc, e) refl
  | inr e ↦ elim (Bool-cases (attr.value == "")) [
    | inl no_value ↦
        rw (iocs_of, lookup-indicator_types attr.attribute_type, is_ioc, e, no_value) refl
    | inr value ↦ rw (iocs_of, lookup-indicator_types attr.attribute_type, is_ioc, e, value) refl
  ]
]
