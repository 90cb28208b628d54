-- ===== src/Access/Legacy/Parts.antt =====
-- internal/store/users.go: splitN loses nothing, and what an accepted legacy password means.
use Prim.Native.String.{[], ◌∷◌, ◌++◌ as append}
use Prim.Native.Char.{code}
use text.Mathlib.TextEquality.{Char-path}
use text.Mathlib.TextLemmas.{nil-append, cons-append}
use mathlib.Core.List.{List, [], ◌∷◌}
use threat_intel_arbiter.Common.{
  ℕ, zero, suc, ◌+◌, ◌-◌, ◌≤◌, ◌≡◌, ◌⊎◌, ◌∙◌, refl, ap, ap₂, sym, Bool, true, false, Option, none,
  some, String, ◌==◌, eq_iff, eqb, eqb_iff, has_prefix, text_length, take_text, drop_text, join,
  length, Bool-cases, Option-cases, inl, inr, arith,
}
use threat_intel_arbiter.Access.Legacy.{index_of, split_off, split_n, verify_legacy}

has_prefix→append :
    (s sep : String) → has_prefix s sep ≡ true → append sep (drop_text (text_length sep) s) ≡ s
unfolding has_prefix drop_text text_length
has_prefix→append s [] h = nil-append s
has_prefix→append [] (d ∷ sep) h = cc
has_prefix→append (c ∷ s) (d ∷ sep) h = elim (Bool-cases (eqb (code c) (code d))) [
  | inr e ↦ let wrong : false ≡ true = rw e at h in cc
  | inl e ↦
      let same : d ≡ c = sym (Char-path c d ((eqb_iff (code c) (code d)).0 e)) in
      cons-append d sep (drop_text (text_length sep) s)
      ∙ ap₂ (λ a u. a ∷ u) same (has_prefix→append s sep (rw e at h))
]

at_front :
    (s sep : String)
    → has_prefix s sep ≡ true
    → append (take_text 0 s) (append sep (drop_text (0 + text_length sep) s)) ≡ s
unfolding take_text
at_front s sep h =
    let same : 0 + text_length sep ≡ text_length sep = omega arith in
    nil-append (append sep (drop_text (0 + text_length sep) s))
    ∙ rw same (has_prefix→append s sep h)

-- The separator stands at the position found.
index_of_lem :
    (s sep : String) (i : ℕ)
    → index_of s sep ≡ some i
    → append (take_text i s) (append sep (drop_text (i + text_length sep) s)) ≡ s
unfolding index_of take_text drop_text
index_of_lem [] sep i h = elim (Bool-cases (has_prefix "" sep)) [
  | inr e ↦ let absent : ◌≡◌ {A = Option ℕ} none (some i) = rw (e, index_of) at h in cc
  | inl e ↦
      let found : ◌≡◌ {A = Option ℕ} (some 0) (some i) = rw (e, index_of) at h in
      let here : i ≡ 0 = cc in rw here (at_front "" sep e)
]
index_of_lem (c ∷ s) sep i h = elim (Bool-cases (has_prefix (c ∷ s) sep)) [
  | inl e ↦
      let found : ◌≡◌ {A = Option ℕ} (some 0) (some i) = rw (e, index_of) at h in
      let here : i ≡ 0 = cc in rw here (at_front (c ∷ s) sep e)
  | inr e ↦ elim (Option-cases (index_of s sep)) [
    | inl none_later ↦
        let absent : ◌≡◌ {A = Option ℕ} none (some i) = rw (e, none_later, index_of) at h in cc
    | inr (j, later) ↦
        let found : ◌≡◌ {A = Option ℕ} (some (suc j)) (some i) = rw (e, later, index_of) at h in
        let here : i ≡ suc j = cc in
        let past : suc j + text_length sep ≡ suc (j + text_length sep) = omega arith in
        rw here
          (rw past (cons-append c (take_text j s) _ ∙ ap (λ u. c ∷ u) (index_of_lem s sep j later)))
  ]
]

split_off_cases :
    (n : ℕ) (s sep : String) → (q : String) × (qs : List String) × (split_off n s sep ≡ q ∷ qs)
unfolding split_off
split_off_cases zero s sep = (s, [], refl)
split_off_cases (suc n) s sep = elim (Option-cases (index_of s sep)) [
  | inl e ↦ (s, [], rw (e, split_off))
  | inr (i, e) ↦
      (take_text i s, split_off n (drop_text (i + text_length sep) s) sep, rw (e, split_off))
]

join-split_off : (n : ℕ) (s sep : String) → join (split_off n s sep) sep ≡ s
unfolding split_off join
join-split_off zero s sep = refl
join-split_off (suc n) s sep = elim (Option-cases (index_of s sep)) [
  | inl e ↦ rw (e, split_off) refl
  | inr (i, e) ↦
      let left = drop_text (i + text_length sep) s in
      let (q, qs, parts) = split_off_cases n left sep in
      let joined : join (q ∷ qs) sep ≡ left =
        ap (λ l. join l sep) (sym parts) ∙ join-split_off n left sep in
      rw (e, split_off)
        (rw parts (ap (λ u. append (take_text i s) (append sep u)) joined ∙ index_of_lem s sep i e))
]

split_off_le : (n : ℕ) (s sep : String) → length (split_off n s sep) ≤ suc n
unfolding split_off
split_off_le zero s sep = omega arith
split_off_le (suc n) s sep = elim (Option-cases (index_of s sep)) [
  | inl e ↦ rw (e, split_off) (omega arith)
  | inr (i, e) ↦
      rw (e, split_off) (omega (arith, split_off_le n (drop_text (i + text_length sep) s) sep))
]

-- splitN loses nothing and gives no more parts than asked for: joined with the separator, the parts
-- are the text again.
split_n_lem :
    (s sep : String) (n : ℕ)
    → 1 ≤ n
    → (join (split_n s sep n) sep ≡ s) × (length (split_n s sep n) ≤ n)
unfolding split_n
split_n_lem s sep n h = (join-split_off (n - 1) s sep, omega (arith, split_off_le (n - 1) s sep, h))

-- Two parts, or another number of them.
parts_cases :
    (parts : List String)
    → ((decode_hex : String → Option String) (test : String → String → Bool)
        → (elim parts [
          | [] ↦ false
          | salt ∷ [] ↦ false
          | salt ∷ hash ∷ [] ↦ elim (decode_hex salt) [
            | none ↦ false
            | some bytes ↦ test bytes hash
          ]
          | salt ∷ hash ∷ other ∷ others ↦ false
        ])
          ≡ false)
      ⊎ ((salt : String) × (hash : String) × (parts ≡ salt ∷ hash ∷ []))
parts_cases [] = inl (λ decode_hex test. refl)
parts_cases (salt ∷ []) = inl (λ decode_hex test. refl)
parts_cases (salt ∷ hash ∷ []) = inr (salt, hash, refl)
parts_cases (salt ∷ hash ∷ other ∷ others) = inl (λ decode_hex test. refl)

-- A password that the legacy check accepts is right: the stored hash is a salt in hexadecimal, a
-- colon and the digest of the salt's bytes followed by the password.
pub verify_legacy_lem :
    (decode_hex : String → Option String) (sha256_hex : String → String) (password stored : String)
    → verify_legacy decode_hex sha256_hex password stored ≡ true
    → (salt : String) × (bytes : String) × (stored
        ≡ append salt (append ":" (sha256_hex (append bytes password))))
      × (decode_hex salt ≡ some bytes)
unfolding verify_legacy join
verify_legacy_lem decode_hex sha256_hex password stored h =
    let whole = (split_n_lem stored ":" 2 (omega arith)).0 in
    elim (parts_cases (split_n stored ":" 2)) [
      | inl other ↦
          let wrong : false ≡ true =
            sym (other decode_hex (λ bytes hash. sha256_hex (append bytes password) == hash)) ∙ h in
          cc
      | inr (salt, hash, e) ↦ elim (Option-cases (decode_hex salt)) [
        | inl bad ↦ let wrong : false ≡ true = rw (e, bad, verify_legacy) at h in cc
        | inr (bytes, good) ↦
            let right : (sha256_hex (append bytes password) == hash) ≡ true =
              rw (e, good, verify_legacy) at h in
            let same : sha256_hex (append bytes password) ≡ hash = (eq_iff _ _).0 right in
            let text : append salt (append ":" hash) ≡ stored =
              ap (λ l. join l ":") (sym e) ∙ whole in
            (salt, bytes, sym text ∙ ap (λ u. append salt (append ":" u)) (sym same), good)
      ]
    ]
