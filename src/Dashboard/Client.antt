-- ===== src/Dashboard/Client.antt =====
-- internal/api/server.go: whose address a request comes from. The splitting of an address into host
-- and port is an argument.
use Prim.Native.Char.{code}
use Prim.Native.String.{[], ◌∷◌, ◌++◌ as append}
use text.Mathlib.TextLemmas.{nil-append, cons-append, append-ne-nil_of_right_ne-nil}
use mathlib.Core.List.{List, [], ◌∷◌, ◌++◌}
use threat_intel_arbiter.Common.{
  ◌≡◌, ◌≢◌, ◌∙◌, refl, ap, sym, Bool, true, false, not, ◌&&◌, ◌||◌, Option, none, some, String,
  ◌==◌, eqb, eq_iff, if◌then◌else◌, split, trim_space, Bool-cases, inl, inr, arith,
}

-- What is read of a request: two headers, the address of the connection and whether it is TLS.
pub record Connection : Type 0 where
  pub forwarded_for : String
  pub forwarded_proto : String
  pub remote_addr : String
  pub tls : Bool

unfoldable pub last : List String → String
last [] = ""
last (p ∷ []) = p
last (p ∷ q ∷ ps) = last (q ∷ ps)

unfoldable pub get_client_ip : (String → Option String) → Bool → Connection → String
unfolding split trim_space last
get_client_ip split_host_port trust_proxy r =
    if trust_proxy && not (r.forwarded_for == "")
    then trim_space (last (split r.forwarded_for b','))
    else elim (split_host_port r.remote_addr) [ none ↦ r.remote_addr | some host ↦ host ]

unfoldable pub is_secure : Bool → Connection → Bool
is_secure trust_proxy r = r.tls || (trust_proxy && r.forwarded_proto == "https")

comma-append : (t : String) → append "," t ≡ "," ∷ t
comma-append t = cons-append "," "" t ∙ ap (λ u. "," ∷ u) (nil-append t)

-- A comma splits off at least one part in front of those of the text behind it.
split-append :
    (s t : String)
    → (p : String) × (ps : List String) × (split (append s (append "," t)) b','
        ≡ p ∷ (ps ++ split t b','))
unfolding split
split-append [] t = ([], [], ap (λ u. split u b',') (nil-append (append "," t) ∙ comma-append t))
split-append (c ∷ s) t =
    let (p, ps, e) = split-append s t in
    let first = cons-append c s (append "," t) in
    elim (Bool-cases (eqb (code c) b',')) [
      | inl comma ↦ ([], p ∷ ps, rw first (rw (comma, e)))
      | inr other ↦ (c ∷ p, ps, rw first (rw (other, e)))
    ]

split_cases : (t : String) → (q : String) × (qs : List String) × (split t b',' ≡ q ∷ qs)
unfolding split
split_cases [] = ([], [], refl)
split_cases (c ∷ t) =
    let (q, qs, e) = split_cases t in
    elim (Bool-cases (eqb (code c) b',')) [
      | inl comma ↦ ([], q ∷ qs, rw (comma, e))
      | inr other ↦ (c ∷ q, qs, rw (other, e))
    ]

last-append :
    (p : String) (ps : List String) (t : String)
    → last (p ∷ (ps ++ split t b',')) ≡ last (split t b',')
unfolding last split
last-append p [] t = let (q, qs, e) = split_cases t in rw e
last-append p (q ∷ ps) t = last-append q ps t

joined_not_nil : (s t : String) → (append s (append "," t) == "") ≡ false
joined_not_nil s t = elim (Bool-cases (append s (append "," t) == "")) [
  | inl e ↦ absurd (
      append-ne-nil_of_right_ne-nil s
        (λ c. let wrong : ◌≡◌ {A = String} ("," ∷ t) "" = sym (comma-append t) ∙ c in cc)
        ((eq_iff (append s (append "," t)) "").0 e))
  | inr e ↦ e
]

-- Behind a trusted proxy, which puts the address it sees at the end of the header, nothing that a
-- client puts in front of it changes the address that the limits are counted by, and neither does the
-- address of the connection.
pub get_client_ip_forged :
    (split_host_port : String → Option String) (forged addr : String) (r : Connection)
    → r.forwarded_for ≢ ""
    → get_client_ip split_host_port true (record r {
      forwarded_for = append forged (append "," r.forwarded_for);
      remote_addr = addr;
    })
      ≡ get_client_ip split_host_port true r
unfolding get_client_ip
get_client_ip_forged split_host_port forged addr r named =
    let (p, ps, parts) = split-append forged r.forwarded_for in
    let there : (r.forwarded_for == "") ≡ false = ground (arith, eq_iff r.forwarded_for "") in
    rw (there, parts, last-append p ps r.forwarded_for, joined_not_nil forged r.forwarded_for)
