-- ===== src/Source/Client/Bounded.antt =====
-- internal/source/misp.go and kev.go: how much of a reply is read.
use Prim.Native.String.{[], ◌∷◌}
use mathlib.Core.List.{List}
use threat_intel_arbiter.Common.{
  ℕ, zero, suc, ◌*◌, ◌^◌, ◌≤◌, ◌≡◌, ◌⊎◌, refl, Bool, true, false, String, leb, eqb, Bool-cases,
  take_text, text_length, inl, inr, arith,
}
use threat_intel_arbiter.Source.Misp.{MispEvent}
use threat_intel_arbiter.Source.Kev.{KevEntry}
use threat_intel_arbiter.Source.Client.{
  max_misp_response_bytes, max_kev_response_bytes, Fetched, fetched, fetch_error, HttpReply,
  not_created, not_answered, not_read, answered, read_limited, do_request, events_query,
  decode_events, fetch_events, kev_entries, fetch_kev,
}

take_text_le : (n : ℕ) (s : String) → text_length (take_text n s) ≤ n
unfolding take_text text_length
take_text_le zero s = omega arith
take_text_le (suc n) [] = omega arith
take_text_le (suc n) (c ∷ s) = omega (arith, take_text_le n s)

-- Two decoders that agree on the texts up to the bound.
unfoldable pub Agree {ℓ} : {A : Type ℓ} → ℕ → (String → A) → (String → A) → Type ℓ
unfolding text_length
Agree limit decode decode' = (text : String) → text_length text ≤ limit → decode text ≡ decode' text

decode_events-Agree :
    (decode decode' : String → Fetched (List MispEvent)) (reply : HttpReply)
    → Agree max_misp_response_bytes decode decode'
    → decode_events decode (do_request reply) ≡ decode_events decode' (do_request reply)
unfolding do_request decode_events read_limited Agree
decode_events-Agree decode decode' (not_created reason) same = refl
decode_events-Agree decode decode' (not_answered reason) same = refl
decode_events-Agree decode decode' (not_read reason) same = refl
decode_events-Agree decode decode' (answered status body) same =
    elim (Bool-cases (leb 400 status)) [
      | inl e ↦ rw (do_request, e) refl
      | inr e ↦
          rw (do_request, e)
            (rw
              (
                decode_events,
                same (take_text max_misp_response_bytes body)
                    (take_text_le max_misp_response_bytes body),
              )
              refl)
    ]

fetched_cases :
    (r : Fetched HttpReply)
    → ((reason : String) × (r ≡ fetch_error reason)) ⊎ ((reply : HttpReply) × (r ≡ fetched reply))
fetched_cases (fetch_error reason) = inl (reason, refl)
fetched_cases (fetched reply) = inr (reply, refl)

is_answered : HttpReply → Bool
is_answered (answered status body) = true
is_answered other = false

fetch_events-Agree :
    (get : List (String × String) → Fetched HttpReply)
    (decode decode' : String → Fetched (List MispEvent)) (since : String) (limit page : ℕ)
    → Agree max_misp_response_bytes decode decode'
    → fetch_events get decode since limit page ≡ fetch_events get decode' since limit page
unfolding fetch_events
fetch_events-Agree get decode decode' since limit page same =
    elim (fetched_cases (get (events_query since limit page))) [
      | inl (reason, e) ↦ rw (fetch_events, e) refl
      | inr (reply, e) ↦ rw (fetch_events, e) (decode_events-Agree decode decode' reply same)
    ]

-- A reply with a status, or another end of the request, which no decoder sees.
answered_cases :
    (reply : HttpReply)
    → ((status : ℕ) × (body : String) × (reply ≡ answered status body))
      ⊎ (is_answered reply ≡ false)
unfolding is_answered
answered_cases (not_created reason) = inr refl
answered_cases (not_answered reason) = inr refl
answered_cases (not_read reason) = inr refl
answered_cases (answered status body) = inl (status, body, refl)

kev_unanswered :
    (decode decode' : String → Fetched (List KevEntry)) (reply : HttpReply)
    → is_answered reply ≡ false
    → kev_entries decode reply ≡ kev_entries decode' reply
unfolding is_answered kev_entries
kev_unanswered decode decode' (not_created reason) h = refl
kev_unanswered decode decode' (not_answered reason) h = refl
kev_unanswered decode decode' (not_read reason) h = refl
kev_unanswered decode decode' (answered status body) h = let wrong : true ≡ false = h in absurd cc

fetch_kev-Agree :
    (get : String → HttpReply) (decode decode' : String → Fetched (List KevEntry)) (url : String)
    → Agree max_kev_response_bytes decode decode'
    → fetch_kev get decode url ≡ fetch_kev get decode' url
unfolding fetch_kev kev_entries Agree read_limited
fetch_kev-Agree get decode decode' url same = elim (answered_cases (get url)) [
  | inl (status, body, e) ↦ elim (Bool-cases (eqb status 200)) [
    | inl ok ↦
        rw (fetch_kev, e, kev_entries, ok)
          (rw
            (same (take_text max_kev_response_bytes body)
              (take_text_le max_kev_response_bytes body))
            refl)
    | inr bad ↦ rw (fetch_kev, e, kev_entries, bad) refl
  ]
  | inr unanswered ↦ kev_unanswered decode decode' (get url) unanswered
]

-- Nothing beyond 128 MB of a reply is decoded: two decoders of events, and two of catalog entries, that
-- agree on all texts up to that length give the same, whatever the servers answer.
pub fetch-Agree :
    (get : List (String × String) → Fetched HttpReply)
    (decode decode' : String → Fetched (List MispEvent)) (since : String) (limit page : ℕ)
    (get_catalog : String → HttpReply) (decode_kev decode_kev' : String → Fetched (List KevEntry))
    (url : String)
    → Agree (128 * 2 ^ 20) decode decode'
    → Agree (128 * 2 ^ 20) decode_kev decode_kev'
    → (fetch_events get decode since limit page ≡ fetch_events get decode' since limit page)
      × (fetch_kev get_catalog decode_kev url ≡ fetch_kev get_catalog decode_kev' url)
fetch-Agree get decode decode' since limit page get_catalog decode_kev decode_kev' url same
      same_kev =
    (
      fetch_events-Agree get decode decode' since limit page same,
      fetch_kev-Agree get_catalog decode_kev decode_kev' url same_kev,
    )
