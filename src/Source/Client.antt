-- ===== src/Source/Client.antt =====
-- internal/source/misp.go and kev.go: the requests of the clients. The HTTP client, the query encoding
-- and the decoding of JSON are arguments; a body is a text of bytes, of which at most a bound is read.
pub mod Bounded
use Prim.Native.String.{◌++◌}
use mathlib.Core.List.{List, [], ◌∷◌}
use threat_intel_arbiter.Common.{
  ℕ, ◌+◌, ◌*◌, ◌^◌, Bool, true, false, String, ◌==◌, leb, eqb, show, take_text, if◌then◌else◌,
}
use threat_intel_arbiter.Source.Misp.{MispEvent}
use threat_intel_arbiter.Source.Kev.{KevEntry}

abbrev pub max_misp_response_bytes : ℕ
max_misp_response_bytes = 128 * 2 ^ 20

abbrev pub max_kev_response_bytes : ℕ
max_kev_response_bytes = 128 * 2 ^ 20

-- A value or the text of an error.
pub data Fetched {ℓ} (A : Type ℓ) : Type ℓ where
  fetched : A → Fetched A
  fetch_error : String → Fetched A

-- How a request goes: it cannot be made, it is not answered, its body cannot be read to the bound, or
-- it is answered with a status and a body.
pub data HttpReply : Type 0 where
  not_created : String → HttpReply
  not_answered : String → HttpReply
  not_read : String → HttpReply
  answered : ℕ → String → HttpReply

-- `io.ReadAll` of an `io.LimitReader`.
unfoldable pub read_limited : ℕ → String → String
unfolding take_text
read_limited limit body = take_text limit body

unfoldable pub do_request : HttpReply → Fetched String
unfolding read_limited show
do_request (not_created reason) = fetch_error ("create request: " ++ reason)
do_request (not_answered reason) = fetch_error ("http request: " ++ reason)
do_request (not_read reason) = fetch_error ("read response: " ++ reason)
do_request (answered status body) =
    let read = read_limited max_misp_response_bytes body in
    if leb 400 status
    then fetch_error ("misp api error " ++ (show status ++ (": " ++ read)))
    else fetched read

-- The parameters of the query for a page; the server counts pages from 1.
unfoldable pub events_query : String → ℕ → ℕ → List (String × String)
unfolding show
events_query since limit page =
    ("returnFormat", "json")
    ∷ ("limit", show limit)
    ∷ ("page", show (page + 1))
    ∷ (if since == "" then [] else ("timestamp", since) ∷ [])

unfoldable pub decode_events :
    (String → Fetched (List MispEvent)) → Fetched String → Fetched (List MispEvent)
decode_events decode (fetch_error reason) = fetch_error ("fetch events: " ++ reason)
decode_events decode (fetched body) = elim (decode body) [
  | fetched events ↦ fetched events
  | fetch_error reason ↦ fetch_error ("decode response: " ++ reason)
]

-- `get` sends a request for a query to the server's restSearch, if its URL parses.
unfoldable pub fetch_events :
    (List (String × String) → Fetched HttpReply)
    → (String → Fetched (List MispEvent))
    → String
    → ℕ
    → ℕ
    → Fetched (List MispEvent)
unfolding do_request events_query decode_events
fetch_events get decode since limit page = elim (get (events_query since limit page)) [
  | fetch_error reason ↦ fetch_error ("parse url: " ++ reason)
  | fetched reply ↦ decode_events decode (do_request reply)
]

unfoldable pub first_event : String → Fetched (List MispEvent) → Fetched MispEvent
first_event uuid (fetch_error reason) = fetch_error ("decode response: " ++ reason)
first_event uuid (fetched []) = fetch_error ("event " ++ (uuid ++ " not found"))
first_event uuid (fetched (event ∷ events)) = fetched event

unfoldable pub decode_event :
    (String → Fetched (List MispEvent)) → String → Fetched String → Fetched MispEvent
unfolding first_event
decode_event decode uuid (fetch_error reason) =
    fetch_error ("fetch event " ++ (uuid ++ (": " ++ reason)))
decode_event decode uuid (fetched body) = first_event uuid (decode body)

unfoldable pub fetch_event :
    (String → HttpReply) → (String → Fetched (List MispEvent)) → String → String → Fetched MispEvent
unfolding do_request decode_event
fetch_event get decode base_url uuid =
    decode_event decode uuid
      (do_request (get (base_url ++ ("/events/view/" ++ (uuid ++ "?returnFormat=json")))))

abbrev pub default_kev_url : String
default_kev_url =
    "https://www.cisa.gov/sites/default/files/feeds/known_exploited_vulnerabilities.json"

unfoldable pub new_kev_client : String → String
new_kev_client url = if url == "" then default_kev_url else url

-- The error of a body that cannot be read is dropped, and what could be read is shown.
unfoldable pub kev_entries :
    (String → Fetched (List KevEntry)) → HttpReply → Fetched (List KevEntry)
unfolding read_limited show
kev_entries decode (not_created reason) = fetch_error ("fetch KEV: " ++ reason)
kev_entries decode (not_answered reason) = fetch_error ("fetch KEV: " ++ reason)
kev_entries decode (not_read reason) = fetch_error ("decode KEV: " ++ reason)
kev_entries decode (answered status body) =
    let read = read_limited max_kev_response_bytes body in
    if eqb status 200
    then elim (decode read) [
      | fetched entries ↦ fetched entries
      | fetch_error reason ↦ fetch_error ("decode KEV: " ++ reason)
    ]
    else fetch_error ("KEV API returned " ++ (show status ++ (": " ++ read)))

unfoldable pub fetch_kev :
    (String → HttpReply) → (String → Fetched (List KevEntry)) → String → Fetched (List KevEntry)
unfolding kev_entries
fetch_kev get decode url = kev_entries decode (get url)
