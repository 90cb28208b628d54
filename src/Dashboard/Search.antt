-- ===== src/Dashboard/Search.antt =====
-- internal/api/server.go: the search over alerts. The database, which runs the text of a query with its
-- arguments, is an argument; a row that cannot be scanned is `none`.
pub mod Placeholders
use Prim.Native.Char.{code}
use Prim.Native.String.{[], ◌∷◌, ◌++◌ as append}
use mathlib.Core.List.{List, [], ◌∷◌, ◌++◌}
use threat_intel_arbiter.Common.{
  ℕ, ◌+◌, Bool, true, false, ◌&&◌, ◌||◌, Option, none, some, String, ◌==◌, eqb, leb, if◌then◌else◌,
  join, text_length, drop_text, collect, length,
}
use threat_intel_arbiter.Access.Legacy.{index_of}
use threat_intel_arbiter.Dashboard.Alert.{ssvc_short, extract_cve}

-- The parameters of the request; an empty text is one that is not given.
pub record Filters : Type 0 where
  pub search : String
  pub app : String
  pub status : String
  pub severity : String

-- What a parameter adds, if it is given.
abbrev pub unless {ℓ} : {A : Type ℓ} → Bool → List A → List A
unless absent xs = if absent then [] else xs

-- The conditions, by the parameters that are absent.
unfoldable pub conditions_without : Bool → Bool → Bool → Bool → List String
conditions_without search app status severity =
    "1=1"
    ∷ (unless search ("(event_id LIKE ? OR explanation LIKE ?)" ∷ [])
        ++ (unless app ("matched_apps LIKE ?" ∷ [])
            ++ (unless status ("status = ?" ∷ []) ++ unless severity ("severity = ?" ∷ []))))

unfoldable pub conditions : Filters → List String
unfolding conditions_without
conditions q = conditions_without (q.search == "") (q.app == "") (q.status == "") (q.severity == "")

abbrev pub like : String → String
like text = append "%" (append text "%")

unfoldable pub arguments : Filters → List String
arguments q =
    unless (q.search == "") (like q.search ∷ like q.search ∷ [])
    ++ (unless (q.app == "") (like q.app ∷ [])
        ++ (unless (q.status == "") (q.status ∷ []) ++ unless (q.severity == "") (q.severity ∷ [])))

-- The text of a query with the conditions.
unfoldable pub select_where : List String → String
unfolding join
select_where wheres =
    append
      "SELECT id, event_id, severity, confidence, status, matched_apps, created_at, explanation, action\n\t\tFROM alerts WHERE "
      (append (join wheres " AND ") " ORDER BY created_at DESC LIMIT 200")

unfoldable pub alerts_query : Filters → String
unfolding conditions select_where
alerts_query q = select_where (conditions q)

-- The columns of the query.
pub record Columns : Type 0 where
  pub id : String
  pub event_id : String
  pub severity : String
  pub confidence : String
  pub status : String
  pub matched_apps : String
  pub created_at : String
  pub explanation : String
  pub action : String

pub record AlertRow : Type 0 where
  pub columns : Columns
  pub risk_score : Option String
  pub ssvc_action : String
  pub cve : String

-- Digits and points at the front of a text.
unfoldable pub take_decimal : String → String
take_decimal [] = []
take_decimal (c ∷ s) =
    let rest = take_decimal s in
    if (leb b'0' (code c) && leb (code c) b'9') || eqb (code c) b'.' then c ∷ rest else []

-- The digits that the score is read from; `none` is the score 0 of a text without one.
unfoldable pub parse_risk_score : String → Option String
unfolding index_of take_decimal text_length drop_text
parse_risk_score explanation = elim (index_of explanation "Risk Score: ") [
  | none ↦ none
  | some i ↦
      let number = take_decimal (drop_text (i + text_length "Risk Score: ") explanation) in
      if number == "" then none else some number
]

unfoldable pub alert_row : Columns → AlertRow
unfolding parse_risk_score ssvc_short extract_cve
alert_row c = record {
  columns = c;
  risk_score = parse_risk_score c.explanation;
  ssvc_action = ssvc_short c.action;
  cve = extract_cve c.event_id;
}

unfoldable pub scanned : Option Columns → List AlertRow
unfolding alert_row
scanned none = []
scanned (some c) = alert_row c ∷ []

pub data SearchReply : Type 0 where
  search_failed : String → SearchReply
  found_alerts : List AlertRow → ℕ → SearchReply

-- What the database answers to a query.
pub data Rows : Type 0 where
  query_error : String → Rows
  rows : List (Option Columns) → Rows

unfoldable pub search_reply : Rows → SearchReply
unfolding collect scanned
search_reply (query_error reason) = search_failed reason
search_reply (rows found) =
    let alerts = collect scanned found in found_alerts alerts (length alerts)

unfoldable pub handle_alerts : (String → List String → Rows) → Filters → SearchReply
unfolding alerts_query arguments search_reply
handle_alerts run_query q = search_reply (run_query (alerts_query q) (arguments q))
