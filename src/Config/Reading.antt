-- ===== src/Config/Reading.antt =====
-- internal/config/config.go: what one file of the configuration gives, and why it cannot be used.
use mathlib.Core.List.{List, [], ◌∷◌}
use Prim.Native.String.{◌++◌}
use threat_intel_arbiter.Common.{ℕ, ◌≡◌, ◌⊎◌, ◌∙◌, refl, Option, none, some, String, show, inl, inr}
use threat_intel_arbiter.Model.{App}
use threat_intel_arbiter.Inventory.{Row, Stack, parsed, error_at, parse_tech_stack}
use threat_intel_arbiter.Config.{
  Load, loaded, load_error, and_then, in_part, Files, load_apps, load_json, Csv, not_opened,
  without_header, csv, load_tech_stack, stack_load,
}

abbrev pub reason_of {ℓ} : {A : Type ℓ} → Load A → Option String
reason_of (loaded x) = none
reason_of (load_error reason) = some reason

-- The first entry with an error, with its name in front.
unfoldable pub first_error : List (String × Option String) → Option String
first_error [] = none
first_error ((part, none) ∷ parts) = first_error parts
first_error ((part, some reason) ∷ parts) = some (part ++ (": " ++ reason))

load_cases {ℓ} :
    {A : Type ℓ} (x : Load A)
    → ((a : A) × (x ≡ loaded a)) ⊎ ((reason : String) × (x ≡ load_error reason))
load_cases (loaded a) = inl (a, refl)
load_cases (load_error reason) = inr (reason, refl)

csv_cases :
    (x : Csv)
    → ((reason : String) × (x ≡ not_opened reason))
      ⊎ (((reason : String) × (x ≡ without_header reason))
          ⊎ ((header : List String) × (rows : List Row) × (x ≡ csv header rows)))
csv_cases (not_opened reason) = inl (reason, refl)
csv_cases (without_header reason) = inr (inl (reason, refl))
csv_cases (csv header rows) = inr (inr (header, rows, refl))

stack_cases :
    (x : Stack) → ((apps : List App) × (x ≡ parsed apps)) ⊎ ((line : ℕ) × (x ≡ error_at line))
stack_cases (parsed apps) = inl (apps, refl)
stack_cases (error_at line) = inr (line, refl)

pub reason_of-and_then :
    {A B : Type 0} (part : String) (x : Load A) (next : A → Load B)
    (parts : List (String × Option String))
    → ((a : A) → x ≡ loaded a → reason_of (next a) ≡ first_error parts)
    → reason_of (and_then (in_part part x) next) ≡ first_error ((part, reason_of x) ∷ parts)
unfolding and_then in_part first_error
reason_of-and_then part (loaded a) next parts rest = rest a refl
reason_of-and_then part (load_error reason) next parts rest = refl

-- The parts of a configuration that has been loaded.
pub loaded_and_then :
    {A B : Type 0} (part : String) (x : Load A) (next : A → Load B) (b : B)
    → and_then (in_part part x) next ≡ loaded b
    → (a : A) × (x ≡ loaded a) × (next a ≡ loaded b)
unfolding and_then in_part
loaded_and_then part (loaded a) next b h = (a, refl, h)
loaded_and_then part (load_error reason) next b h =
    let wrong : load_error (part ++ (": " ++ reason)) ≡ loaded b = h in absurd cc

-- Why a file of JSON cannot be used, if it cannot: it cannot be read, or its text cannot be decoded.
unfoldable pub file_reason {ℓ} : {A : Type ℓ} → Files → (String → Load A) → String → Option String
file_reason f decode path = elim (f.read_file path) [
  | load_error reason ↦ some (("read " ++ path) ++ (": " ++ reason))
  | loaded text ↦ elim (decode text) [
    | load_error reason ↦ some (("parse " ++ path) ++ (": " ++ reason))
    | loaded x ↦ none
  ]
]

-- Why the tech stack cannot be used: there is no such file, it has no header, or a line is wrong.
unfoldable pub stack_reason : Files → String → Option String
unfolding show parse_tech_stack
stack_reason f path = elim (f.read_csv path) [
  | not_opened reason ↦ some ("open " ++ (path ++ (": " ++ reason)))
  | without_header reason ↦ some ("read header: " ++ reason)
  | csv header rows ↦ elim (parse_tech_stack header rows) [
    | parsed apps ↦ none
    | error_at line ↦ some ("line " ++ (show line ++ (": " ++ f.row_reason line)))
  ]
]

-- The file can be read, and the value is what its text says.
pub Holds : {A : Type 0} → Files → (String → Load A) → String → A → Type 0
Holds f decode path x =
    (text : String) × (f.read_file path ≡ loaded text) × (decode text ≡ loaded x)

-- The file has a header, and every row behind it gives an application of the list.
pub HoldsStack : Files → String → List App → Type 0
HoldsStack f path apps =
    (header : List String) × (rows : List Row) × (f.read_csv path ≡ csv header rows)
    × (parse_tech_stack header rows ≡ parsed apps)

pub reason_of-load_json :
    {A : Type 0} (f : Files) (decode : String → Load A) (path : String)
    → reason_of (load_json f.read_file decode path) ≡ file_reason f decode path
unfolding load_json and_then in_part file_reason
reason_of-load_json f decode path = elim (load_cases (f.read_file path)) [
  | inr (reason, e) ↦ rw (e, load_json, file_reason) refl
  | inl (text, e) ↦ elim (load_cases (decode text)) [
    | inr (reason, e1) ↦ rw (e, load_json, file_reason, e1) refl
    | inl (x, e1) ↦ rw (e, load_json, file_reason, e1) refl
  ]
]

pub load_json-Holds :
    {A : Type 0} (f : Files) (decode : String → Load A) (path : String) (x : A)
    → load_json f.read_file decode path ≡ loaded x
    → Holds f decode path x
unfolding load_json in_part Holds
load_json-Holds f decode path x h =
    let (text, e, h1) = loaded_and_then ("read " ++ path) (f.read_file path) _ x h in
    elim (load_cases (decode text)) [
      | inl (y, e1) ↦ (text, e, e1 ∙ (rw e1 at h1))
      | inr (reason, e1) ↦
          let wrong : load_error (("parse " ++ path) ++ (": " ++ reason)) ≡ loaded x =
            rw e1 at h1 in
          absurd cc
    ]

pub reason_of-load_apps :
    (f : Files) (dir : String)
    → reason_of (load_apps f dir) ≡ stack_reason f (dir ++ "/techstack.csv")
unfolding load_apps load_tech_stack stack_load stack_reason
reason_of-load_apps f dir = elim (csv_cases (f.read_csv (dir ++ "/techstack.csv"))) [
  | inl (reason, e) ↦ rw (load_apps, e, stack_reason) refl
  | inr (inl (reason, e)) ↦ rw (load_apps, e, stack_reason) refl
  | inr (inr (header, rows, e)) ↦ elim (stack_cases (parse_tech_stack header rows)) [
    | inl (apps, e1) ↦ rw (load_apps, e, stack_reason, load_tech_stack, e1) refl
    | inr (line, e1) ↦ rw (load_apps, e, stack_reason, load_tech_stack, e1) refl
  ]
]

pub load_apps-HoldsStack :
    (f : Files) (dir : String) (apps : List App)
    → load_apps f dir ≡ loaded apps
    → HoldsStack f (dir ++ "/techstack.csv") apps
unfolding load_apps load_tech_stack stack_load HoldsStack
load_apps-HoldsStack f dir apps h = elim (csv_cases (f.read_csv (dir ++ "/techstack.csv"))) [
  | inl (reason, e) ↦ let wrong : load_error _ ≡ loaded apps = rw (load_apps, e) at h in absurd cc
  | inr (inl (reason, e)) ↦
      let wrong : load_error _ ≡ loaded apps = rw (load_apps, e) at h in absurd cc
  | inr (inr (header, rows, e)) ↦ elim (stack_cases (parse_tech_stack header rows)) [
    | inl (found, e1) ↦
        let same : loaded found ≡ loaded apps = rw (load_apps, e, load_tech_stack, e1) at h in
        (header, rows, e, e1 ∙ cc)
    | inr (line, e1) ↦
        let wrong : load_error _ ≡ loaded apps = rw (load_apps, e, load_tech_stack, e1) at h in
        absurd cc
  ]
]
