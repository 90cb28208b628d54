-- ===== src/Inventory.antt =====
-- internal/config/techstack.go: the CSV reader for the tech stack, and the difference of two stacks.
-- The CSV package gives the rows: a header, then records, of which one may be an error.
pub mod Validity
pub mod Difference
use Prim.Native.String.{◌++◌ as append}
use threat_intel_arbiter.Common.{
  ℕ, zero, suc, Bool, true, false, not, ◌||◌, List, [], ◌∷◌, ◌++◌, none, some, String, ◌==◌,
  if◌then◌else◌, to_lower, trim_space, select, map,
}
use threat_intel_arbiter.Common.Dict.{lookup, insert}
use threat_intel_arbiter.Model.{App}

-- What `reader.Read` returns after the header: a record, or an error that is not the end of the file.
pub data Row : Type 0 where
  read_record : List String → Row
  read_error : Row

pub data Stack : Type 0 where
  parsed : List App → Stack
  error_at : ℕ → Stack

unfoldable pub columns_from : ℕ → List String → List (String × ℕ) → List (String × ℕ)
unfolding insert trim_space to_lower
columns_from i [] cols = cols
columns_from i (h ∷ header) cols =
    columns_from (suc i) header (insert (trim_space (to_lower h)) i cols)

unfoldable pub nth_field : ℕ → List String → String
nth_field n [] = ""
nth_field zero (f ∷ fields) = f
nth_field (suc n) (f ∷ fields) = nth_field n fields

unfoldable pub get_col : List String → List (String × ℕ) → String → String
unfolding lookup nth_field trim_space
get_col row cols name = elim (lookup name cols) [
  | none ↦ ""
  | some i ↦ trim_space (nth_field i row)
]

unfoldable pub get_col_bool : List String → List (String × ℕ) → String → Bool
unfolding get_col to_lower
get_col_bool row cols name =
    let val = to_lower (get_col row cols name) in val == "true" || val == "yes" || val == "1"

unfoldable pub is_level : String → Bool
is_level s = s == "critical" || s == "high" || s == "medium" || s == "low"

-- An unknown level is taken for "medium".
unfoldable pub level : String → String
unfolding is_level
level s = if is_level s then s else "medium"

unfoldable pub app_of : List String → List (String × ℕ) → App
unfolding get_col get_col_bool level
app_of row cols = record {
  name = get_col row cols "name";
  version = get_col row cols "version";
  vendor = get_col row cols "vendor";
  category = get_col row cols "category";
  criticality = level (get_col row cols "criticality");
  owner_team = get_col row cols "owner_team";
  internet_facing = get_col_bool row cols "internet_facing";
  hosts = get_col row cols "hosts";
  data_sensitivity = level (get_col row cols "data_sensitivity");
  last_verified = get_col row cols "last_verified";
}

-- The rows from the given line on; a row without a name is skipped, an error ends the reading.
unfoldable pub read_rows : ℕ → List (String × ℕ) → List Row → List App → Stack
unfolding app_of
read_rows line cols [] done = parsed done
read_rows line cols (read_error ∷ rows) done = error_at line
read_rows line cols (read_record row ∷ rows) done =
    let app = app_of row cols in
    read_rows (suc line) cols rows (if app.name == "" then done else done ++ (app ∷ []))

unfoldable pub parse_tech_stack : List String → List Row → Stack
unfolding read_rows columns_from
parse_tech_stack header rows = read_rows 1 (columns_from 0 header []) rows []

unfoldable pub app_key : App → String
unfolding to_lower trim_space
app_key app =
    append (to_lower (trim_space app.vendor)) (append ":" (to_lower (trim_space app.name)))

abbrev xor : Bool → Bool → Bool
xor true b = not b
xor false b = b

unfoldable pub app_changed : App → App → Bool
app_changed new old =
    not (new.criticality == old.criticality)
    || xor new.internet_facing old.internet_facing
    || not (new.data_sensitivity == old.data_sensitivity)
    || not (new.version == old.version)

-- The map from keys to apps, a later app with the same key in place of an earlier one.
unfoldable pub by_key : List App → List (String × App) → List (String × App)
unfolding insert app_key
by_key [] m = m
by_key (app ∷ apps) m = by_key apps (insert (app_key app) app m)

pub record Delta : Type 0 where
  pub added : List App
  pub removed : List App
  pub modified : List App

abbrev pub is_new : List (String × App) → App → Bool
is_new existing app = elim (lookup (app_key app) existing) [ none ↦ true | some old ↦ false ]

abbrev pub is_modified : List (String × App) → App → Bool
is_modified existing app = elim (lookup (app_key app) existing) [
  | none ↦ false
  | some old ↦ app_changed app old
]

abbrev pub is_gone : List (String × App) → String × App → Bool
is_gone new entry = elim (lookup entry.0 new) [ none ↦ true | some app ↦ false ]

-- The source lists the removed apps in the order of a map iteration, which is any; here it is the
-- order in which the keys first stand in the existing list.
unfoldable pub compute_delta : List App → List App → Delta
unfolding by_key select lookup app_key app_changed
compute_delta new existing =
    let existing_map = by_key existing [] in
    let new_map = by_key new [] in
    record {
      added = select (is_new existing_map) new;
      removed = map (λ entry. entry.1) (select (is_gone new_map) existing_map);
      modified = select (is_modified existing_map) new;
    }
