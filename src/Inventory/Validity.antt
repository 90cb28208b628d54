-- ===== src/Inventory/Validity.antt =====
-- internal/config/techstack.go: what holds of every app that the reader gives.
use threat_intel_arbiter.Common.{
  ℕ, suc, true, false, ◌≡◌, refl, List, [], ◌∷◌, ◌++◌, String, ◌==◌, inl, inr, Bool-cases, All,
}
use threat_intel_arbiter.Model.{App}
use threat_intel_arbiter.Inventory.{
  Row, read_record, read_error, Stack, parsed, error_at, is_level, level, get_col, app_of,
  read_rows, parse_tech_stack,
}

-- An app has a name, and one of the four levels for its criticality and its data.
unfoldable pub IsValid : App → Type 0
unfolding is_level
IsValid app =
    ((app.name == "") ≡ false)
    × (is_level app.criticality ≡ true)
    × (is_level app.data_sensitivity ≡ true)

level-is_level : (s : String) → is_level (level s) ≡ true
unfolding level
level-is_level s = elim (Bool-cases (is_level s)) [ inl e ↦ rw e e | inr e ↦ rw e refl ]

All-append :
    (apps : List App) (app : App)
    → All IsValid apps
    → IsValid app
    → All IsValid (apps ++ (app ∷ []))
All-append [] app h k = (k, tt)
All-append (x ∷ apps) app (h, hs) k = (h, All-append apps app hs k)

-- The apps so far are valid, or a malformed row has ended the reading.
unfoldable pub IsValidStack : Stack → Type 0
unfolding IsValid
IsValidStack (parsed apps) = All IsValid apps
IsValidStack (error_at line) = Unit

read_rows-IsValidStack :
    (line : ℕ) (cols : List (String × ℕ)) (rows : List Row) (done : List App)
    → All IsValid done
    → IsValidStack (read_rows line cols rows done)
unfolding IsValidStack read_rows app_of IsValid
read_rows-IsValidStack line cols [] done h = h
read_rows-IsValidStack line cols (read_error ∷ rows) done h = tt
read_rows-IsValidStack line cols (read_record row ∷ rows) done h =
    elim (Bool-cases ((app_of row cols).name == "")) [
      | inl e ↦ rw e (read_rows-IsValidStack (suc line) cols rows done h)
      | inr e ↦ rw e (
          read_rows-IsValidStack (suc line) cols rows (done ++ (app_of row cols ∷ [])) (
            All-append done (app_of row cols) h (
              e,
              level-is_level (get_col row cols "criticality"),
              level-is_level (get_col row cols "data_sensitivity"),
            )))
    ]

-- Whatever header and rows the CSV package gives, every app of the stack that is read has a name and
-- one of the levels critical, high, medium and low for its criticality and its data sensitivity.
pub parse_tech_stack-IsValidStack :
    (header : List String) (rows : List Row) → IsValidStack (parse_tech_stack header rows)
unfolding parse_tech_stack
parse_tech_stack-IsValidStack header rows = read_rows-IsValidStack 1 _ rows [] tt
