-- ===== src/ResponseParser/Availability.antt =====
-- `parseQueryAvailabilityResponse`. The two unordered containers are used by key only.
use sc4051_dist_system_proj.Prelude.{
  ℕ, ◌+◌, ◌-◌, [], ◌∷◌, ◌++◌, List, Bytes, Bool, false, ◌||◌, Option, none, some, codes, foldl,
  take, drop, length, same, ltb, if◌then◌else◌,
}
use sc4051_dist_system_proj.Prelude.Assoc
use sc4051_dist_system_proj.Text.{getline, getlines, found_at_start, find, suffix, newline, comma}
use sc4051_dist_system_proj.ResponseParser.{is_error_response, error_lines}

-- `Constants::DAYS_OF_WEEK`
abbrev pub days_of_week : List Bytes
days_of_week =
    codes "MONDAY"
    ∷ codes "TUESDAY"
    ∷ codes "WEDNESDAY"
    ∷ codes "THURSDAY"
    ∷ codes "FRIDAY"
    ∷ codes "SATURDAY"
    ∷ codes "SUNDAY"
    ∷ []

abbrev pub colon : ℕ
colon = 58

-- `unordered_set::count`
abbrev pub contains : List Bytes → Bytes → Bool
contains [] day = false
contains (d ∷ ds) day = same d day || contains ds day

-- `timeslot.replace(dashPos, 1, "to")` at the first dash, if there is one.
unfoldable pub replace_dash : Bytes → Bytes
replace_dash timeslot = elim (find (codes "-") timeslot) [
  | none ↦ timeslot
  | some pos ↦ take pos timeslot ++ codes "to" ++ drop (pos + 1) timeslot
]

-- The loop over the timeslots of a day; the empty ones are skipped.
unfoldable pub add_timeslots : Bytes → List Bytes → Bytes
add_timeslots formatted [] = formatted
add_timeslots formatted ([] ∷ slots) = add_timeslots formatted slots
add_timeslots formatted ((c ∷ slot) ∷ slots) =
    add_timeslots (formatted ++ (replace_dash (c ∷ slot) ++ codes ", ")) slots

-- `erase(size() - 2, 2)` of a text longer than two characters.
abbrev trim_end : Bytes → Bytes
trim_end s = if ltb 2 (length s) then take (length s - 2) s else s

abbrev pub format_day : Bytes → Bytes → Bytes
format_day day slots = trim_end (add_timeslots (day ++ codes ": ") (getlines comma slots))

-- The variables of the loop over the lines: the box so far, and the map of days.
pub record Availability : Type 0 where
  pub parsed : List Bytes
  pub availability_map : List (Bytes × Bytes)

abbrev pub empty_box : Availability
empty_box = record { parsed = codes "Facility Availability" ∷ []; availability_map = [] }

unfoldable pub day_line : Availability → Bytes → Availability
unfolding add_timeslots replace_dash
day_line a line = elim (getline colon line) [
  | none ↦ a
  | some (day, slots) ↦ record a {
    availability_map = Assoc.insert same day (format_day day slots) a.availability_map;
  }
]

unfoldable pub availability_line : Availability → Bytes → Availability
unfolding day_line
availability_line a line =
    if found_at_start (codes "facility:") line
    then record a { parsed = a.parsed ++ (codes "Facility: " ++ suffix line 9) ∷ [] }
    else if found_at_start (codes "availableTimeslots:") line
    then a
    else day_line a line

-- What the two final loops append for one day.
abbrev pub or_closed : Bytes → Option Bytes → List Bytes
or_closed day none = (day ++ codes ": Closed") ∷ []
or_closed day (some timeslots) = timeslots ∷ []

abbrev pub or_nothing : Option Bytes → List Bytes
or_nothing none = []
or_nothing (some timeslots) = timeslots ∷ []

unfoldable pub requested_days : List Bytes → List (Bytes × Bytes) → List Bytes → List Bytes
requested_days requested availability_map [] = []
requested_days requested availability_map (day ∷ days) =
    (if contains requested day then or_closed day (Assoc.lookup same day availability_map) else [])
    ++ requested_days requested availability_map days

unfoldable pub all_days : List (Bytes × Bytes) → List Bytes → List Bytes
all_days availability_map [] = []
all_days availability_map (day ∷ days) =
    or_nothing (Assoc.lookup same day availability_map) ++ all_days availability_map days

-- `filterDays` is whether days were requested.
unfoldable pub week_lines : Bytes → List (Bytes × Bytes) → List Bytes
week_lines [] availability_map = all_days availability_map days_of_week
week_lines (c ∷ days_requested) availability_map =
    requested_days (getlines comma (c ∷ days_requested)) availability_map days_of_week

unfoldable pub parse_query_availability_response : Bytes → Bytes → List Bytes
unfolding availability_line
parse_query_availability_response response days_requested =
    let (is_error, rest) = is_error_response response in
    let a : Availability = foldl availability_line empty_box (getlines newline rest) in
    if is_error then error_lines rest else a.parsed ++ week_lines days_requested a.availability_map
