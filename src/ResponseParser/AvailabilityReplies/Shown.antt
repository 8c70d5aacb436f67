-- ===== src/ResponseParser/AvailabilityReplies/Shown.antt =====
-- The replies to a query of the availability, from the text to the box.
use sc4051_dist_system_proj.Prelude.{
  ℕ, ◌≡◌, refl, ap, ◌∙◌, [], ◌∷◌, ◌++◌, List, Bytes, false, codes, map, foldl, ◌==◌, All,
  All-append, ◌≢◌, arith,
}
use sc4051_dist_system_proj.Text.{newline, comma}
use sc4051_dist_system_proj.Text.Lines.{Lacks, terminated, getlines-terminated, found_at_start_lem}
use sc4051_dist_system_proj.ResponseParser.Errors.{status_success_line}
use sc4051_dist_system_proj.ResponseParser.Keyed.{◌&◌}
use sc4051_dist_system_proj.ResponseParser.Availability.{
  days_of_week, colon, Availability, empty_box, availability_line, week_lines,
  parse_query_availability_response,
}
use sc4051_dist_system_proj.ResponseParser.AvailabilityReplies.{
  Timeslot, IsTimeslot, slot_text, Schedule, with_day, day_lines, availability_reply, shown_days,
  IsDay,
}
use sc4051_dist_system_proj.ResponseParser.AvailabilityReplies.Week.{
  Distinct, entries, days-after, all_days-shown, requested_days-shown,
}

named-IsDay :
    (c : ℕ) (s : Bytes)
    → Lacks colon (c ∷ s)
    → Lacks newline (c ∷ s)
    → (b'f' == c) ≡ false
    → (b'a' == c) ≡ false
    → IsDay (c ∷ s)
named-IsDay c s no_colon no_newline no_f no_a = record {
  no_colon = no_colon;
  no_newline = no_newline;
  no_facility = λ rest. found_at_start_lem (codes "facility:") (c ∷ (s ++ rest)) ∙ rw no_f refl;
  no_header =
      λ rest. found_at_start_lem (codes "availableTimeslots:") (c ∷ (s ++ rest)) ∙ rw no_a refl;
}

week-IsDay : All IsDay days_of_week
week-IsDay =
    named-IsDay _ _ (omega arith) (omega arith) refl refl
    & named-IsDay _ _ (omega arith) (omega arith) refl refl
    & named-IsDay _ _ (omega arith) (omega arith) refl refl
    & named-IsDay _ _ (omega arith) (omega arith) refl refl
    & named-IsDay _ _ (omega arith) (omega arith) refl refl
    & named-IsDay _ _ (omega arith) (omega arith) refl refl
    & named-IsDay _ _ (omega arith) (omega arith) refl refl
    & tt

day_pairs : Distinct days_of_week
day_pairs =
    ((refl, refl) & (refl, refl) & (refl, refl) & (refl, refl) & (refl, refl) & (refl, refl) & tt)
    & ((refl, refl) & (refl, refl) & (refl, refl) & (refl, refl) & (refl, refl) & tt)
    & ((refl, refl) & (refl, refl) & (refl, refl) & (refl, refl) & tt)
    & ((refl, refl) & (refl, refl) & (refl, refl) & tt)
    & ((refl, refl) & (refl, refl) & tt)
    & ((refl, refl) & tt)
    & tt
    & tt

texts-Lacks_newline :
    (slots : List Timeslot)
    → All IsTimeslot slots
    → Lacks newline (terminated comma (map slot_text slots))
unfolding terminated
texts-Lacks_newline [] h = tt
texts-Lacks_newline (slot ∷ slots) h =
    All-append (λ c. c ≢ newline) (slot_text slot) (comma ∷ terminated comma (map slot_text slots))
      (All-append (λ c. c ≢ newline) slot.start (45 ∷ slot.until) h.0.start_newline
        (omega arith, h.0.until_newline))
      (omega arith, texts-Lacks_newline slots h.1)

with_day-Lacks :
    (day : Bytes) (slots : List Timeslot) (rest : List Bytes)
    → IsDay day
    → All IsTimeslot slots
    → All (Lacks newline) rest
    → All (Lacks newline) (with_day day slots rest)
with_day-Lacks day [] rest d h r = r
with_day-Lacks day (slot ∷ slots) rest d h r = (
  All-append (λ c. c ≢ newline) day (colon ∷ terminated comma (map slot_text (slot ∷ slots)))
      d.no_newline (omega arith, texts-Lacks_newline (slot ∷ slots) h),
  r,
)

module _ (schedule : Schedule) (timeslots : (day : Bytes) → All IsTimeslot (schedule day)) where
  day_lines-Lacks :
      (days : List Bytes) → All IsDay days → All (Lacks newline) (day_lines schedule days)
  unfolding day_lines
  day_lines-Lacks [] d = tt
  day_lines-Lacks (day ∷ days) d =
      with_day-Lacks day (schedule day) (day_lines schedule days) d.0 (timeslots day)
        (day_lines-Lacks days d.1)

  week_lines-shown :
      (requested : Bytes)
      → week_lines requested (entries schedule days_of_week)
        ≡ shown_days requested schedule days_of_week
  unfolding week_lines
  week_lines-shown [] =
      all_days-shown schedule [] days_of_week day_pairs (tt & tt & tt & tt & tt & tt & tt & tt)
  week_lines-shown (c ∷ requested) =
      requested_days-shown schedule c requested [] days_of_week day_pairs
        (tt & tt & tt & tt & tt & tt & tt & tt)

  abbrev with_facility : Bytes → Availability
  with_facility facility = record {
    parsed = codes "Facility Availability" ∷ (codes "Facility: " ++ facility) ∷ [];
    availability_map = [];
  }

  first_lines :
      (facility : Bytes) (rest : List Bytes)
      → foldl availability_line empty_box
          ((codes "facility:" ++ facility) ∷ codes "availableTimeslots:" ∷ rest)
        ≡ foldl availability_line (with_facility facility) rest
  unfolding availability_line
  first_lines facility rest = simp found_at_start_lem

  -- The reply to a query of the availability has a line for each day with timeslots, where no
  -- timeslot has a comma or a newline, its start has no dash, and the facility has no newline. It is
  -- shown under the name of the facility, day by day in the order of the week, each timeslot with
  -- `to` in the place of its dash. Where days were requested, these days alone are shown, and those
  -- without timeslots as closed; otherwise all days that have timeslots are shown.
  pub availability_replies :
      (facility requested : Bytes)
      → Lacks newline facility
      → parse_query_availability_response (availability_reply facility schedule) requested
        ≡ codes "Facility Availability"
          ∷ (codes "Facility: " ++ facility)
          ∷ shown_days requested schedule days_of_week
  unfolding parse_query_availability_response terminated
  availability_replies facility requested no_newline =
      let days = day_lines schedule days_of_week in
      let rest = (codes "facility:" ++ facility) ∷ codes "availableTimeslots:" ∷ days in
      let lines = getlines-terminated newline rest (
        All-append (λ c. c ≢ newline) (codes "facility:") facility (omega arith) no_newline
        & (omega arith)
        & day_lines-Lacks days_of_week week-IsDay) in
      let folded : foldl availability_line empty_box rest ≡ record {
        parsed = (with_facility facility).parsed;
        availability_map = entries schedule days_of_week;
      } =
        first_lines facility days
        ∙ days-after schedule timeslots (with_facility facility) days_of_week week-IsDay day_pairs
            (tt & tt & tt & tt & tt & tt & tt & tt) in
      rw (status_success_line (terminated newline rest), lines, folded)
        (ap (λ l. (with_facility facility).parsed ++ l) (week_lines-shown requested))
