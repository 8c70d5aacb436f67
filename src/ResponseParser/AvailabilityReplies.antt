-- ===== src/ResponseParser/AvailabilityReplies.antt =====
-- What `parseQueryAvailabilityResponse` makes of the replies that the server sends on success: a line
-- for each day that has timeslots, in the order of the week, each timeslot with a comma behind it.
pub mod Week
pub mod Shown
use sc4051_dist_system_proj.Prelude.{
  ℕ, zero, suc, ◌+◌, ◌-◌, ◌<◌, ◌≡◌, ◌≢◌, refl, sym, ap, ◌∙◌, [], ◌∷◌, ◌++◌, List, Bytes, Bool, true,
  false, not, Option, none, some, codes, map, foldl, length, length-append, take-length-append,
  take, drop, same, ltb, lt→ltb, ◌==◌, if◌then◌else◌, All, All-append, append_assoc, append-nil,
  arith,
}
use sc4051_dist_system_proj.Prelude.Assoc
use sc4051_dist_system_proj.Text.{find, newline, comma, getlines, found_at_start, starts_with}
use sc4051_dist_system_proj.Text.Lines.{
  Lacks, terminated, getline-cons, getlines-terminated, found_at_start_lem, starts_with-append,
}
use sc4051_dist_system_proj.ResponseParser.{status_success}
use sc4051_dist_system_proj.ResponseParser.Errors.{status_success_line}
use sc4051_dist_system_proj.ResponseParser.Availability.{
  days_of_week, colon, contains, replace_dash, add_timeslots, format_day, Availability, empty_box,
  day_line, availability_line, requested_days, all_days, week_lines,
  parse_query_availability_response,
}

-- A timeslot from a time to another.
pub record Timeslot : Type 0 where
  pub start : Bytes
  pub until : Bytes

abbrev dash : ℕ
dash = 45

pub record IsTimeslot (slot : Timeslot) : Type 0 where
  pub start_dash : Lacks dash slot.start
  pub start_comma : Lacks comma slot.start
  pub start_newline : Lacks newline slot.start
  pub until_comma : Lacks comma slot.until
  pub until_newline : Lacks newline slot.until

abbrev pub slot_text : Timeslot → Bytes
slot_text slot = slot.start ++ dash ∷ slot.until

-- The timeslots of each day, by its name.
abbrev pub Schedule : Type 0
Schedule = Bytes → List Timeslot

abbrev pub day_text : Bytes → List Timeslot → Bytes
day_text day slots = day ++ colon ∷ terminated comma (map slot_text slots)

abbrev pub with_day : Bytes → List Timeslot → List Bytes → List Bytes
with_day day [] rest = rest
with_day day (slot ∷ slots) rest = day_text day (slot ∷ slots) ∷ rest

unfoldable pub day_lines : Schedule → List Bytes → List Bytes
day_lines schedule [] = []
day_lines schedule (day ∷ days) = with_day day (schedule day) (day_lines schedule days)

abbrev pub availability_reply : Bytes → Schedule → Bytes
availability_reply facility schedule = terminated newline (
    status_success
    ∷ (codes "facility:" ++ facility)
    ∷ codes "availableTimeslots:"
    ∷ day_lines schedule days_of_week)

-- What is shown for a day.
abbrev pub shown_slot : Timeslot → Bytes
shown_slot slot = slot.start ++ codes "to" ++ slot.until

unfoldable pub shown_slots : List Timeslot → Bytes
shown_slots [] = []
shown_slots (slot ∷ []) = shown_slot slot
shown_slots (slot ∷ next ∷ slots) = shown_slot slot ++ codes ", " ++ shown_slots (next ∷ slots)

abbrev pub row : Bytes → List Timeslot → Bytes
row day slots = day ++ codes ": " ++ shown_slots slots

-- The row of a day, which has timeslots; another day is closed, or is left out where no days were
-- requested.
abbrev pub shown_day : Bool → Bytes → List Timeslot → List Bytes
shown_day filters day (slot ∷ slots) = row day (slot ∷ slots) ∷ []
shown_day true day [] = (day ++ codes ": Closed") ∷ []
shown_day false day [] = []

unfoldable pub shown_days : Bytes → Schedule → List Bytes → List Bytes
shown_days requested schedule [] = []
shown_days [] schedule (day ∷ days) =
    shown_day false day (schedule day) ++ shown_days [] schedule days
shown_days (c ∷ requested) schedule (day ∷ days) =
    (if contains (getlines comma (c ∷ requested)) day
      then shown_day true day (schedule day)
      else [])
    ++ shown_days (c ∷ requested) schedule days

find-dash :
    (start until : Bytes)
    → Lacks dash start
    → find (codes "-") (start ++ dash ∷ until) ≡ some (length start)
unfolding find
find-dash [] until h = ground arith
find-dash (c ∷ start) until h = ground (arith, find-dash start until h.1)

drop-length : (xs : Bytes) (y : ℕ) (ys : Bytes) → drop (length xs + 1) (xs ++ y ∷ ys) ≡ ys
drop-length xs y ys = rw (one_more (length xs)) (later xs)
  where
    one_more : (n : ℕ) → n + 1 ≡ suc n
    one_more n = omega arith

    later : (xs : Bytes) → drop (suc (length xs)) (xs ++ y ∷ ys) ≡ ys
    later [] = refl
    later (x ∷ xs) = later xs

replace_dash-slot :
    (slot : Timeslot) → Lacks dash slot.start → replace_dash (slot_text slot) ≡ shown_slot slot
unfolding replace_dash
replace_dash-slot slot h =
    rw (find-dash slot.start slot.until h, replace_dash)
      (rw
        (take-length-append slot.start (dash ∷ slot.until), drop-length slot.start dash slot.until)
        refl)

slot-starts : (slot : Timeslot) → (c : ℕ) × (rest : Bytes) × (slot_text slot ≡ c ∷ rest)
slot-starts slot = nonempty slot.start
  where
    nonempty : (start : Bytes) → (c : ℕ) × (rest : Bytes) × (start ++ dash ∷ slot.until ≡ c ∷ rest)
    nonempty [] = (dash, slot.until, refl)
    nonempty (c ∷ start) = (c, start ++ dash ∷ slot.until, refl)

add_slot :
    (formatted : Bytes) (slot : Timeslot) (texts : List Bytes)
    → Lacks dash slot.start
    → add_timeslots formatted (slot_text slot ∷ texts)
      ≡ add_timeslots (formatted ++ (shown_slot slot ++ codes ", ")) texts
unfolding add_timeslots
add_slot formatted slot texts h =
    let (c, rest, e) = slot-starts slot in
    let shown : replace_dash (c ∷ rest) ≡ shown_slot slot =
      ap replace_dash (sym e) ∙ replace_dash-slot slot h in
    rw e (ap (λ t. add_timeslots (formatted ++ (t ++ codes ", ")) texts) shown)

-- The timeslots of a day, with a comma and a space behind the last one too.
add_timeslots-shown :
    (formatted : Bytes) (slot : Timeslot) (slots : List Timeslot)
    → All IsTimeslot (slot ∷ slots)
    → add_timeslots formatted (map slot_text (slot ∷ slots))
      ≡ (formatted ++ shown_slots (slot ∷ slots)) ++ codes ", "
unfolding add_timeslots shown_slots
add_timeslots-shown formatted slot [] h =
    add_slot formatted slot [] h.0.start_dash
    ∙ sym (append_assoc formatted (shown_slot slot) (codes ", "))
add_timeslots-shown formatted slot (next ∷ slots) h =
    add_slot formatted slot (map slot_text (next ∷ slots)) h.0.start_dash
    ∙ add_timeslots-shown (formatted ++ (shown_slot slot ++ codes ", ")) next slots h.1
    ∙ simp append_assoc

take_end : (xs : Bytes) → take (length (xs ++ codes ", ") - 2) (xs ++ codes ", ") ≡ xs
take_end xs =
    let size : length (xs ++ codes ", ") - 2 ≡ length xs =
      omega (arith, length-append xs (codes ", ")) in
    rw size (take-length-append xs (codes ", "))

format_day-row :
    (day : Bytes) (slot : Timeslot) (slots : List Timeslot)
    → All IsTimeslot (slot ∷ slots)
    → All (Lacks comma) (map slot_text (slot ∷ slots))
    → format_day day (terminated comma (map slot_text (slot ∷ slots))) ≡ row day (slot ∷ slots)
format_day-row day slot slots h lacks =
    let text = (day ++ codes ": ") ++ shown_slots (slot ∷ slots) in
    let long : ltb 2 (length (text ++ codes ", ")) ≡ true = lt→ltb 2 _ (
      omega (
        arith,
        length-append text (codes ", "),
        length-append (day ++ codes ": ") (shown_slots (slot ∷ slots)),
        length-append day (codes ": "),
      )) in
    rw
      (
        getlines-terminated comma (map slot_text (slot ∷ slots)) lacks,
        add_timeslots-shown (day ++ codes ": ") slot slots h,
        long,
      )
      (take_end text)

-- A name of a day: it has no colon and no newline, and is not one of the keys of the reply.
pub record IsDay (day : Bytes) : Type 0 where
  pub no_colon : Lacks colon day
  pub no_newline : Lacks newline day
  pub no_facility : (rest : Bytes) → found_at_start (codes "facility:") (day ++ rest) ≡ false
  pub no_header :
      (rest : Bytes) → found_at_start (codes "availableTimeslots:") (day ++ rest) ≡ false

texts-Lacks :
    (slots : List Timeslot) → All IsTimeslot slots → All (Lacks comma) (map slot_text slots)
texts-Lacks [] h = tt
texts-Lacks (slot ∷ slots) h = (
  All-append (λ c. c ≢ comma) slot.start (dash ∷ slot.until) h.0.start_comma
      (omega arith, h.0.until_comma),
  texts-Lacks slots h.1,
)

pub availability_line-day :
    (a : Availability) (day : Bytes) (slot : Timeslot) (slots : List Timeslot)
    → IsDay day
    → All IsTimeslot (slot ∷ slots)
    → availability_line a (day_text day (slot ∷ slots)) ≡ record a {
      availability_map = Assoc.insert same day (row day (slot ∷ slots)) a.availability_map;
    }
unfolding availability_line day_line
availability_line-day a day slot slots d h =
    let texts = terminated comma (map slot_text (slot ∷ slots)) in
    rw
      (
        d.no_facility (colon ∷ texts),
        d.no_header (colon ∷ texts),
        getline-cons colon day texts d.no_colon,
        day_line,
      )
      (ap (λ r. record a { availability_map = Assoc.insert same day r a.availability_map })
        (format_day-row day slot slots h (texts-Lacks (slot ∷ slots) h)))
