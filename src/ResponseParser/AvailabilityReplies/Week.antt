-- ===== src/ResponseParser/AvailabilityReplies/Week.antt =====
-- The days of a reply to a query of the availability: the map of the parser, and what is shown.
use sc4051_dist_system_proj.Prelude.{
  ℕ, ◌≡◌, refl, sym, ap, ◌∙◌, [], ◌∷◌, ◌++◌, List, Bytes, true, false, Option, none, some, foldl,
  same, if◌then◌else◌, All, All-append, append_assoc, append-nil, arith,
}
use sc4051_dist_system_proj.Prelude.Assoc
use sc4051_dist_system_proj.Text.{comma, getlines}
use sc4051_dist_system_proj.ResponseParser.Availability.{
  contains, Availability, availability_line, or_closed, or_nothing, requested_days, all_days,
}
use sc4051_dist_system_proj.ResponseParser.AvailabilityReplies.{
  Timeslot, IsTimeslot, Schedule, with_day, day_lines, row, shown_day, shown_days, IsDay,
  availability_line-day,
}

-- The key is not in the map.
abbrev pub Absent : Bytes → List (Bytes × Bytes) → Type 0
Absent day m = All (λ entry. same entry.0 day ≡ false) m

abbrev pub Distinct : List Bytes → Type 0
Distinct [] = Unit {0}
Distinct (day ∷ days) =
    All (λ other. (same day other ≡ false) × (same other day ≡ false)) days × Distinct days

same_refl : (s : Bytes) → same s s ≡ true
same_refl [] = refl
same_refl (c ∷ s) = ground (arith, same_refl s)

insert-Absent :
    (day value : Bytes) (m : List (Bytes × Bytes))
    → Absent day m
    → Assoc.insert same day value m ≡ m ++ (day, value) ∷ []
unfolding Assoc.insert
insert-Absent day value [] h = refl
insert-Absent day value (entry ∷ m) h = rw h.0 (ap (λ l. entry ∷ l) (insert-Absent day value m h.1))

lookup-Absent :
    (day : Bytes) (m : List (Bytes × Bytes)) → Absent day m → Assoc.lookup same day m ≡ none
unfolding Assoc.lookup
lookup-Absent day [] h = refl
lookup-Absent day (entry ∷ m) h = rw h.0 (lookup-Absent day m h.1)

lookup-here :
    (day value : Bytes) (m rest : List (Bytes × Bytes))
    → Absent day m
    → Assoc.lookup same day (m ++ (day, value) ∷ rest) ≡ some value
unfolding Assoc.lookup
lookup-here day value [] rest h = rw (same_refl day) refl
lookup-here day value (entry ∷ m) rest h = rw h.0 (lookup-here day value m rest h.1)

-- What the map has for a day, and for some days.
abbrev entry : Bytes → List Timeslot → List (Bytes × Bytes)
entry day [] = []
entry day (slot ∷ slots) = (day, row day (slot ∷ slots)) ∷ []

abbrev value : Bytes → List Timeslot → Option Bytes
value day [] = none
value day (slot ∷ slots) = some (row day (slot ∷ slots))

unfoldable pub entries : Schedule → List Bytes → List (Bytes × Bytes)
entries schedule [] = []
entries schedule (day ∷ days) = entry day (schedule day) ++ entries schedule days

entry-Absent :
    (day other : Bytes) (slots : List Timeslot)
    → same day other ≡ false
    → Absent other (entry day slots)
entry-Absent day other [] h = tt
entry-Absent day other (slot ∷ slots) h = (h, tt)

entries-Absent :
    (schedule : Schedule) (other : Bytes) (days : List Bytes)
    → All (λ day. (same other day ≡ false) × (same day other ≡ false)) days
    → Absent other (entries schedule days)
unfolding entries
entries-Absent schedule other [] h = tt
entries-Absent schedule other (day ∷ days) h =
    All-append _ (entry day (schedule day)) (entries schedule days)
      (entry-Absent day other (schedule day) h.0.1) (entries-Absent schedule other days h.1)

lookup-entry :
    (day : Bytes) (slots : List Timeslot) (m rest : List (Bytes × Bytes))
    → Absent day m
    → Absent day rest
    → Assoc.lookup same day (m ++ (entry day slots ++ rest)) ≡ value day slots
lookup-entry day [] m rest h k = lookup-Absent day (m ++ rest) (All-append _ m rest h k)
lookup-entry day (slot ∷ slots) m rest h k = lookup-here day (row day (slot ∷ slots)) m rest h

-- The days behind the first one are not in the map that has got the first one.
later_Absent :
    (day : Bytes) (slots : List Timeslot) (m : List (Bytes × Bytes)) (days : List Bytes)
    → All (λ other. (same day other ≡ false) × (same other day ≡ false)) days
    → All (λ other. Absent other m) days
    → All (λ other. Absent other (m ++ entry day slots)) days
later_Absent day slots m [] p q = tt
later_Absent day slots m (other ∷ days) p q = (
  All-append _ m (entry day slots) q.0 (entry-Absent day other slots p.0.0),
  later_Absent day slots m days p.1 q.1,
)

or_nothing-value :
    (day : Bytes) (slots : List Timeslot) → or_nothing (value day slots) ≡ shown_day false day slots
or_nothing-value day [] = refl
or_nothing-value day (slot ∷ slots) = refl

or_closed-value :
    (day : Bytes) (slots : List Timeslot)
    → or_closed day (value day slots) ≡ shown_day true day slots
or_closed-value day [] = refl
or_closed-value day (slot ∷ slots) = refl

module _ (schedule : Schedule) where
  -- The map after the lines of some days.
  after : Availability → Bytes → Availability
  after a day = record a { availability_map = a.availability_map ++ entry day (schedule day) }

  day-after :
      (a : Availability) (day : Bytes) (slots : List Timeslot) (rest : List Bytes)
      → IsDay day
      → All IsTimeslot slots
      → Absent day a.availability_map
      → foldl availability_line a (with_day day slots rest)
        ≡ foldl availability_line
            (record a { availability_map = a.availability_map ++ entry day slots })
            rest
  day-after a day [] rest d h absent =
      ap (λ m. foldl availability_line (record a { availability_map = m }) rest)
        (sym (append-nil a.availability_map))
  day-after a day (slot ∷ slots) rest d h absent =
      ap (λ b. foldl availability_line b rest)
        (availability_line-day a day slot slots d h
          ∙ ap (λ m. record a { availability_map = m })
              (insert-Absent day (row day (slot ∷ slots)) a.availability_map absent))

  module _ (timeslots : (day : Bytes) → All IsTimeslot (schedule day)) where
    pub days-after :
        (a : Availability) (days : List Bytes)
        → All IsDay days
        → Distinct days
        → All (λ day. Absent day a.availability_map) days
        → foldl availability_line a (day_lines schedule days)
          ≡ record a { availability_map = a.availability_map ++ entries schedule days }
    unfolding day_lines entries
    days-after a [] d distinct absent =
        ap (λ m. record a { availability_map = m }) (sym (append-nil a.availability_map))
    days-after a (day ∷ days) d distinct absent =
        let m = a.availability_map in
        let e = entry day (schedule day) in
        day-after a day (schedule day) (day_lines schedule days) d.0 (timeslots day) absent.0
        ∙ days-after (record a { availability_map = m ++ e }) days d.1 distinct.1
            (later_Absent day (schedule day) m days distinct.0 absent.1)
        ∙ ap (λ l. record a { availability_map = l }) (append_assoc m e (entries schedule days))

  pub all_days-shown :
      (m : List (Bytes × Bytes)) (days : List Bytes)
      → Distinct days
      → All (λ day. Absent day m) days
      → all_days (m ++ entries schedule days) days ≡ shown_days [] schedule days
  unfolding all_days entries shown_days
  all_days-shown m [] distinct absent = refl
  all_days-shown m (day ∷ days) distinct absent =
      let e = entry day (schedule day) in
      let rest = entries schedule days in
      let found =
        lookup-entry day (schedule day) m rest absent.0
          (entries-Absent schedule day days distinct.0) in
      let later =
        ap (λ l. all_days l days) (sym (append_assoc m e rest))
        ∙ all_days-shown (m ++ e) days distinct.1
            (later_Absent day (schedule day) m days distinct.0 absent.1) in
      ap (λ o. or_nothing o ++ all_days (m ++ (e ++ rest)) days) found
      ∙ ap (λ l. l ++ all_days (m ++ (e ++ rest)) days) (or_nothing-value day (schedule day))
      ∙ ap (λ l. shown_day false day (schedule day) ++ l) later

  pub requested_days-shown :
      (c : ℕ) (requested : Bytes) (m : List (Bytes × Bytes)) (days : List Bytes)
      → Distinct days
      → All (λ day. Absent day m) days
      → requested_days (getlines comma (c ∷ requested)) (m ++ entries schedule days) days
        ≡ shown_days (c ∷ requested) schedule days
  unfolding requested_days entries shown_days
  requested_days-shown c requested m [] distinct absent = refl
  requested_days-shown c requested m (day ∷ days) distinct absent =
      let wanted = getlines comma (c ∷ requested) in
      let e = entry day (schedule day) in
      let rest = entries schedule days in
      let found =
        lookup-entry day (schedule day) m rest absent.0
          (entries-Absent schedule day days distinct.0) in
      let later =
        ap (λ l. requested_days wanted l days) (sym (append_assoc m e rest))
        ∙ requested_days-shown c requested (m ++ e) days distinct.1
            (later_Absent day (schedule day) m days distinct.0 absent.1) in
      ap
        (λ o.
          (if contains wanted day then or_closed day o else [])
          ++ requested_days wanted (m ++ (e ++ rest)) days)
        found
      ∙ ap
          (λ l.
            (if contains wanted day then l else [])
            ++ requested_days wanted (m ++ (e ++ rest)) days)
          (or_closed-value day (schedule day))
      ∙ ap (λ l. (if contains wanted day then shown_day true day (schedule day) else []) ++ l) later
