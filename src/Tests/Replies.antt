-- ===== src/Tests/Replies.antt =====
-- The theorems on the texts of replies, and on the box, at concrete inputs.
use sc4051_dist_system_proj.Prelude.{
  ◌+◌, ◌≡◌, [], ◌∷◌, List, Bytes, Bool, false, codes, length, arith, All, ◌++◌, same, true,
  if◌then◌else◌,
}
use sc4051_dist_system_proj.Text.{newline, getlines}
use sc4051_dist_system_proj.Text.Lines.{Lacks}
use sc4051_dist_system_proj.ResponseParser.Booking.{
  BookingFields, parse_query_booking_response, parse_book_facility_response, UpdateFields,
  parse_update_booking_response, DeleteFields, parse_delete_booking_response,
}
use sc4051_dist_system_proj.ResponseParser.Facility.{
  MonitorFields, parse_monitor_availability_response, RateFields, parse_rate_facility_response,
  RatingFields, parse_query_rating_response, parse_query_facility_names_response,
}
use sc4051_dist_system_proj.ResponseParser.Availability.{
  days_of_week, parse_query_availability_response,
}
use sc4051_dist_system_proj.ResponseParser.Errors.{error_reply, error_replies}
use sc4051_dist_system_proj.ResponseParser.FacilityReplies.{IsName, names_reply, names_replies}
use sc4051_dist_system_proj.ResponseParser.AvailabilityReplies.{
  Timeslot, IsTimeslot, availability_reply, shown_days,
}
use sc4051_dist_system_proj.ResponseParser.AvailabilityReplies.Shown.{availability_replies}
use sc4051_dist_system_proj.UserInterface.{max_length, generate_box}
use sc4051_dist_system_proj.UserInterface.Box.{AreRows, generate_box-AreRows}

abbrev text : Bytes
text = codes "No such booking"

text-Lacks : Lacks newline text
text-Lacks = omega arith

abbrev error_box : List Bytes
error_box = codes "Error" ∷ text ∷ []

error_replies_example :
    (parse_query_facility_names_response (error_reply text) ≡ error_box)
    × (parse_query_availability_response (error_reply text) [] ≡ error_box)
    × (parse_query_booking_response (error_reply text) ≡ error_box)
    × (parse_book_facility_response (error_reply text) ≡ error_box)
    × (parse_update_booking_response (error_reply text) ≡ error_box)
    × (parse_delete_booking_response (error_reply text) ≡ error_box)
    × (parse_monitor_availability_response (error_reply text) ≡ error_box)
    × (parse_rate_facility_response (error_reply text) ≡ error_box)
    × (parse_query_rating_response (error_reply text) ≡ error_box)
error_replies_example = error_replies text [] text-Lacks

abbrev a_booking : BookingFields
a_booking = record {
  booking_id = codes "17";
  user_info = codes "ann";
  facility = codes "Gym";
  day = codes "MONDAY";
  start_time = codes "0900";
  end_time = codes "1000";
}

abbrev an_update : UpdateFields
an_update = record {
  old_booking_id = codes "17";
  new_booking_id = codes "18";
  user_info = codes "ann";
  facility = codes "Gym";
  day = codes "MONDAY";
  start_time = codes "0900";
  end_time = codes "1000";
}

abbrev a_deletion : DeleteFields
a_deletion = record { old_booking_id = codes "17"; user_info = codes "ann" }

abbrev some_names : List Bytes
some_names = codes "Gym" ∷ codes "Pool" ∷ []

some_names-IsName : All IsName some_names
some_names-IsName =
    ((omega arith, (omega arith, λ e. cc)), ((omega arith, (omega arith, λ e. cc)), tt))

names_replies_example :
    parse_query_facility_names_response (names_reply some_names)
    ≡ codes "Facility Names" ∷ some_names
names_replies_example = names_replies some_names some_names-IsName

abbrev a_monitor : MonitorFields
a_monitor = record { facility = codes "Gym"; duration = codes "60" }

abbrev a_rate : RateFields
a_rate = record { user_info = codes "ann"; facility = codes "Gym"; rating = codes "4.5" }

abbrev a_rating : RatingFields
a_rating = record { facility = codes "Gym"; rating = codes "4.5" }

generate_box-AreRows_example :
    AreRows
      (max_length 0 (codes "Error" ∷ text ∷ []) + 4)
      (length (text ∷ []) + 4)
      (getlines newline (generate_box (codes "Error" ∷ text ∷ [])))
generate_box-AreRows_example =
    generate_box-AreRows (codes "Error") (text ∷ []) (omega arith, (text-Lacks, tt))

abbrev morning : Timeslot
morning = record { start = codes "0800"; until = codes "1200" }

abbrev afternoon : Timeslot
afternoon = record { start = codes "1300"; until = codes "1700" }

-- Open on Mondays.
abbrev a_schedule : Bytes → List Timeslot
a_schedule day = if same day (codes "MONDAY") then morning ∷ afternoon ∷ [] else []

slots-IsTimeslot : (b : Bool) → All IsTimeslot (if b then morning ∷ afternoon ∷ [] else [])
slots-IsTimeslot false = tt
slots-IsTimeslot true = (
  record {
    start_dash = omega arith;
    start_comma = omega arith;
    start_newline = omega arith;
    until_comma = omega arith;
    until_newline = omega arith;
  },
  (
    record {
      start_dash = omega arith;
      start_comma = omega arith;
      start_newline = omega arith;
      until_comma = omega arith;
      until_newline = omega arith;
    },
    tt,
  ),
)

availability_replies_example :
    parse_query_availability_response
      (availability_reply (codes "Gym") a_schedule)
      (codes "MONDAY,SUNDAY")
    ≡ codes "Facility Availability"
      ∷ (codes "Facility: " ++ codes "Gym")
      ∷ shown_days (codes "MONDAY,SUNDAY") a_schedule days_of_week
availability_replies_example =
    availability_replies a_schedule (λ day. slots-IsTimeslot (same day (codes "MONDAY")))
      (codes "Gym") (codes "MONDAY,SUNDAY") (omega arith)
