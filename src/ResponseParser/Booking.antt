-- ===== src/ResponseParser/Booking.antt =====
-- `parseQueryBookingResponse`, `parseBookFacilityResponse`, `parseUpdateBookingResponse` and
-- `parseDeleteBookingResponse`. The local variables of each are a record, and the body of its loop
-- over the lines is a function on it.
use sc4051_dist_system_proj.Prelude.{[], ◌∷◌, ◌++◌, List, Bytes, codes, foldl, if◌then◌else◌}
use sc4051_dist_system_proj.Text.{getlines, found_at_start, suffix, newline}
use sc4051_dist_system_proj.ResponseParser.{is_error_response, error_lines}

pub record BookingFields : Type 0 where
  pub booking_id : Bytes
  pub user_info : Bytes
  pub facility : Bytes
  pub day : Bytes
  pub start_time : Bytes
  pub end_time : Bytes

abbrev pub no_booking : BookingFields
no_booking = record {
  booking_id = [];
  user_info = [];
  facility = [];
  day = [];
  start_time = [];
  end_time = [];
}

unfoldable pub booking_line : BookingFields → Bytes → BookingFields
booking_line f line =
    if found_at_start (codes "bookingID:") line
    then record f { booking_id = suffix line 10 }
    else if found_at_start (codes "user:") line
    then record f { user_info = suffix line 5 }
    else if found_at_start (codes "facility:") line
    then record f { facility = suffix line 9 }
    else if found_at_start (codes "day:") line
    then record f { day = suffix line 4 }
    else if found_at_start (codes "startTime:") line
    then record f { start_time = suffix line 10 }
    else if found_at_start (codes "endTime:") line
    then record f { end_time = suffix line 8 }
    else f

abbrev pub booking_box : BookingFields → List Bytes
booking_box f =
    codes "Booking Details"
    ∷ (codes "Booking ID: " ++ f.booking_id)
    ∷ (codes "User: " ++ f.user_info)
    ∷ (codes "Facility: " ++ f.facility)
    ∷ (codes "Day: " ++ f.day)
    ∷ (codes "Start Time: " ++ f.start_time)
    ∷ (codes "End Time: " ++ f.end_time)
    ∷ []

unfoldable pub parse_query_booking_response : Bytes → List Bytes
unfolding booking_line
parse_query_booking_response response =
    let (is_error, rest) = is_error_response response in
    if is_error
    then error_lines rest
    else booking_box (foldl booking_line no_booking (getlines newline rest))

-- `parseBookFacilityResponse` only calls the parser of booking details.
unfoldable pub parse_book_facility_response : Bytes → List Bytes
parse_book_facility_response response = parse_query_booking_response response

pub record UpdateFields : Type 0 where
  pub old_booking_id : Bytes
  pub new_booking_id : Bytes
  pub user_info : Bytes
  pub facility : Bytes
  pub day : Bytes
  pub start_time : Bytes
  pub end_time : Bytes

abbrev pub no_update : UpdateFields
no_update = record {
  old_booking_id = [];
  new_booking_id = [];
  user_info = [];
  facility = [];
  day = [];
  start_time = [];
  end_time = [];
}

unfoldable pub update_line : UpdateFields → Bytes → UpdateFields
update_line f line =
    if found_at_start (codes "oldBookingID:") line
    then record f { old_booking_id = suffix line 13 }
    else if found_at_start (codes "newBookingID:") line
    then record f { new_booking_id = suffix line 13 }
    else if found_at_start (codes "user:") line
    then record f { user_info = suffix line 5 }
    else if found_at_start (codes "facility:") line
    then record f { facility = suffix line 9 }
    else if found_at_start (codes "day:") line
    then record f { day = suffix line 4 }
    else if found_at_start (codes "startTime:") line
    then record f { start_time = suffix line 10 }
    else if found_at_start (codes "endTime:") line
    then record f { end_time = suffix line 8 }
    else f

abbrev pub update_box : UpdateFields → List Bytes
update_box f =
    codes "New Booking Details"
    ∷ (codes "New Booking ID: " ++ f.new_booking_id)
    ∷ (codes "User: " ++ f.user_info)
    ∷ (codes "Facility: " ++ f.facility)
    ∷ (codes "New Day: " ++ f.day)
    ∷ (codes "New Start Time: " ++ f.start_time)
    ∷ (codes "New End Time: " ++ f.end_time)
    ∷ []

unfoldable pub parse_update_booking_response : Bytes → List Bytes
unfolding update_line
parse_update_booking_response response =
    let (is_error, rest) = is_error_response response in
    if is_error
    then error_lines rest
    else update_box (foldl update_line no_update (getlines newline rest))

pub record DeleteFields : Type 0 where
  pub old_booking_id : Bytes
  pub user_info : Bytes

abbrev pub no_delete : DeleteFields
no_delete = record { old_booking_id = []; user_info = [] }

unfoldable pub delete_line : DeleteFields → Bytes → DeleteFields
delete_line f line =
    if found_at_start (codes "bookingID:") line
    then record f { old_booking_id = suffix line 10 }
    else if found_at_start (codes "user:") line
    then record f { user_info = suffix line 5 }
    else f

abbrev pub delete_box : DeleteFields → List Bytes
delete_box f =
    codes "Booking Deleted"
    ∷ (codes "Old Booking ID: " ++ f.old_booking_id)
    ∷ (codes "User: " ++ f.user_info)
    ∷ []

unfoldable pub parse_delete_booking_response : Bytes → List Bytes
unfolding delete_line
parse_delete_booking_response response =
    let (is_error, rest) = is_error_response response in
    if is_error
    then error_lines rest
    else delete_box (foldl delete_line no_delete (getlines newline rest))
