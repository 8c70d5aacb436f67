-- ===== src/ResponseParser/Errors.antt =====
-- Which replies the parsers take for errors.
use sc4051_dist_system_proj.Prelude.{
  ◌≡◌, ◌≢◌, refl, ap, [], ◌∷◌, ◌++◌, List, Bytes, Bool, true, false, codes, arith, All-append,
}
use sc4051_dist_system_proj.Text.{newline, starts_with}
use sc4051_dist_system_proj.Text.Lines.{Lacks, getline-cons, getline_last, found_at_start_lem}
use sc4051_dist_system_proj.ResponseParser.{
  status_error, status_success, is_error_response, error_message,
}
use sc4051_dist_system_proj.ResponseParser.Booking.{
  parse_query_booking_response, parse_book_facility_response, parse_update_booking_response,
  parse_delete_booking_response,
}
use sc4051_dist_system_proj.ResponseParser.Facility.{
  parse_query_facility_names_response, parse_monitor_availability_response,
  parse_rate_facility_response, parse_query_rating_response,
}
use sc4051_dist_system_proj.ResponseParser.Availability.{
  Availability, parse_query_availability_response,
}
use sc4051_dist_system_proj.UserInterface

first_line :
    (line rest : Bytes)
    → Lacks newline line
    → is_error_response (line ++ newline ∷ rest) ≡ (starts_with status_error line, rest)
unfolding is_error_response
first_line line rest h =
    rw (getline-cons newline line rest h, is_error_response)
      (ap (λ (b : Bool). (b, rest)) (found_at_start_lem status_error line))

pub status_error_line :
    (rest : Bytes) → is_error_response (status_error ++ newline ∷ rest) ≡ (true, rest)
status_error_line rest = first_line status_error rest (omega arith)

pub status_success_line :
    (rest : Bytes) → is_error_response (status_success ++ newline ∷ rest) ≡ (false, rest)
status_success_line rest = first_line status_success rest (omega arith)

message_line : (m : Bytes) → Lacks newline m → error_message (codes "message:" ++ m) ≡ m
unfolding error_message
message_line m h =
    let line = codes "message:" ++ m in
    let lacks : Lacks newline line =
      All-append (λ c. c ≢ newline) (codes "message:") m (omega arith) h in
    rw (getline_last newline b'm' (codes "essage:" ++ m) lacks, error_message)
      (rw (found_at_start_lem (codes "message:") line) refl)

-- The text that the server sends for an error.
abbrev pub error_reply : Bytes → Bytes
error_reply m = status_error ++ newline ∷ (codes "message:" ++ m)

-- Every parser but that of echoes shows the message of an error reply, which has no newline, under
-- the title "Error".
pub error_replies :
    (m days : Bytes)
    → Lacks newline m
    → (parse_query_facility_names_response (error_reply m) ≡ codes "Error" ∷ m ∷ [])
      × (parse_query_availability_response (error_reply m) days ≡ codes "Error" ∷ m ∷ [])
      × (parse_query_booking_response (error_reply m) ≡ codes "Error" ∷ m ∷ [])
      × (parse_book_facility_response (error_reply m) ≡ codes "Error" ∷ m ∷ [])
      × (parse_update_booking_response (error_reply m) ≡ codes "Error" ∷ m ∷ [])
      × (parse_delete_booking_response (error_reply m) ≡ codes "Error" ∷ m ∷ [])
      × (parse_monitor_availability_response (error_reply m) ≡ codes "Error" ∷ m ∷ [])
      × (parse_rate_facility_response (error_reply m) ≡ codes "Error" ∷ m ∷ [])
      × (parse_query_rating_response (error_reply m) ≡ codes "Error" ∷ m ∷ [])
unfolding parse_query_facility_names_response parse_query_availability_response
    parse_query_booking_response parse_book_facility_response parse_update_booking_response
    parse_delete_booking_response parse_monitor_availability_response parse_rate_facility_response
    parse_query_rating_response
error_replies m days h =
    let shown = ap (λ (text : Bytes). codes "Error" ∷ text ∷ []) (message_line m h) in
    rw (status_error_line (codes "message:" ++ m))
      (shown, shown, shown, shown, shown, shown, shown, shown, shown)

-- The test of the user interface on the parsed lines.
abbrev pub flagged : List Bytes → Bool
flagged = UserInterface.is_error_response
