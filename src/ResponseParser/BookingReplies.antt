-- ===== src/ResponseParser/BookingReplies.antt =====
-- What the parsers of bookings make of the replies that the server sends on success, in the formats
-- of API_Specification.md: lines with newlines between them.
use sc4051_dist_system_proj.Prelude.{[], ◌∷◌, ◌++◌, List, Bytes, codes}
use sc4051_dist_system_proj.Text.{newline}
use sc4051_dist_system_proj.Text.Lines.{Lacks, join}
use sc4051_dist_system_proj.ResponseParser.{status_success}
use sc4051_dist_system_proj.ResponseParser.Booking.{BookingFields, UpdateFields, DeleteFields}

-- The fields of a booking have no newline.
pub record IsBooking (f : BookingFields) : Type 0 where
  pub booking_id : Lacks newline f.booking_id
  pub user_info : Lacks newline f.user_info
  pub facility : Lacks newline f.facility
  pub day : Lacks newline f.day
  pub start_time : Lacks newline f.start_time
  pub end_time : Lacks newline f.end_time

abbrev booking_lines : BookingFields → List Bytes
booking_lines f =
    (codes "bookingID:" ++ f.booking_id)
    ∷ (codes "user:" ++ f.user_info)
    ∷ (codes "facility:" ++ f.facility)
    ∷ (codes "day:" ++ f.day)
    ∷ (codes "startTime:" ++ f.start_time)
    ∷ (codes "endTime:" ++ f.end_time)
    ∷ []

abbrev pub booking_reply : BookingFields → Bytes
booking_reply f = join newline (status_success ∷ booking_lines f)

pub record IsUpdate (f : UpdateFields) : Type 0 where
  pub old_booking_id : Lacks newline f.old_booking_id
  pub new_booking_id : Lacks newline f.new_booking_id
  pub user_info : Lacks newline f.user_info
  pub facility : Lacks newline f.facility
  pub day : Lacks newline f.day
  pub start_time : Lacks newline f.start_time
  pub end_time : Lacks newline f.end_time

abbrev update_lines : UpdateFields → List Bytes
update_lines f =
    (codes "oldBookingID:" ++ f.old_booking_id)
    ∷ (codes "newBookingID:" ++ f.new_booking_id)
    ∷ (codes "user:" ++ f.user_info)
    ∷ (codes "facility:" ++ f.facility)
    ∷ (codes "day:" ++ f.day)
    ∷ (codes "startTime:" ++ f.start_time)
    ∷ (codes "endTime:" ++ f.end_time)
    ∷ []

abbrev pub update_reply : UpdateFields → Bytes
update_reply f = join newline (status_success ∷ update_lines f)

pub record IsDeletion (f : DeleteFields) : Type 0 where
  pub old_booking_id : Lacks newline f.old_booking_id
  pub user_info : Lacks newline f.user_info

abbrev delete_lines : DeleteFields → List Bytes
delete_lines f = (codes "bookingID:" ++ f.old_booking_id) ∷ (codes "user:" ++ f.user_info) ∷ []

abbrev pub delete_reply : DeleteFields → Bytes
delete_reply f = join newline (status_success ∷ delete_lines f)
