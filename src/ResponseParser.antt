-- ===== src/ResponseParser.antt =====
-- Client/src/ResponseParser.cpp: from the text of a reply to the lines of a box. This file has what
-- the parsers share, the children have the parsers.
pub mod Booking
pub mod Facility
pub mod Availability
pub mod Errors
pub mod Keyed
pub mod BookingReplies
pub mod FacilityReplies
pub mod AvailabilityReplies
use sc4051_dist_system_proj.Prelude.{
  [], ◌∷◌, List, Bytes, Bool, false, Option, none, some, codes, if◌then◌else◌,
}
use sc4051_dist_system_proj.Text.{getline, found_at_start, suffix, newline}

-- `Constants::STATUS_ERROR` and `Constants::STATUS_SUCCESS`
abbrev pub status_error : Bytes
status_error = codes "status:ERROR"

abbrev pub status_success : Bytes
status_success = codes "status:SUCCESS"

-- `isErrorResponse`: the answer, and the stream after the line that it extracts.
unfoldable pub is_error_response : Bytes → Bool × Bytes
is_error_response stream = elim (getline newline stream) [
  | none ↦ (false, stream)
  | some (line, rest) ↦ (found_at_start status_error line, rest)
]

-- The message of an error reply: the same lines stand at the start of each parser.
unfoldable pub error_message : Bytes → Bytes
error_message stream = elim (getline newline stream) [
  | none ↦ []
  | some (line, rest) ↦ if found_at_start (codes "message:") line then suffix line 8 else []
]

abbrev pub error_lines : Bytes → List Bytes
error_lines stream = codes "Error" ∷ error_message stream ∷ []
