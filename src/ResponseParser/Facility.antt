-- ===== src/ResponseParser/Facility.antt =====
-- `parseQueryFacilityNamesResponse`, `parseMonitorAvailabilityResponse`,
-- `parseRateFacilityResponse`, `parseQueryRatingResponse` and `parseEchoMessageResponse`.
use sc4051_dist_system_proj.Prelude.{[], ◌∷◌, ◌++◌, List, Bytes, codes, foldl, if◌then◌else◌}
use sc4051_dist_system_proj.Text.{getlines, found_at_start, suffix, newline, comma}
use sc4051_dist_system_proj.ResponseParser.{is_error_response, error_lines}

-- The tokens between commas that are not empty are appended.
unfoldable pub add_names : List Bytes → List Bytes → List Bytes
add_names parsed [] = parsed
add_names parsed ([] ∷ names) = add_names parsed names
add_names parsed ((c ∷ name) ∷ names) = add_names (parsed ++ (c ∷ name) ∷ []) names

-- The body of the loop over the lines.
unfoldable pub names_line : List Bytes → Bytes → List Bytes
names_line parsed line =
    if found_at_start (codes "facilityNames:") line
    then add_names parsed (getlines comma (suffix line 14))
    else parsed

unfoldable pub parse_query_facility_names_response : Bytes → List Bytes
unfolding names_line
parse_query_facility_names_response response =
    let (is_error, rest) = is_error_response response in
    if is_error
    then error_lines rest
    else foldl names_line (codes "Facility Names" ∷ []) (getlines newline rest)

pub record MonitorFields : Type 0 where
  pub facility : Bytes
  pub duration : Bytes

abbrev pub no_monitor : MonitorFields
no_monitor = record { facility = []; duration = [] }

unfoldable pub monitor_line : MonitorFields → Bytes → MonitorFields
monitor_line f line =
    if found_at_start (codes "facility:") line
    then record f { facility = suffix line 9 }
    else if found_at_start (codes "interval:") line
    then record f { duration = suffix line 9 }
    else f

abbrev pub monitor_box : MonitorFields → List Bytes
monitor_box f =
    codes "Monitoring Registration"
    ∷ (codes "Facility: " ++ f.facility)
    ∷ (codes "Duration: " ++ f.duration ++ codes "s")
    ∷ []

unfoldable pub parse_monitor_availability_response : Bytes → List Bytes
unfolding monitor_line
parse_monitor_availability_response response =
    let (is_error, rest) = is_error_response response in
    if is_error
    then error_lines rest
    else monitor_box (foldl monitor_line no_monitor (getlines newline rest))

pub record RateFields : Type 0 where
  pub user_info : Bytes
  pub facility : Bytes
  pub rating : Bytes

abbrev pub no_rate : RateFields
no_rate = record { user_info = []; facility = []; rating = [] }

unfoldable pub rate_line : RateFields → Bytes → RateFields
rate_line f line =
    if found_at_start (codes "user:") line
    then record f { user_info = suffix line 5 }
    else if found_at_start (codes "facility:") line
    then record f { facility = suffix line 9 }
    else if found_at_start (codes "rating:") line
    then record f { rating = suffix line 7 }
    else f

abbrev pub rate_box : RateFields → List Bytes
rate_box f =
    codes "Rating Added"
    ∷ (codes "User: " ++ f.user_info)
    ∷ (codes "Facility: " ++ f.facility)
    ∷ (codes "Rating: " ++ f.rating)
    ∷ []

unfoldable pub parse_rate_facility_response : Bytes → List Bytes
unfolding rate_line
parse_rate_facility_response response =
    let (is_error, rest) = is_error_response response in
    if is_error
    then error_lines rest
    else rate_box (foldl rate_line no_rate (getlines newline rest))

pub record RatingFields : Type 0 where
  pub facility : Bytes
  pub rating : Bytes

abbrev pub no_rating : RatingFields
no_rating = record { facility = []; rating = [] }

unfoldable pub rating_line : RatingFields → Bytes → RatingFields
rating_line f line =
    if found_at_start (codes "facility:") line
    then record f { facility = suffix line 9 }
    else if found_at_start (codes "rating:") line
    then record f { rating = suffix line 7 }
    else f

abbrev pub rating_box : RatingFields → List Bytes
rating_box f =
    codes "Facility Rating"
    ∷ (codes "Facility: " ++ f.facility)
    ∷ (codes "Rating: " ++ f.rating)
    ∷ []

unfoldable pub parse_query_rating_response : Bytes → List Bytes
unfolding rating_line
parse_query_rating_response response =
    let (is_error, rest) = is_error_response response in
    if is_error
    then error_lines rest
    else rating_box (foldl rating_line no_rating (getlines newline rest))

-- The echo is shown as it is, errors included.
unfoldable pub parse_echo_message_response : Bytes → List Bytes
parse_echo_message_response response =
    codes "Response from Server" ∷ (codes "Message: " ++ response) ∷ []
