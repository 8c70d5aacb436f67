-- ===== src/Client/Requests.antt =====
-- The requests that Client/src/Client.cpp makes, and what it does with the details of a booking.
use sc4051_dist_system_proj.Prelude.{
  ℕ, suc, ◌+◌, ◌-◌, ◌*◌, ◌/◌, ◌%◌, [], ◌∷◌, ◌++◌, List, Bytes, Bool, true, false, Option, none,
  some, codes, take, drop, length, ltb, leb, if◌then◌else◌,
}
use sc4051_dist_system_proj.Prelude.Int.{ℤ, pos, negsuc}
use sc4051_dist_system_proj.Text.{find, found_at_start, substr, newline}
use sc4051_dist_system_proj.Text.Numbers.{to_string, stoi, negate}
use sc4051_dist_system_proj.RequestMessage.{
  RequestMessage, RequestType, read, write, update, delete_request, monitor, echo, request_message,
}
use sc4051_dist_system_proj.ResponseParser.{status_success}
use sc4051_dist_system_proj.Client.{
  Client, Network, Reception, failed, datagram, Outcome, returned, exited, null_dereference,
  send_with_retry, buffer_size,
}

-- The first `none` is the result: an exception.
infixl 5 ◌>>=◌
abbrev ◌>>=◌ : {A B : Type 0} → Option A → (A → Option B) → Option B
none >>= k = none
some a >>= k = k a

-- `s.substr(pos, n)`, which throws at a position behind the end of the text.
unfoldable pub substr_at : Bytes → ℕ → ℕ → Option Bytes
substr_at s start n = if leb start (length s) then some (substr s start n) else none

-- The data of a booking request; `none` is the exception of `substr`.
unfoldable pub booking_data : Bytes → Bytes → Bytes → Bytes → Option Bytes
booking_data facility_name day_of_week start_time end_time = do
  start_hour ← substr_at start_time 0 2
  start_minute ← substr_at start_time 2 2
  end_hour ← substr_at end_time 0 2
  end_minute ← substr_at end_time 2 2
  let start = start_hour ++ codes "," ++ start_minute
  let end = end_hour ++ codes "," ++ end_minute
  some (facility_name ++ codes "," ++ day_of_week ++ codes "," ++ start ++ codes "," ++ end)

-- The common body of the four functions that extract a field: the text behind the first place of
-- the prefix, up to the end of its line, or of the text.
unfoldable pub line_to : Bytes → Option ℕ → Bytes
line_to value none = value
line_to value (some end) = take end value

unfoldable pub value_behind : Bytes → Bytes → Option ℕ → Bytes
value_behind key details none = []
value_behind key details (some place) =
    let value = drop (place + length key) details in line_to value (find (newline ∷ []) value)

unfoldable pub value_of : Bytes → Bytes → Bytes
value_of key details = value_behind key details (find key details)

unfoldable pub extract_facility_name : Bytes → Bytes
extract_facility_name details = value_of (codes "facility:") details

unfoldable pub extract_day_of_week : Bytes → Bytes
extract_day_of_week details = value_of (codes "day:") details

unfoldable pub extract_start_time : Bytes → Bytes
extract_start_time details = value_of (codes "startTime:") details

unfoldable pub extract_end_time : Bytes → Bytes
extract_end_time details = value_of (codes "endTime:") details

-- Sums of `int` values; an overflow, which is undefined behaviour, is left out.
infixl 6 ◌+ℤ◌
abbrev pub ◌+ℤ◌ : ℤ → ℤ → ℤ
pos a +ℤ pos b = pos (a + b)
pos a +ℤ negsuc b = if ltb b a then pos (a - suc b) else negsuc (b - a)
negsuc a +ℤ pos b = if ltb a b then pos (b - suc a) else negsuc (a - b)
negsuc a +ℤ negsuc b = negsuc (suc (a + b))

abbrev pub sixty_times : ℤ → ℤ
sixty_times (pos n) = pos (n * 60)
sixty_times (negsuc n) = negate (suc n * 60)

-- `/ 60` and `% 60` of C++ cut towards zero.
abbrev pub hours : ℤ → ℤ
hours (pos n) = pos (n / 60)
hours (negsuc n) = negate (suc n / 60)

abbrev pub minutes : ℤ → ℤ
minutes (pos n) = pos (n % 60)
minutes (negsuc n) = negate (suc n % 60)

-- The minutes of a time of the form HHMM, moved by the offset; `none` is an exception of `substr`
-- or of `stoi`.
unfoldable pub total_minutes : Bytes → ℤ → Option ℤ
total_minutes time offset_minutes = do
  hour_text ← substr_at time 0 2
  minute_text ← substr_at time 2 2
  hour ← stoi hour_text
  minute ← stoi minute_text
  some (sixty_times hour +ℤ minute +ℤ offset_minutes)

-- The end of the data: the four numbers.
abbrev pub times_text : ℤ → ℤ → Bytes
times_text total_start total_end =
    to_string (hours total_start)
    ++ codes ","
    ++ to_string (minutes total_start)
    ++ codes ","
    ++ to_string (hours total_end)
    ++ codes ","
    ++ to_string (minutes total_end)

unfoldable pub update_data : Bytes → ℤ → Bytes → Option Bytes
update_data old_booking_id offset_minutes old_booking_details = do
  total_start ← total_minutes (extract_start_time old_booking_details) offset_minutes
  total_end ← total_minutes (extract_end_time old_booking_details) offset_minutes
  let facility_name = extract_facility_name old_booking_details
  let old_day = extract_day_of_week old_booking_details
  let front =
      codes "booking," ++ old_booking_id ++ codes "," ++ facility_name ++ codes "," ++ old_day
  some (front ++ codes "," ++ times_text total_start total_end)

-- `listenForMonitoringUpdates`: the texts that `onUpdate` gets. The list has what each call of
-- `receiveDataFrom` does; it ends when the time is over.
unfoldable pub listen_for_monitoring_updates : List Reception → List Bytes
listen_for_monitoring_updates [] = []
listen_for_monitoring_updates (failed ∷ receptions) = []
listen_for_monitoring_updates (datagram [] ∷ receptions) = listen_for_monitoring_updates receptions
listen_for_monitoring_updates (datagram (x ∷ bytes) ∷ receptions) =
    take buffer_size (x ∷ bytes) ∷ listen_for_monitoring_updates receptions

-- The calls of `onUpdate` for them.
abbrev pub as_updates : List Bytes → List (Bytes × Bool)
as_updates [] = []
as_updates (text ∷ texts) = (text, false) ∷ as_updates texts

-- The calls of `onUpdate` after the reply to the registration, which come with the flag `true` for
-- the reply itself. The program listens if the registration was successful; `none` is an exception
-- that leaves `listenForMonitoringUpdates`.
abbrev pub with_updates : Bytes → Option (List Bytes) → Option (List (Bytes × Bool))
with_updates response none = none
with_updates response (some texts) = some ((response, true) ∷ as_updates texts)

-- What a request needs of the client: `requestID`, `sendWithRetry` and
-- `listenForMonitoringUpdates`, which may throw. An argument of type `N` or `L` is what the
-- environment does in such a call.
pub record Transport (N L S : Type 0) : Type 0 where
  pub next_id : S → ℤ
  pub send : RequestMessage → N → S → Outcome Bytes × S
  pub listen : ℤ → L → S → Option (List Bytes) × S

abbrev pub listened : Option (List Reception) → Option (List Bytes)
listened none = none
listened (some receptions) = some (listen_for_monitoring_updates receptions)

-- The client over a network that is given. Where a timeout cannot be set, there is no list of what
-- `receiveDataFrom` does.
abbrev pub over_network : Transport Network (Option (List Reception)) Client
over_network = record {
  next_id = λ c. c.request_id;
  send = send_with_retry;
  listen = λ duration_seconds receptions c. (listened receptions, c);
}

-- What follows the reply to the registration.
abbrev pub updates_for :
    {S : Type 0} → Bytes → Option (List Bytes) × S → Outcome (Option (List (Bytes × Bool))) × S
updates_for response (texts, c) = (returned (with_updates response texts), c)

module _ {N L S : Type 0} (t : Transport N L S) where
  -- A request with the member `requestID` as its identifier.
  abbrev pub ask : RequestType → Bytes → N → S → Outcome Bytes × S
  ask type text net c = t.send (request_message type (t.next_id c) text) net c

  -- Where the data cannot be made, nothing is sent.
  abbrev pub ask_with : RequestType → Option Bytes → N → S → Option (Outcome Bytes × S)
  ask_with type none net c = none
  ask_with type (some text) net c = some (ask type text net c)

  unfoldable pub query_facility_names : N → S → Outcome Bytes × S
  query_facility_names net c = ask read (codes "facility,ALL") net c

  unfoldable pub query_availability : Bytes → Bytes → N → S → Outcome Bytes × S
  query_availability facility_name days_of_week net c =
      ask read (codes "facility," ++ facility_name ++ codes "," ++ days_of_week) net c

  unfoldable pub book_facility : Bytes → Bytes → Bytes → Bytes → N → S → Option (Outcome Bytes × S)
  book_facility facility_name day_of_week start_time end_time net c =
      ask_with write (booking_data facility_name day_of_week start_time end_time) net c

  unfoldable pub query_booking : Bytes → N → S → Outcome Bytes × S
  query_booking booking_id net c = ask read (codes "booking," ++ booking_id) net c

  unfoldable pub update_booking : Bytes → ℤ → Bytes → N → S → Option (Outcome Bytes × S)
  update_booking old_booking_id offset_minutes old_booking_details net c =
      ask_with update (update_data old_booking_id offset_minutes old_booking_details) net c

  unfoldable pub delete_booking : Bytes → Bytes → N → S → Outcome Bytes × S
  delete_booking booking_id booking_details net c =
      ask delete_request (booking_id ++ codes "," ++ extract_facility_name booking_details) net c

  -- `rating` is the text that `std::to_string` makes of the number.
  unfoldable pub rate_facility : Bytes → Bytes → N → S → Outcome Bytes × S
  rate_facility facility_name rating net c =
      ask update (codes "rating," ++ facility_name ++ codes "," ++ rating) net c

  unfoldable pub query_rating : Bytes → N → S → Outcome Bytes × S
  query_rating facility_name net c = ask read (codes "rating," ++ facility_name) net c

  unfoldable pub echo_message : Bytes → N → S → Outcome Bytes × S
  echo_message message_data net c = ask echo message_data net c

  unfoldable pub after_registration :
      ℤ → L → Outcome Bytes × S → Outcome (Option (List (Bytes × Bool))) × S
  after_registration duration_seconds listening (returned response, c) =
      if found_at_start status_success response
      then updates_for response (t.listen duration_seconds listening c)
      else (returned (some ((response, true) ∷ [])), c)
  after_registration duration_seconds listening (exited, c) = (exited, c)
  after_registration duration_seconds listening (null_dereference, c) = (null_dereference, c)

  unfoldable pub monitor_availability :
      Bytes → ℤ → N → L → S → Outcome (Option (List (Bytes × Bool))) × S
  monitor_availability facility_name duration_seconds net listening c =
      after_registration duration_seconds listening (
        ask monitor (codes "register," ++ facility_name ++ codes "," ++ to_string duration_seconds)
          net c)
