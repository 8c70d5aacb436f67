-- ===== src/UserInterface/Handlers.antt =====
-- The handlers of Client/src/UserInterface.cpp, over what sends the requests and the input of the
-- user. What the environment does in each request is an argument. The result has the contents of the
-- boxes that are shown, in order; other lines that are printed are left out.
use sc4051_dist_system_proj.Prelude.{
  [], ◌∷◌, ◌++◌, List, Bytes, Bool, true, false, Option, none, some, codes,
}
use sc4051_dist_system_proj.Prelude.Int.{ℤ, pos}
use sc4051_dist_system_proj.Client.{Outcome, returned, exited, null_dereference}
use sc4051_dist_system_proj.Client.Requests.{
  Transport, query_facility_names, query_availability, book_facility, query_booking, update_booking,
  delete_booking, monitor_availability, rate_facility, query_rating, echo_message,
}
use sc4051_dist_system_proj.ResponseParser.Booking.{
  parse_query_booking_response, parse_book_facility_response, parse_update_booking_response,
  parse_delete_booking_response,
}
use sc4051_dist_system_proj.ResponseParser.Facility.{
  parse_query_facility_names_response, parse_monitor_availability_response,
  parse_rate_facility_response, parse_query_rating_response, parse_echo_message_response,
}
use sc4051_dist_system_proj.ResponseParser.Availability.{parse_query_availability_response}
use sc4051_dist_system_proj.UserInterface.{is_error_response}
use sc4051_dist_system_proj.UserInterface.Console.{
  Typing, Asked, answered, asks_on, uncaught, undefined, ask_facility_name, ask_days_of_week,
  ask_day_of_week, ask_time, ask_booking_id, ask_offset, ask_confirmation, ask_duration,
}

abbrev pub Boxes : Type 0
Boxes = List (List Bytes)

-- How a handler ends, with the boxes that it has shown: it returns, the program exits with a code, it
-- uses a null pointer or an element that is not there, an exception leaves the handler, or a prompt
-- asks for ever since the input is over.
pub data Ending : Type 0 where
  finished is_undefined throws waits : Boxes → Ending
  exits : ℤ → Boxes → Ending

abbrev pub Handled : Type 0 → Type 0
Handled S = Ending × S

abbrev pub add_boxes : Boxes → Ending → Ending
add_boxes boxes (finished more) = finished (boxes ++ more)
add_boxes boxes (is_undefined more) = is_undefined (boxes ++ more)
add_boxes boxes (throws more) = throws (boxes ++ more)
add_boxes boxes (waits more) = waits (boxes ++ more)
add_boxes boxes (exits code more) = exits code (boxes ++ more)

-- The end of a handler.
abbrev pub done : {S : Type 0} → Bytes → S → Handled S
done response c = (finished [], c)

-- The handler goes on, unless the reply is an error.
unfoldable pub unless_error : {S : Type 0} → Bool → List Bytes → Handled S → S → Handled S
unless_error true box more c = (finished (box ∷ []), c)
unless_error false box more c = (add_boxes (box ∷ []) more.0, more.1)

-- Shows the parsed reply to a request; where it is no error, the handler goes on with the reply.
unfoldable pub show_reply :
    {S : Type 0} → Outcome Bytes × S → (Bytes → List Bytes) → (Bytes → S → Handled S) → Handled S
show_reply (returned response, c) parse next =
    let parsed_response = parse response in
    unless_error (is_error_response parsed_response) parsed_response (next response c) c
show_reply (exited, c) parse next = (exits (pos 1) [], c)
show_reply (null_dereference, c) parse next = (is_undefined [], c)

-- A request that cannot be made throws before anything is sent.
unfoldable pub show_reply_to :
    {S : Type 0} → Option (Outcome Bytes × S) → (Bytes → List Bytes) → S → Handled S
show_reply_to none parse c = (throws [], c)
show_reply_to (some reply) parse c = show_reply reply parse done

-- What a prompt makes of the input, and what the handler does with the answer.
unfoldable pub ask_user :
    {A S : Type 0} → Asked A → Typing S → (A → Typing S → Handled (Typing S)) → Handled (Typing S)
ask_user (answered a rest) c next = next a (record c { input = rest })
ask_user asks_on c next = (waits [], c)
ask_user uncaught c next = (throws [], c)
ask_user undefined c next = (is_undefined [], c)

abbrev pub keep_input : {A S : Type 0} → Typing S → A × S → A × Typing S
keep_input c (a, client) = (a, record c { client = client })

-- A client with the input of its user.
abbrev pub typed : {N L S : Type 0} → Transport N L S → Transport N L (Typing S)
typed t = record {
  next_id = λ c. t.next_id c.client;
  send = λ request net c. keep_input c (t.send request net c.client);
  listen = λ duration listening c. keep_input c (t.listen duration listening c.client);
}

-- The callback of `handleMonitorAvailability`, for each of its calls.
unfoldable pub update_boxes : List (Bytes × Bool) → Boxes
update_boxes [] = []
update_boxes ((response, true) ∷ calls) =
    parse_monitor_availability_response response ∷ update_boxes calls
update_boxes ((response, false) ∷ calls) =
    parse_query_availability_response response [] ∷ update_boxes calls

abbrev pub end_of_monitoring : List Bytes
end_of_monitoring =
    codes "End of Monitoring"
    ∷ codes "Monitoring period has ended. No further updates will be received."
    ∷ []

abbrev pub show_updates : {S : Type 0} → Outcome (Option (List (Bytes × Bool))) × S → Handled S
show_updates (returned none, c) = (throws [], c)
show_updates (returned (some calls), c) =
    (finished (update_boxes calls ++ end_of_monitoring ∷ []), c)
show_updates (exited, c) = (exits (pos 1) [], c)
show_updates (null_dereference, c) = (is_undefined [], c)

-- The handler goes on with a confirmation.
unfoldable pub if_confirmed :
    {S : Type 0} → Bool → Typing S → (Typing S → Handled (Typing S)) → Handled (Typing S)
if_confirmed true c next = next c
if_confirmed false c next = (finished [], c)

unfoldable pub handle_exit : {S : Type 0} → Typing S → Handled (Typing S)
handle_exit c =
    ask_user (ask_confirmation c.input) c
      (λ confirmation c'. if_confirmed confirmation c' (λ c''. (exits (pos 0) [], c'')))

module _ {N L S : Type 0} (t : Transport N L (Typing S)) where
  -- The start of five handlers: the list of facilities, and the choice of one of them.
  unfoldable pub after_names :
      N → Typing S → (Bytes → Typing S → Handled (Typing S)) → Handled (Typing S)
  after_names net c next =
      show_reply (query_facility_names t net c) parse_query_facility_names_response
        (λ response c'. ask_user (ask_facility_name c'.input) c' next)

  unfoldable pub handle_query_facility_names : N → Typing S → Handled (Typing S)
  handle_query_facility_names net c =
      show_reply (query_facility_names t net c) parse_query_facility_names_response done

  unfoldable pub handle_query_availability : N → N → Typing S → Handled (Typing S)
  handle_query_availability net net' c = after_names net c (λ facility_name c1.
      ask_user (ask_days_of_week c1.input) c1 (λ days c2.
        show_reply (query_availability t facility_name days net' c2)
          (λ response. parse_query_availability_response response days) done))

  unfoldable pub handle_book_facility : N → N → Typing S → Handled (Typing S)
  handle_book_facility net net' c = after_names net c (λ facility_name c1.
      ask_user (ask_day_of_week c1.input) c1 (λ day_of_week c2.
        ask_user (ask_time c2.input) c2 (λ start_time c3.
          ask_user (ask_time c3.input) c3 (λ end_time c4.
            show_reply_to (book_facility t facility_name day_of_week start_time end_time net' c4)
              parse_book_facility_response c4))))

  -- The details of the booking that the user asks for.
  unfoldable pub after_details :
      N → Typing S → (Bytes → Bytes → Typing S → Handled (Typing S)) → Handled (Typing S)
  after_details net c next = ask_user (ask_booking_id c.input) c (λ booking_id c1.
      show_reply (query_booking t booking_id net c1) parse_query_booking_response (next booking_id))

  unfoldable pub handle_query_booking : N → Typing S → Handled (Typing S)
  handle_query_booking net c = after_details net c (λ booking_id. done)

  unfoldable pub handle_update_booking : N → N → Typing S → Handled (Typing S)
  handle_update_booking net net' c = after_details net c (λ booking_id details c1.
      ask_user (ask_confirmation c1.input) c1 (λ confirmation c2.
        if_confirmed confirmation c2 (λ c3. ask_user (ask_offset c3.input) c3 (λ offset_minutes c4.
          show_reply_to (update_booking t booking_id offset_minutes details net' c4)
            parse_update_booking_response c4))))

  unfoldable pub handle_delete_booking : N → N → Typing S → Handled (Typing S)
  handle_delete_booking net net' c = after_details net c (λ booking_id details c1.
      ask_user (ask_confirmation c1.input) c1 (λ confirmation c2.
        if_confirmed confirmation c2 (λ c3.
          show_reply (delete_booking t booking_id details net' c3) parse_delete_booking_response
            done)))

  unfoldable pub handle_monitor_availability : N → N → L → Typing S → Handled (Typing S)
  handle_monitor_availability net net' listening c = after_names net c (λ facility_name c1.
      ask_user (ask_duration c1.input) c1 (λ duration_seconds c2.
        show_updates (monitor_availability t facility_name duration_seconds net' listening c2)))

  -- `prompt_rating` makes the text of the rating from the input.
  unfoldable pub handle_rate_facility :
      (Bytes → Asked Bytes) → N → N → Typing S → Handled (Typing S)
  handle_rate_facility prompt_rating net net' c = after_names net c (λ facility_name c1.
      ask_user (prompt_rating c1.input) c1 (λ rating c2.
        show_reply (rate_facility t facility_name rating net' c2) parse_rate_facility_response
          done))

  unfoldable pub handle_query_rating : N → N → Typing S → Handled (Typing S)
  handle_query_rating net net' c = after_names net c (λ facility_name c1.
      show_reply (query_rating t facility_name net' c1) parse_query_rating_response done)

  -- The message is read like the name of a facility.
  unfoldable pub handle_echo_message : N → Typing S → Handled (Typing S)
  handle_echo_message net c = ask_user (ask_facility_name c.input) c (λ message_data c1.
      ask_user (ask_confirmation c1.input) c1 (λ confirmation c2.
        if_confirmed confirmation c2
          (λ c3. show_reply (echo_message t message_data net c3) parse_echo_message_response done)))
