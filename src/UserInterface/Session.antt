-- ===== src/UserInterface/Session.antt =====
-- `displayMenu` and `handleUserChoice` of Client/src/UserInterface.cpp: a session of the menu on the
-- input of the user. Each turn has what the environment does.
use sc4051_dist_system_proj.Prelude.{ℕ, [], ◌∷◌, List, Bytes, codes, ◌==◌, if◌then◌else◌}
use sc4051_dist_system_proj.Prelude.Int.{ℤ, pos, negsuc}
use sc4051_dist_system_proj.Client.Requests.{Transport}
use sc4051_dist_system_proj.UserInterface.Console.{Typing, Asked, ask_choice}
use sc4051_dist_system_proj.UserInterface.Handlers.{
  finished, exits, waits, add_boxes, ask_user, is_undefined, throws, Handled,
  handle_query_facility_names, handle_query_availability, handle_book_facility,
  handle_query_booking, handle_update_booking, handle_delete_booking, handle_monitor_availability,
  handle_rate_facility, handle_query_rating, handle_echo_message, handle_exit,
}

-- What the environment does in a turn: in the first and in the second request of the handler, and
-- while a facility is monitored.
pub record Turn (N L : Type 0) : Type 0 where
  pub first : N
  pub second : N
  pub listening : L

-- The labels of the `switch`.
pub data Choice : Type 0 where
  facility_names availability booking booking_details booking_update booking_deletion : Choice
  monitoring rating_entry rating_query echoing leaving invalid_choice : Choice

unfoldable pub choice_of : ℕ → Choice
choice_of n =
    if n == 1
    then facility_names
    else if n == 2
    then availability
    else if n == 3
    then booking
    else if n == 4
    then booking_details
    else if n == 5
    then booking_update
    else if n == 6
    then booking_deletion
    else if n == 7
    then monitoring
    else if n == 8
    then rating_entry
    else if n == 9
    then rating_query
    else if n == 10
    then echoing
    else if n == 11
    then leaving
    else invalid_choice

abbrev pub choice_of_int : ℤ → Choice
choice_of_int (pos n) = choice_of n
choice_of_int (negsuc n) = invalid_choice

-- `Constants::MAIN_MENU`
abbrev pub main_menu : List Bytes
main_menu =
    codes "Facility Booking System"
    ∷ codes "1. Query Facility Names"
    ∷ codes "2. Query Facility Availability"
    ∷ codes "3. Book Facility"
    ∷ codes "4. Query Existing Booking"
    ∷ codes "5. Update Existing Booking"
    ∷ codes "6. Delete Existing Booking"
    ∷ codes "7. Monitor Facility Availability"
    ∷ codes "8. Rate Facility"
    ∷ codes "9. Query Facility Rating"
    ∷ codes "10. Echo Message"
    ∷ codes "11. Exit"
    ∷ []

-- The menu is shown before each turn. The loop goes on while the handlers return.
unfoldable pub next_turn : {S : Type 0} → Handled S → (S → Handled S) → Handled S
next_turn (finished boxes, c) next =
    let (ending, c') = next c in (add_boxes (main_menu ∷ boxes) ending, c')
next_turn (is_undefined boxes, c) next = (is_undefined (main_menu ∷ boxes), c)
next_turn (throws boxes, c) next = (throws (main_menu ∷ boxes), c)
next_turn (waits boxes, c) next = (waits (main_menu ∷ boxes), c)
next_turn (exits code boxes, c) next = (exits code (main_menu ∷ boxes), c)

-- `prompt_rating` makes the text of a rating from the input.
module _ {N L S : Type 0} (t : Transport N L (Typing S)) (prompt_rating : Bytes → Asked Bytes) where
  unfoldable pub handle_choice : Choice → Turn N L → Typing S → Handled (Typing S)
  handle_choice facility_names turn c = handle_query_facility_names t turn.first c
  handle_choice availability turn c = handle_query_availability t turn.first turn.second c
  handle_choice booking turn c = handle_book_facility t turn.first turn.second c
  handle_choice booking_details turn c = handle_query_booking t turn.first c
  handle_choice booking_update turn c = handle_update_booking t turn.first turn.second c
  handle_choice booking_deletion turn c = handle_delete_booking t turn.first turn.second c
  handle_choice monitoring turn c =
      handle_monitor_availability t turn.first turn.second turn.listening c
  handle_choice rating_entry turn c = handle_rate_facility t prompt_rating turn.first turn.second c
  handle_choice rating_query turn c = handle_query_rating t turn.first turn.second c
  handle_choice echoing turn c = handle_echo_message t turn.first c
  handle_choice leaving turn c = handle_exit c
  handle_choice invalid_choice turn c = (finished [], c)

  -- The body of the loop behind the menu.
  unfoldable pub handle_user_choice : Turn N L → Typing S → Handled (Typing S)
  handle_user_choice turn c =
      ask_user (ask_choice c.input) c (λ choice c'. handle_choice (choice_of_int choice) turn c')

  -- The loop of `displayMenu`, for as many rounds as there are turns.
  unfoldable pub display_menu : List (Turn N L) → Typing S → Handled (Typing S)
  display_menu [] c = (finished [], c)
  display_menu (turn ∷ turns) c = next_turn (handle_user_choice turn c) (display_menu turns)
