-- ===== src/UserInterface/History/Menu.antt =====
-- The handlers and the menu of Client/src/UserInterface.cpp: the requests that they send.
use sc4051_dist_system_proj.Prelude.{
  Bool-cases, inl, inr, ℕ, ◌+◌, ◌≡◌, subst, [], ◌∷◌, ◌++◌, List, Bytes, Bool, true, false, Option,
  none, some, length, All, codes,
}
use sc4051_dist_system_proj.Prelude.Int.{ℤ, pos}
use sc4051_dist_system_proj.Text.Numbers.{to_string}
use sc4051_dist_system_proj.RequestMessage.{
  RequestType, read, write, update, delete_request, monitor, echo,
}
use sc4051_dist_system_proj.Text.{found_at_start}
use sc4051_dist_system_proj.ResponseParser.{status_success}
use sc4051_dist_system_proj.Client.{
  Client, Network, Reception, Outcome, returned, exited, null_dereference,
}
use sc4051_dist_system_proj.Client.Requests.{
  over_network, ask, ask_with, query_facility_names, query_availability, book_facility,
  query_booking, update_booking, delete_booking, after_registration, monitor_availability,
  rate_facility, query_rating, echo_message,
}
use sc4051_dist_system_proj.ResponseParser.Booking.{parse_query_booking_response}
use sc4051_dist_system_proj.ResponseParser.Facility.{parse_query_facility_names_response}
use sc4051_dist_system_proj.UserInterface.Console.{
  Typing, Asked, answered, asks_on, uncaught, undefined, ask_choice, ask_facility_name,
  ask_days_of_week, ask_day_of_week, ask_time, ask_booking_id, ask_offset, ask_confirmation,
  ask_duration,
}
use sc4051_dist_system_proj.UserInterface.Handlers.{
  typed, ask_user, if_confirmed, after_details, finished, exits, is_undefined, throws, waits,
  Handled, unless_error, show_reply, show_reply_to, done, after_names, show_updates,
  handle_query_facility_names, handle_query_availability, handle_book_facility,
  handle_query_booking, handle_update_booking, handle_delete_booking, handle_monitor_availability,
  handle_rate_facility, handle_query_rating, handle_echo_message, handle_exit,
}
use sc4051_dist_system_proj.UserInterface.Session.{
  Turn, Choice, facility_names, availability, booking, booking_details, booking_update,
  booking_deletion, monitoring, rating_entry, rating_query, echoing, leaving, invalid_choice,
  choice_of_int, handle_choice, handle_user_choice, next_turn, display_menu,
}
use sc4051_dist_system_proj.UserInterface.History.{
  History, packets_of, Consecutive, Log, Log-refl, Log-trans, ask-Log, numbers, ids_of, IsFew,
  Consecutive-numbers,
}

-- The history of the client between two states of the program.
abbrev Logs : Typing Client → Typing Client → Type 0
Logs before after = Log before.client after.client

unless_error-Log :
    (is_error : Bool) (box : List Bytes) (more : Handled (Typing Client)) (a c : Typing Client)
    → Logs a c
    → Logs c more.1
    → Logs a (unless_error is_error box more c).1
unfolding unless_error
unless_error-Log true box more a c p q = p
unless_error-Log false box more a c p q = Log-trans a.client c.client more.1.client p q

show_reply-Log :
    (reply : Outcome Bytes × Typing Client) (parse : Bytes → List Bytes)
    (next : Bytes → Typing Client → Handled (Typing Client)) (a : Typing Client)
    → Logs a reply.1
    → ((text : Bytes) (c : Typing Client) → Logs c (next text c).1)
    → Logs a (show_reply reply parse next).1
unfolding show_reply
show_reply-Log (returned text, c) parse next a p q =
    unless_error-Log _ _ (next text c) a c p (q text c)
show_reply-Log (exited, c) parse next a p q = p
show_reply-Log (null_dereference, c) parse next a p q = p

done-Log : (text : Bytes) (c : Typing Client) → Logs c (done text c).1
done-Log text c = Log-refl c.client

-- A reply that is shown at the end of a handler.
asked-Log :
    (type : RequestType) (text : Bytes) (net : Network) (c : Typing Client)
    (parse : Bytes → List Bytes)
    → Logs c (show_reply (ask (typed over_network) type text net c) parse done).1
asked-Log type text net c parse =
    show_reply-Log (ask (typed over_network) type text net c) parse done c
      (ask-Log type text net c.client) done-Log

ask_with-Log :
    (type : RequestType) (text : Option Bytes) (net : Network) (c : Typing Client)
    (parse : Bytes → List Bytes)
    → Logs c (show_reply_to (ask_with (typed over_network) type text net c) parse c).1
unfolding show_reply_to
ask_with-Log type none net c parse = Log-refl c.client
ask_with-Log type (some text) net c parse = asked-Log type text net c parse

-- A prompt sends nothing.
ask_user-Log :
    {A : Type 0} (asked : Asked A) (c : Typing Client)
    (next : A → Typing Client → Handled (Typing Client))
    → ((a : A) (c' : Typing Client) → Logs c' (next a c').1)
    → Logs c (ask_user asked c next).1
unfolding ask_user
ask_user-Log (answered a rest) c next h = h a (record c { input = rest })
ask_user-Log asks_on c next h = Log-refl c.client
ask_user-Log uncaught c next h = Log-refl c.client
ask_user-Log undefined c next h = Log-refl c.client

after_names-Log :
    (net : Network) (c : Typing Client) (next : Bytes → Typing Client → Handled (Typing Client))
    → ((name : Bytes) (c' : Typing Client) → Logs c' (next name c').1)
    → Logs c (after_names (typed over_network) net c next).1
unfolding after_names query_facility_names
after_names-Log net c next h =
    show_reply-Log (ask (typed over_network) read (codes "facility,ALL") net c)
      parse_query_facility_names_response (λ text c'. ask_user (ask_facility_name c'.input) c' next)
      c (ask-Log read (codes "facility,ALL") net c.client)
      (λ text c'. ask_user-Log (ask_facility_name c'.input) c' next h)

after_details-Log :
    (net : Network) (c : Typing Client)
    (next : Bytes → Bytes → Typing Client → Handled (Typing Client))
    → ((booking_id details : Bytes) (c' : Typing Client) → Logs c' (next booking_id details c').1)
    → Logs c (after_details (typed over_network) net c next).1
unfolding after_details query_booking
after_details-Log net c next h = ask_user-Log (ask_booking_id c.input) c _ (λ booking_id c'.
    show_reply-Log (ask (typed over_network) read (codes "booking," ++ booking_id) net c')
      parse_query_booking_response (next booking_id) c'
      (ask-Log read (codes "booking," ++ booking_id) net c'.client) (h booking_id))

confirmed-Log :
    (confirmation : Bool) (c : Typing Client) (next : Typing Client → Handled (Typing Client))
    → Logs c (next c).1
    → Logs c (if_confirmed confirmation c next).1
unfolding if_confirmed
confirmed-Log true c next h = h
confirmed-Log false c next h = Log-refl c.client

-- The handler goes on when the user confirms.
if_agreed-Log :
    (c : Typing Client) (next : Typing Client → Handled (Typing Client))
    → ((c' : Typing Client) → Logs c' (next c').1)
    → Logs c
        (ask_user
          (ask_confirmation c.input)
          c
          (λ confirmation c'. if_confirmed confirmation c' next)).1
if_agreed-Log c next h =
    ask_user-Log (ask_confirmation c.input) c (λ confirmation c'. if_confirmed confirmation c' next)
      (λ confirmation c'. confirmed-Log confirmation c' next (h c'))

show_updates-Log :
    (a : Typing Client) (o : Outcome (Option (List (Bytes × Bool))) × Typing Client)
    → Logs a o.1
    → Logs a (show_updates o).1
show_updates-Log a (returned none, c) p = p
show_updates-Log a (returned (some calls), c) p = p
show_updates-Log a (exited, c) p = p
show_updates-Log a (null_dereference, c) p = p

after_registration-Log :
    (a : Typing Client) (duration : ℤ) (listening : Option (List Reception))
    (reply : Outcome Bytes × Typing Client)
    → Logs a reply.1
    → Logs a (after_registration (typed over_network) duration listening reply).1
unfolding after_registration
after_registration-Log a duration listening (returned response, c) p =
    elim (Bool-cases (found_at_start status_success response)) [
      | inl found ↦ rw found p
      | inr other ↦ rw other p
    ]
after_registration-Log a duration listening (exited, c) p = p
after_registration-Log a duration listening (null_dereference, c) p = p

exit-Log : (c : Typing Client) → Logs c (handle_exit c).1
unfolding handle_exit
exit-Log c = if_agreed-Log c _ (λ c'. Log-refl c'.client)

module _ (prompt_rating : Bytes → Asked Bytes) where
  handle_choice-Log :
      (choice : Choice) (t : Turn Network (Option (List Reception))) (c : Typing Client)
      → Logs c (handle_choice (typed over_network) prompt_rating choice t c).1
  unfolding handle_choice handle_query_facility_names handle_query_availability handle_book_facility
      handle_query_booking handle_update_booking handle_delete_booking handle_monitor_availability
      handle_rate_facility handle_query_rating handle_echo_message query_facility_names
      query_availability book_facility update_booking delete_booking monitor_availability
      rate_facility query_rating echo_message
  handle_choice-Log facility_names t c =
      asked-Log read (codes "facility,ALL") t.first c parse_query_facility_names_response
  handle_choice-Log availability t c = after_names-Log t.first c _ (λ name c1.
      ask_user-Log (ask_days_of_week c1.input) c1 _ (λ days c2. asked-Log read _ t.second c2 _))
  handle_choice-Log booking t c = after_names-Log t.first c _ (λ name c1.
      ask_user-Log (ask_day_of_week c1.input) c1 _ (λ day c2.
        ask_user-Log (ask_time c2.input) c2 _ (λ start_time c3.
          ask_user-Log (ask_time c3.input) c3 _
            (λ end_time c4. ask_with-Log write _ t.second c4 _))))
  handle_choice-Log booking_details t c =
      after_details-Log t.first c _ (λ booking_id details c'. done-Log details c')
  handle_choice-Log booking_update t c = after_details-Log t.first c _ (λ booking_id details c1.
      if_agreed-Log c1 _ (λ c2.
        ask_user-Log (ask_offset c2.input) c2 _
          (λ offset_minutes c3. ask_with-Log update _ t.second c3 _)))
  handle_choice-Log booking_deletion t c =
      after_details-Log t.first c _ (λ booking_id details c1.
        if_agreed-Log c1 _ (λ c2. asked-Log delete_request _ t.second c2 _))
  handle_choice-Log monitoring t c = after_names-Log t.first c _ (λ name c1.
      ask_user-Log (ask_duration c1.input) c1 _ (λ duration c2. show_updates-Log c2 _ (
        after_registration-Log c2 duration t.listening
          (ask (typed over_network) monitor
            (codes "register," ++ name ++ codes "," ++ to_string duration) t.second c2)
          (ask-Log monitor _ t.second c2.client))))
  handle_choice-Log rating_entry t c = after_names-Log t.first c _ (λ name c1.
      ask_user-Log (prompt_rating c1.input) c1 _ (λ rating c2. asked-Log update _ t.second c2 _))
  handle_choice-Log rating_query t c =
      after_names-Log t.first c _ (λ name c'. asked-Log read _ t.second c' _)
  handle_choice-Log echoing t c =
      ask_user-Log (ask_facility_name c.input) c _
        (λ message_data c1. if_agreed-Log c1 _ (λ c2. asked-Log echo _ t.first c2 _))
  handle_choice-Log leaving t c = exit-Log c
  handle_choice-Log invalid_choice t c = Log-refl c.client

  next_turn-Log :
      (turn : Handled (Typing Client)) (next : Typing Client → Handled (Typing Client))
      (a : Typing Client)
      → Logs a turn.1
      → ((c : Typing Client) → Logs c (next c).1)
      → Logs a (next_turn turn next).1
  unfolding next_turn
  next_turn-Log (finished boxes, c) next a p h =
      Log-trans a.client c.client (next c).1.client p (h c)
  next_turn-Log (exits code boxes, c) next a p h = p
  next_turn-Log (is_undefined boxes, c) next a p h = p
  next_turn-Log (throws boxes, c) next a p h = p
  next_turn-Log (waits boxes, c) next a p h = p

  display_menu-Log :
      (turns : List (Turn Network (Option (List Reception)))) (c : Typing Client)
      → Logs c (display_menu (typed over_network) prompt_rating turns c).1
  unfolding display_menu handle_user_choice
  display_menu-Log [] c = Log-refl c.client
  display_menu-Log (t ∷ turns) c =
      next_turn-Log (handle_user_choice (typed over_network) prompt_rating t c)
        (display_menu (typed over_network) prompt_rating turns) c
        (ask_user-Log (ask_choice c.input) c _
          (λ choice c'. handle_choice-Log (choice_of_int choice) t c'))
        (display_menu-Log turns)

  -- What a session of the menu sends is a sequence of requests, each in at most five packets that
  -- are all equal, one request after the other. Where the counter starts at n, the identifiers of
  -- the requests are n, n + 1, n + 2 and so on, and the counter ends behind the last of them. This
  -- holds for every input of the user and every network, and also where the session ends by an exit,
  -- an exception or undefined behaviour.
  pub display_menu-numbered :
      (turns : List (Turn Network (Option (List Reception)))) (n : ℕ) (c : Typing Client)
      → c.client.request_id ≡ pos n
      → (history : History) × ((display_menu
            (typed over_network)
            prompt_rating
            turns
            c).1.client.sent
          ≡ c.client.sent ++ packets_of history)
        × (ids_of history ≡ numbers n (length history))
        × ((display_menu (typed over_network) prompt_rating turns c).1.client.request_id
            ≡ pos (n + length history))
        × All IsFew history
  display_menu-numbered turns n c h =
      let log = display_menu-Log turns c in
      let after = (display_menu (typed over_network) prompt_rating turns c).1.client.request_id in
      let (ids, end, few) =
        Consecutive-numbers n log.history after
          (subst (λ z. Consecutive z log.history after) h log.ids) in
      (log.history, log.packets, ids, end, few)
