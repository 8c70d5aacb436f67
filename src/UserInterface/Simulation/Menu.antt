-- ===== src/UserInterface/Simulation/Menu.antt =====
-- The handlers and the menu, for two clients of which one simulates the other.
use sc4051_dist_system_proj.Prelude.{
  ℕ, ◌≡◌, refl, subst, ap, [], ◌∷◌, List, Bytes, length, codes, suc, ◌++◌,
}
use sc4051_dist_system_proj.Prelude.Int.{pos}
use sc4051_dist_system_proj.RequestMessage.{read, write, update, delete_request, echo}
use sc4051_dist_system_proj.Client.Requests.{
  Transport, query_facility_names, query_availability, book_facility, query_booking, update_booking,
  delete_booking, monitor_availability, rate_facility, query_rating, echo_message,
}
use sc4051_dist_system_proj.ResponseParser.Facility.{parse_query_facility_names_response}
use sc4051_dist_system_proj.ResponseParser.Booking.{parse_query_booking_response}
use sc4051_dist_system_proj.UserInterface.Handlers.{
  add_boxes, if_confirmed, show_reply, done, Handled, Ending, finished, exits, is_undefined, throws,
  waits, typed, ask_user, after_details, after_names, handle_query_facility_names,
  handle_query_availability, handle_book_facility, handle_query_booking, handle_update_booking,
  handle_delete_booking, handle_monitor_availability, handle_rate_facility, handle_query_rating,
  handle_echo_message, handle_exit,
}
use sc4051_dist_system_proj.UserInterface.Session.{
  Turn, Choice, facility_names, availability, booking, booking_details, booking_update,
  booking_deletion, monitoring, rating_entry, rating_query, echoing, leaving, invalid_choice,
  choice_of_int, handle_choice, handle_user_choice, next_turn, display_menu, main_menu,
}
use sc4051_dist_system_proj.UserInterface.Simulation.{Matched, Simulates}
use sc4051_dist_system_proj.UserInterface.Simulation.Replies.{
  Somehow, asked-Matched, last_asked-Matched, ask_with-Matched, monitored-Matched,
}
use sc4051_dist_system_proj.UserInterface.Simulation.Typed.{
  Alike, typed-Simulates, ask_user-Matched, if_agreed-Matched,
}
use sc4051_dist_system_proj.UserInterface.Console.{
  Typing, Asked, ask_choice, ask_facility_name, ask_days_of_week, ask_day_of_week, ask_time,
  ask_booking_id, ask_offset, ask_confirmation, ask_duration,
}

module _ {M K S N L T : Type 0} {t : Transport M K S} {u : Transport N L T} {R : S → T → Type 0}
    (sim : Simulates t u R) where
  typing : Simulates (typed t) (typed u) (Alike R)
  typing = typed-Simulates sim

  some_turn : Turn N L
  some_turn = record {
    first = sim.some_network;
    second = sim.some_network;
    listening = sim.some_listening;
  }

  -- The prompts between the first request and the second one.
  between :
      {A : Type 0} (ask : Bytes → Asked A) (x : Typing S) (a : Typing T)
      (next : A → Typing S → Handled (Typing S)) (next' : N → L → A → Typing T → Handled (Typing T))
      → Alike R x a
      → ((v : A) (x' : Typing S) (a' : Typing T)
          → Alike R x' a'
          → Somehow typing (λ net l. Matched (Alike R) (next v x') (next' net l v a')))
      → Somehow typing (λ net l.
        Matched (Alike R) (ask_user (ask x.input) x next) (ask_user (ask a.input) a (next' net l)))
  between ask x a next next' r cont =
      ask_user-Matched R (sim.some_network, sim.some_listening) ask x a next
        (λ env. next' env.0 env.1) r cont

  agreed_between :
      (x : Typing S) (a : Typing T) (next : Typing S → Handled (Typing S))
      (next' : N → L → Typing T → Handled (Typing T))
      → Alike R x a
      → ((x' : Typing S) (a' : Typing T)
          → Alike R x' a'
          → Somehow typing (λ net l. Matched (Alike R) (next x') (next' net l a')))
      → Somehow typing (λ net l.
        Matched
          (Alike R)
          (ask_user
            (ask_confirmation x.input)
            x
            (λ confirmation x'. if_confirmed confirmation x' next))
          (ask_user
            (ask_confirmation a.input)
            a
            (λ confirmation a'. if_confirmed confirmation a' (next' net l))))
  agreed_between x a next next' r cont =
      if_agreed-Matched R (sim.some_network, sim.some_listening) x a next (λ env. next' env.0 env.1)
        r cont

  after_names-Matched :
      (now : M) (x : Typing S) (a : Typing T) (next : Bytes → Typing S → Handled (Typing S))
      (next' : N → L → Bytes → Typing T → Handled (Typing T))
      → Alike R x a
      → ((name : Bytes) (x' : Typing S) (a' : Typing T)
          → Alike R x' a'
          → Somehow typing (λ net l. Matched (Alike R) (next name x') (next' net l name a')))
      → (turn' : Turn N L) × Matched
          (Alike R)
          (after_names (typed t) now x next)
          (after_names (typed u) turn'.first a (next' turn'.second turn'.listening))
  unfolding after_names query_facility_names
  after_names-Matched now x a next next' r cont =
      let (first, ((net, l), m)) =
        asked-Matched typing read (codes "facility,ALL") now x a parse_query_facility_names_response
          (λ reply x'. ask_user (ask_facility_name x'.input) x' next)
          (λ net l reply a'. ask_user (ask_facility_name a'.input) a' (next' net l)) r
          (λ reply x' a' r'. between ask_facility_name x' a' next next' r' cont) in
      (record { first = first; second = net; listening = l }, m)

  after_details-Matched :
      (now : M) (x : Typing S) (a : Typing T) (next : Bytes → Bytes → Typing S → Handled (Typing S))
      (next' : N → L → Bytes → Bytes → Typing T → Handled (Typing T))
      → Alike R x a
      → ((booking_id details : Bytes) (x' : Typing S) (a' : Typing T)
          → Alike R x' a'
          → Somehow typing (λ net l.
            Matched (Alike R) (next booking_id details x') (next' net l booking_id details a')))
      → (turn' : Turn N L) × Matched
          (Alike R)
          (after_details (typed t) now x next)
          (after_details (typed u) turn'.first a (next' turn'.second turn'.listening))
  unfolding after_details query_booking
  after_details-Matched now x a next next' r cont =
      ask_user-Matched R some_turn ask_booking_id x a _
        (λ turn' booking_id a'.
          show_reply (query_booking (typed u) booking_id turn'.first a')
            parse_query_booking_response (next' turn'.second turn'.listening booking_id))
        r
        (λ booking_id x' a' r'.
          let (first, ((net, l), m)) =
            asked-Matched typing read (codes "booking," ++ booking_id) now x' a'
              parse_query_booking_response (next booking_id) (λ net l. next' net l booking_id) r'
              (cont booking_id) in
          (record { first = first; second = net; listening = l }, m))

  module _ (prompt_rating : Bytes → Asked Bytes) where
    handle_choice-Matched :
        (choice : Choice) (turn : Turn M K) (x : Typing S) (a : Typing T)
        → Alike R x a
        → (turn' : Turn N L) × Matched
            (Alike R)
            (handle_choice (typed t) prompt_rating choice turn x)
            (handle_choice (typed u) prompt_rating choice turn' a)
    unfolding handle_choice handle_query_facility_names handle_query_availability
        handle_book_facility handle_query_booking handle_update_booking handle_delete_booking
        handle_monitor_availability handle_rate_facility handle_query_rating handle_echo_message
        handle_exit query_facility_names query_availability book_facility update_booking
        delete_booking monitor_availability rate_facility query_rating echo_message
    handle_choice-Matched facility_names turn x a r =
        let ((first, l), m) = last_asked-Matched typing read _ turn.first x a _ r in
        (record { first = first; second = first; listening = l }, m)
    handle_choice-Matched availability turn x a r =
        after_names-Matched turn.first x a _ _ r (λ name x1 a1 r1.
          between ask_days_of_week x1 a1 _ _ r1
            (λ days x2 a2 r2. last_asked-Matched typing read _ turn.second x2 a2 _ r2))
    handle_choice-Matched booking turn x a r =
        after_names-Matched turn.first x a _ _ r (λ name x1 a1 r1.
          between ask_day_of_week x1 a1 _ _ r1 (λ day x2 a2 r2.
            between ask_time x2 a2 _ _ r2 (λ start_time x3 a3 r3.
              between ask_time x3 a3 _ _ r3
                (λ end_time x4 a4 r4. ask_with-Matched typing write _ turn.second x4 a4 _ r4))))
    handle_choice-Matched booking_details turn x a r =
        after_details-Matched turn.first x a _ (λ net l booking_id. done) r
          (λ booking_id details x' a' r'. ((sim.some_network, sim.some_listening), (refl, r')))
    handle_choice-Matched booking_update turn x a r =
        after_details-Matched turn.first x a _ _ r (λ booking_id details x1 a1 r1.
          agreed_between x1 a1 _ _ r1 (λ x2 a2 r2.
            between ask_offset x2 a2 _ _ r2
              (λ offset_minutes x3 a3 r3. ask_with-Matched typing update _ turn.second x3 a3 _ r3)))
    handle_choice-Matched booking_deletion turn x a r =
        after_details-Matched turn.first x a _ _ r (λ booking_id details x1 a1 r1.
          agreed_between x1 a1 _ _ r1
            (λ x2 a2 r2. last_asked-Matched typing delete_request _ turn.second x2 a2 _ r2))
    handle_choice-Matched monitoring turn x a r =
        after_names-Matched turn.first x a _ _ r (λ name x1 a1 r1.
          between ask_duration x1 a1 _ _ r1 (λ duration x2 a2 r2.
            monitored-Matched typing _ duration turn.second turn.listening x2 a2 r2))
    handle_choice-Matched rating_entry turn x a r =
        after_names-Matched turn.first x a _ _ r (λ name x1 a1 r1.
          between prompt_rating x1 a1 _ _ r1
            (λ rating x2 a2 r2. last_asked-Matched typing update _ turn.second x2 a2 _ r2))
    handle_choice-Matched rating_query turn x a r =
        after_names-Matched turn.first x a _ _ r
          (λ name x1 a1 r1. last_asked-Matched typing read _ turn.second x1 a1 _ r1)
    handle_choice-Matched echoing turn x a r =
        ask_user-Matched R some_turn ask_facility_name x a _ _ r (λ message_data x1 a1 r1.
          if_agreed-Matched R some_turn x1 a1 _ _ r1 (λ x2 a2 r2.
            let ((first, l), m) = last_asked-Matched typing echo _ turn.first x2 a2 _ r2 in
            (record { first = first; second = first; listening = l }, m)))
    handle_choice-Matched leaving turn x a r =
        if_agreed-Matched R some_turn x a _ (λ turn' a'. (exits (pos 0) [], a')) r
          (λ x' a' r'. (some_turn, (refl, r')))
    handle_choice-Matched invalid_choice turn x a r = (some_turn, (refl, r))

    handle_user_choice-Matched :
        (turn : Turn M K) (x : Typing S) (a : Typing T)
        → Alike R x a
        → (turn' : Turn N L) × Matched
            (Alike R)
            (handle_user_choice (typed t) prompt_rating turn x)
            (handle_user_choice (typed u) prompt_rating turn' a)
    unfolding handle_user_choice
    handle_user_choice-Matched turn x a r =
        ask_user-Matched R some_turn ask_choice x a _
          (λ turn' choice. handle_choice (typed u) prompt_rating (choice_of_int choice) turn') r
          (λ choice. handle_choice-Matched (choice_of_int choice) turn)

    next_turn-Matched :
        (ending : Ending) (x : Typing S) (a : Typing T) (next : Typing S → Handled (Typing S))
        (next' : List (Turn N L) → Typing T → Handled (Typing T)) (rounds : ℕ)
        → Alike R x a
        → ((turns : List (Turn N L)) × (length turns ≡ rounds)
            × Matched (Alike R) (next x) (next' turns a))
        → (turns : List (Turn N L)) × (length turns ≡ rounds)
          × Matched (Alike R) (next_turn (ending, x) next) (next_turn (ending, a) (next' turns))
    unfolding next_turn
    next_turn-Matched (finished boxes) x a next next' rounds r (turns, same, m) =
        (turns, same, (ap (add_boxes (main_menu ∷ boxes)) m.0, m.1))
    next_turn-Matched (exits code boxes) x a next next' rounds r (turns, same, m) =
        (turns, same, (refl, r))
    next_turn-Matched (is_undefined boxes) x a next next' rounds r (turns, same, m) =
        (turns, same, (refl, r))
    next_turn-Matched (throws boxes) x a next next' rounds r (turns, same, m) =
        (turns, same, (refl, r))
    next_turn-Matched (waits boxes) x a next next' rounds r (turns, same, m) =
        (turns, same, (refl, r))

    -- A session of the one client, from states that agree, with the same input: in some environment,
    -- the other client has a session of as many turns that shows the same boxes and ends in the same
    -- way, and the states agree at the end.
    pub display_menu-Matched :
        (turns : List (Turn M K)) (x : Typing S) (a : Typing T)
        → Alike R x a
        → (turns' : List (Turn N L)) × (length turns' ≡ length turns)
          × Matched
              (Alike R)
              (display_menu (typed t) prompt_rating turns x)
              (display_menu (typed u) prompt_rating turns' a)
    unfolding display_menu
    display_menu-Matched [] x a r = ([], refl, (refl, r))
    display_menu-Matched (turn ∷ turns) x a r =
        let (turn', (same, r')) = handle_user_choice-Matched turn x a r in
        let p = handle_user_choice (typed t) prompt_rating turn x in
        let q = handle_user_choice (typed u) prompt_rating turn' a in
        let later = display_menu-Matched turns p.1 q.1 r' in
        let (turns', rounds, m) =
          next_turn-Matched p.0 p.1 q.1 (display_menu (typed t) prompt_rating turns)
            (display_menu (typed u) prompt_rating) (length turns) r' later in
        (
          turn' ∷ turns',
          ap suc rounds,
          subst
              (λ o.
                Matched (Alike R) (next_turn p (display_menu (typed t) prompt_rating turns))
                  (next_turn (o, q.1) (display_menu (typed u) prompt_rating turns')))
              same m,
        )
