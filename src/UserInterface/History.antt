-- ===== src/UserInterface/History.antt =====
-- What a session sends: its requests, one after the other, each some times.
pub mod Menu
use sc4051_dist_system_proj.Prelude.{
  ℕ, zero, suc, ◌+◌, ◌≤◌, ◌≡◌, refl, sym, ap, ◌∙◌, subst, [], ◌∷◌, ◌++◌, List, Bytes, Bool, true,
  false, Option, none, some, length, replicate, map, All, if◌then◌else◌, append_assoc, append-nil,
  codes, arith,
}
use sc4051_dist_system_proj.Prelude.Int.{ℤ, pos}
use sc4051_dist_system_proj.Text.Numbers.{to_string}
use sc4051_dist_system_proj.RequestMessage.{
  RequestMessage, RequestType, read, write, update, delete_request, monitor, echo, request_message,
}
use sc4051_dist_system_proj.Client.{
  Client, Network, Reception, Outcome, returned, exited, null_dereference, increment, packet,
  send_with_retry,
}
use sc4051_dist_system_proj.Client.Attempts.{send_with_retry-Sent}
use sc4051_dist_system_proj.Client.Requests.{
  over_network, ask, ask_with, query_facility_names, query_availability, book_facility,
  query_booking, update_booking, delete_booking, monitor_availability, rate_facility, query_rating,
  echo_message, after_registration,
}
use sc4051_dist_system_proj.ResponseParser.Booking.{
  parse_query_booking_response, parse_delete_booking_response, parse_book_facility_response,
  parse_update_booking_response,
}
use sc4051_dist_system_proj.ResponseParser.Facility.{
  parse_query_facility_names_response, parse_rate_facility_response, parse_query_rating_response,
  parse_echo_message_response,
}
use sc4051_dist_system_proj.ResponseParser.Availability.{parse_query_availability_response}
use sc4051_dist_system_proj.UserInterface.Handlers.{
  Ending, finished, exits, throws, Handled, unless_error, show_reply, show_reply_to, done,
  after_names, show_updates, handle_query_facility_names, handle_query_availability,
  handle_book_facility, handle_query_booking, handle_update_booking, handle_delete_booking,
  handle_monitor_availability, handle_rate_facility, handle_query_rating, handle_echo_message,
  handle_exit,
}
use sc4051_dist_system_proj.UserInterface.Session.{
  Turn, Choice, facility_names, availability, booking, booking_details, booking_update,
  booking_deletion, monitoring, rating_entry, rating_query, echoing, leaving, invalid_choice,
  choice_of, handle_choice, handle_user_choice, next_turn, display_menu,
}

-- The requests in their order, with the number of their packets.
abbrev pub History : Type 0
History = List (RequestMessage × ℕ)

unfoldable pub packets_of : History → List Bytes
packets_of [] = []
packets_of ((m, times) ∷ history) = replicate times (packet m) ++ packets_of history

-- The identifiers count up from `first`, the next one is `last`, and no request has more than five
-- packets.
abbrev pub Consecutive : ℤ → History → ℤ → Type 0
Consecutive first [] last = last ≡ first
Consecutive first ((m, times) ∷ history) last =
    (m.request_id ≡ first) × (times ≤ 5) × Consecutive (increment first) history last

pub record Log (before after : Client) : Type 0 where
  pub history : History
  pub ids : Consecutive before.request_id history after.request_id
  pub packets : after.sent ≡ before.sent ++ packets_of history

pub Log-refl : (c : Client) → Log c c
unfolding packets_of
Log-refl c = record { history = []; ids = refl; packets = sym (append-nil c.sent) }

Consecutive-append :
    (first middle last : ℤ) (h k : History)
    → Consecutive first h middle
    → Consecutive middle k last
    → Consecutive first (h ++ k) last
Consecutive-append first middle last [] k p q = subst (λ z. Consecutive z k last) p q
Consecutive-append first middle last ((m, times) ∷ h) k p q =
    (p.0, p.1, Consecutive-append (increment first) middle last h k p.2 q)

packets_of-append : (h k : History) → packets_of (h ++ k) ≡ packets_of h ++ packets_of k
unfolding packets_of
packets_of-append [] k = refl
packets_of-append ((m, times) ∷ h) k =
    ap (λ l. replicate times (packet m) ++ l) (packets_of-append h k)
    ∙ sym (append_assoc (replicate times (packet m)) (packets_of h) (packets_of k))

pub Log-trans : (a b c : Client) → Log a b → Log b c → Log a c
Log-trans a b c p q = record {
  history = p.history ++ q.history;
  ids = Consecutive-append a.request_id b.request_id c.request_id p.history q.history p.ids q.ids;
  packets =
      q.packets
      ∙ ap (λ l. l ++ packets_of q.history) p.packets
      ∙ append_assoc a.sent (packets_of p.history) (packets_of q.history)
      ∙ ap (λ l. a.sent ++ l) (sym (packets_of-append p.history q.history));
}

pub ask-Log :
    (type : RequestType) (text : Bytes) (net : Network) (c : Client)
    → Log c (ask over_network type text net c).1
unfolding packets_of
ask-Log type text net c =
    let request = request_message type c.request_id text in
    let (times, sent, few, once) = send_with_retry-Sent request net c in
    record {
      history = (request, times) ∷ [];
      ids = (refl, few, sent.id_is);
      packets =
          sent.packets
          ∙ ap (λ l. c.sent ++ l) (sym (append-nil (replicate times (packet request))));
    }

-- The numbers from `first` on.
unfoldable pub numbers : ℕ → ℕ → List ℤ
numbers first zero = []
numbers first (suc count) = pos first ∷ numbers (suc first) count

abbrev pub ids_of : History → List ℤ
ids_of history = map (λ entry. entry.0.request_id) history

abbrev pub IsFew : RequestMessage × ℕ → Type 0
IsFew entry = entry.1 ≤ 5

pub Consecutive-numbers :
    (n : ℕ) (history : History) (last : ℤ)
    → Consecutive (pos n) history last
    → (ids_of history ≡ numbers n (length history))
      × (last ≡ pos (n + length history))
      × All IsFew history
unfolding numbers
Consecutive-numbers n [] last h = (refl, h ∙ ap pos (omega arith), tt)
Consecutive-numbers n ((m, times) ∷ history) last (here, few, rest) =
    let (ids, end, all_few) = Consecutive-numbers (suc n) history last rest in
    (
      ap (λ x. x ∷ ids_of history) here ∙ ap (λ l. pos n ∷ l) ids,
      end ∙ ap pos (omega arith),
      (few, all_few),
    )
