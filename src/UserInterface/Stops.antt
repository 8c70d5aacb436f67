-- ===== src/UserInterface/Stops.antt =====
-- What the user sees when the server does not answer.
use sc4051_dist_system_proj.Prelude.{◌≡◌, refl, [], ◌∷◌, List, Bytes, Option, codes, arith}
use sc4051_dist_system_proj.RequestMessage.{RequestMessage, read, request_message}
use sc4051_dist_system_proj.Client.{Client, Network, Reception, Outcome, returned, failure_text}
use sc4051_dist_system_proj.Client.Answers.{AreSilent, send_with_retry-silent}
use sc4051_dist_system_proj.Client.Requests.{over_network, query_facility_names}
use sc4051_dist_system_proj.ResponseParser.Facility.{parse_query_facility_names_response}
use sc4051_dist_system_proj.ResponseParser.Errors.{error_replies}
use sc4051_dist_system_proj.UserInterface.{is_error_response}
use sc4051_dist_system_proj.UserInterface.Console.{Typing, Asked}
use sc4051_dist_system_proj.UserInterface.Handlers.{
  typed, Handled, finished, show_reply, unless_error, after_names, handle_query_facility_names,
  handle_query_availability, handle_book_facility, handle_monitor_availability,
  handle_rate_facility, handle_query_rating,
}

abbrev pub names_request : Client → RequestMessage
names_request c = request_message read c.request_id (codes "facility,ALL")

abbrev pub failure_box : List Bytes
failure_box = codes "Error" ∷ codes "Request failed after 5 attempts." ∷ []

-- The handler shows the failure, and returns with the client as the query of the names leaves it; the
-- input is as before.
abbrev pub stopped : Network → Typing Client → Handled (Typing Client)
stopped net c = (finished (failure_box ∷ []), (query_facility_names (typed over_network) net c).1)

failure_parsed : parse_query_facility_names_response failure_text ≡ failure_box
failure_parsed = (error_replies (codes "Request failed after 5 attempts.") [] (omega arith)).0

show_failure :
    {S : Type 0} (reply : Outcome Bytes × S) (next : Bytes → S → Handled S)
    → reply.0 ≡ returned failure_text
    → show_reply reply parse_query_facility_names_response next
      ≡ (finished (failure_box ∷ []), reply.1)
unfolding show_reply unless_error is_error_response
show_failure (outcome, c) next h = rw (h, failure_parsed) refl

names_fail :
    (net : Network) (c : Typing Client)
    → AreSilent (names_request c.client) net 0 5
    → (query_facility_names (typed over_network) net c).0 ≡ returned failure_text
unfolding query_facility_names
names_fail net c quiet = send_with_retry-silent (names_request c.client) net c.client quiet

after_names-stops :
    (net : Network) (c : Typing Client) (next : Bytes → Typing Client → Handled (Typing Client))
    → AreSilent (names_request c.client) net 0 5
    → after_names (typed over_network) net c next ≡ stopped net c
unfolding after_names
after_names-stops net c next quiet =
    show_failure (query_facility_names (typed over_network) net c) _ (names_fail net c quiet)

-- When all attempts at the query of the names send and get no reply, each of the six handlers that
-- begin with it shows the failure alone, makes no other request, and asks the user for nothing.
pub handlers-stop :
    (net net' : Network) (c : Typing Client) (prompt_rating : Bytes → Asked Bytes)
    (receptions : Option (List Reception))
    → AreSilent (names_request c.client) net 0 5
    → (handle_query_facility_names (typed over_network) net c ≡ stopped net c)
      × (handle_query_availability (typed over_network) net net' c ≡ stopped net c)
      × (handle_book_facility (typed over_network) net net' c ≡ stopped net c)
      × (handle_monitor_availability (typed over_network) net net' receptions c ≡ stopped net c)
      × (handle_rate_facility (typed over_network) prompt_rating net net' c ≡ stopped net c)
      × (handle_query_rating (typed over_network) net net' c ≡ stopped net c)
unfolding handle_query_facility_names handle_query_availability handle_book_facility
    handle_monitor_availability handle_rate_facility handle_query_rating
handlers-stop net net' c prompt_rating receptions quiet = (
  show_failure (query_facility_names (typed over_network) net c) _ (names_fail net c quiet),
  after_names-stops net c _ quiet,
  after_names-stops net c _ quiet,
  after_names-stops net c _ quiet,
  after_names-stops net c _ quiet,
  after_names-stops net c _ quiet,
)
