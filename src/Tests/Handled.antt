-- ===== src/Tests/Handled.antt =====
-- The theorem on the handlers at a concrete input.
use sc4051_dist_system_proj.Prelude.{◌≡◌, none, codes}
use sc4051_dist_system_proj.Client.Requests.{over_network}
use sc4051_dist_system_proj.Client.{Client}
use sc4051_dist_system_proj.UserInterface.Console.{Typing}
use sc4051_dist_system_proj.UserInterface.Handlers.{
  typed, handle_query_facility_names, handle_query_availability, handle_book_facility,
  handle_monitor_availability, handle_rate_facility, handle_query_rating,
}
use sc4051_dist_system_proj.UserInterface.Stops.{stopped, handlers-stop}
use sc4051_dist_system_proj.Tests.Samples.{no_rating, a_client, down, down-AreSilent}

abbrev typing_client : Typing Client
typing_client = record { client = a_client; input = codes "\nGym\n1,5\n" }

handlers-stop_example :
    (handle_query_facility_names (typed over_network) down typing_client
      ≡ stopped down typing_client)
    × (handle_query_availability (typed over_network) down down typing_client
        ≡ stopped down typing_client)
    × (handle_book_facility (typed over_network) down down typing_client
        ≡ stopped down typing_client)
    × (handle_monitor_availability (typed over_network) down down none typing_client
        ≡ stopped down typing_client)
    × (handle_rate_facility (typed over_network) no_rating down down typing_client
        ≡ stopped down typing_client)
    × (handle_query_rating (typed over_network) down down typing_client
        ≡ stopped down typing_client)
handlers-stop_example = handlers-stop down down typing_client no_rating none down-AreSilent
