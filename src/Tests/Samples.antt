-- ===== src/Tests/Samples.antt =====
-- A request, its reply, and two networks.
use sc4051_dist_system_proj.Prelude.{zero, suc, refl, [], Bytes, true, codes, arith}
use sc4051_dist_system_proj.Prelude.Int.{pos}
use sc4051_dist_system_proj.RequestMessage.{RequestMessage, read, request_message}
use sc4051_dist_system_proj.RequestMessage.RoundTrip.{IsMessage}
use sc4051_dist_system_proj.Client.{Client, Network, failed, datagram, receive_response}
use sc4051_dist_system_proj.Client.Answers.{IsSilent, AreSilent}
use sc4051_dist_system_proj.UserInterface.Console.{Asked, asks_on}

abbrev pub a_request : RequestMessage
a_request = request_message read (pos 7) (codes "facility,ALL")

pub a_request-IsMessage : IsMessage a_request
a_request-IsMessage = record {
  type_range = omega arith;
  id_range = omega arith;
  short_data = omega arith;
}

abbrev pub a_reply : RequestMessage
a_reply = request_message read (pos 7) (codes "status:SUCCESS")

pub a_reply-IsMessage : IsMessage a_reply
a_reply-IsMessage = record {
  type_range = omega arith;
  id_range = omega arith;
  short_data = omega arith;
}

abbrev pub a_client : Client
a_client = record { request_id = pos 7; sent = [] }

-- Every attempt times out.
abbrev pub down : Network
down n = record { send_succeeds = true; reception = failed }

-- The first attempt times out, the next ones get these bytes.
abbrev pub second_try : Bytes → Network
second_try bytes zero = record { send_succeeds = true; reception = failed }
second_try bytes (suc n) = record { send_succeeds = true; reception = datagram bytes }

timeout_IsSilent : IsSilent a_request (down 0)
unfolding receive_response
timeout_IsSilent = record { sends = refl; no_reply = refl }

pub down-AreSilent : AreSilent a_request down 0 5
down-AreSilent j h = timeout_IsSilent

pub second_try-AreSilent : (bytes : Bytes) → AreSilent a_request (second_try bytes) 0 1
second_try-AreSilent bytes zero h = timeout_IsSilent
second_try-AreSilent bytes (suc j) h = absurd (omega arith)

-- A user who never enters a rating.
abbrev pub no_rating : Bytes → Asked Bytes
no_rating input = asks_on
