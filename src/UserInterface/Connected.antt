-- ===== src/UserInterface/Connected.antt =====
-- The menu of Client/src/UserInterface.cpp with the client on a socket of Client/src/Client.cpp.
pub mod Peers
pub mod Refines
use sc4051_dist_system_proj.Prelude.{List, Bytes, Option}
use sc4051_dist_system_proj.Prelude.Int.{ℤ}
use sc4051_dist_system_proj.RequestMessage.{RequestMessage}
use sc4051_dist_system_proj.Client.{Outcome}
use sc4051_dist_system_proj.Client.Requests.{Transport}
use sc4051_dist_system_proj.Socket.{System}
use sc4051_dist_system_proj.Client.Connection
use sc4051_dist_system_proj.Client.Connection.{Connection}
use sc4051_dist_system_proj.Client.Connection.Listening.{listen_for_monitoring_updates}

-- The members of the client, and the world of the system calls.
pub record Running (W : Type 0) : Type 0 where
  pub client : Connection
  pub world : W

abbrev pub running : {A W : Type 0} → A × Connection × W → A × Running W
running (a, c, w) = (a, record { client = c; world = w })

abbrev pub with_world : {A W : Type 0} → Connection → A × W → A × Running W
with_world c (a, w) = (a, record { client = c; world = w })

-- The world decides what the system calls do, so there is nothing to choose in a call.
abbrev pub on_socket : {W : Type 0} → System W → Transport Unit Unit (Running W)
on_socket os = record {
  next_id = λ r. r.client.request_id;
  send = λ request u r. running (Connection.send_with_retry os request r.client r.world);
  listen = λ duration_seconds u r.
      with_world r.client
        (listen_for_monitoring_updates os duration_seconds r.client.socket r.world);
}
