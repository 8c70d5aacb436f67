-- ===== src/UserInterface/Connected/Refines.antt =====
-- A session on a socket sends what a session over some network sends.
use sc4051_dist_system_proj.Prelude.{
  ℕ, ◌+◌, ◌≡◌, refl, ap, ◌∙◌, [], List, Bytes, false, Option, none, map, length, All,
}
use sc4051_dist_system_proj.Prelude.Int.{pos}
use sc4051_dist_system_proj.Client.{Client, Network, Reception, failed}
use sc4051_dist_system_proj.Client.Requests.{over_network}
use sc4051_dist_system_proj.Socket.{System}
use sc4051_dist_system_proj.Socket.Logged.{World, logged}
use sc4051_dist_system_proj.Client.Connection.{Connection}
use sc4051_dist_system_proj.Client.Connection.Refines.{IsBounded, Refines, send_with_retry-Refines}
use sc4051_dist_system_proj.Client.Connection.Updates.{listen_for_monitoring_updates-IsListened}
use sc4051_dist_system_proj.UserInterface.Session.{Turn, display_menu}
use sc4051_dist_system_proj.UserInterface.History.{History, packets_of, ids_of, numbers, IsFew}
use sc4051_dist_system_proj.UserInterface.History.Menu.{display_menu-numbered}
use sc4051_dist_system_proj.UserInterface.Simulation.{Matched, Simulates}
use sc4051_dist_system_proj.UserInterface.Simulation.Menu.{display_menu-Matched}
use sc4051_dist_system_proj.UserInterface.Simulation.Typed.{Alike}
use sc4051_dist_system_proj.UserInterface.Console.{Typing, Asked}
use sc4051_dist_system_proj.UserInterface.Handlers.{typed}
use sc4051_dist_system_proj.UserInterface.Connected.{Running, on_socket}
use sc4051_dist_system_proj.UserInterface.Connected.Peers.{
  IsPeer, IsPeer-trans, at, send_with_retry-IsPeer,
}

module _ {W : Type 0} (os : System W) (bounded : IsBounded os) where
  -- The states agree, and the client has the socket and the server of the start, still open.
  pub record Follows (start r : Running (World W)) (a : Client) : Type 0 where
    pub refines : Refines r.client r.world a
    pub peer : IsPeer start r

  quiet : Network
  quiet n = record { send_succeeds = false; reception = failed }

  -- The client on the socket keeps the contract.
  socket-Simulates :
      (start : Running (World W)) → Simulates (on_socket (logged os)) over_network (Follows start)
  socket-Simulates start = record {
    ids = λ r a h. h.refines.same_id;
    sends = λ request u r a h.
        let (net, (same, after)) =
          send_with_retry-Refines os bounded request r.client r.world a h.refines in
        (
          net,
          (
            same,
            record {
              refines = after;
              peer = IsPeer-trans h.peer (send_with_retry-IsPeer os bounded request r);
            },
          ),
        );
    listens = λ duration u r a h.
        let (listening, same, kept) =
          listen_for_monitoring_updates-IsListened os bounded duration r.client.socket r.world in
        (
          listening,
          (
            same,
            record {
              refines = record {
                same_id = h.refines.same_id;
                same_sent = kept.sent ∙ h.refines.same_sent;
              };
              peer =
                  IsPeer-trans h.peer
                    (record { socket = refl; server = refl; closed = kept.closed });
            },
          ),
        );
    some_network = quiet;
    some_listening = none;
  }

  abbrev pub typing_at : Connection → World W → Bytes → Typing (Running (World W))
  typing_at c w input = record { client = at c w; input = input }

  pub display_menu-Refines :
      (prompt_rating : Bytes → Asked Bytes) (turns : List (Turn Unit Unit)) (start : Connection)
      (w : World W) (a : Client) (input : Bytes)
      → Refines start w a
      → (turns' : List (Turn Network (Option (List Reception)))) × (length turns' ≡ length turns)
        × Matched
            (Alike (Follows (at start w)))
            (display_menu
              (typed (on_socket (logged os)))
              prompt_rating
              turns
              (typing_at start w input))
            (display_menu
              (typed over_network)
              prompt_rating
              turns'
              (record { client = a; input = input }))
  display_menu-Refines prompt_rating turns start w a input h =
      display_menu-Matched (socket-Simulates (at start w)) prompt_rating turns
        (typing_at start w input) (record { client = a; input = input })
        (
          record { refines = h; peer = record { socket = refl; server = refl; closed = refl } },
          refl,
        )

  -- Whatever the system's calls do and the user types, what a session on the socket sends is a
  -- sequence of requests to the server, each in at most five datagrams that are all equal, one
  -- request after the other, where the system's `recvfrom` returns at most the size of the buffer
  -- and has written as many bytes as it returns. Where the counter starts at n, the identifiers of
  -- the requests are n, n + 1, n + 2 and so on, and the counter ends behind the last of them.
  pub display_menu-sent :
      (prompt_rating : Bytes → Asked Bytes) (turns : List (Turn Unit Unit)) (n : ℕ)
      (start : Connection) (w : World W) (input : Bytes)
      → start.request_id ≡ pos n
      → w.sent ≡ []
      → (history : History) × ((display_menu
            (typed (on_socket (logged os)))
            prompt_rating
            turns
            (typing_at start w input)).1.client.world.sent
          ≡ map (λ bytes. (bytes, start.server_addr)) (packets_of history))
        × (ids_of history ≡ numbers n (length history))
        × ((display_menu
              (typed (on_socket (logged os)))
              prompt_rating
              turns
              (typing_at start w input)).1.client.client.request_id
            ≡ pos (n + length history))
        × All IsFew history
  display_menu-sent prompt_rating turns n start w input first none_sent =
      let a : Client = record { request_id = start.request_id; sent = [] } in
      let (turns', rounds, (same, (follows, left))) =
        display_menu-Refines prompt_rating turns start w a input
          (record { same_id = refl; same_sent = none_sent }) in
      let (history, packets, ids, last, few) =
        display_menu-numbered prompt_rating turns' n (record { client = a; input = input }) first in
      let r =
        (display_menu (typed (on_socket (logged os))) prompt_rating turns
          (typing_at start w input)).1.client in
      (
        history,
        follows.refines.same_sent
            ∙ ap (λ sent. map (λ bytes. (bytes, r.client.server_addr)) sent) packets
            ∙ ap (λ server. map (λ bytes. (bytes, server)) (packets_of history))
                follows.peer.server,
        ids,
        follows.refines.same_id ∙ last,
        few,
      )
