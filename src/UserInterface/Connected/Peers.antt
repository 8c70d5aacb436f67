-- ===== src/UserInterface/Connected/Peers.antt =====
-- What the attempts at a request leave as it was: the socket, the server, and the descriptors.
use sc4051_dist_system_proj.Prelude.{
  ℕ, zero, suc, ◌+◌, ◌≡◌, refl, sym, ◌∙◌, subst, [], ◌∷◌, Bytes, Bool, true, false, ltb, Bool-cases,
  inl, inr,
}
use sc4051_dist_system_proj.Prelude.Int.{to_word}
use sc4051_dist_system_proj.RequestMessage.{RequestMessage}
use sc4051_dist_system_proj.Client
use sc4051_dist_system_proj.Client.{
  packet, buffer_size, Client, Network, Reception, failed, Outcome, returned, exited,
  null_dereference,
}
use sc4051_dist_system_proj.Socket.{
  System, Address, Socket, is_minus_one, send_data_to, receive_data_from,
}
use sc4051_dist_system_proj.Socket.Logged.{World, logged}
use sc4051_dist_system_proj.Client.Connection
use sc4051_dist_system_proj.Client.Connection.{Connection}
use sc4051_dist_system_proj.Client.Connection.Refines.{
  IsBounded, reception, socket_turn, socket_loop-turn, world_send,
}
use sc4051_dist_system_proj.Client.Connection.Updates.{receive_data_from-Kept}
use sc4051_dist_system_proj.UserInterface.Connected.{Running, running}

-- The same socket, the same server, and no descriptor closed in between.
pub record IsPeer {W : Type 0} (start now : Running (World W)) : Type 0 where
  pub socket : now.client.socket ≡ start.client.socket
  pub server : now.client.server_addr ≡ start.client.server_addr
  pub closed : now.world.closed ≡ start.world.closed

pub IsPeer-trans : {W : Type 0} {a b c : Running (World W)} → IsPeer a b → IsPeer b c → IsPeer a c
IsPeer-trans p q = record {
  socket = q.socket ∙ p.socket;
  server = q.server ∙ p.server;
  closed = q.closed ∙ p.closed;
}

abbrev pub at : {W : Type 0} → Connection → World W → Running (World W)
at c w = record { client = c; world = w }

module _ {W : Type 0} (os : System W) (bounded : IsBounded os) where
  send_data_to-closed :
      (bytes : Bytes) (addr : Address) (s : Socket) (w : World W)
      → (send_data_to (logged os) bytes addr s w).1.closed ≡ w.closed
  unfolding send_data_to logged
  send_data_to-closed bytes addr s w =
      elim (Bool-cases (is_minus_one (os.sendto s.sockfd bytes addr w.outside).0)) [
        | inl h ↦ rw h refl
        | inr h ↦ rw h refl
      ]

  send_request-IsPeer :
      (request : RequestMessage) (retry : Bool) (c : Connection) (w : World W)
      → IsPeer (at c w) (
          at
            (world_send os bounded request retry c w).1
            (world_send os bounded request retry c w).2)
  unfolding Connection.send_request
  send_request-IsPeer request true c w = record {
    socket = refl;
    server = refl;
    closed = send_data_to-closed (packet request) c.server_addr c.socket w;
  }
  send_request-IsPeer request false c w = record {
    socket = refl;
    server = refl;
    closed = send_data_to-closed (packet request) c.server_addr c.socket w;
  }

  socket_turn-IsPeer :
      (goes_on : Bool) (response : Outcome Bytes) (c c' : Connection) (w sent heard : World W)
      (next : World W → Outcome Bytes × Connection × World W)
      → IsPeer (at c w) (at c' sent)
      → heard.closed ≡ sent.closed
      → IsPeer (at c' heard) (at (next heard).1 (next heard).2)
      → IsPeer (at c w) (
          at
            (socket_turn os bounded (goes_on, c', sent) next (response, heard)).1
            (socket_turn os bounded (goes_on, c', sent) next (response, heard)).2)
  socket_turn-IsPeer false response c c' w sent heard next p k q = p
  socket_turn-IsPeer true response c c' w sent heard next p k q =
      by_response response (IsPeer-trans p (record { socket = refl; server = refl; closed = k }))
    where
      by_response :
          (response : Outcome Bytes)
          → IsPeer (at c w) (at c' heard)
          → IsPeer (at c w) (
              at
                (socket_turn os bounded (true, c', sent) next (response, heard)).1
                (socket_turn os bounded (true, c', sent) next (response, heard)).2)
      by_response (returned []) h = IsPeer-trans h q
      by_response (returned (x ∷ text)) h = h
      by_response exited h = h
      by_response null_dereference h = h

  retry_loop-IsPeer :
      (left attempt : ℕ) (request : RequestMessage) (c : Connection) (w : World W)
      → IsPeer (at c w) (
          at
            (Connection.retry_loop (logged os) left attempt request c w).1
            (Connection.retry_loop (logged os) left attempt request c w).2)
  unfolding Connection.retry_loop
  retry_loop-IsPeer zero attempt request c w = record {
    socket = refl;
    server = refl;
    closed = refl;
  }
  retry_loop-IsPeer (suc left) attempt request c w =
      let (goes_on, c', sent) = world_send os bounded request (ltb 0 attempt) c w in
      let (got, heard) = receive_data_from (logged os) c'.socket sent in
      subst (λ (r : Outcome Bytes × Connection × World W). IsPeer (at c w) (at r.1 r.2))
        (sym (socket_loop-turn os bounded left attempt request c w))
        (socket_turn-IsPeer goes_on
          (Client.receive_response (to_word 0x8000_0000 request.request_id) (reception got)) c c' w
          sent heard (Connection.retry_loop (logged os) left (attempt + 1) request c')
          (send_request-IsPeer request (ltb 0 attempt) c w)
          (receive_data_from-Kept os bounded c'.socket sent).closed
          (retry_loop-IsPeer left (attempt + 1) request c' heard))

  pub send_with_retry-IsPeer :
      (request : RequestMessage) (r : Running (World W))
      → IsPeer r (running (Connection.send_with_retry (logged os) request r.client r.world)).1
  unfolding Connection.send_with_retry
  send_with_retry-IsPeer request r = retry_loop-IsPeer 5 0 request r.client r.world
