-- ===== src/Client/Connection/Refines.antt =====
-- The client on a socket does what the client over a network does, for a network that the world
-- decides.
use sc4051_dist_system_proj.Prelude.{
  ℕ, zero, suc, ◌+◌, ◌≤◌, ◌≡◌, refl, ap, sym, subst, ◌∙◌, [], ◌∷◌, ◌++◌, List, Bytes, Bool, true,
  false, not, map, length, take, ltb, if◌then◌else◌, arith, Bool-cases, inl, inr,
}
use sc4051_dist_system_proj.Prelude.Int.{ℤ, pos, negsuc, to_word}
use sc4051_dist_system_proj.RequestMessage.{RequestMessage}
use sc4051_dist_system_proj.Client
use sc4051_dist_system_proj.Client.{
  Client, Network, Attempt, Reception, failed, datagram, Outcome, returned, exited,
  null_dereference, packet, buffer_size,
}
use sc4051_dist_system_proj.Client.Receive.{take_all}
use sc4051_dist_system_proj.Socket.{
  is_negative, is_minus_one, System, Socket, Attempted, threw, gave, send_data_to,
  receive_data_from,
}
use sc4051_dist_system_proj.Socket.Logged.{World, logged}
use sc4051_dist_system_proj.Client.Connection
use sc4051_dist_system_proj.Client.Connection.Networks.{from, turn, now_sent, loop_from}
use sc4051_dist_system_proj.Client.Connection.{received, is_given, response_from}

-- POSIX: `recvfrom` returns at most the size that it gets, and has written so many bytes.
abbrev pub IsBounded : {W : Type 0} → System W → Type 0
IsBounded {W} os =
    (sockfd : ℤ) (size n : ℕ) (buffer : Bytes) (w w' : W)
    → os.recvfrom sockfd size w ≡ (pos n, buffer, w')
    → (n ≤ size) × (n ≤ length buffer)

-- The identifier is the same, and every datagram that the world took is one that the abstract client
-- has sent, to the server.
pub record Refines {W : Type 0} (c : Connection.Connection) (w : World W) (a : Client)
    : Type 0 where
  pub same_id : c.request_id ≡ a.request_id
  pub same_sent : w.sent ≡ map (λ bytes. (bytes, c.server_addr)) a.sent

-- What `receiveDataFrom` does, as the abstract client sees it.
abbrev pub reception : Attempted (ℤ × Bytes) → Reception
reception (threw what) = failed
reception (gave (n, buffer)) = datagram (received n buffer)

-- The two runs end in the same way, and the states still agree.
abbrev pub Agree :
    {W : Type 0} → Outcome Bytes × Connection.Connection × World W → Outcome Bytes × Client → Type 0
Agree (o, c, w) (o', a) = (o ≡ o') × Refines c w a

map-snoc :
    {A B : Type 0} (f : A → B) (xs : List A) (x : A) → map f (xs ++ x ∷ []) ≡ map f xs ++ f x ∷ []
map-snoc f [] x = refl
map-snoc f (y ∷ xs) x = ap (λ l. f y ∷ l) (map-snoc f xs x)

pub length-take : (n : ℕ) (xs : Bytes) → length (take n xs) ≤ n
length-take zero xs = omega arith
length-take (suc n) [] = omega arith
length-take (suc n) (x ∷ xs) = omega (arith, length-take n xs)

module _ {W : Type 0} (os : System W) (bounded : IsBounded os) where
  -- The same round on the socket; `next` is the rest of the loop.
  abbrev pub socket_turn :
      Bool × Connection.Connection × World W
      → (World W → Outcome Bytes × Connection.Connection × World W)
      → Outcome Bytes × World W
      → Outcome Bytes × Connection.Connection × World W
  socket_turn (goes_on, c, sent) next (response, heard) =
      if not goes_on then (exited, c, sent) else elim response [
        | returned [] ↦ next heard
        | returned (x ∷ text) ↦ (returned (x ∷ text), c, heard)
        | exited ↦ (exited, c, heard)
        | null_dereference ↦ (null_dereference, c, heard)
      ]

  turn-Agree :
      (goes_on : Bool) (response : Outcome Bytes) (c : Connection.Connection) (sent heard : World W)
      (a : Client) (next : World W → Outcome Bytes × Connection.Connection × World W)
      (rest' : Outcome Bytes × Client)
      → Refines c sent a
      → Refines c heard a
      → Agree (next heard) rest'
      → Agree
          (socket_turn (goes_on, c, sent) next (response, heard))
          (turn (goes_on, a) response rest')
  turn-Agree false response c sent heard a next rest' p q r = (refl, p)
  turn-Agree true (returned []) c sent heard a next rest' p q r = r
  turn-Agree true (returned (x ∷ text)) c sent heard a next rest' p q r = (refl, q)
  turn-Agree true exited c sent heard a next rest' p q r = (refl, q)
  turn-Agree true null_dereference c sent heard a next rest' p q r = (refl, q)

  -- What the world does with the packet of a request.
  abbrev pub world_send :
      RequestMessage
      → Bool
      → Connection.Connection
      → World W
      → Bool × Connection.Connection × World W
  world_send request retry c w = Connection.send_request (logged os) request retry c w

  -- What the client has after the call, when its counter is right.
  abbrev after_send : Bytes → Bool → Client → Bool × Client
  after_send bytes sends a =
      if sends then (true, record a { sent = a.sent ++ bytes ∷ [] }) else (false, a)

  abbrev world_sends : Bytes → Connection.Connection → World W → Bool × World W
  world_sends bytes c w =
      let (done, w') = send_data_to (logged os) bytes c.server_addr c.socket w in
      (is_given done, w')

  send_once :
      (request : RequestMessage) (c : Connection.Connection) (w : World W) (a : Client)
      → Refines c w a
      → ((after_send (packet request) (world_sends (packet request) c w).0 a).0
          ≡ (world_sends (packet request) c w).0)
        × Refines c
            (world_sends (packet request) c w).1
            (after_send (packet request) (world_sends (packet request) c w).0 a).1
  unfolding send_data_to logged
  send_once request c w a h =
      elim (Bool-cases
        (is_minus_one (os.sendto c.socket.sockfd (packet request) c.server_addr w.outside).0)) [
          | inl fails ↦ rw fails (refl, record { same_id = h.same_id; same_sent = h.same_sent })
          | inr sends ↦ rw sends (
            refl,
            record {
              same_id = h.same_id;
              same_sent =
                  ap (λ l. l ++ (packet request, c.server_addr) ∷ []) h.same_sent
                  ∙ sym (map-snoc (λ bytes. (bytes, c.server_addr)) a.sent (packet request));
            },
          )
        ]

  send_request-Refines :
      (request : RequestMessage) (retry : Bool) (c : Connection.Connection) (w : World W)
      (a : Client)
      → Refines c w a
      → ((Client.send_request request retry (world_send request retry c w).0 a).0
          ≡ (world_send request retry c w).0)
        × Refines
            (world_send request retry c w).1
            (world_send request retry c w).2
            (Client.send_request request retry (world_send request retry c w).0 a).1
  unfolding Client.send_request Connection.send_request send_data_to logged
  send_request-Refines request false c w a h =
      send_once request (record c { request_id = Client.increment c.request_id }) w
        (record a { request_id = Client.increment a.request_id })
        (record { same_id = ap Client.increment h.same_id; same_sent = h.same_sent })
  send_request-Refines request true c w a h = send_once request c w a h

  receive_response-reception :
      (expected : ℕ) (c : Connection.Connection) (w : World W)
      → Connection.receive_response (logged os) expected c w ≡ (
        Client.receive_response expected (reception (receive_data_from (logged os) c.socket w).0),
        (receive_data_from (logged os) c.socket w).1,
      )
  unfolding Connection.receive_response Client.receive_response receive_data_from response_from
      logged
  receive_response-reception expected c w = by_result _ _ _ refl
    where
      by_result :
          (n : ℤ) (buffer : Bytes) (v : W)
          → os.recvfrom c.socket.sockfd buffer_size w.outside ≡ (n, buffer, v)
          → Connection.receive_response (logged os) expected c w ≡ (
            Client.receive_response expected
                (reception (receive_data_from (logged os) c.socket w).0),
            (receive_data_from (logged os) c.socket w).1,
          )
      by_result (pos n) buffer v e =
          rw
            (
              e,
              take_all (take n buffer) buffer_size
                  (omega (arith, length-take n buffer, (bounded _ _ n buffer _ v e).0)),
            )
            refl
      by_result (negsuc n) buffer v e = rw e refl

  pub receive_data_from-sent :
      (s : Socket) (w : World W) → (receive_data_from (logged os) s w).1.sent ≡ w.sent
  unfolding receive_data_from logged
  receive_data_from-sent s w =
      elim (Bool-cases (is_negative (os.recvfrom s.sockfd buffer_size w.outside).0)) [
        | inl h ↦ rw h refl
        | inr h ↦ rw h refl
      ]

  heard_Refines :
      (c : Connection.Connection) (w : World W) (a : Client)
      → Refines c w a
      → Refines c (receive_data_from (logged os) c.socket w).1 a
  heard_Refines c w a h = record {
    same_id = h.same_id;
    same_sent = receive_data_from-sent c.socket w ∙ h.same_sent;
  }

  pub socket_loop-turn :
      (left attempt : ℕ) (request : RequestMessage) (c : Connection.Connection) (w : World W)
      → let (goes_on, c', sent) = world_send request (ltb 0 attempt) c w in
        let (got, heard) = receive_data_from (logged os) c'.socket sent in
        Connection.retry_loop (logged os) (suc left) attempt request c w
        ≡ socket_turn
            (goes_on, c', sent)
            (Connection.retry_loop (logged os) left (attempt + 1) request c')
            (
              Client.receive_response (to_word 0x8000_0000 request.request_id) (reception got),
              heard,
            )
  unfolding Connection.retry_loop
  socket_loop-turn left attempt request c w =
      let turn = world_send request (ltb 0 attempt) c w in
      ap (socket_turn turn (Connection.retry_loop (logged os) left (attempt + 1) request turn.1))
        (receive_response-reception (to_word 0x8000_0000 request.request_id) turn.1 turn.2)

  loop-Agree :
      (left attempt : ℕ) (request : RequestMessage) (c : Connection.Connection) (w : World W)
      (a : Client)
      → Refines c w a
      → (net : Network) × Agree
          (Connection.retry_loop (logged os) left attempt request c w)
          (Client.retry_loop left attempt request net a)
  unfolding Connection.retry_loop Client.retry_loop
  loop-Agree zero attempt request c w a h =
      ((λ n. record { send_succeeds = false; reception = failed }), (refl, h))
  loop-Agree (suc left) attempt request c w a h =
      let (goes_on, c', sent) = world_send request (ltb 0 attempt) c w in
      let (got, heard) = receive_data_from (logged os) c'.socket sent in
      let now : Attempt = record { send_succeeds = goes_on; reception = reception got } in
      let (on_is, after) = send_request-Refines request (ltb 0 attempt) c w a h in
      let a' = (now_sent request attempt now a).1 in
      let (later, rest) =
        loop-Agree left (attempt + 1) request c' heard a' (heard_Refines c' sent a' after) in
      let next = Connection.retry_loop (logged os) left (attempt + 1) request c' in
      let response =
        Client.receive_response (to_word 0x8000_0000 request.request_id) now.reception in
      let rest' = Client.retry_loop left (attempt + 1) request later a' in
      let round =
        subst
          (λ b.
            Agree (socket_turn (b, c', sent) next (response, heard))
              (turn (now_sent request attempt now a) response rest'))
          on_is
          (turn-Agree (now_sent request attempt now a).0 response c' sent heard a' next rest' after
            (heard_Refines c' sent a' after) rest) in
      (
        from attempt now later,
        subst
            (λ x. Agree x (Client.retry_loop (suc left) attempt request (from attempt now later) a))
            (sym (socket_loop-turn left attempt request c w))
            (subst (Agree (socket_turn (goes_on, c', sent) next (response, heard)))
              (sym (loop_from left attempt request now later a)) round),
      )

  -- On every system whose `recvfrom` returns at most the size of the buffer, the client on the socket
  -- does what the client over some network does: it ends in the same way, with the same counter,
  -- and the datagrams that the system took are the packets of that client, all to the server.
  pub send_with_retry-Refines :
      (request : RequestMessage) (c : Connection.Connection) (w : World W) (a : Client)
      → Refines c w a
      → (net : Network) × Agree
          (Connection.send_with_retry (logged os) request c w)
          (Client.send_with_retry request net a)
  unfolding Connection.send_with_retry Client.send_with_retry
  send_with_retry-Refines request c w a h = loop-Agree 5 0 request c w a h
