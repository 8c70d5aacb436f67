-- ===== src/Client/Connection/Lifecycle.antt =====
-- The socket over the life of a client: what the constructor and the destructor send and close.
use sc4051_dist_system_proj.Prelude.{
  ℕ, ◌≡◌, refl, ap, ◌∙◌, [], ◌∷◌, ◌++◌, Bytes, false, ◌==◌, Option, none, some, Bool-cases, inl,
  inr, append_assoc,
}
use sc4051_dist_system_proj.Prelude.Int.{ℤ, pos}
use sc4051_dist_system_proj.Socket.{
  System, Address, Socket, any_address, af_inet, is_minus_one, is_negative, create, bind,
  set_receive_timeout, get_socket_name, close_socket,
}
use sc4051_dist_system_proj.Socket.Logged.{World, logged}
use sc4051_dist_system_proj.Client.Connection.{Connection}
use sc4051_dist_system_proj.Client.Connection.Opening.{
  Ended, ended, exit_with, throws, Action, timeout_sec, inaddr_none, sock_dgram, ipproto_udp,
  and_then, resolved, make_remote_socket_address, display_connection_info, new_socket, bound,
  or_close, uncaught, open_client, close_client,
}

module _ {W : Type 0} where
  pub record Kept (w w' : World W) : Type 0 where
    pub sent : w'.sent ≡ w.sent
    pub closed : w'.closed ≡ w.closed

  -- A value has the property, and nothing was sent or closed; or the program left by `exit`, with
  -- nothing sent or closed; or an exception left after one descriptor was closed once.
  abbrev pub Clean : {A : Type 0} → (A → Type 0) → World W → Ended A × World W → Type 0
  Clean P w (ended a, w') = P a × Kept w w'
  Clean P w (exit_with code, w') = Kept w w'
  Clean P w (throws what, w') =
      (w'.sent ≡ w.sent) × ((sockfd : ℤ) × (w'.closed ≡ w.closed ++ sockfd ∷ []))

  pub Kept-trans : {a b c : World W} → Kept a b → Kept b c → Kept a c
  Kept-trans p q = record { sent = q.sent ∙ p.sent; closed = q.closed ∙ p.closed }

  after_Kept :
      {A : Type 0} (P : A → Type 0) (w v : World W) (r : Ended A × World W)
      → Kept w v
      → Clean P v r
      → Clean P w r
  after_Kept P w v (ended a, w') k h = (h.0, Kept-trans k h.1)
  after_Kept P w v (exit_with code, w') k h = Kept-trans k h
  after_Kept P w v (throws what, w') k (sent, (sockfd, closed)) =
      (sent ∙ k.sent, (sockfd, closed ∙ ap (λ l. l ++ sockfd ∷ []) k.closed))

  and_then-Clean :
      {A B : Type 0} (P : A → Type 0) (Q : B → Type 0) (w : World W) (r : Ended A × World W)
      (k : A → Action (World W) B)
      → Clean P w r
      → ((a : A) (v : World W) → P a → Clean Q v (k a v))
      → Clean Q w (and_then r k)
  and_then-Clean P Q w (ended a, v) k h next = after_Kept Q w v (k a v) h.1 (next a v h.0)
  and_then-Clean P Q w (exit_with code, v) k h next = h
  and_then-Clean P Q w (throws what, v) k h next = h

module _ {W : Type 0} (os : System W) where
  abbrev IsOpen : Socket → Type 0
  IsOpen s = is_minus_one s.sockfd ≡ false

  new_socket-Clean : (w : World W) → Clean IsOpen w (new_socket (logged os) w)
  unfolding new_socket create logged
  new_socket-Clean w =
      elim (Bool-cases (is_minus_one (os.socket af_inet sock_dgram ipproto_udp w.outside).0)) [
        | inl h ↦ rw h (record { sent = refl; closed = refl })
        | inr h ↦ rw h (h, record { sent = refl; closed = refl })
      ]

  bound-Clean : (s : Socket) (w : World W) → Clean (λ u. Unit {0}) w (bound (logged os) s w)
  unfolding bound bind logged
  bound-Clean s w =
      elim (Bool-cases (is_minus_one (os.bind s.sockfd (any_address (logged os) 0) w.outside).0)) [
        | inl h ↦ rw h (record { sent = refl; closed = refl })
        | inr h ↦ rw h (tt, record { sent = refl; closed = refl })
      ]

  abbrev pub IsRemote : ℕ → Address → Type 0
  IsRemote port addr = (addr.sin_family ≡ af_inet) × (addr.sin_port ≡ os.htons port)

  IsRemote-Clean :
      (hostname : Bytes) (port : ℕ) (w : World W)
      → Clean (IsRemote port) w (make_remote_socket_address (logged os) hostname port w)
  unfolding make_remote_socket_address logged
  IsRemote-Clean hostname port w = elim (Bool-cases (os.inet_addr hostname == inaddr_none)) [
    | inl h ↦
        rw h
          (by_name (os.gethostbyname hostname w.outside).0 (os.gethostbyname hostname w.outside).1)
    | inr h ↦ rw h ((refl, refl), record { sent = refl; closed = refl })
  ]
    where
      by_name :
          (found : Option ℕ) (v : W)
          → Clean (IsRemote port) w (resolved (logged os) port (found, record w { outside = v }))
      by_name none v = record { sent = refl; closed = refl }
      by_name (some addr) v = ((refl, refl), record { sent = refl; closed = refl })

  timeout_Clean :
      (s : Socket) (w : World W)
      → Clean
          (λ u. Unit {0})
          w
          (or_close (logged os) s (uncaught (set_receive_timeout (logged os) timeout_sec s w)))
  unfolding set_receive_timeout close_socket logged
  timeout_Clean s w =
      elim (Bool-cases (is_minus_one (os.setsockopt s.sockfd timeout_sec w.outside).0)) [
        | inl h ↦ rw h (refl, (s.sockfd, refl))
        | inr h ↦ rw h (tt, record { sent = refl; closed = refl })
      ]

  info_Clean :
      (s : Socket) (server_addr : Address) (w : World W)
      → Clean
          (λ u. Unit {0})
          w
          (or_close (logged os) s (display_connection_info (logged os) s server_addr w))
  unfolding display_connection_info get_socket_name close_socket logged
  info_Clean s server_addr w =
      elim (Bool-cases (is_minus_one (os.getsockname s.sockfd w.outside).0)) [
        | inl h ↦ rw h (refl, (s.sockfd, refl))
        | inr h ↦ elim (Bool-cases (is_negative (os.getsockname s.sockfd w.outside).0)) [
          | inl below ↦ rw (h, below) (record { sent = refl; closed = refl })
          | inr right ↦ rw (h, right) (tt, record { sent = refl; closed = refl })
        ]
      ]

  -- The members after the constructor.
  pub record IsConnected (port : ℕ) (c : Connection) : Type 0 where
    pub starts : c.request_id ≡ pos 0
    pub is_open : is_minus_one c.socket.sockfd ≡ false
    pub server : (c.server_addr.sin_family ≡ af_inet) × (c.server_addr.sin_port ≡ os.htons port)

  pub open_client-Clean :
      (server_ip : Bytes) (server_port : ℕ) (w : World W)
      → Clean
          (λ made. IsConnected server_port made.0)
          w
          (open_client (logged os) server_ip server_port w)
  unfolding open_client
  open_client-Clean server_ip server_port w =
      and_then-Clean IsOpen _ w (new_socket (logged os) w) _ (new_socket-Clean w) (λ s w1 is_open.
        and_then-Clean (λ u. Unit {0}) _ w1 (bound (logged os) s w1) _ (bound-Clean s w1)
          (λ u w2 _.
            and_then-Clean (IsRemote server_port) _ w2
              (make_remote_socket_address (logged os) server_ip server_port w2) _
              (IsRemote-Clean server_ip server_port w2)
              (λ server_addr w3 is_remote.
                and_then-Clean (λ u. Unit {0}) _ w3 _ _ (timeout_Clean s w3)
                  (λ u' w4 _.
                    and_then-Clean (λ u. Unit {0}) _ w4 _ _ (info_Clean s server_addr w4)
                      (λ info w5 _. (
                        record { starts = refl; is_open = is_open; server = is_remote },
                        record { sent = refl; closed = refl },
                      ))))))

  -- The two destructors close the same descriptor, one after the other.
  pub close_client-closed :
      (c : Connection) (w : World W)
      → (close_client (logged os) c w).closed ≡ w.closed ++ c.socket.sockfd ∷ c.socket.sockfd ∷ []
  unfolding close_client close_socket logged
  close_client-closed c w = append_assoc w.closed (c.socket.sockfd ∷ []) (c.socket.sockfd ∷ [])
