-- ===== src/Client/Connection/Opening.antt =====
-- The constructor and the destructor of `Client` (Client/src/Client.cpp), `displayConnectionInfo` of
-- Client/src/UserInterface.cpp, and the block of `main` that has them in Client/src/main.cpp.
use sc4051_dist_system_proj.Prelude.{
  ℕ, [], ◌∷◌, ◌++◌, List, Bytes, ◌==◌, Option, none, some, codes, if◌then◌else◌,
}
use sc4051_dist_system_proj.Prelude.Int.{ℤ, pos, negsuc}
use sc4051_dist_system_proj.Text.Numbers.{to_string}
use sc4051_dist_system_proj.Socket.{
  System, Address, Socket, Attempted, threw, gave, af_inet, inaddr_any, no_socket, is_negative,
  create, bind, set_receive_timeout, get_socket_name, close_socket,
}
use sc4051_dist_system_proj.Client.Connection.{Connection}

-- `Constants::TIMEOUT_SEC`, and the constants of the system headers that `create` gets.
abbrev pub timeout_sec : ℤ
timeout_sec = pos 5

abbrev pub sock_dgram : ℤ
sock_dgram = pos 2

abbrev pub ipproto_udp : ℤ
ipproto_udp = pos 17

abbrev pub inaddr_none : ℕ
inaddr_none = 0xffff_ffff

-- How a call ends: with a value, by `exit` with a code, or by an exception.
pub data Ended (A : Type 0) : Type 0 where
  ended : A → Ended A
  exit_with : ℤ → Ended A
  throws : Bytes → Ended A

abbrev pub Action : Type 0 → Type 0 → Type 0
Action W A = W → Ended A × W

abbrev pub and_then : {W A B : Type 0} → Ended A × W → (A → Action W B) → Ended B × W
and_then (ended a, w) k = k a w
and_then (exit_with code, w) k = (exit_with code, w)
and_then (throws what, w) k = (throws what, w)

infixl 5 ◌>>=◌
abbrev ◌>>=◌ : {W A B : Type 0} → Action W A → (A → Action W B) → Action W B
(m >>= k) w = and_then (m w) k

-- The `catch` blocks of the constructor.
abbrev pub or_exit : {A B : Type 0} → Attempted A → B → Ended B
or_exit (threw what) b = exit_with (pos 1)
or_exit (gave a) b = ended b

abbrev pub uncaught : {W A : Type 0} → Attempted A × W → Ended A × W
uncaught (threw what, w) = (throws what, w)
uncaught (gave a, w) = (ended a, w)

-- The address and the port as texts, for the client and the server.
unfoldable pub connection_info : Bytes → Bytes → Bytes → Bytes → List Bytes
connection_info client_ip client_port server_ip server_port =
    codes "Connection Information"
    ∷ codes "Client socket has been successfully bound."
    ∷ (codes "Client IP Address: " ++ client_ip)
    ∷ (codes "Client Port: " ++ client_port)
    ∷ []
    ∷ codes "Client is connected to the server."
    ∷ (codes "Server IP Address: " ++ server_ip)
    ∷ (codes "Server Port: " ++ server_port)
    ∷ []

module _ {W : Type 0} (os : System W) where
  -- `makeLocalSocketAddress`, on a machine whose `htonl` keeps 0.
  abbrev pub make_local_socket_address : Address
  make_local_socket_address = record {
    sin_family = af_inet;
    sin_port = os.htons 8000;
    sin_addr = inaddr_any;
  }

  abbrev pub remote : ℕ → ℕ → Address
  remote port addr = record { sin_family = af_inet; sin_port = os.htons port; sin_addr = addr }

  abbrev pub resolved : ℕ → Option ℕ × W → Ended Address × W
  resolved port (none, w) = (exit_with (negsuc 0), w)
  resolved port (some addr, w) = (ended (remote port addr), w)

  unfoldable pub make_remote_socket_address : Bytes → ℕ → W → Ended Address × W
  make_remote_socket_address hostname port w =
      if os.inet_addr hostname == inaddr_none
      then resolved port (os.gethostbyname hostname w)
      else (ended (remote port (os.inet_addr hostname)), w)

  -- The content of the box.
  abbrev pub info_of : Address → Attempted (ℤ × Address) → Ended (List Bytes)
  info_of server_addr (threw what) = throws what
  info_of server_addr (gave (result, client_addr)) =
      if is_negative result
      then exit_with (pos 1)
      else ended (
          connection_info (os.inet_ntop client_addr.sin_addr)
            (to_string (pos (os.ntohs client_addr.sin_port))) (os.inet_ntop server_addr.sin_addr)
            (to_string (pos (os.ntohs server_addr.sin_port))))

  unfoldable pub display_connection_info : Socket → Address → W → Ended (List Bytes) × W
  display_connection_info s server_addr w =
      let (got, w') = get_socket_name os s w in (info_of server_addr got, w')

  unfoldable pub new_socket : W → Ended Socket × W
  new_socket w =
      let (got, s, w') = create os af_inet sock_dgram ipproto_udp no_socket w in (or_exit got s, w')

  unfoldable pub bound : Socket → W → Ended Unit × W
  bound s w = let (got, w') = bind os 0 s w in (or_exit got tt, w')

  -- An exception that leaves the constructor destroys the members, and `~Socket` closes the socket.
  abbrev pub or_close : {A : Type 0} → Socket → Ended A × W → Ended A × W
  or_close s (throws what, w) = (throws what, close_socket os s w)
  or_close s (ended a, w) = (ended a, w)
  or_close s (exit_with code, w) = (exit_with code, w)

  -- The constructor of `Client`: the members, and the box that is shown.
  unfoldable pub open_client : Bytes → ℕ → W → Ended (Connection × List Bytes) × W
  open_client server_ip server_port = do
    s ← new_socket
    _ ← bound s
    server_addr ← make_remote_socket_address server_ip server_port
    _ ← λ w. or_close s (uncaught (set_receive_timeout os timeout_sec s w))
    info ← λ w. or_close s (display_connection_info s server_addr w)
    λ w. (
      ended (
        record {
          request_id = pos 0;
          socket = s;
          client_addr = make_local_socket_address;
          server_addr = server_addr;
        },
        info,
      ),
      w,
    )

  -- The destructor of `Client`, and that of its member `socket`.
  unfoldable pub close_client : Connection → W → W
  close_client c w = close_socket os c.socket (close_socket os c.socket w)
