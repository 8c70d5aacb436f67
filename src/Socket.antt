-- ===== src/Socket.antt =====
-- Client/src/Socket.cpp, as it is compiled for POSIX. The calls of the operating system are the
-- fields of a record over a type of worlds.
pub mod Logged
use sc4051_dist_system_proj.Prelude.{
  ℕ, zero, suc, ◌≤◌, ◌≡◌, ◌++◌, Bytes, Bool, true, false, ◌==◌, ◌||◌, Option, codes, if◌then◌else◌,
}
use sc4051_dist_system_proj.Prelude.Int.{ℤ, pos, negsuc}
use sc4051_dist_system_proj.Text.Numbers.{to_string}
use sc4051_dist_system_proj.Client.{buffer_size}

-- `sockaddr_in`, with the port and the address as the structure holds them.
pub record Address : Type 0 where
  pub sin_family : ℤ
  pub sin_port : ℕ
  pub sin_addr : ℕ

-- What is not under the repository: system calls with what they return, `errno`, and constants.
-- `recvfrom` returns the number of bytes, or a negative number, and what the buffer holds then.
-- `setsockopt` sets the timeout of `recvfrom` in seconds. `now` is the steady clock in its ticks,
-- and `second` the number of them in a second.
pub record System (W : Type 0) : Type 0 where
  pub socket : ℤ → ℤ → ℤ → W → ℤ × W
  pub bind : ℤ → Address → W → ℤ × W
  pub setsockopt : ℤ → ℤ → W → ℤ × W
  pub sendto : ℤ → Bytes → Address → W → ℤ × W
  pub recvfrom : ℤ → ℕ → W → ℤ × Bytes × W
  pub getsockname : ℤ → W → ℤ × Address × W
  pub close : ℤ → W → W
  pub inet_addr : Bytes → ℕ
  pub gethostbyname : Bytes → W → Option ℕ × W
  pub inet_ntop : ℕ → Bytes
  pub htons : ℕ → ℕ
  pub ntohs : ℕ → ℕ
  pub errno : W → ℤ
  pub strerror : ℤ → Bytes
  pub eagain : ℤ
  pub ewouldblock : ℤ
  pub now : W → ℕ
  pub second : ℕ

-- A function that returns, or throws a `std::runtime_error` with a text.
pub data Attempted (A : Type 0) : Type 0 where
  threw : Bytes → Attempted A
  gave : A → Attempted A

pub record Socket : Type 0 where
  pub sockfd : ℤ

-- `== -1` and `< 0`
abbrev pub is_minus_one : ℤ → Bool
is_minus_one (pos n) = false
is_minus_one (negsuc n) = n == 0

abbrev pub is_negative : ℤ → Bool
is_negative (pos n) = false
is_negative (negsuc n) = true

abbrev pub same_int : ℤ → ℤ → Bool
same_int (pos a) (pos b) = a == b
same_int (negsuc a) (negsuc b) = a == b
same_int (pos a) (negsuc b) = false
same_int (negsuc a) (pos b) = false

abbrev pub af_inet : ℤ
af_inet = pos 2

abbrev pub inaddr_any : ℕ
inaddr_any = 0

-- The constructor.
abbrev pub no_socket : Socket
no_socket = record { sockfd = negsuc 0 }

module _ {W : Type 0} (os : System W) where
  -- The message of an exception that has the text for `errno`.
  abbrev pub failure : Bytes → W → Bytes
  failure text w = text ++ os.strerror (os.errno w)

  unfoldable pub create : ℤ → ℤ → ℤ → Socket → W → Attempted Unit × Socket × W
  create domain type protocol s w =
      let (sockfd, w') = os.socket domain type protocol w in
      if is_minus_one sockfd
      then (
        threw (failure (codes "Socket creation failed! Error: ") w'),
        record { sockfd = sockfd },
        w',
      )
      else (gave tt, record { sockfd = sockfd }, w')

  abbrev pub any_address : ℕ → Address
  any_address port = record {
    sin_family = af_inet;
    sin_port = os.htons port;
    sin_addr = inaddr_any;
  }

  unfoldable pub bind : ℕ → Socket → W → Attempted Unit × W
  bind port s w =
      let (result, w') = os.bind s.sockfd (any_address port) w in
      if is_minus_one result
      then (threw (failure (codes "Bind failed! Error: ") w'), w')
      else (gave tt, w')

  unfoldable pub set_receive_timeout : ℤ → Socket → W → Attempted Unit × W
  set_receive_timeout seconds s w =
      let (result, w') = os.setsockopt s.sockfd seconds w in
      if is_minus_one result
      then (threw (failure (codes "Set receive timeout failed! Error: ") w'), w')
      else (gave tt, w')

  unfoldable pub send_data_to : Bytes → Address → Socket → W → Attempted Unit × W
  send_data_to bytes addr s w =
      let (result, w') = os.sendto s.sockfd bytes addr w in
      if is_minus_one result
      then (threw (failure (codes "Send failed! Error: ") w'), w')
      else (gave tt, w')

  -- The text of the exception for a failed `recvfrom`.
  unfoldable pub receive_failure : ℤ → Bytes
  receive_failure code =
      if same_int code os.eagain || same_int code os.ewouldblock
      then codes "Receive failed! Error: Timeout occurred"
      else codes "Receive failed! Error code: " ++ to_string code

  -- The number of bytes, and the buffer.
  unfoldable pub receive_data_from : Socket → W → Attempted (ℤ × Bytes) × W
  receive_data_from s w =
      let (bytes_received, buffer, w') = os.recvfrom s.sockfd buffer_size w in
      if is_negative bytes_received
      then (threw (receive_failure (os.errno w')), w')
      else (gave (bytes_received, buffer), w')

  unfoldable pub get_socket_name : Socket → W → Attempted (ℤ × Address) × W
  get_socket_name s w =
      let (result, addr, w') = os.getsockname s.sockfd w in
      if is_minus_one result
      then (threw (failure (codes "Get socket name failed! Error: ") w'), w')
      else (gave (result, addr), w')

  unfoldable pub close_socket : Socket → W → W
  close_socket s w = os.close s.sockfd w
