-- ===== src/Tests/Sockets.antt =====
-- The theorems on the socket at concrete inputs.
use sc4051_dist_system_proj.Prelude.{
  ℕ, zero, suc, ◌≤◌, ◌≡◌, refl, ap, [], Bytes, codes, length, min, none, arith,
}
use sc4051_dist_system_proj.Prelude.Int.{ℤ, pos, negsuc}
use sc4051_dist_system_proj.Client
use sc4051_dist_system_proj.Client.{Network, packet}
use sc4051_dist_system_proj.Socket.{System, Address}
use sc4051_dist_system_proj.Socket.Logged.{World, logged}
use sc4051_dist_system_proj.Client.Connection
use sc4051_dist_system_proj.Client.Connection.Refines.{IsBounded, Agree, send_with_retry-Refines}
use sc4051_dist_system_proj.Tests.Samples.{a_request, a_reply, a_client}

abbrev pub an_address : Address
an_address = record { sin_family = pos 2; sin_port = 2222; sin_addr = 0x100_007f }

-- The clock, and the timeout of `recvfrom`.
abbrev pub Clocked : Type 0
Clocked = ℕ × ℤ

-- The first `recvfrom` times out, the next ones get a reply.
abbrev pub heard : ℕ → ℕ → ℤ → ℤ × Bytes × Clocked
heard size zero timeout = (negsuc 0, [], (1, timeout))
heard size (suc n) timeout =
    (pos (min (length (packet a_reply)) size), packet a_reply, (suc (suc n), timeout))

abbrev pub a_system : System Clocked
a_system = record {
  socket = λ domain type protocol w. (pos 3, w);
  bind = λ sockfd addr w. (pos 0, w);
  setsockopt = λ sockfd seconds w. (pos 0, (w.0, seconds));
  sendto = λ sockfd bytes addr w. (pos (length bytes), w);
  recvfrom = λ sockfd size w. heard size w.0 w.1;
  getsockname = λ sockfd w. (pos 0, an_address, w);
  close = λ sockfd w. w;
  inet_addr = λ name. 0x100_007f;
  gethostbyname = λ name w. (none, w);
  inet_ntop = λ addr. codes "127.0.0.1";
  htons = λ port. port;
  ntohs = λ port. port;
  errno = λ w. pos 11;
  strerror = λ code. codes "Resource temporarily unavailable";
  eagain = pos 11;
  ewouldblock = pos 11;
  now = λ w. w.0;
  second = 1;
}

pos-injective : (a b : ℕ) → pos a ≡ pos b → a ≡ b
pos-injective a b h = cc

heard_bounded :
    (size n : ℕ) (buffer : Bytes) (clock : ℕ) (timeout : ℤ) (w' : Clocked)
    → heard size clock timeout ≡ (pos n, buffer, w')
    → (n ≤ size) × (n ≤ length buffer)
heard_bounded size n buffer zero timeout w' h = cc
heard_bounded size n buffer (suc clock) timeout w' h =
    let e : pos (min (length (packet a_reply)) size) ≡ pos n =
      ap (λ (x : ℤ × Bytes × Clocked). x.0) h in
    let b : packet a_reply ≡ buffer = ap (λ (x : ℤ × Bytes × Clocked). x.1) h in
    let e' = pos-injective _ n e in (omega arith, omega (arith, ap length b))

pub a_system-IsBounded : IsBounded a_system
a_system-IsBounded sockfd size n buffer w w' h = heard_bounded size n buffer w.0 w.1 w' h

abbrev pub a_world : World Clocked
a_world = record { outside = (0, pos 5); sent = []; closed = [] }

abbrev pub a_connection : Connection.Connection
a_connection = record {
  request_id = pos 7;
  socket = record { sockfd = pos 3 };
  client_addr = an_address;
  server_addr = an_address;
}

send_with_retry-Refines_example :
    (net : Network) × Agree
      (Connection.send_with_retry (logged a_system) a_request a_connection a_world)
      (Client.send_with_retry a_request net a_client)
send_with_retry-Refines_example =
    send_with_retry-Refines a_system a_system-IsBounded a_request a_connection a_world a_client
      (record { same_id = refl; same_sent = refl })
