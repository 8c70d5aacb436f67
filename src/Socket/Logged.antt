-- ===== src/Socket/Logged.antt =====
-- An operating system that keeps a list of the datagrams that `sendto` takes, and of the
-- descriptors that `close` gets, and does what another one does.
use sc4051_dist_system_proj.Prelude.{[], ◌∷◌, ◌++◌, List, Bytes, if◌then◌else◌}
use sc4051_dist_system_proj.Prelude.Int.{ℤ}
use sc4051_dist_system_proj.Socket.{System, Address, is_minus_one}

pub record World (W : Type 0) : Type 0 where
  pub outside : W
  pub sent : List (Bytes × Address)
  pub closed : List ℤ

unfoldable pub logged : {W : Type 0} → System W → System (World W)
logged os = record {
  socket = λ domain type protocol w.
      let (result, v) = os.socket domain type protocol w.outside in
      (result, record w { outside = v });
  bind = λ sockfd addr w.
      let (result, v) = os.bind sockfd addr w.outside in (result, record w { outside = v });
  setsockopt = λ sockfd seconds w.
      let (result, v) = os.setsockopt sockfd seconds w.outside in
      (result, record w { outside = v });
  sendto = λ sockfd bytes addr w.
      let (result, v) = os.sendto sockfd bytes addr w.outside in
      (
        result,
        record w {
          outside = v;
          sent = if is_minus_one result then w.sent else w.sent ++ (bytes, addr) ∷ [];
        },
      );
  recvfrom = λ sockfd size w.
      let (result, buffer, v) = os.recvfrom sockfd size w.outside in
      (result, buffer, record w { outside = v });
  getsockname = λ sockfd w.
      let (result, addr, v) = os.getsockname sockfd w.outside in
      (result, addr, record w { outside = v });
  close = λ sockfd w. record w {
    outside = os.close sockfd w.outside;
    closed = w.closed ++ sockfd ∷ [];
  };
  inet_addr = os.inet_addr;
  gethostbyname = λ name w.
      let (found, v) = os.gethostbyname name w.outside in (found, record w { outside = v });
  inet_ntop = os.inet_ntop;
  htons = os.htons;
  ntohs = os.ntohs;
  errno = λ w. os.errno w.outside;
  strerror = os.strerror;
  eagain = os.eagain;
  ewouldblock = os.ewouldblock;
  now = λ w. os.now w.outside;
  second = os.second;
}
