-- ===== src/Client/Connection/Monitoring.antt =====
-- How long `listenForMonitoringUpdates` runs, and what it hands on.
use sc4051_dist_system_proj.Prelude.{
  ℕ, zero, suc, ◌+◌, ◌*◌, ◌≤◌, ◌<◌, ◌≡◌, [], ◌∷◌, List, Bytes, Bool, true, false,
}
use sc4051_dist_system_proj.Prelude.Int.{ℤ, pos, negsuc}
use sc4051_dist_system_proj.Socket.{System, Socket, threw, gave, is_minus_one, receive_data_from}
use sc4051_dist_system_proj.Client.Connection.{received}

-- `bytesReceived > 0`
abbrev pub is_positive : ℤ → Bool
is_positive (pos zero) = false
is_positive (pos (suc n)) = true
is_positive (negsuc n) = false

-- The loop, as the source has it: it goes on while the clock is before the end, and an exception
-- breaks it.
pub data Listens {W : Type 0} (os : System W) (end_time : ℕ) (s : Socket)
    : W → List Bytes → W → Type 0 where
  over : {w : W} → end_time ≤ os.now w → Listens os end_time s w [] w
  breaks :
      {w w' : W} {what : Bytes}
      → os.now w < end_time
      → receive_data_from os s w ≡ (threw what, w')
      → Listens os end_time s w [] w'
  empty :
      {w w' w'' : W} {n : ℤ} {buffer : Bytes} {updates : List Bytes}
      → os.now w < end_time
      → receive_data_from os s w ≡ (gave (n, buffer), w')
      → is_positive n ≡ false
      → Listens os end_time s w' updates w''
      → Listens os end_time s w updates w''
  hears :
      {w w' w'' : W} {n : ℤ} {buffer : Bytes} {updates : List Bytes}
      → os.now w < end_time
      → receive_data_from os s w ≡ (gave (n, buffer), w')
      → is_positive n ≡ true
      → Listens os end_time s w' updates w''
      → Listens os end_time s w (received n buffer ∷ updates) w''

-- A call of `recvfrom` takes a tick of the clock, or more. Where a timeout of some seconds is set,
-- it takes at most so long, and keeps the timeout; `setsockopt` sets it.
pub record IsTimed {W : Type 0} (os : System W) (timeout : ℤ → W → ℕ) : Type 0 where
  pub advances : (sockfd : ℤ) (size : ℕ) (w : W) → os.now w < os.now (os.recvfrom sockfd size w).2
  pub within :
      (sockfd : ℤ) (size : ℕ) (w : W)
      → 0 < timeout sockfd w
      → os.now (os.recvfrom sockfd size w).2 ≤ os.now w + timeout sockfd w * os.second
  pub keeps :
      (sockfd : ℤ) (size : ℕ) (w : W)
      → timeout sockfd (os.recvfrom sockfd size w).2 ≡ timeout sockfd w
  pub sets :
      (sockfd : ℤ) (n : ℕ) (w : W)
      → is_minus_one (os.setsockopt sockfd (pos n) w).0 ≡ false
      → timeout sockfd (os.setsockopt sockfd (pos n) w).1 ≡ n
