-- ===== src/Client/Connection/Listening.antt =====
-- `listenForMonitoringUpdates` of Client/src/Client.cpp on a socket, by the steady clock.
use sc4051_dist_system_proj.Prelude.{
  ℕ, zero, suc, ◌+◌, ◌-◌, ◌*◌, [], ◌∷◌, List, Bytes, Option, none, some, ltb, if◌then◌else◌,
}
use sc4051_dist_system_proj.Prelude.Int.{ℤ, pos, negsuc}
use sc4051_dist_system_proj.Socket.{
  System, Socket, Attempted, threw, gave, set_receive_timeout, receive_data_from,
}
use sc4051_dist_system_proj.Client.Connection.{received}
use sc4051_dist_system_proj.Client.Connection.Opening.{timeout_sec}

-- A text is handed on where the number of bytes is positive.
abbrev pub add_update : {W : Type 0} → ℤ → Bytes → List Bytes × W → List Bytes × W
add_update (pos (suc n)) buffer (updates, w) = (received (pos (suc n)) buffer ∷ updates, w)
add_update (pos zero) buffer rest = rest
add_update (negsuc n) buffer rest = rest

-- A round of the loop: an exception breaks it.
abbrev pub heard_update : {W : Type 0} → Attempted (ℤ × Bytes) → W → List Bytes × W → List Bytes × W
heard_update (threw what) w rest = ([], w)
heard_update (gave (bytes_received, buffer)) w rest = add_update bytes_received buffer rest

-- The end of the monitoring, so many seconds from now.
abbrev pub seconds_after : ℕ → ℕ → ℤ → ℕ
seconds_after second start (pos n) = start + n * second
seconds_after second start (negsuc n) = start - suc n * second

-- The second timeout is set: an exception takes the place of the result.
abbrev pub unless_thrown : {A W : Type 0} → A → Attempted Unit × W → Option A × W
unless_thrown a (threw what, w) = (none, w)
unless_thrown a (gave u, w) = (some a, w)

module _ {W : Type 0} (os : System W) where
  -- The loop, with fuel for its rounds: the texts that `onUpdate` gets.
  unfoldable pub listening_loop : ℕ → ℕ → Socket → W → List Bytes × W
  listening_loop zero end_time s w = ([], w)
  listening_loop (suc fuel) end_time s w =
      let (got, w') = receive_data_from os s w in
      let rest = heard_update got w' (listening_loop fuel end_time s w') in
      if ltb (os.now w) end_time then rest else ([], w)

  -- What follows the first timeout. Each round takes a tick of the clock, or more.
  abbrev pub listening : ℕ → Socket → Attempted Unit × W → Option (List Bytes) × W
  listening end_time s (threw what, w) = (none, w)
  listening end_time s (gave u, w) =
      let (updates, w') = listening_loop (end_time - os.now w) end_time s w in
      unless_thrown updates (set_receive_timeout os timeout_sec s w')

  unfoldable pub listen_for_monitoring_updates : ℤ → Socket → W → Option (List Bytes) × W
  listen_for_monitoring_updates duration_seconds s w =
      listening (seconds_after os.second (os.now w) duration_seconds) s
        (set_receive_timeout os duration_seconds s w)
