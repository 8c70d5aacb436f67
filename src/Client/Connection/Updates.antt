-- ===== src/Client/Connection/Updates.antt =====
-- The updates of a monitoring on a socket are those over a network, and nothing is sent or closed.
use sc4051_dist_system_proj.Prelude.{
  ℕ, zero, suc, ◌-◌, ◌≤◌, ◌≡◌, refl, sym, ap, ◌∙◌, [], ◌∷◌, List, Bytes, Option, none, some, length,
  take, ltb, Bool-cases, inl, inr, arith,
}
use sc4051_dist_system_proj.Prelude.Int.{ℤ, pos, negsuc}
use sc4051_dist_system_proj.Client.{Reception, datagram, buffer_size}
use sc4051_dist_system_proj.Client.Receive.{take_all}
use sc4051_dist_system_proj.Client.Requests
use sc4051_dist_system_proj.Client.Requests.{listened}
use sc4051_dist_system_proj.Socket.{
  System, Socket, Attempted, threw, gave, is_minus_one, is_negative, receive_data_from,
  set_receive_timeout,
}
use sc4051_dist_system_proj.Socket.Logged.{World, logged}
use sc4051_dist_system_proj.Client.Connection.Opening.{timeout_sec}
use sc4051_dist_system_proj.Client.Connection.Listening.{
  heard_update, unless_thrown, listening_loop, listening, seconds_after,
  listen_for_monitoring_updates,
}
use sc4051_dist_system_proj.Client.Connection.Lifecycle.{Kept, Kept-trans}
use sc4051_dist_system_proj.Client.Connection.Refines.{IsBounded, reception, length-take}

Kept-refl : {W : Type 0} (w : World W) → Kept w w
Kept-refl w = record { sent = refl; closed = refl }

abbrev updates_of : List Reception → List Bytes
updates_of receptions = Requests.listen_for_monitoring_updates receptions

heard_update-Kept :
    {W : Type 0} (got : Attempted (ℤ × Bytes)) (w w' : World W) (rest : List Bytes × World W)
    → Kept w w'
    → Kept w' rest.1
    → Kept w (heard_update got w' rest).1
heard_update-Kept (threw what) w w' rest p q = p
heard_update-Kept (gave (pos zero, buffer)) w w' rest p q = Kept-trans p q
heard_update-Kept (gave (pos (suc n), buffer)) w w' rest p q = Kept-trans p q
heard_update-Kept (gave (negsuc n, buffer)) w w' rest p q = Kept-trans p q

module _ {W : Type 0} (os : System W) (bounded : IsBounded os) where
  -- A datagram of some bytes is handed on as it is.
  positive_datagram :
      (n : ℕ) (buffer : Bytes) (receptions : List Reception)
      → suc n ≤ buffer_size
      → suc n ≤ length buffer
      → updates_of (datagram (take (suc n) buffer) ∷ receptions)
        ≡ take (suc n) buffer ∷ updates_of receptions
  unfolding Requests.listen_for_monitoring_updates
  positive_datagram n [] receptions small enough = absurd (omega (arith, enough))
  positive_datagram n (b ∷ buffer) receptions small enough =
      ap (λ text. text ∷ updates_of receptions)
        (take_all (b ∷ take n buffer) buffer_size (omega (arith, small, length-take n buffer)))

  heard_update-reception :
      (s : Socket) (w : World W) (rest : List Bytes × World W) (receptions : List Reception)
      → rest.0 ≡ updates_of receptions
      → (heard_update
          (receive_data_from (logged os) s w).0
          (receive_data_from (logged os) s w).1
          rest).0
        ≡ updates_of (reception (receive_data_from (logged os) s w).0 ∷ receptions)
  unfolding receive_data_from logged Requests.listen_for_monitoring_updates
  heard_update-reception s w rest receptions h = by_result _ _ _ refl
    where
      by_result :
          (n : ℤ) (buffer : Bytes) (v : W)
          → os.recvfrom s.sockfd buffer_size w.outside ≡ (n, buffer, v)
          → (heard_update
              (receive_data_from (logged os) s w).0
              (receive_data_from (logged os) s w).1
              rest).0
            ≡ updates_of (reception (receive_data_from (logged os) s w).0 ∷ receptions)
      by_result (pos zero) buffer v e = rw e h
      by_result (negsuc n) buffer v e = rw e refl
      by_result (pos (suc n)) buffer v e =
          let (small, enough) = bounded _ _ (suc n) buffer _ v e in
          rw e (
            ap (λ texts. take (suc n) buffer ∷ texts) h
            ∙ sym (positive_datagram n buffer receptions small enough))

  pub receive_data_from-Kept :
      (s : Socket) (w : World W) → Kept w (receive_data_from (logged os) s w).1
  unfolding receive_data_from logged
  receive_data_from-Kept s w =
      elim (Bool-cases (is_negative (os.recvfrom s.sockfd buffer_size w.outside).0)) [
        | inl h ↦ rw h (record { sent = refl; closed = refl })
        | inr h ↦ rw h (record { sent = refl; closed = refl })
      ]

  listening_loop-updates :
      (fuel end_time : ℕ) (s : Socket) (w : World W)
      → (receptions : List Reception) × ((listening_loop (logged os) fuel end_time s w).0
          ≡ updates_of receptions)
        × Kept w (listening_loop (logged os) fuel end_time s w).1
  unfolding listening_loop Requests.listen_for_monitoring_updates
  listening_loop-updates zero end_time s w = ([], refl, Kept-refl w)
  listening_loop-updates (suc fuel) end_time s w =
      let (got, w') = receive_data_from (logged os) s w in
      let (receptions, same, kept) = listening_loop-updates fuel end_time s w' in
      elim (Bool-cases (ltb ((logged os).now w) end_time)) [
        | inl early ↦ (
          reception got ∷ receptions,
          rw early (
              heard_update-reception s w (listening_loop (logged os) fuel end_time s w') receptions
                same),
          rw early (heard_update-Kept got w w' _ (receive_data_from-Kept s w) kept),
        )
        | inr late ↦ ([], rw late refl, rw late (Kept-refl w))
      ]

  set_receive_timeout-Kept :
      (seconds : ℤ) (s : Socket) (w : World W)
      → Kept w (set_receive_timeout (logged os) seconds s w).1
  unfolding set_receive_timeout logged
  set_receive_timeout-Kept seconds s w =
      elim (Bool-cases (is_minus_one (os.setsockopt s.sockfd seconds w.outside).0)) [
        | inl h ↦ rw h (record { sent = refl; closed = refl })
        | inr h ↦ rw h (record { sent = refl; closed = refl })
      ]

  -- Some list of receptions, or an exception, gives the result, and nothing was sent or closed.
  abbrev pub IsListened : World W → Option (List Bytes) × World W → Type 0
  IsListened w (texts, w') =
      (listening : Option (List Reception)) × (texts ≡ listened listening) × Kept w w'

  unless_thrown-IsListened :
      (w : World W) (updates : List Bytes) (receptions : List Reception)
      (ended : Attempted Unit × World W)
      → updates ≡ updates_of receptions
      → Kept w ended.1
      → IsListened w (unless_thrown updates ended)
  unless_thrown-IsListened w updates receptions (threw what, w') same kept = (none, refl, kept)
  unless_thrown-IsListened w updates receptions (gave u, w') same kept =
      (some receptions, ap some same, kept)

  listening-IsListened :
      (end_time : ℕ) (s : Socket) (w : World W) (begun : Attempted Unit × World W)
      → Kept w begun.1
      → IsListened w (listening (logged os) end_time s begun)
  listening-IsListened end_time s w (threw what, w') kept = (none, refl, kept)
  listening-IsListened end_time s w (gave u, w') kept =
      let fuel = end_time - (logged os).now w' in
      let (receptions, same, kept') = listening_loop-updates fuel end_time s w' in
      let ran = listening_loop (logged os) fuel end_time s w' in
      unless_thrown-IsListened w ran.0 receptions
        (set_receive_timeout (logged os) timeout_sec s ran.1) same
        (Kept-trans (Kept-trans kept kept') (set_receive_timeout-Kept timeout_sec s ran.1))

  pub listen_for_monitoring_updates-IsListened :
      (duration : ℤ) (s : Socket) (w : World W)
      → IsListened w (listen_for_monitoring_updates (logged os) duration s w)
  unfolding listen_for_monitoring_updates
  listen_for_monitoring_updates-IsListened duration s w =
      listening-IsListened (seconds_after (logged os).second ((logged os).now w) duration) s w
        (set_receive_timeout (logged os) duration s w) (set_receive_timeout-Kept duration s w)
