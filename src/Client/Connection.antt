-- ===== src/Client/Connection.antt =====
-- Client/src/Client.cpp on a socket: the requests as calls of the operating system. What is written
-- to `std::cerr` is left out.
pub mod Networks
pub mod Refines
pub mod Listening
pub mod Monitoring
pub mod Updates
pub mod Opening
pub mod Lifecycle
use sc4051_dist_system_proj.Prelude.{
  ℕ, zero, suc, ◌+◌, [], ◌∷◌, Bytes, Bool, true, false, not, take, ltb, if◌then◌else◌,
}
use sc4051_dist_system_proj.Prelude.Int.{ℤ, pos, negsuc, to_word}
use sc4051_dist_system_proj.Serializer.JavaDeserializer.{deserialize}
use sc4051_dist_system_proj.RequestMessage.{RequestMessage, message_class, registered_classes}
use sc4051_dist_system_proj.Client.{
  Outcome, returned, exited, null_dereference, increment, packet, response_of, failure_text,
  max_retries,
}
use sc4051_dist_system_proj.Socket.{
  System, Address, Socket, Attempted, threw, gave, send_data_to, receive_data_from,
}

-- The members of the class `Client`.
pub record Connection : Type 0 where
  pub request_id : ℤ
  pub socket : Socket
  pub client_addr : Address
  pub server_addr : Address

-- The vector that is made of the first bytes of the buffer.
abbrev pub received : ℤ → Bytes → Bytes
received (pos n) buffer = take n buffer
received (negsuc n) buffer = []

-- The body of the `try` block, and the `catch`.
unfoldable pub response_from : ℕ → Attempted (ℤ × Bytes) → Outcome Bytes
response_from expected (threw what) = returned []
response_from expected (gave (bytes_received, buffer)) =
    response_of expected (deserialize registered_classes (received bytes_received buffer))

abbrev pub is_given : {A : Type 0} → Attempted A → Bool
is_given (threw what) = false
is_given (gave a) = true

module _ {W : Type 0} (os : System W) where
  -- The flag says whether the program goes on.
  unfoldable pub send_request : RequestMessage → Bool → Connection → W → Bool × Connection × W
  send_request request retry c w =
      let c' : Connection =
        if not retry then record c { request_id = increment c.request_id } else c in
      let (done, w') = send_data_to os (packet request) c'.server_addr c'.socket w in
      (is_given done, c', w')

  unfoldable pub receive_response : ℕ → Connection → W → Outcome Bytes × W
  receive_response expected c w =
      let (got, w') = receive_data_from os c.socket w in (response_from expected got, w')

  -- The loop of `sendWithRetry`, on the rounds left and the number of the attempt.
  unfoldable pub retry_loop :
      ℕ → ℕ → RequestMessage → Connection → W → Outcome Bytes × Connection × W
  retry_loop zero attempt request c w = (returned failure_text, c, w)
  retry_loop (suc left) attempt request c w =
      let (goes_on, c', sent) = send_request request (ltb 0 attempt) c w in
      let (response, heard) = receive_response (to_word 0x8000_0000 request.request_id) c' sent in
      let rest = retry_loop left (attempt + 1) request c' heard in
      if not goes_on then (exited, c', sent) else elim response [
        | returned [] ↦ rest
        | returned (x ∷ text) ↦ (returned (x ∷ text), c', heard)
        | exited ↦ (exited, c', heard)
        | null_dereference ↦ (null_dereference, c', heard)
      ]

  unfoldable pub send_with_retry : RequestMessage → Connection → W → Outcome Bytes × Connection × W
  send_with_retry request c w = retry_loop max_retries 0 request c w
