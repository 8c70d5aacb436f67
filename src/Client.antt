-- ===== src/Client.antt =====
-- Client/src/Client.cpp: requests over a lossy network. The network is an argument: what the socket
-- does in each attempt. What is written to `std::cerr` is left out.
pub mod Round
pub mod Attempts
pub mod Receive
pub mod NullPacket
pub mod PacketSize
pub mod Answers
pub mod Requests
pub mod Details
pub mod Connection
use sc4051_dist_system_proj.Prelude.{
  ℕ, zero, suc, ◌+◌, [], ◌∷◌, ◌++◌, List, Bytes, Bool, true, false, not, Option, none, some, codes,
  take, ltb, ◌==◌, if◌then◌else◌,
}
use sc4051_dist_system_proj.Prelude.Int.{ℤ, pos, negsuc, to_word}
use sc4051_dist_system_proj.Result.{Result, ok, err}
use sc4051_dist_system_proj.Serializer.JavaSerializer.{cleared, serialize}
use sc4051_dist_system_proj.Serializer.JavaDeserializer.{DeserializerState, object_at, deserialize}
use sc4051_dist_system_proj.RequestMessage.{RequestMessage, message_class, registered_classes}
use sc4051_dist_system_proj.ResponseParser.{status_error}

-- `Constants::MAX_RETRIES` and `Constants::BUFFER_SIZE`
abbrev pub max_retries : ℕ
max_retries = 5

abbrev pub buffer_size : ℕ
buffer_size = 1024

-- What `receiveDataFrom` does: it throws, as it does after the timeout, or it gets a datagram.
pub data Reception : Type 0 where
  failed : Reception
  datagram : Bytes → Reception

-- One attempt as the environment has it: whether `sendto` succeeds, and what comes back.
pub record Attempt : Type 0 where
  pub send_succeeds : Bool
  pub reception : Reception

-- The attempts by their number.
abbrev pub Network : Type 0
Network = ℕ → Attempt

-- How a call ends: it returns, it leaves the program by `exit(1)`, or it uses a null pointer, which
-- is undefined behaviour.
pub data Outcome (A : Type 0) : Type 0 where
  returned : A → Outcome A
  exited : Outcome A
  null_dereference : Outcome A

-- The member `requestID`, and the datagrams that were sent, the newest at the end.
pub record Client : Type 0 where
  pub request_id : ℤ
  pub sent : List Bytes

-- `requestID++`; the overflow after 2^31 requests is left out.
abbrev pub increment : ℤ → ℤ
increment (pos n) = pos (suc n)
increment (negsuc zero) = pos 0
increment (negsuc (suc n)) = negsuc n

-- The packet of a request. Its bytes do not depend on the address, nor on what the serializer held.
abbrev pub packet : RequestMessage → Bytes
packet request = (serialize (some (0, request)) cleared).0

-- The flag says whether `sendto` succeeds, the result whether the program goes on.
unfoldable pub send_request : RequestMessage → Bool → Bool → Client → Bool × Client
send_request request retry send_succeeds c =
    let c' : Client = if not retry then record c { request_id = increment c.request_id } else c in
    if send_succeeds
    then (true, record c' { sent = c'.sent ++ packet request ∷ [] })
    else (false, c')

-- `responseMessage->getRequestID() != expectedRequestID`: both sides are unsigned.
abbrev pub accept : ℕ → RequestMessage → Bytes
accept expected m =
    if not (to_word 0x8000_0000 m.request_id == expected) then [] else m.message_data

-- The pointer that `dynamic_pointer_cast` gives: every object that the client can make is a
-- `RequestMessage`.
unfoldable pub response_at : ℕ → Option RequestMessage → Outcome Bytes
response_at expected none = null_dereference
response_at expected (some m) = returned (accept expected m)

unfoldable pub response_of :
    ℕ → Result (Option ℕ × DeserializerState RequestMessage) → Outcome Bytes
response_of expected (err e) = returned []
response_of expected (ok (none, s)) = null_dereference
response_of expected (ok (some p, s)) = response_at expected (object_at s.store p)

-- `recvfrom` cuts a datagram to the size of the buffer. Exceptions give the empty text.
unfoldable pub receive_response : ℕ → Reception → Outcome Bytes
unfolding response_of response_at
receive_response expected failed = returned []
receive_response expected (datagram bytes) =
    response_of expected (deserialize registered_classes (take buffer_size bytes))

abbrev pub failure_text : Bytes
failure_text = status_error ++ codes "\nmessage:Request failed after 5 attempts."

-- The loop of `sendWithRetry`, on the rounds left and the number of the attempt.
unfoldable pub retry_loop : ℕ → ℕ → RequestMessage → Network → Client → Outcome Bytes × Client
retry_loop zero attempt request net c = (returned failure_text, c)
retry_loop (suc left) attempt request net c =
    let now = net attempt in
    let (goes_on, c') = send_request request (ltb 0 attempt) now.send_succeeds c in
    let rest = retry_loop left (attempt + 1) request net c' in
    if not goes_on
    then (exited, c')
    else elim (receive_response (to_word 0x8000_0000 request.request_id) now.reception) [
      | returned [] ↦ rest
      | returned (x ∷ text) ↦ (returned (x ∷ text), c')
      | exited ↦ (exited, c')
      | null_dereference ↦ (null_dereference, c')
    ]

unfoldable pub send_with_retry : RequestMessage → Network → Client → Outcome Bytes × Client
send_with_retry request net c = retry_loop max_retries 0 request net c
