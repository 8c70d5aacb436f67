-- ===== src/Tests/Calls.antt =====
-- The theorems on requests at concrete inputs.
use sc4051_dist_system_proj.Prelude.{
  ℕ, ◌+◌, ◌≤◌, ◌<◌, ◌≡◌, refl, take, ◌↔◌, ◌⊎◌, [], ◌∷◌, ◌++◌, Bytes, true, false, codes, length,
  arith,
}
use sc4051_dist_system_proj.Prelude.Assoc
use sc4051_dist_system_proj.Prelude.Int.{pos}
use sc4051_dist_system_proj.ByteBuffer.{write_byte, write_int, write_string, write_chars}
use sc4051_dist_system_proj.RequestMessage.{serialize_field_values, write_data}
use sc4051_dist_system_proj.Serializer.JavaSerializer.{
  serialize, serialize_object, write_new_object, write_metadata,
}
use sc4051_dist_system_proj.Client.{
  failed, datagram, receive_response, returned, null_dereference, packet, send_with_retry,
  failure_text, buffer_size,
}
use sc4051_dist_system_proj.Parity.{calculate_even_parity_bit, verify_even_parity}
use sc4051_dist_system_proj.Client.NullPacket.{receive_response-null_iff}
use sc4051_dist_system_proj.Client.PacketSize.{data_size, packet-Sized}
use sc4051_dist_system_proj.Serializer.Null.{IsNullPacket}
use sc4051_dist_system_proj.Client.Round.{expected_id}
use sc4051_dist_system_proj.Client.Receive.{IsReply, receive_response-flip}
use sc4051_dist_system_proj.Parity.Detect.{flip, IsByteString}
use sc4051_dist_system_proj.Client.Attempts.{Sent, send_with_retry-Sent}
use sc4051_dist_system_proj.Client.Answers.{
  send_with_retry-answered, send_with_retry-silent, send_with_retry-null, send_with_retry-IsReply,
}
use sc4051_dist_system_proj.Tests.Samples.{
  a_request, a_reply, a_reply-IsMessage, a_client, down, down-AreSilent, second_try,
  second_try-AreSilent,
}

reply_fits : length (packet a_reply) ≤ buffer_size
unfolding serialize serialize_object write_new_object write_metadata write_string write_chars
    write_int write_byte serialize_field_values write_data Assoc.lookup
reply_fits = omega arith

send_with_retry-answered_example :
    (send_with_retry a_request (second_try (packet a_reply)) a_client).0
    ≡ returned (codes "status:SUCCESS")
send_with_retry-answered_example =
    send_with_retry-answered 1 a_request a_reply (second_try (packet a_reply)) a_client
      (omega arith) (second_try-AreSilent (packet a_reply)) refl refl a_reply-IsMessage reply_fits
      refl (λ e. cc)

send_with_retry-silent_example : (send_with_retry a_request down a_client).0 ≡ returned failure_text
send_with_retry-silent_example = send_with_retry-silent a_request down a_client down-AreSilent

null_parity : verify_even_parity (0 ∷ []) 0 ≡ true
unfolding verify_even_parity calculate_even_parity_bit
null_parity = refl

send_with_retry-null_example :
    (send_with_retry a_request (second_try (0 ∷ 0 ∷ [])) a_client).0 ≡ null_dereference
send_with_retry-null_example =
    send_with_retry-null 1 [] 0 a_request (second_try (0 ∷ 0 ∷ [])) a_client (omega arith)
      (second_try-AreSilent (0 ∷ 0 ∷ [])) refl refl (omega arith) null_parity

send_with_retry-Sent_example :
    (times : ℕ) × Sent a_request (pos 8) times a_client (send_with_retry a_request down a_client).1
    × (times ≤ 5)
    × ((true ≡ false) ⊎ (1 ≤ times))
send_with_retry-Sent_example = send_with_retry-Sent a_request down a_client

send_with_retry-IsReply_example :
    (failure_text ≡ failure_text)
    ⊎ ((i : ℕ) × (i < 5) × (true ≡ true) × IsReply (expected_id a_request) failed failure_text)
send_with_retry-IsReply_example =
    send_with_retry-IsReply a_request down a_client failure_text send_with_retry-silent_example

one_parity : verify_even_parity (1 ∷ 0 ∷ []) 1 ≡ true
unfolding verify_even_parity calculate_even_parity_bit
one_parity = refl

receive_response-flip_example :
    receive_response 7 (datagram (flip ((1 ∷ 0 ∷ []) ++ 1 ∷ []) (record { index = 1; place = 3 })))
    ≡ returned []
receive_response-flip_example =
    receive_response-flip 7 (1 ∷ 0 ∷ []) 1 (record { index = 1; place = 3 }) (omega arith)
      (omega arith) one_parity (omega arith) (omega arith)

-- The details of a booking, and a move by an hour and a half to an earlier time.
abbrev details : Bytes
details = codes "status:SUCCESS\nfacility:Gym\nday:MONDAY\nstartTime:0930\nendTime:1015"

receive_response-null_iff_example :
    (receive_response 7 (datagram (0 ∷ 5 ∷ 0 ∷ [])) ≡ null_dereference)
    ↔ IsNullPacket (take buffer_size (0 ∷ 5 ∷ 0 ∷ []))
receive_response-null_iff_example = receive_response-null_iff 7 (0 ∷ 5 ∷ 0 ∷ [])

packet-Sized_example :
    IsByteString (packet a_reply)
    × (length (packet a_reply) ≡ 110 + data_size (codes "status:SUCCESS"))
packet-Sized_example = packet-Sized a_reply a_reply-IsMessage (omega arith)
