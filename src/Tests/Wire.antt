-- ===== src/Tests/Wire.antt =====
-- The theorems on the wire format at concrete inputs.
use sc4051_dist_system_proj.Prelude.{
  ◌%◌, ◌≡◌, refl, [], ◌∷◌, ◌++◌, List, true, some, codes, ◌==◌, length, arith,
}
use sc4051_dist_system_proj.Prelude.Int.{pos, negsuc}
use sc4051_dist_system_proj.Result.{ok, err, parity_check_failed, buffer_overflow}
use sc4051_dist_system_proj.Parity.{calculate_even_parity_bit, verify_even_parity}
use sc4051_dist_system_proj.Parity.Count.{total_ones, calculate_even_parity_bit_lem}
use sc4051_dist_system_proj.Parity.Detect.{BitPosition, flip, flip_all, verify_even_parity-flip_all}
use sc4051_dist_system_proj.ByteBuffer.Layout.{big_endian, int_bytes}
use sc4051_dist_system_proj.ByteReader.Truncated.{read_string-short}
use sc4051_dist_system_proj.ByteReader.{
  ByteReader, byte_reader, get_buffer, read_int, read_long, read_double, read_string,
}
use sc4051_dist_system_proj.ByteReader.Reads.{Reads}
use sc4051_dist_system_proj.ByteReader.Written.{Reads-written}
use sc4051_dist_system_proj.ByteBuffer.{empty, write_int, write_long, write_double, write_string}
use sc4051_dist_system_proj.Serializer.JavaSerializer.{cleared, serialize}
use sc4051_dist_system_proj.Serializer.JavaDeserializer.{
  DeserializerState, fresh_state, object_at, deserialize_object, deserialize,
}
use sc4051_dist_system_proj.ByteReader.Yields.{Yields}
use sc4051_dist_system_proj.Serializer.WellFormed.{IsGood, deserialize_object-IsGood}
use sc4051_dist_system_proj.Serializer.RoundTrip.{IsFaithful, with_object, deserialize-serialize}
use sc4051_dist_system_proj.Serializer.Corruption.{deserialize-flip}
use sc4051_dist_system_proj.Serializer.Sharing.{write_two, read_two, read_two-write_two}
use sc4051_dist_system_proj.RequestMessage.{RequestMessage, message_class, registered_classes}
use sc4051_dist_system_proj.RequestMessage.RoundTrip.{RequestMessage-IsFaithful, message_round_trip}
use sc4051_dist_system_proj.Tests.Samples.{a_request, a_request-IsMessage}

calculate_even_parity_bit_lem_example :
    calculate_even_parity_bit (7 ∷ 3 ∷ []) ≡ total_ones (7 ∷ 3 ∷ []) % 2
calculate_even_parity_bit_lem_example = calculate_even_parity_bit_lem (7 ∷ 3 ∷ []) (omega arith)

abbrev two_flips : List BitPosition
two_flips = record { index = 0; place = 1 } ∷ record { index = 1; place = 6 } ∷ []

verify_even_parity-flip_all_example :
    verify_even_parity (flip_all (7 ∷ 3 ∷ []) two_flips) (calculate_even_parity_bit (7 ∷ 3 ∷ []))
    ≡ (length two_flips % 2 == 0)
verify_even_parity-flip_all_example =
    verify_even_parity-flip_all (7 ∷ 3 ∷ []) two_flips (omega arith) (omega arith)

Reads-written_example :
    Reads read_int (write_int (negsuc 1) empty).buffer (negsuc 1)
    × Reads read_long (write_long (negsuc 1) empty).buffer (negsuc 1)
    × Reads read_double (write_double 5 empty).buffer 5
    × Reads read_string (write_string (codes "ab") empty).buffer (codes "ab")
Reads-written_example =
    Reads-written (negsuc 1) (negsuc 1) 5 (codes "ab") (omega arith) (omega arith) (omega arith)
      (omega arith)

message_round_trip_example :
    (st : DeserializerState RequestMessage) × (deserialize registered_classes
        (serialize (some (12, a_request)) cleared).0
      ≡ ok (some 0, st))
    × (object_at st.store 0 ≡ some a_request)
message_round_trip_example = message_round_trip a_request 12 cleared a_request-IsMessage

abbrev faithful : IsFaithful registered_classes a_request
faithful = RequestMessage-IsFaithful a_request a_request-IsMessage

deserialize-serialize_example :
    deserialize registered_classes (serialize (some (12, a_request)) cleared).0
    ≡ ok (some 0, with_object registered_classes a_request faithful fresh_state)
deserialize-serialize_example =
    deserialize-serialize registered_classes a_request faithful 12 cleared

one_parity : verify_even_parity (1 ∷ 0 ∷ []) 1 ≡ true
unfolding verify_even_parity calculate_even_parity_bit
one_parity = refl

deserialize-flip_example :
    deserialize registered_classes (flip ((1 ∷ 0 ∷ []) ++ 1 ∷ []) (record { index = 2; place = 3 }))
    ≡ err parity_check_failed
deserialize-flip_example =
    deserialize-flip registered_classes (1 ∷ 0 ∷ []) 1 (record { index = 2; place = 3 })
      (omega arith) (omega arith) one_parity (omega arith)

read_two-write_two_example :
    Reads
      (read_two registered_classes)
      (write_two (some (12, a_request)) (some (12, a_request))).buffer
      (some 0, some 0, with_object registered_classes a_request faithful fresh_state)
read_two-write_two_example = read_two-write_two registered_classes a_request faithful 12

abbrev short_reader : ByteReader
short_reader = byte_reader (0 ∷ 0 ∷ 0 ∷ 3 ∷ 7 ∷ [])

short_unread : get_buffer short_reader ≡ int_bytes (pos 3) ++ 7 ∷ []
unfolding get_buffer big_endian
short_unread = refl

read_string-short_example : read_string short_reader ≡ err buffer_overflow
read_string-short_example =
    read_string-short 3 (7 ∷ []) short_reader short_unread (omega arith) (omega arith)

-- The tables after one object.
abbrev one_object : DeserializerState RequestMessage
one_object = record {
  store = a_request ∷ [];
  deserialized_objects = (pos 0, 0) ∷ [];
  object_counter = 1;
}

deserialize_object-IsGood_example :
    Yields (deserialize_object registered_classes one_object) (IsGood one_object)
deserialize_object-IsGood_example =
    deserialize_object-IsGood registered_classes one_object
      (record { inside = (omega arith, tt); counted = refl })
