-- ===== src/RequestMessage/RoundTrip.antt =====
-- `RequestMessage` keeps the contract of the serializer, so messages survive the wire.
use sc4051_dist_system_proj.Prelude.{
  ℕ, ◌^◌, ◌<◌, ◌≡◌, refl, [], ◌∷◌, ◌++◌, Bytes, some, length, append_assoc, arith,
}
use sc4051_dist_system_proj.Prelude.Assoc
use sc4051_dist_system_proj.Prelude.Int.{IsInt32}
use sc4051_dist_system_proj.Result.{ok}
use sc4051_dist_system_proj.ByteBuffer.{ByteBuffer, write_byte}
use sc4051_dist_system_proj.ByteBuffer.Layout.{
  int_bytes, string_bytes, write_int_lem, write_string_lem,
}
use sc4051_dist_system_proj.ByteReader.Reads.{
  Reads, Reads-pure, Reads-bind, Reads-bind_last, Reads-byte,
}
use sc4051_dist_system_proj.ByteReader.RoundTrip.{Reads-int, Reads-string}
use sc4051_dist_system_proj.Serializer.ObjectFactory.{create_object, register_class}
use sc4051_dist_system_proj.Serializer.JavaSerializer.{SerializerState, serialize}
use sc4051_dist_system_proj.Serializer.JavaDeserializer.{DeserializerState, object_at, deserialize}
use sc4051_dist_system_proj.Serializer.RoundTrip.{IsFaithful, deserialize-serialize}
use sc4051_dist_system_proj.RequestMessage.{
  RequestMessage, default_message, write_data, read_data, serialize_field_values,
  deserialize_fields, message_class, registered_classes,
}

-- The values that the members can hold, with a text short enough for its length to be an `int32_t`.
pub record IsMessage (m : RequestMessage) : Type 0 where
  pub type_range : IsInt32 m.request_type
  pub id_range : IsInt32 m.request_id
  pub short_data : length m.message_data < 2 ^ 31

unfoldable pub data_bytes : Bytes → Bytes
data_bytes [] = 0 ∷ []
data_bytes (c ∷ text) = 1 ∷ string_bytes (c ∷ text)

pub write_data_lem :
    (text : Bytes) (b : ByteBuffer) → (write_data text b).buffer ≡ b.buffer ++ data_bytes text
unfolding write_data data_bytes write_byte
write_data_lem [] b = refl
write_data_lem (c ∷ text) b = simp (write_string_lem, append_assoc)

Reads-data : (text : Bytes) → length text < 2 ^ 31 → Reads read_data (data_bytes text) text
unfolding read_data data_bytes
Reads-data [] h = Reads-bind_last _ (Reads-byte 0) (Reads-pure [])
Reads-data (c ∷ text) h = Reads-bind _ (Reads-byte 1) (Reads-string (c ∷ text) h)

pub RequestMessage-IsFaithful : (m : RequestMessage) → IsMessage m → IsFaithful registered_classes m
unfolding create_object register_class Assoc.lookup Assoc.insert
RequestMessage-IsFaithful m h = record {
  initial = default_message;
  registered = refl;
  same_metadata = refl;
  short_name = omega arith;
  short_metadata = omega arith;
  few_fields = omega arith;
  field_bytes = int_bytes m.request_type ++ (int_bytes m.request_id ++ data_bytes m.message_data);
  writes = λ b. unfold serialize_field_values in simp (write_data_lem, write_int_lem, append_assoc);
  reads =
      unfold deserialize_fields in
      Reads-bind _ (Reads-int m.request_type h.type_range) (
        Reads-bind _ (Reads-int m.request_id h.id_range)
          (Reads-bind_last _ (Reads-data m.message_data h.short_data) (Reads-pure m)));
}

-- A message whose members are in range, sent by `serialize` and taken by `deserialize` with the
-- class that the client registers, comes out equal: the result is a pointer to it.
pub message_round_trip :
    (m : RequestMessage) (address : ℕ) (s : SerializerState)
    → IsMessage m
    → (st : DeserializerState RequestMessage) × (deserialize registered_classes
          (serialize (some (address, m)) s).0
        ≡ ok (some 0, st))
      × (object_at st.store 0 ≡ some m)
unfolding object_at
message_round_trip m address s h =
    (_, deserialize-serialize registered_classes m (RequestMessage-IsFaithful m h) address s, refl)
