-- ===== src/Client/NullPacket.antt =====
-- The packets that make `receiveResponse` use a null pointer: no others do.
use sc4051_dist_system_proj.Prelude.{ℕ, ◌≡◌, ◌↔◌, refl, [], Bytes, Option, none, some, take}
use sc4051_dist_system_proj.Result.{Result, ok, err}
use sc4051_dist_system_proj.Serializer.JavaDeserializer.{DeserializerState, deserialize}
use sc4051_dist_system_proj.Serializer.WellFormed.{deserialize-PointsInto, object_at-some}
use sc4051_dist_system_proj.Serializer.Null.{
  IsNullPacket, deserialize-IsNullPacket, IsNullPacket-deserialize,
}
use sc4051_dist_system_proj.RequestMessage.{RequestMessage, message_class, registered_classes}
use sc4051_dist_system_proj.Client.{
  datagram, returned, null_dereference, response_at, response_of, receive_response, buffer_size,
}

returned-ne-null : {A : Type 0} (a : A) → ¬ (returned a ≡ null_dereference)
returned-ne-null a h = cc

-- A result of the deserializer that makes the client use a null pointer is null itself.
response_of-null :
    (expected : ℕ) (bytes : Bytes) (r : Result (Option ℕ × DeserializerState RequestMessage))
    → deserialize registered_classes bytes ≡ r
    → response_of expected r ≡ null_dereference
    → (s : DeserializerState RequestMessage) × (r ≡ ok (none, s))
unfolding response_of response_at
response_of-null expected bytes (err e) taken h = absurd (returned-ne-null [] h)
response_of-null expected bytes (ok (none, s)) taken h = (s, refl)
response_of-null expected bytes (ok (some p, s)) taken h =
    let (w, inside) = deserialize-PointsInto registered_classes bytes (some p, s) taken in
    let (m, stored) = object_at-some s.store p inside in
    absurd (returned-ne-null _ (rw stored at h))

-- A datagram makes `receiveResponse` use a null pointer exactly when the bytes that the buffer
-- takes of it begin with the null marker 0 and end with the parity bit of the bytes before.
pub receive_response-null_iff :
    (expected : ℕ) (bytes : Bytes)
    → (receive_response expected (datagram bytes) ≡ null_dereference)
      ↔ IsNullPacket (take buffer_size bytes)
unfolding receive_response response_of
receive_response-null_iff expected bytes = (
  λ h.
      let (s, taken) = response_of-null expected (take buffer_size bytes) _ refl h in
      deserialize-IsNullPacket registered_classes (take buffer_size bytes) s taken,
  λ h. rw (IsNullPacket-deserialize registered_classes (take buffer_size bytes) h) refl,
)
