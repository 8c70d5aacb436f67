-- ===== src/Serializer/JavaSerializer.antt =====
-- `JavaSerializer`. A pointer is null, or an address with the object that lies there. The static
-- members are passed as a state.
use sc4051_dist_system_proj.Prelude.{ℕ, suc, [], ◌∷◌, List, Bytes, Option, none, some, length, ◌==◌}
use sc4051_dist_system_proj.Prelude.Assoc
use sc4051_dist_system_proj.Prelude.Int.{pos, to_word, of_word}
use sc4051_dist_system_proj.Parity.{calculate_even_parity_bit}
use sc4051_dist_system_proj.ByteBuffer.{ByteBuffer, empty, write_byte, write_int, write_string}
use sc4051_dist_system_proj.Serializer.{JavaSerializable, FieldMetadata}

abbrev pub Pointer : Type 0 → Type 0
Pointer O = Option (ℕ × O)

-- Identifiers count the objects of one packet, which are far fewer than an `int` holds.
pub record SerializerState : Type 0 where
  pub serialized_objects : List (ℕ × ℕ)
  pub object_counter : ℕ

abbrev pub cleared : SerializerState
cleared = record { serialized_objects = []; object_counter = 0 }

-- The loop that writes the metadata of the fields.
unfoldable pub write_metadata : FieldMetadata → ByteBuffer → ByteBuffer
write_metadata [] b = b
write_metadata ((name, type) ∷ fields) b =
    write_metadata fields (write_string type (write_string name b))

module _ {O : Type 0} ⦃j : JavaSerializable O⦄ where
  -- The part of `serializeObject` after the new object marker.
  unfoldable pub write_new_object : O → ByteBuffer → ByteBuffer
  write_new_object object b =
      let b1 = write_string (j.get_java_class_name object) b in
      let fields = j.get_field_metadata object in
      let b2 = write_int (of_word 0x8000_0000 (to_word 0x8000_0000 (pos (length fields)))) b1 in
      j.serialize_field_values object (write_metadata fields b2)

  -- The branches on `serializedObjects.find(obj)`, with the marker that says which it is.
  write_found : Option ℕ → ℕ → O → SerializerState → ByteBuffer → ByteBuffer × SerializerState
  write_found (some id) address object s b = (write_int (pos id) (write_byte 1 b), s)
  write_found none address object s b = (
    write_new_object object (write_byte 0 b),
    record {
      serialized_objects = Assoc.insert ◌==◌ address s.object_counter s.serialized_objects;
      object_counter = suc s.object_counter;
    },
  )

  unfoldable pub serialize_object :
      Pointer O → SerializerState → ByteBuffer → ByteBuffer × SerializerState
  unfolding write_found
  serialize_object none s b = (write_byte 0 b, s)
  serialize_object (some (address, object)) s b =
      write_found (Assoc.lookup ◌==◌ address s.serialized_objects) address object s (write_byte 1 b)

  -- The static members are cleared first, so what they held does not matter.
  unfoldable pub serialize : Pointer O → SerializerState → Bytes × SerializerState
  serialize object s =
      let (written, s') = serialize_object object cleared empty in
      let parity_bit = calculate_even_parity_bit written.buffer in
      ((write_byte parity_bit written).buffer, s')
