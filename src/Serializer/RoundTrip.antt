-- ===== src/Serializer/RoundTrip.antt =====
-- A packet that `JavaSerializer` makes, `JavaDeserializer` reads back.
use sc4051_dist_system_proj.Prelude.{
  ℕ, suc, ◌^◌, ◌<◌, ◌≡◌, refl, sym, ◌∙◌, [], ◌∷◌, ◌++◌, Bytes, none, some, true, length, All,
  same_refl, ==_iff, ◌==◌, append_assoc, append-nil,
}
use sc4051_dist_system_proj.Prelude.Assoc
use sc4051_dist_system_proj.Prelude.Int.{pos, of_word-to_word_32}
use sc4051_dist_system_proj.Result.{ok}
use sc4051_dist_system_proj.Parity.{calculate_even_parity_bit, verify_even_parity}
use sc4051_dist_system_proj.ByteBuffer.{ByteBuffer, empty, write_byte, write_string}
use sc4051_dist_system_proj.ByteBuffer.Layout.{
  int_bytes, string_bytes, write_int_lem, write_string_lem,
}
use sc4051_dist_system_proj.ByteReader.{byte_reader, get_buffer}
use sc4051_dist_system_proj.ByteReader.Reads.{
  Reads, Reads-pure, Reads-bind, Reads-bind_last, Reads-byte,
}
use sc4051_dist_system_proj.ByteReader.RoundTrip.{Reads-int, Reads-string}
use sc4051_dist_system_proj.Serializer.{JavaSerializable, FieldMetadata}
use sc4051_dist_system_proj.Serializer.ObjectFactory.{Creators, create_object}
use sc4051_dist_system_proj.Serializer.JavaSerializer.{
  SerializerState, write_metadata, write_new_object, cleared, serialize_object, serialize,
}
use sc4051_dist_system_proj.Serializer.JavaDeserializer.{
  DeserializerState, same_int, fresh_state, check_metadata, read_object_of, read_new_object,
  deserialize_object, split_last-append, deserialize,
}

abbrev pub IsShort : Bytes → Type 0
IsShort str = length str < 2 ^ 31

unfoldable pub metadata_bytes : FieldMetadata → Bytes
metadata_bytes [] = []
metadata_bytes ((name, type) ∷ fields) =
    string_bytes name ++ (string_bytes type ++ metadata_bytes fields)

write_metadata_lem :
    (fields : FieldMetadata) (b : ByteBuffer)
    → (write_metadata fields b).buffer ≡ b.buffer ++ metadata_bytes fields
unfolding write_metadata metadata_bytes
write_metadata_lem [] b = sym (append-nil b.buffer)
write_metadata_lem ((name, type) ∷ fields) b =
    write_metadata_lem fields (write_string type (write_string name b))
    ∙ simp (write_string_lem, append_assoc)

Reads-metadata :
    (fields : FieldMetadata)
    → All (λ f. IsShort f.0 × IsShort f.1) fields
    → Reads (check_metadata fields) (metadata_bytes fields) tt
unfolding check_metadata metadata_bytes
Reads-metadata [] h = Reads-pure tt
Reads-metadata ((name, type) ∷ fields) h = Reads-bind _ (Reads-string name h.0.0) (
    Reads-bind _ (Reads-string type h.0.1)
      (rw (same_refl name, same_refl type) (Reads-metadata fields h.1)))

-- What the interface owes for a round trip: the class of `object` is registered with an initial
-- object that has the same metadata, and its two methods for field values agree.
pub record IsFaithful {O : Type 0} ⦃j : JavaSerializable O⦄ (creators : Creators O) (object : O)
    : Type 0 where
  pub initial : O
  pub registered : create_object creators (j.get_java_class_name object) ≡ ok initial
  pub same_metadata : j.get_field_metadata initial ≡ j.get_field_metadata object
  pub short_name : IsShort (j.get_java_class_name object)
  pub short_metadata : All (λ f. IsShort f.0 × IsShort f.1) (j.get_field_metadata object)
  pub few_fields : length (j.get_field_metadata object) < 2 ^ 31
  pub field_bytes : Bytes
  pub writes :
      (b : ByteBuffer) → (j.serialize_field_values object b).buffer ≡ b.buffer ++ field_bytes
  pub reads : Reads (j.deserialize_fields initial) field_bytes object

module _ {O : Type 0} ⦃j : JavaSerializable O⦄ (creators : Creators O) (object : O)
    (f : IsFaithful creators object) where
  -- A new object behind its two markers.
  abbrev pub body_bytes : Bytes
  body_bytes =
      string_bytes (j.get_java_class_name object)
      ++ (int_bytes (pos (length (j.get_field_metadata object)))
          ++ (metadata_bytes (j.get_field_metadata object) ++ f.field_bytes))

  write_new_object_lem :
      (b : ByteBuffer) → (write_new_object object b).buffer ≡ b.buffer ++ body_bytes
  unfolding write_new_object
  write_new_object_lem b =
      let cast = of_word-to_word_32 (pos (length (j.get_field_metadata object))) f.few_fields in
      f.writes _ ∙ simp (write_metadata_lem, write_int_lem, write_string_lem, cast, append_assoc)

  abbrev pub with_object : DeserializerState O → DeserializerState O
  with_object s = record {
    store = s.store ++ object ∷ [];
    deserialized_objects =
        Assoc.insert same_int (pos s.object_counter) (length s.store) s.deserialized_objects;
    object_counter = suc s.object_counter;
  }

  Reads-read_object_of :
      (s : DeserializerState O)
      → Reads
          (read_object_of creators s f.initial)
          (int_bytes (pos (length (j.get_field_metadata object)))
            ++ (metadata_bytes (j.get_field_metadata object) ++ f.field_bytes))
          (some (length s.store), with_object s)
  unfolding read_object_of
  Reads-read_object_of s =
      Reads-bind _ (Reads-int (pos (length (j.get_field_metadata object))) f.few_fields) (
        rw (f.same_metadata, (==_iff _ _).1 refl)
          (Reads-bind _ (Reads-metadata (j.get_field_metadata object) f.short_metadata)
            (Reads-bind_last _ f.reads (Reads-pure _))))

  pub Reads-new_object :
      (s : DeserializerState O)
      → Reads
          (deserialize_object creators s)
          (1 ∷ 0 ∷ body_bytes)
          (some (length s.store), with_object s)
  unfolding deserialize_object read_new_object
  Reads-new_object s = Reads-bind _ (Reads-byte 1) (
      Reads-bind _ (Reads-byte 0) (
        Reads-bind _ (Reads-string (j.get_java_class_name object) f.short_name)
          (rw f.registered (Reads-bind _ (Reads-pure f.initial) (Reads-read_object_of s)))))

  -- The bytes of a packet that holds one new object, but for the parity bit.
  pub serialize_object_lem :
      (address : ℕ) (s : SerializerState) (b : ByteBuffer)
      → Assoc.lookup ◌==◌ address s.serialized_objects ≡ none
      → (serialize_object (some (address, object)) s b).0.buffer ≡ b.buffer ++ (1 ∷ 0 ∷ body_bytes)
  unfolding serialize_object write_byte
  serialize_object_lem address s b new = rw new (write_new_object_lem _ ∙ simp append_assoc)

verify_own_bit : (bytes : Bytes) → verify_even_parity bytes (calculate_even_parity_bit bytes) ≡ true
unfolding verify_even_parity
verify_own_bit bytes = (==_iff _ _).1 refl

module _ {O : Type 0} ⦃j : JavaSerializable O⦄ (creators : Creators O) (object : O)
    (f : IsFaithful creators object) where
  pub serialize_lem :
      (address : ℕ) (s : SerializerState)
      → (serialize (some (address, object)) s).0
        ≡ (1 ∷ 0 ∷ body_bytes creators object f)
          ++ calculate_even_parity_bit (1 ∷ 0 ∷ body_bytes creators object f) ∷ []
  unfolding serialize write_byte Assoc.lookup
  serialize_lem address s = rw (serialize_object_lem creators object f address cleared empty refl)

  -- `serialize` makes a packet from a non-null pointer to an object whose class keeps its
  -- contract; `deserialize` takes it, and returns a pointer to an equal object, the only one made.
  pub deserialize-serialize :
      (address : ℕ) (s : SerializerState)
      → deserialize creators (serialize (some (address, object)) s).0
        ≡ ok (some 0, with_object creators object f fresh_state)
  unfolding deserialize
  deserialize-serialize address s =
      let body = body_bytes creators object f in
      let parity = calculate_even_parity_bit (1 ∷ 0 ∷ body) in
      let read =
        (Reads-new_object creators object f fresh_state).at
          (byte_reader ((1 ∷ 0 ∷ body) ++ parity ∷ [])) (parity ∷ []) (unfold get_buffer in refl) in
      rw (serialize_lem address s) (
        rw (split_last-append 1 (0 ∷ body) parity, verify_own_bit (1 ∷ 0 ∷ body), read.returned)
          refl)

module _ {O : Type 0} ⦃j : JavaSerializable O⦄ (creators : Creators O) where
  -- A packet that begins with the null marker 0 and has the right parity bit is taken as the null
  -- pointer, whatever stands between the two, and no object is made.
  pub deserialize-null :
      (rest : Bytes) (parity_bit : ℕ)
      → verify_even_parity (0 ∷ rest) parity_bit ≡ true
      → deserialize creators ((0 ∷ rest) ++ parity_bit ∷ []) ≡ ok (none, fresh_state)
  unfolding deserialize deserialize_object
  deserialize-null rest parity_bit right =
      let read : Reads (deserialize_object creators fresh_state) (0 ∷ []) (none, fresh_state) =
        Reads-bind_last _ (Reads-byte 0) (Reads-pure (none, fresh_state)) in
      let result =
        read.at (byte_reader ((0 ∷ rest) ++ parity_bit ∷ [])) (rest ++ parity_bit ∷ [])
          (unfold get_buffer in refl) in
      rw (split_last-append 0 rest parity_bit, right, result.returned) refl
