-- ===== src/Serializer/Sharing.antt =====
-- An object that is written twice into one packet is written once, and read as one object.
use sc4051_dist_system_proj.Prelude.{
  ℕ, ◌≡◌, refl, ◌∙◌, ap, [], ◌∷◌, ◌++◌, Option, none, some, append_assoc, ◌==◌, ==_iff, subst, sym,
  arith, ◌<◌, ◌^◌,
}
use sc4051_dist_system_proj.Prelude.Assoc
use sc4051_dist_system_proj.Prelude.Int.{pos}
use sc4051_dist_system_proj.ByteBuffer.{ByteBuffer, empty, write_byte}
use sc4051_dist_system_proj.ByteBuffer.Layout.{int_bytes, write_int_lem}
use sc4051_dist_system_proj.ByteReader.{Reader, pure, ◌>>=◌}
use sc4051_dist_system_proj.ByteReader.Reads.{
  Reads, Reads-pure, Reads-bind, Reads-bind_last, Reads-byte,
}
use sc4051_dist_system_proj.ByteReader.RoundTrip.{Reads-int}
use sc4051_dist_system_proj.Serializer.{JavaSerializable}
use sc4051_dist_system_proj.Serializer.ObjectFactory.{Creators}
use sc4051_dist_system_proj.Serializer.JavaSerializer.{
  Pointer, SerializerState, cleared, serialize_object,
}
use sc4051_dist_system_proj.Serializer.JavaDeserializer.{
  DeserializerState, same_int, fresh_state, read_reference, deserialize_object,
}
use sc4051_dist_system_proj.Serializer.RoundTrip.{
  IsFaithful, body_bytes, with_object, Reads-new_object, serialize_object_lem,
}

module _ {O : Type 0} ⦃j : JavaSerializable O⦄ where
  -- Two calls of `serializeObject` on one buffer.
  abbrev pub write_two : Pointer O → Pointer O → ByteBuffer
  write_two p q = let (b, s) = serialize_object p cleared empty in (serialize_object q s b).0

  -- Two calls of `deserializeObject` on one reader.
  abbrev pub read_two : Creators O → Reader (Option ℕ × Option ℕ × DeserializerState O)
  read_two creators = deserialize_object creators fresh_state >>= λ first.
      deserialize_object creators first.1 >>= λ second. pure (first.0, second.0, second.1)

module _ {O : Type 0} ⦃j : JavaSerializable O⦄ (creators : Creators O) (object : O)
    (f : IsFaithful creators object) where
  -- The state after the object was written.
  abbrev once : ℕ → SerializerState
  once address = record { serialized_objects = (address, 0) ∷ []; object_counter = 1 }

  state_once :
      (address : ℕ) → (serialize_object (some (address, object)) cleared empty).1 ≡ once address
  unfolding serialize_object Assoc.lookup Assoc.insert
  state_once address = refl

  known_address :
      (address : ℕ) → Assoc.lookup ◌==◌ address (once address).serialized_objects ≡ some 0
  unfolding Assoc.lookup
  known_address address = rw ((==_iff address address).1 refl) refl

  serialize_object_again :
      (address id : ℕ) (s : SerializerState) (b : ByteBuffer)
      → Assoc.lookup ◌==◌ address s.serialized_objects ≡ some id
      → (serialize_object (some (address, object)) s b).0.buffer
        ≡ b.buffer ++ (1 ∷ 1 ∷ int_bytes (pos id))
  unfolding serialize_object write_byte
  serialize_object_again address id s b found = rw found (write_int_lem _ _ ∙ simp append_assoc)

  Reads-reference :
      (s : DeserializerState O) (id p : ℕ)
      → Assoc.lookup same_int (pos id) s.deserialized_objects ≡ some p
      → id < 2 ^ 31
      → Reads (deserialize_object creators s) (1 ∷ 1 ∷ int_bytes (pos id)) (some p, s)
  unfolding deserialize_object read_reference
  Reads-reference s id p found h = Reads-bind _ (Reads-byte 1) (
      Reads-bind _ (Reads-byte 1)
        (Reads-bind_last _ (Reads-int (pos id) h) (rw found (Reads-pure (some p, s)))))

  two_bytes :
      (address : ℕ)
      → (write_two (some (address, object)) (some (address, object))).buffer
        ≡ (1 ∷ 0 ∷ body_bytes creators object f) ++ 1 ∷ 1 ∷ int_bytes (pos 0)
  two_bytes address =
      rw (write_two, state_once address)
        (serialize_object_again address 0 (once address) _ (known_address address)
          ∙ ap (λ l. l ++ 1 ∷ 1 ∷ int_bytes (pos 0))
              (serialize_object_lem creators object f address cleared empty nothing_known))
    where
      nothing_known : Assoc.lookup {V = ℕ} ◌==◌ address [] ≡ none
      nothing_known = unfold Assoc.lookup in refl

  -- Two pointers to one object, serialized one after the other into one buffer and read one after
  -- the other, give the same pointer twice and one object in the store, equal to the first.
  pub read_two-write_two :
      (address : ℕ)
      → Reads
          (read_two creators)
          (write_two (some (address, object)) (some (address, object))).buffer
          (some 0, some 0, with_object creators object f fresh_state)
  unfolding Assoc.lookup Assoc.insert
  read_two-write_two address =
      subst
        (λ l.
          Reads (read_two creators) l (some 0, some 0, with_object creators object f fresh_state))
        (sym (two_bytes address))
        (Reads-bind _ (Reads-new_object creators object f fresh_state) (
          Reads-bind_last _
            (Reads-reference (with_object creators object f fresh_state) 0 0 refl (omega arith))
            (Reads-pure _)))
