-- ===== src/Serializer/Null.antt =====
-- Which packets give the null pointer.
use sc4051_dist_system_proj.Prelude.{
  ℕ, ◌≡◌, ◌≢◌, refl, sym, ap, ◌∙◌, subst, [], ◌∷◌, Bytes, true, not, Option, none, some, length,
  ◌==◌, ==_iff, if◌then◌else◌, Bool-cases, inl, inr,
}
use sc4051_dist_system_proj.Prelude.Assoc
use sc4051_dist_system_proj.Result.{Result, ok, empty_data}
use sc4051_dist_system_proj.Parity.{verify_even_parity}
use sc4051_dist_system_proj.ByteReader.{
  ByteReader, ◌>>=◌, byte_reader, get_buffer, read_byte, read_int, read_string,
}
use sc4051_dist_system_proj.ByteReader.Reads.{Reads, Reads-pure, Reads-bind_last, Reads-byte}
use sc4051_dist_system_proj.ByteReader.Truncated.{bind-ok}
use sc4051_dist_system_proj.ByteReader.Yields.{
  Yields, err-ne-ok, Yields-pure, Yields-throw, Yields-bind, Yields-if,
}
use sc4051_dist_system_proj.Serializer.{JavaSerializable}
use sc4051_dist_system_proj.Serializer.ObjectFactory.{Creators, create_object}
use sc4051_dist_system_proj.Serializer.JavaDeserializer.{
  DeserializerState, same_int, fresh_state, counts, lift, check_metadata, read_object_of,
  read_new_object, referenced, read_reference, deserialize_object, split_last, deserialize,
}
use sc4051_dist_system_proj.Serializer.WellFormed.{deserialize_cons-eq_ok}

-- The bytes begin with the null marker 0, and their last byte is the parity bit of those before it.
pub record IsNullPacket (bytes : Bytes) : Type 0 where
  pub rest : Bytes
  pub starts : bytes ≡ 0 ∷ rest
  pub right : verify_even_parity (split_last 0 rest).0 (split_last 0 rest).1 ≡ true

abbrev IsObject : {O : Type 0} → Option ℕ × DeserializerState O → Type 0
IsObject result = result.0 ≢ none

some-ne-none : (p : ℕ) → some p ≢ none
some-ne-none p h = cc

module _ {O : Type 0} ⦃j : JavaSerializable O⦄ (creators : Creators O) where
  read_object_of-IsObject :
      (s : DeserializerState O) (object : O) → Yields (read_object_of creators s object) IsObject
  unfolding read_object_of
  read_object_of-IsObject s object = Yields-bind read_int _ _ (λ n.
      Yields-if _ (not (counts n (length (j.get_field_metadata object)))) _ _ (Yields-throw _ _) (
        Yields-bind (check_metadata (j.get_field_metadata object)) _ _ (λ checked.
          Yields-bind (j.deserialize_fields object) _ _
            (λ object'. Yields-pure _ _ (some-ne-none (length s.store))))))

  made-IsObject :
      (s : DeserializerState O) (made : Result O)
      → Yields (lift made >>= read_object_of creators s) IsObject
  made-IsObject s made = Yields-bind (lift made) _ _ (λ object. read_object_of-IsObject s object)

  read_new_object-IsObject :
      (s : DeserializerState O) → Yields (read_new_object creators s) IsObject
  unfolding read_new_object
  read_new_object-IsObject s =
      Yields-bind read_string _ _ (λ name. made-IsObject s (create_object creators name))

  referenced-IsObject :
      (s : DeserializerState O) (found : Option ℕ) → Yields (referenced creators s found) IsObject
  unfolding referenced
  referenced-IsObject s none = Yields-throw _ _
  referenced-IsObject s (some p) = Yields-pure _ _ (some-ne-none p)

  read_reference-IsObject : (s : DeserializerState O) → Yields (read_reference creators s) IsObject
  unfolding read_reference
  read_reference-IsObject s =
      Yields-bind read_int _ _
        (λ id. referenced-IsObject s (Assoc.lookup same_int id s.deserialized_objects))

  -- The part of `deserializeObject` behind the null marker.
  rest-IsObject :
      (s : DeserializerState O)
      → Yields
          (read_byte >>= λ marker.
            if marker == 1 then read_reference creators s else read_new_object creators s)
          IsObject
  rest-IsObject s = Yields-bind read_byte _ _ (λ marker.
      Yields-if _ (marker == 1) _ _ (read_reference-IsObject s) (read_new_object-IsObject s))

  -- A first byte that is not 0 never gives null.
  first_byte :
      (x : ℕ) (xs : Bytes) (s : DeserializerState O) (r : ByteReader)
      → deserialize_object creators fresh_state (byte_reader (x ∷ xs)) ≡ ok ((none, s), r)
      → x ≡ 0
  unfolding deserialize_object
  first_byte x xs s r h =
      let first = (Reads-byte x).at (byte_reader (x ∷ xs)) xs (unfold get_buffer in refl) in
      elim (Bool-cases (x == 0)) [
        | inl zero_byte ↦ (==_iff x 0).0 zero_byte
        | inr other ↦
            let later =
              sym (bind-ok read_byte _ (byte_reader (x ∷ xs)) first.after x first.returned) ∙ h in
            absurd ((rest-IsObject fresh_state).at first.after r (none, s) (rw other at later) refl)
      ]

  -- A packet that is taken as the null pointer begins with the null marker, and its parity is right.
  pub deserialize-IsNullPacket :
      (bytes : Bytes) (s : DeserializerState O)
      → deserialize creators bytes ≡ ok (none, s)
      → IsNullPacket bytes
  unfolding deserialize
  deserialize-IsNullPacket [] s h = absurd (err-ne-ok empty_data (none, s) h)
  deserialize-IsNullPacket (x ∷ xs) s h =
      let (right, (r, e)) = deserialize_cons-eq_ok creators x xs (none, s) h in
      let null = first_byte x xs s r e in
      record {
        rest = xs;
        starts = ap (λ c. c ∷ xs) null;
        right =
            subst (λ c. verify_even_parity (split_last c xs).0 (split_last c xs).1 ≡ true) null
              right;
      }

  pub IsNullPacket-deserialize :
      (bytes : Bytes) → IsNullPacket bytes → deserialize creators bytes ≡ ok (none, fresh_state)
  unfolding deserialize deserialize_object
  IsNullPacket-deserialize bytes h =
      let read : Reads (deserialize_object creators fresh_state) (0 ∷ []) (none, fresh_state) =
        Reads-bind_last _ (Reads-byte 0) (Reads-pure (none, fresh_state)) in
      let result = read.at (byte_reader (0 ∷ h.rest)) h.rest (unfold get_buffer in refl) in
      rw h.starts (rw (h.right, result.returned) refl)
