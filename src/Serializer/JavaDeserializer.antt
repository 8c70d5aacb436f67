-- ===== src/Serializer/JavaDeserializer.antt =====
-- `JavaDeserializer`. Objects live in a store and are named by their place in it, since
-- `deserializedObjects` shares them with the caller while their fields are still being read.
use sc4051_dist_system_proj.Prelude.{
  ℕ, zero, suc, [], ◌∷◌, ◌++◌, List, Bytes, Bool, false, ◌||◌, not, Option, none, some, length,
  same, ◌≡◌, refl, ◌==◌, if◌then◌else◌,
}
use sc4051_dist_system_proj.Prelude.Assoc
use sc4051_dist_system_proj.Prelude.Int.{ℤ, pos, negsuc}
use sc4051_dist_system_proj.Result.{
  Result, ok, err, empty_data, parity_check_failed, invalid_object_reference, field_count_mismatch,
  field_metadata_mismatch,
}
use sc4051_dist_system_proj.Parity.{verify_even_parity}
use sc4051_dist_system_proj.ByteReader.{
  ByteReader, Reader, pure, throw, ◌>>=◌, byte_reader, read_byte, read_int, read_string,
}
use sc4051_dist_system_proj.Serializer.{JavaSerializable, FieldMetadata}
use sc4051_dist_system_proj.Serializer.ObjectFactory.{Creators, create_object}

-- `==` of two integers.
abbrev pub same_int : ℤ → ℤ → Bool
same_int (pos a) (pos b) = a == b
same_int (negsuc a) (negsuc b) = a == b
same_int _ _ = false

-- `store` holds the objects that were made, the newest at the end.
pub record DeserializerState (O : Type 0) : Type 0 where
  pub store : List O
  pub deserialized_objects : List (ℤ × ℕ)
  pub object_counter : ℕ

abbrev pub fresh_state : {O : Type 0} → DeserializerState O
fresh_state = record { store = []; deserialized_objects = []; object_counter = 0 }

-- The object that a pointer into the store names.
unfoldable pub object_at : {O : Type 0} → List O → ℕ → Option O
object_at [] p = none
object_at (x ∷ xs) zero = some x
object_at (x ∷ xs) (suc p) = object_at xs p

abbrev pub lift : {A : Type 0} → Result A → Reader A
lift (ok a) = pure a
lift (err e) = throw e

-- `fieldCount != expectedFields.size()`: a negative count becomes a huge `size_t`, the size of no
-- vector.
abbrev pub counts : ℤ → ℕ → Bool
counts (pos n) size = n == size
counts (negsuc n) size = false

-- The loop over the metadata: both strings are read before they are compared.
unfoldable pub check_metadata : FieldMetadata → Reader (Unit {0})
check_metadata [] = pure tt
check_metadata ((name, type) ∷ fields) = do
  field_name ← read_string
  field_type ← read_string
  if not (same field_name name) || not (same field_type type)
      then throw field_metadata_mismatch
      else check_metadata fields

-- The bytes of a packet before the last one, and the last one.
unfoldable pub split_last : ℕ → Bytes → Bytes × ℕ
split_last x [] = ([], x)
split_last x (y ∷ ys) = let (front, last) = split_last y ys in (x ∷ front, last)

pub split_last-append : (x : ℕ) (xs : Bytes) (p : ℕ) → split_last x (xs ++ p ∷ []) ≡ (x ∷ xs, p)
unfolding split_last
split_last-append x [] p = refl
split_last-append x (y ∷ ys) p = rw (split_last-append y ys p)

abbrev pub drop_reader : {A : Type 0} → Result (A × ByteReader) → Result A
drop_reader (ok (a, r)) = ok a
drop_reader (err e) = err e

module _ {O : Type 0} ⦃j : JavaSerializable O⦄ (creators : Creators O) where
  -- The part of `deserializeObject` after the class name.
  unfoldable pub read_object_of : DeserializerState O → O → Reader (Option ℕ × DeserializerState O)
  read_object_of s object = do
    let pointer = length s.store
    let entries = Assoc.insert same_int (pos s.object_counter) pointer s.deserialized_objects
    field_count ← read_int
    let expected_fields = j.get_field_metadata object
    if not (counts field_count (length expected_fields)) then throw field_count_mismatch else do
      _ ← check_metadata expected_fields
      object' ← j.deserialize_fields object
      pure (
        some pointer,
        record {
          store = s.store ++ object' ∷ [];
          deserialized_objects = entries;
          object_counter = suc s.object_counter;
        },
      )

  unfoldable pub read_new_object : DeserializerState O → Reader (Option ℕ × DeserializerState O)
  read_new_object s = do
    class_name ← read_string
    object ← lift (create_object creators class_name)
    read_object_of s object

  -- `it->second`
  unfoldable pub referenced :
      DeserializerState O → Option ℕ → Reader (Option ℕ × DeserializerState O)
  referenced s none = throw invalid_object_reference
  referenced s (some pointer) = pure (some pointer, s)

  unfoldable pub read_reference : DeserializerState O → Reader (Option ℕ × DeserializerState O)
  unfolding referenced
  read_reference s = do
    object_id ← read_int
    referenced s (Assoc.lookup same_int object_id s.deserialized_objects)

  unfoldable pub deserialize_object : DeserializerState O → Reader (Option ℕ × DeserializerState O)
  deserialize_object s = do
    null_marker ← read_byte
    if null_marker == 0 then pure (none, s) else do
      reference_marker ← read_byte
      if reference_marker == 1 then read_reference s else read_new_object s

  -- The result is a pointer and the store that it points into; the reader is dropped.
  unfoldable pub deserialize : Bytes → Result (Option ℕ × DeserializerState O)
  deserialize [] = err empty_data
  deserialize (x ∷ xs) =
      let (serialized_data, received_parity_bit) = split_last x xs in
      if not (verify_even_parity serialized_data received_parity_bit)
      then err parity_check_failed
      else drop_reader (deserialize_object fresh_state (byte_reader (x ∷ xs)))
