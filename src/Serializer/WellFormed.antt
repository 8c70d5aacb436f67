-- ===== src/Serializer/WellFormed.antt =====
-- The deserializer keeps its tables, whatever bytes it gets.
use sc4051_dist_system_proj.Prelude.{
  ℕ, zero, suc, ◌≤◌, ◌<◌, ◌≡◌, refl, subst, [], ◌∷◌, ◌++◌, List, Bytes, true, not, Option, none,
  some, length, length-append, All, ◌==◌, arith, Bool-cases, inl, inr,
}
use sc4051_dist_system_proj.Prelude.Assoc
use sc4051_dist_system_proj.Prelude.Int.{ℤ, pos}
use sc4051_dist_system_proj.Result.{Result, ok, err, empty_data, parity_check_failed}
use sc4051_dist_system_proj.Parity.{verify_even_parity}
use sc4051_dist_system_proj.ByteReader.{
  ByteReader, ◌>>=◌, byte_reader, read_byte, read_int, read_string,
}
use sc4051_dist_system_proj.ByteReader.Yields.{
  Yields, err-ne-ok, Yields-pure, Yields-throw, Yields-bind, Yields-if,
}
use sc4051_dist_system_proj.Serializer.{JavaSerializable}
use sc4051_dist_system_proj.Serializer.ObjectFactory.{Creators, create_object}
use sc4051_dist_system_proj.Serializer.JavaDeserializer.{
  DeserializerState, same_int, fresh_state, object_at, counts, lift, check_metadata, read_object_of,
  read_new_object, referenced, read_reference, deserialize_object, drop_reader, split_last,
  deserialize,
}

-- Every object that can be referred to lies in the store, and the counter counts the objects.
pub record IsWellFormed {O : Type 0} (s : DeserializerState O) : Type 0 where
  pub inside : All (λ entry. entry.1 < length s.store) s.deserialized_objects
  pub counted : s.object_counter ≡ length s.store

-- A pointer is null, or points into the store.
abbrev pub PointsInto : {O : Type 0} → Option ℕ → DeserializerState O → Type 0
PointsInto none s = Unit {0}
PointsInto (some p) s = p < length s.store

some_value : (a b : ℕ) → some a ≡ some b → a ≡ b
some_value a b h = cc

lookup-All :
    (P : ℕ → Type 0) (key : ℤ) (entries : List (ℤ × ℕ)) (v : ℕ)
    → All (λ entry. P entry.1) entries
    → Assoc.lookup same_int key entries ≡ some v
    → P v
unfolding Assoc.lookup
lookup-All P key [] v h e = cc
lookup-All P key ((k, w) ∷ entries) v h e = elim (Bool-cases (same_int k key)) [
  | inl hit ↦ subst P (some_value w v (rw hit at e)) h.0
  | inr miss ↦ lookup-All P key entries v h.1 (rw miss at e)
]

insert-All :
    (P : ℕ → Type 0) (key : ℤ) (v : ℕ) (entries : List (ℤ × ℕ))
    → All (λ entry. P entry.1) entries
    → P v
    → All (λ entry. P entry.1) (Assoc.insert same_int key v entries)
unfolding Assoc.insert
insert-All P key v [] h hv = (hv, tt)
insert-All P key v ((k, w) ∷ entries) h hv = elim (Bool-cases (same_int k key)) [
  | inl hit ↦ rw hit (hv, h.1)
  | inr miss ↦ rw miss (h.0, insert-All P key v entries h.1 hv)
]

All-mono :
    (n m : ℕ) (entries : List (ℤ × ℕ))
    → n ≤ m
    → All (λ entry. entry.1 < n) entries
    → All (λ entry. entry.1 < m) entries
All-mono n m [] le h = tt
All-mono n m (entry ∷ entries) le h = (omega arith, All-mono n m entries le h.1)

-- What a call returns: tables that are kept, and a pointer into them. No object is lost.
pub record IsGood {O : Type 0} (before : DeserializerState O)
    (result : Option ℕ × DeserializerState O) : Type 0 where
  pub well_formed : IsWellFormed result.1
  pub points : PointsInto result.0 result.1
  pub grows : length before.store ≤ length result.1.store

module _ {O : Type 0} ⦃j : JavaSerializable O⦄ (creators : Creators O) where
  with_new-IsGood :
      (s : DeserializerState O) (object : O)
      → IsWellFormed s
      → IsGood s (
        some (length s.store),
        record {
          store = s.store ++ object ∷ [];
          deserialized_objects =
              Assoc.insert same_int (pos s.object_counter) (length s.store) s.deserialized_objects;
          object_counter = suc s.object_counter;
        },
      )
  with_new-IsGood s object w =
      let size = length-append s.store (object ∷ []) in
      record {
        well_formed = record {
          inside =
              insert-All (λ p. p < length (s.store ++ object ∷ [])) (pos s.object_counter)
                (length s.store) s.deserialized_objects
                (All-mono (length s.store) _ s.deserialized_objects (omega arith) w.inside)
                (omega arith);
          counted = omega (arith, w.counted);
        };
        points = omega arith;
        grows = omega arith;
      }

  read_object_of-IsGood :
      (s : DeserializerState O) (object : O)
      → IsWellFormed s
      → Yields (read_object_of creators s object) (IsGood s)
  unfolding read_object_of
  read_object_of-IsGood s object w = Yields-bind read_int _ _ (λ n.
      Yields-if _ (not (counts n (length (j.get_field_metadata object)))) _ _ (Yields-throw _ _) (
        Yields-bind (check_metadata (j.get_field_metadata object)) _ _ (λ checked.
          Yields-bind (j.deserialize_fields object) _ _
            (λ object'. Yields-pure _ _ (with_new-IsGood s object' w)))))

  lifted-IsGood :
      (s : DeserializerState O) (made : Result O)
      → IsWellFormed s
      → Yields (lift made >>= read_object_of creators s) (IsGood s)
  lifted-IsGood s made w = Yields-bind (lift made) _ _ (λ object. read_object_of-IsGood s object w)

  read_new_object-IsGood :
      (s : DeserializerState O) → IsWellFormed s → Yields (read_new_object creators s) (IsGood s)
  unfolding read_new_object
  read_new_object-IsGood s w =
      Yields-bind read_string _ _ (λ name. lifted-IsGood s (create_object creators name) w)

  referenced-IsGood :
      (s : DeserializerState O) (found : Option ℕ)
      → IsWellFormed s
      → ((p : ℕ) → found ≡ some p → p < length s.store)
      → Yields (referenced creators s found) (IsGood s)
  unfolding referenced
  referenced-IsGood s none w h = Yields-throw _ _
  referenced-IsGood s (some p) w h =
      Yields-pure _ _ (record { well_formed = w; points = h p refl; grows = omega arith })

  read_reference-IsGood :
      (s : DeserializerState O) → IsWellFormed s → Yields (read_reference creators s) (IsGood s)
  unfolding read_reference
  read_reference-IsGood s w = Yields-bind read_int _ _ (λ id.
      referenced-IsGood s (Assoc.lookup same_int id s.deserialized_objects) w
        (λ p e. lookup-All (λ q. q < length s.store) id s.deserialized_objects p w.inside e))

  -- Whatever bytes it reads, a call of `deserializeObject` that returns keeps every table entry
  -- inside the store and the counter equal to the number of objects, loses no object, and returns
  -- null or a pointer into the store.
  pub deserialize_object-IsGood :
      (s : DeserializerState O) → IsWellFormed s → Yields (deserialize_object creators s) (IsGood s)
  unfolding deserialize_object
  deserialize_object-IsGood s w = Yields-bind read_byte _ _ (λ null_marker.
      Yields-if _ (null_marker == 0) _ _
        (Yields-pure _ _ (record { well_formed = w; points = tt; grows = omega arith }))
        (Yields-bind read_byte _ _ (λ reference_marker.
          Yields-if _ (reference_marker == 1) _ _ (read_reference-IsGood s w)
            (read_new_object-IsGood s w))))

fresh_state-IsWellFormed : {O : Type 0} → IsWellFormed {O = O} fresh_state
fresh_state-IsWellFormed = record { inside = tt; counted = refl }

pub object_at-some :
    {O : Type 0} (store : List O) (p : ℕ)
    → p < length store
    → (x : O) × (object_at store p ≡ some x)
unfolding object_at
object_at-some [] p h = absurd (omega arith)
object_at-some (x ∷ xs) zero h = (x, refl)
object_at-some (x ∷ xs) (suc p) h = object_at-some xs p (omega arith)

drop_reader-eq_ok :
    {A : Type 0} (x : Result (A × ByteReader)) (a : A)
    → drop_reader x ≡ ok a
    → (r : ByteReader) × (x ≡ ok (a, r))
drop_reader-eq_ok (ok (b, r)) a h = (r, cc)
drop_reader-eq_ok (err e) a h = cc

module _ {O : Type 0} ⦃j : JavaSerializable O⦄ (creators : Creators O) where
  -- A packet that is taken has the right parity bit, and was read by a call of
  -- `deserializeObject` on fresh tables.
  pub deserialize_cons-eq_ok :
      (x : ℕ) (xs : Bytes) (result : Option ℕ × DeserializerState O)
      → deserialize creators (x ∷ xs) ≡ ok result
      → (verify_even_parity (split_last x xs).0 (split_last x xs).1 ≡ true)
        × ((r : ByteReader) × (deserialize_object creators fresh_state (byte_reader (x ∷ xs))
              ≡ ok (result, r)))
  unfolding deserialize
  deserialize_cons-eq_ok x xs result h =
      elim (Bool-cases (verify_even_parity (split_last x xs).0 (split_last x xs).1)) [
        | inl right ↦ (right, drop_reader-eq_ok _ result (rw right at h))
        | inr wrong ↦ absurd (err-ne-ok parity_check_failed result (rw wrong at h))
      ]

  pub deserialize-eq_ok :
      (bytes : Bytes) (result : Option ℕ × DeserializerState O)
      → deserialize creators bytes ≡ ok result
      → (r : ByteReader) × (deserialize_object creators fresh_state (byte_reader bytes)
          ≡ ok (result, r))
  unfolding deserialize
  deserialize-eq_ok [] result h = absurd (err-ne-ok empty_data result h)
  deserialize-eq_ok (x ∷ xs) result h = (deserialize_cons-eq_ok x xs result h).1

  -- The pointer to a packet's object is null, or names an object that was made from the packet.
  pub deserialize-PointsInto :
      (bytes : Bytes) (result : Option ℕ × DeserializerState O)
      → deserialize creators bytes ≡ ok result
      → IsWellFormed result.1 × PointsInto result.0 result.1
  deserialize-PointsInto bytes result h =
      let (r, e) = deserialize-eq_ok bytes result h in
      let good =
        (deserialize_object-IsGood creators fresh_state fresh_state-IsWellFormed).at _ _ _ e in
      (good.well_formed, good.points)
