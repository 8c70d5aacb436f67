-- ===== src/Result.antt =====
-- The exceptions that the client's code throws while it decodes a packet, and computations that
-- return or throw.
use sc4051_dist_system_proj.Prelude.{Bytes}

-- `buffer_overflow` is thrown by `readByte`, `length_error` by `std::string::reserve`; the others
-- carry the names of the messages in Client/src/Serializer.cpp.
pub data Error : Type 0 where
  buffer_overflow length_error : Error
  empty_data parity_check_failed invalid_object_reference : Error
  unknown_class : Bytes → Error
  field_count_mismatch field_metadata_mismatch : Error

pub data Result {ℓ} (A : Type ℓ) : Type ℓ where
  ok : A → Result A
  err : Error → Result A

infixl 5 ◌>>=◌
abbrev pub ◌>>=◌ {ℓ κ} : {A : Type ℓ} {B : Type κ} → Result A → (A → Result B) → Result B
ok a >>= f = f a
err e >>= f = err e
