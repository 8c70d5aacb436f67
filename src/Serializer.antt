-- ===== src/Serializer.antt =====
-- Client/include/Serializer.hpp and Client/src/Serializer.cpp: objects in the wire format. The
-- virtual methods of `JavaSerializable` are an interface over a type of objects.
pub mod ObjectFactory
pub mod JavaSerializer
pub mod JavaDeserializer
pub mod RoundTrip
pub mod Corruption
pub mod Sharing
pub mod WellFormed
pub mod Null
use sc4051_dist_system_proj.Prelude.{Bytes, List}
use sc4051_dist_system_proj.ByteBuffer.{ByteBuffer}
use sc4051_dist_system_proj.ByteReader.{Reader}

-- A field's name and its type.
abbrev pub FieldMetadata : Type 0
FieldMetadata = List (Bytes × Bytes)

-- `deserialize_fields` returns the object that the method has overwritten.
pub record JavaSerializable (O : Type 0) : Type 0 where
  pub get_java_class_name : O → Bytes
  pub get_field_metadata : O → FieldMetadata
  pub serialize_field_values : O → ByteBuffer → ByteBuffer
  pub deserialize_fields : O → Reader O
