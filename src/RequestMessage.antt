-- ===== src/RequestMessage.antt =====
-- Client/src/RequestMessage.cpp and Client/include/RequestMessage.hpp: the one class of objects on
-- the wire, and its registration in Client/src/main.cpp.
pub mod RoundTrip
use sc4051_dist_system_proj.Prelude.{[], ◌∷◌, Bytes, Bool, true, false, codes, ◌==◌, if◌then◌else◌}
use sc4051_dist_system_proj.Prelude.Int.{ℤ, pos, negsuc}
use sc4051_dist_system_proj.ByteBuffer.{ByteBuffer, write_byte, write_int, write_string}
use sc4051_dist_system_proj.ByteReader.{Reader, pure, ◌>>=◌, read_byte, read_int, read_string}
use sc4051_dist_system_proj.Serializer.{JavaSerializable, FieldMetadata}
use sc4051_dist_system_proj.Serializer.ObjectFactory.{Creators, register_class}

-- `message_data` is the member `data`.
pub record RequestMessage : Type 0 where
  pub request_type : ℤ
  pub request_id : ℤ
  pub message_data : Bytes

pub data RequestType : Type 0 where
  invalid read write update delete_request monitor echo : RequestType

-- The values of the enumeration.
abbrev pub request_code : RequestType → ℤ
request_code invalid = negsuc 0
request_code read = pos 0
request_code write = pos 1
request_code update = pos 2
request_code delete_request = pos 3
request_code monitor = pos 4
request_code echo = pos 5

-- The two constructors.
abbrev pub default_message : RequestMessage
default_message = record { request_type = pos 0; request_id = pos 0; message_data = [] }

abbrev pub request_message : RequestType → ℤ → Bytes → RequestMessage
request_message type id text = record {
  request_type = request_code type;
  request_id = id;
  message_data = text;
}

abbrev pub get_java_class_name : RequestMessage → Bytes
get_java_class_name m = codes "Server.RequestMessage"

abbrev pub get_field_metadata : RequestMessage → FieldMetadata
get_field_metadata m =
    (codes "requestType", codes "int")
    ∷ (codes "requestID", codes "int")
    ∷ (codes "data", codes "java.lang.String")
    ∷ []

-- `data.empty()` writes a null marker, other texts come behind a marker 1.
unfoldable pub write_data : Bytes → ByteBuffer → ByteBuffer
write_data [] b = write_byte 0 b
write_data (c ∷ text) b = write_string (c ∷ text) (write_byte 1 b)

unfoldable pub serialize_field_values : RequestMessage → ByteBuffer → ByteBuffer
serialize_field_values m b =
    let b1 = write_int m.request_type b in
    let b2 = write_int m.request_id b1 in write_data m.message_data b2

unfoldable pub read_data : Reader Bytes
read_data = do data_null_marker ← read_byte; if data_null_marker == 1 then read_string else pure []

unfoldable pub deserialize_fields : RequestMessage → Reader RequestMessage
deserialize_fields m = do
  type ← read_int
  id ← read_int
  text ← read_data
  pure (record { request_type = type; request_id = id; message_data = text })

instance abbrev pub message_class : JavaSerializable RequestMessage
message_class = record {
  get_java_class_name = get_java_class_name;
  get_field_metadata = get_field_metadata;
  serialize_field_values = serialize_field_values;
  deserialize_fields = deserialize_fields;
}

-- `registerClasses` of main.cpp, on a map that holds nothing else.
abbrev pub registered_classes : Creators RequestMessage
registered_classes = register_class (codes "Server.RequestMessage") default_message []

-- The setters; the getters are the fields.
abbrev pub set_request_type : ℤ → RequestMessage → RequestMessage
set_request_type type m = record m { request_type = type }

abbrev pub set_request_id : ℤ → RequestMessage → RequestMessage
set_request_id id m = record m { request_id = id }

abbrev pub set_data : Bytes → RequestMessage → RequestMessage
set_data text m = record m { message_data = text }
