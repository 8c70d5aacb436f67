-- ===== src/Client/PacketSize.antt =====
-- The size of the packets that the client sends, and of the values in them.
use sc4051_dist_system_proj.Prelude.{
  ℕ, ◌+◌, ◌<◌, ◌≡◌, refl, sym, ap, ◌∙◌, [], ◌∷◌, ◌++◌, Bytes, codes, length, length-append,
  All-append, append_assoc, arith,
}
use sc4051_dist_system_proj.Prelude.Int.{ℤ, pos}
use sc4051_dist_system_proj.Parity.{calculate_even_parity_bit}
use sc4051_dist_system_proj.Parity.Detect.{IsByteString}
use sc4051_dist_system_proj.Parity.Count.{calculate_even_parity_bit_lem}
use sc4051_dist_system_proj.ByteBuffer.{empty}
use sc4051_dist_system_proj.ByteBuffer.Layout.{
  big_endian, int_bytes, string_bytes, write_int_lem, big_endian-bytes,
}
use sc4051_dist_system_proj.Serializer.JavaSerializer.{cleared}
use sc4051_dist_system_proj.Serializer.RoundTrip.{body_bytes, metadata_bytes, serialize_lem}
use sc4051_dist_system_proj.RequestMessage.{
  RequestMessage, default_message, get_field_metadata, message_class, registered_classes,
  serialize_field_values,
}
use sc4051_dist_system_proj.RequestMessage.RoundTrip.{
  IsMessage, data_bytes, write_data_lem, RequestMessage-IsFaithful,
}
use sc4051_dist_system_proj.Client.{packet}

-- A list of so many bytes.
record Sized (n : ℕ) (xs : Bytes) : Type 0 where
  pub size : length xs ≡ n
  pub bytes : IsByteString xs

Sized-append : {n m : ℕ} (xs ys : Bytes) → Sized n xs → Sized m ys → Sized (n + m) (xs ++ ys)
Sized-append {n} {m} xs ys h k = record {
  size = omega (arith, length-append xs ys, h.size, k.size);
  bytes = All-append (λ b. b < 256) xs ys h.bytes k.bytes;
}

int_bytes-Sized : (value : ℤ) → Sized 4 (int_bytes value)
unfolding big_endian
int_bytes-Sized value = record { size = refl; bytes = big_endian-bytes 4 _ }

string_bytes-Sized : (str : Bytes) → IsByteString str → Sized (4 + length str) (string_bytes str)
string_bytes-Sized str h =
    Sized-append _ str (int_bytes-Sized (pos (length str))) (record { size = refl; bytes = h })

-- A value that may be null takes one byte, or the marker, the length and the text.
abbrev pub data_size : Bytes → ℕ
data_size [] = 1
data_size (c ∷ text) = 5 + length (c ∷ text)

data_bytes-Sized : (text : Bytes) → IsByteString text → Sized (data_size text) (data_bytes text)
unfolding data_bytes
data_bytes-Sized [] h = record { size = refl; bytes = (omega arith, tt) }
data_bytes-Sized (c ∷ text) h =
    let str = string_bytes-Sized (c ∷ text) h in
    record { size = omega (arith, str.size); bytes = (omega arith, str.bytes) }

field_bytes : RequestMessage → Bytes
field_bytes m = int_bytes m.request_type ++ (int_bytes m.request_id ++ data_bytes m.message_data)

field_bytes_lem : (m : RequestMessage) → (serialize_field_values m empty).buffer ≡ field_bytes m
unfolding serialize_field_values field_bytes
field_bytes_lem m = simp (write_data_lem, write_int_lem, append_assoc)

field_bytes-Sized :
    (m : RequestMessage)
    → IsByteString m.message_data
    → Sized (4 + (4 + data_size m.message_data)) (field_bytes m)
unfolding field_bytes
field_bytes-Sized m h =
    Sized-append _ _ (int_bytes-Sized m.request_type)
      (Sized-append _ _ (int_bytes-Sized m.request_id) (data_bytes-Sized m.message_data h))

-- Everything between the markers and the field values: the class name and the metadata.
abbrev names : Bytes
names =
    string_bytes (codes "Server.RequestMessage")
    ++ (int_bytes (pos 3) ++ metadata_bytes (get_field_metadata default_message))

names-Sized : Sized 99 names
unfolding big_endian metadata_bytes
names-Sized = record { size = refl; bytes = omega arith }

abbrev body : RequestMessage → Bytes
body m = (1 ∷ 0 ∷ names) ++ field_bytes m

packet_lem :
    (m : RequestMessage)
    → IsMessage m
    → packet m ≡ body m ++ calculate_even_parity_bit (body m) ∷ []
packet_lem m h =
    let f = RequestMessage-IsFaithful m h in
    let same : f.field_bytes ≡ field_bytes m = sym (f.writes empty) ∙ field_bytes_lem m in
    let own : 1 ∷ 0 ∷ body_bytes registered_classes m f ≡ body m =
      ap
        (λ l.
          1
          ∷ 0
          ∷ (string_bytes (codes "Server.RequestMessage")
              ++ (int_bytes (pos 3) ++ (metadata_bytes (get_field_metadata default_message) ++ l))))
        same
      ∙ simp append_assoc in
    serialize_lem registered_classes m f 0 cleared
    ∙ ap (λ l. l ++ calculate_even_parity_bit l ∷ []) own

-- The packet of a message in range, whose text is made of bytes, is made of bytes too. It has 111
-- of them when the text is empty, and 115 more than the text has otherwise.
pub packet-Sized :
    (m : RequestMessage)
    → IsMessage m
    → IsByteString m.message_data
    → IsByteString (packet m) × (length (packet m) ≡ 110 + data_size m.message_data)
packet-Sized m h bytes =
    let sized =
      Sized-append (1 ∷ 0 ∷ names) _ (Sized-append (1 ∷ 0 ∷ []) names marks names-Sized)
        (field_bytes-Sized m bytes) in
    let bit : calculate_even_parity_bit (body m) < 256 =
      omega (arith, calculate_even_parity_bit_lem (body m) sized.bytes) in
    let all =
      Sized-append (body m) (calculate_even_parity_bit (body m) ∷ []) sized
        (record { size = refl; bytes = (bit, tt) }) in
    rw (packet_lem m h) (all.bytes, omega (arith, all.size))
  where
    marks : Sized 2 (1 ∷ 0 ∷ [])
    marks = record { size = refl; bytes = omega arith }
