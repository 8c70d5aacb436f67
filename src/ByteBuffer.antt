-- ===== src/ByteBuffer.antt =====
-- Client/src/ByteBuffer.cpp: the writer of the wire format. Every method appends at the end.
-- An `int32_t` or `int64_t` is an integer, shifted and masked as its two's complement pattern. A
-- `double` is the pattern of 64 bits that `memcpy` takes from it.
pub mod Layout
use sc4051_dist_system_proj.Prelude.{ℕ, ◌^◌, ◌++◌, [], ◌∷◌, bit_and, Bytes, length, foldl}
use sc4051_dist_system_proj.Prelude.Int.{ℤ, pos, to_word, of_word, shift_right}

pub record ByteBuffer : Type 0 where
  pub buffer : Bytes

abbrev pub empty : ByteBuffer
empty = record { buffer = [] }

unfoldable pub write_byte : ℕ → ByteBuffer → ByteBuffer
write_byte value b = record { buffer = b.buffer ++ value ∷ [] }

-- `writeByte((value >> k) & 0xFF)` for a 32-bit and for a 64-bit value.
abbrev byte_32 : ℤ → ℕ → ℕ
byte_32 value k = bit_and (shift_right (2 ^ 31) (to_word (2 ^ 31) value) k) 0xff

abbrev byte_64 : ℤ → ℕ → ℕ
byte_64 value k = bit_and (shift_right (2 ^ 63) (to_word (2 ^ 63) value) k) 0xff

unfoldable pub write_int : ℤ → ByteBuffer → ByteBuffer
unfolding write_byte
write_int value b =
    let b1 = write_byte (byte_32 value 24) b in
    let b2 = write_byte (byte_32 value 16) b1 in
    let b3 = write_byte (byte_32 value 8) b2 in write_byte (byte_32 value 0) b3

unfoldable pub write_long : ℤ → ByteBuffer → ByteBuffer
unfolding write_byte
write_long value b =
    let b1 = write_byte (byte_64 value 56) b in
    let b2 = write_byte (byte_64 value 48) b1 in
    let b3 = write_byte (byte_64 value 40) b2 in
    let b4 = write_byte (byte_64 value 32) b3 in
    let b5 = write_byte (byte_64 value 24) b4 in
    let b6 = write_byte (byte_64 value 16) b5 in
    let b7 = write_byte (byte_64 value 8) b6 in write_byte (byte_64 value 0) b7

-- The argument is the pattern of the double; the call converts it from unsigned to `int64_t`.
unfoldable pub write_double : ℕ → ByteBuffer → ByteBuffer
write_double bits b = write_long (of_word (2 ^ 63) bits) b

-- The loop `for (char c : str)`.
unfoldable pub write_chars : Bytes → ByteBuffer → ByteBuffer
write_chars str b = foldl (λ out c. write_byte c out) b str

-- The length is cut to 32 bits by the cast.
unfoldable pub write_string : Bytes → ByteBuffer → ByteBuffer
write_string str b =
    let b1 = write_int (of_word (2 ^ 31) (to_word (2 ^ 31) (pos (length str)))) b in
    write_chars str b1
