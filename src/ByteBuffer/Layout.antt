-- ===== src/ByteBuffer/Layout.antt =====
-- What each method of `ByteBuffer` appends, as base-256 digits with the most significant one first.
use sc4051_dist_system_proj.Prelude.{
  ℕ, zero, suc, ◌/◌, ◌%◌, ◌^◌, ◌<◌, ◌≡◌, ap, sym, ◌∙◌, [], ◌∷◌, ◌++◌, bit_and, Bytes, length,
  append_assoc, append-nil, arith, All,
}
use sc4051_dist_system_proj.Prelude.Bits.{bit_and_byte}
use sc4051_dist_system_proj.Prelude.Int.{
  ℤ, pos, to_word, of_word, shift_right, to_word-lt_32, to_word-lt_64,
}
use sc4051_dist_system_proj.ByteBuffer.{
  ByteBuffer, write_byte, write_int, write_long, write_chars, write_string,
}

-- The digits of `w` in base 256, `n` of them.
unfoldable pub big_endian : ℕ → ℕ → Bytes
big_endian zero w = []
big_endian (suc n) w = w / 256 ^ n % 256 ∷ big_endian n w

abbrev pub int_bytes : ℤ → Bytes
int_bytes value = big_endian 4 (to_word (2 ^ 31) value)

abbrev pub long_bytes : ℤ → Bytes
long_bytes value = big_endian 8 (to_word (2 ^ 63) value)

abbrev pub string_bytes : Bytes → Bytes
string_bytes str = int_bytes (pos (length str)) ++ str

-- One byte of a pattern, shifted with its sign and masked.
masked_byte_32 :
    (w k : ℕ) → bit_and (shift_right (2 ^ 31) w k) 0xff ≡ shift_right (2 ^ 31) w k % 256
masked_byte_32 w k = bit_and_byte (shift_right (2 ^ 31) w k)

bytes_of_word_32 :
    (w : ℕ)
    → w < 2 ^ 32
    → (shift_right (2 ^ 31) w 24 % 256 ≡ w / 256 ^ 3 % 256)
      × (shift_right (2 ^ 31) w 16 % 256 ≡ w / 256 ^ 2 % 256)
      × (shift_right (2 ^ 31) w 8 % 256 ≡ w / 256 ^ 1 % 256)
      × (shift_right (2 ^ 31) w 0 % 256 ≡ w / 256 ^ 0 % 256)
bytes_of_word_32 w h = ground arith

module _ (w : ℕ) (h : w < 2 ^ 64) where
  bytes_of_word_64_high :
      (shift_right (2 ^ 63) w 56 % 256 ≡ w / 256 ^ 7 % 256)
      × (shift_right (2 ^ 63) w 48 % 256 ≡ w / 256 ^ 6 % 256)
      × (shift_right (2 ^ 63) w 40 % 256 ≡ w / 256 ^ 5 % 256)
      × (shift_right (2 ^ 63) w 32 % 256 ≡ w / 256 ^ 4 % 256)
  bytes_of_word_64_high = ground arith

  bytes_of_word_64_low :
      (shift_right (2 ^ 63) w 24 % 256 ≡ w / 256 ^ 3 % 256)
      × (shift_right (2 ^ 63) w 16 % 256 ≡ w / 256 ^ 2 % 256)
      × (shift_right (2 ^ 63) w 8 % 256 ≡ w / 256 ^ 1 % 256)
      × (shift_right (2 ^ 63) w 0 % 256 ≡ w / 256 ^ 0 % 256)
  bytes_of_word_64_low = ground arith

-- `writeInt` appends the four big-endian bytes of the two's complement pattern of its argument.
pub write_int_lem :
    (value : ℤ) (b : ByteBuffer) → (write_int value b).buffer ≡ b.buffer ++ int_bytes value
unfolding write_int big_endian
write_int_lem value b =
    let d = bytes_of_word_32 (to_word (2 ^ 31) value) (to_word-lt_32 value) in
    simp (bit_and_byte, d.0, d.1, d.2, d.3, append_assoc)

-- `writeLong` appends the eight big-endian bytes of the two's complement pattern of its argument.
pub write_long_lem :
    (value : ℤ) (b : ByteBuffer) → (write_long value b).buffer ≡ b.buffer ++ long_bytes value
unfolding write_long big_endian
write_long_lem value b =
    let d = bytes_of_word_64_high (to_word (2 ^ 63) value) (to_word-lt_64 value) in
    let e = bytes_of_word_64_low (to_word (2 ^ 63) value) (to_word-lt_64 value) in
    simp (bit_and_byte, d.0, d.1, d.2, d.3, e.0, e.1, e.2, e.3, append_assoc)

to_word-of_word_32 : (n : ℕ) → to_word (2 ^ 31) (of_word (2 ^ 31) (n % 2 ^ 32)) ≡ n % 2 ^ 32
to_word-of_word_32 n = ground arith

write_chars_lem : (str : Bytes) (b : ByteBuffer) → (write_chars str b).buffer ≡ b.buffer ++ str
unfolding write_chars write_byte
write_chars_lem [] b = sym (append-nil b.buffer)
write_chars_lem (c ∷ str) b =
    write_chars_lem str (write_byte c b) ∙ append_assoc b.buffer (c ∷ []) str

-- `writeString` appends the length as a 32-bit integer, and then the bytes.
pub write_string_lem :
    (str : Bytes) (b : ByteBuffer) → (write_string str b).buffer ≡ b.buffer ++ string_bytes str
unfolding write_string
write_string_lem str b =
    let n = of_word (2 ^ 31) (to_word (2 ^ 31) (pos (length str))) in
    let digits : int_bytes n ≡ int_bytes (pos (length str)) =
      ap (big_endian 4) (to_word-of_word_32 (length str)) in
    write_chars_lem str (write_int n b)
    ∙ ap (λ l. l ++ str) (write_int_lem n b ∙ ap (λ l. b.buffer ++ l) digits)
    ∙ append_assoc b.buffer _ str

pub big_endian-bytes : (n w : ℕ) → All (λ b. b < 256) (big_endian n w)
unfolding big_endian
big_endian-bytes zero w = tt
big_endian-bytes (suc n) w = (omega arith, big_endian-bytes n w)
