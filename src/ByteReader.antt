-- ===== src/ByteReader.antt =====
-- Client/src/ByteReader.cpp: the reader of the wire format. A method returns its value and the
-- moved reader, or throws.
pub mod Reads
pub mod RoundTrip
pub mod Written
pub mod Truncated
pub mod Yields
use sc4051_dist_system_proj.Prelude.{
  ℕ, zero, suc, ◌+◌, ◌*◌, ◌%◌, ◌^◌, ◌++◌, [], ◌∷◌, bit_or, Bytes, length, get_or, drop, leb,
  if◌then◌else◌,
}
use sc4051_dist_system_proj.Prelude.Int.{ℤ, pos, negsuc, to_word, of_word}
use sc4051_dist_system_proj.Result.{Error, Result, ok, err, buffer_overflow, length_error}

pub record ByteReader : Type 0 where
  pub buffer : Bytes
  pub position : ℕ

abbrev pub Reader : Type 0 → Type 0
Reader A = ByteReader → Result (A × ByteReader)

abbrev pub pure : {A : Type 0} → A → Reader A
pure a r = ok (a, r)

abbrev pub throw : {A : Type 0} → Error → Reader A
throw e r = err e

infixl 5 ◌>>=◌
pub ◌>>=◌ : {A B : Type 0} → Reader A → (A → Reader B) → Reader B
◌>>=◌ m f r = elim (m r) [ ok (a, r') ↦ f a r' | err e ↦ err e ]

abbrev pub byte_reader : Bytes → ByteReader
byte_reader bytes = record { buffer = bytes; position = 0 }

-- The bytes that have not been read.
unfoldable pub get_buffer : ByteReader → Bytes
get_buffer r = drop r.position r.buffer

unfoldable pub read_byte : Reader ℕ
read_byte r =
    if leb (length r.buffer) r.position
    then err buffer_overflow
    else ok (get_or r.buffer r.position 0, record r { position = r.position + 1 })

-- `static_cast<int32_t>(byte) << k` and its 64-bit form, as patterns.
abbrev shifted_32 : ℕ → ℕ → ℕ
shifted_32 byte k = byte * 2 ^ k % 2 ^ 32

abbrev shifted_64 : ℕ → ℕ → ℕ
shifted_64 byte k = byte * 2 ^ k % 2 ^ 64

unfoldable pub read_int : Reader ℤ
read_int = do
  b3 ← read_byte
  b2 ← read_byte
  b1 ← read_byte
  b0 ← read_byte
  let value = bit_or 0 (shifted_32 b3 24)
  let value' = bit_or value (shifted_32 b2 16)
  let value'' = bit_or value' (shifted_32 b1 8)
  pure (of_word (2 ^ 31) (bit_or value'' b0))

unfoldable pub read_long : Reader ℤ
read_long = do
  b7 ← read_byte
  b6 ← read_byte
  b5 ← read_byte
  b4 ← read_byte
  b3 ← read_byte
  b2 ← read_byte
  b1 ← read_byte
  b0 ← read_byte
  let v7 = bit_or 0 (shifted_64 b7 56)
  let v6 = bit_or v7 (shifted_64 b6 48)
  let v5 = bit_or v6 (shifted_64 b5 40)
  let v4 = bit_or v5 (shifted_64 b4 32)
  let v3 = bit_or v4 (shifted_64 b3 24)
  let v2 = bit_or v3 (shifted_64 b2 16)
  let v1 = bit_or v2 (shifted_64 b1 8)
  pure (of_word (2 ^ 63) (bit_or v1 b0))

-- The pattern of the double.
unfoldable pub read_double : Reader ℕ
read_double = do bits ← read_long; pure (to_word (2 ^ 63) bits)

-- The loop of `readString`, over the rounds left.
unfoldable pub read_chars : ℕ → Bytes → Reader Bytes
read_chars zero str = pure str
read_chars (suc n) str = do c ← read_byte; read_chars n (str ++ c ∷ [])

-- `str.reserve(length)` throws for a negative length, which it gets as a huge `size_t`.
unfoldable pub read_chars_of : ℤ → Reader Bytes
read_chars_of (pos n) = read_chars n []
read_chars_of (negsuc n) = throw length_error

unfoldable pub read_string : Reader Bytes
read_string = do length ← read_int; read_chars_of length
