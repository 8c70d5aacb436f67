-- ===== src/ByteReader/RoundTrip.antt =====
-- What the writers append, the readers read back.
use sc4051_dist_system_proj.Prelude.{
  ℕ, suc, ◌+◌, ◌*◌, ◌/◌, ◌%◌, ◌^◌, ◌<◌, ◌≡◌, sym, ap, ◌∙◌, subst, [], ◌∷◌, ◌++◌, bit_or, Bytes,
  length, append_assoc, append-nil, arith,
}
use sc4051_dist_system_proj.Prelude.Bits.{bit_or-shift}
use sc4051_dist_system_proj.Prelude.Int.{
  ℤ, pos, IsInt32, IsInt64, to_word, of_word, of_word-to_word_32, of_word-to_word_64, to_word-lt_32,
  to_word-lt_64,
}
use sc4051_dist_system_proj.ByteBuffer.Layout.{big_endian, int_bytes, long_bytes, string_bytes}
use sc4051_dist_system_proj.ByteReader.{
  pure, shifted_32, shifted_64, read_int, read_long, read_double, read_chars, read_chars_of,
  read_string,
}
use sc4051_dist_system_proj.ByteReader.Reads.{
  Reads, Reads-pure, Reads-bind, Reads-bind_last, Reads-byte,
}

-- The fields of a word do not overlap, so `|` adds them.
or_bytes_32 :
    (b3 b2 b1 b0 : ℕ)
    → b3 < 256
    → b2 < 256
    → b1 < 256
    → b0 < 256
    → bit_or (bit_or (bit_or (bit_or 0 (shifted_32 b3 24)) (shifted_32 b2 16)) (shifted_32 b1 8)) b0
      ≡ b3 * 2 ^ 24 + b2 * 2 ^ 16 + b1 * 2 ^ 8 + b0
or_bytes_32 b3 b2 b1 b0 h3 h2 h1 h0 =
    let e3 : bit_or 0 (shifted_32 b3 24) ≡ b3 * 2 ^ 24 =
      omega (arith, bit_or-shift 32 0 (shifted_32 b3 24) (omega arith)) in
    let e2 : bit_or (b3 * 2 ^ 24) (shifted_32 b2 16) ≡ (b3 * 256 + b2) * 2 ^ 16 =
      omega (arith, bit_or-shift 24 b3 (shifted_32 b2 16) (omega arith)) in
    let e1 : bit_or ((b3 * 256 + b2) * 2 ^ 16) (shifted_32 b1 8)
        ≡ ((b3 * 256 + b2) * 256 + b1) * 2 ^ 8 =
      omega (arith, bit_or-shift 16 (b3 * 256 + b2) (shifted_32 b1 8) (omega arith)) in
    rw (e3, e2, e1) (omega (arith, bit_or-shift 8 ((b3 * 256 + b2) * 256 + b1) b0 h0))

read_four_bytes :
    (b3 b2 b1 b0 : ℕ)
    → Reads read_int (b3 ∷ b2 ∷ b1 ∷ b0 ∷ []) (
        of_word (2 ^ 31) (
          bit_or
            (bit_or (bit_or (bit_or 0 (shifted_32 b3 24)) (shifted_32 b2 16)) (shifted_32 b1 8))
            b0))
unfolding read_int
read_four_bytes b3 b2 b1 b0 = Reads-bind _ (Reads-byte b3) (
    Reads-bind _ (Reads-byte b2)
      (Reads-bind _ (Reads-byte b1) (Reads-bind _ (Reads-byte b0) (Reads-pure _))))

digits_of_word_32 :
    (w : ℕ)
    → w < 2 ^ 32
    → w / 256 ^ 3 % 256 * 2 ^ 24
        + w / 256 ^ 2 % 256 * 2 ^ 16
        + w / 256 ^ 1 % 256 * 2 ^ 8
        + w / 256 ^ 0 % 256
      ≡ w
digits_of_word_32 w h = omega arith

-- Where the unread bytes begin with the four big-endian bytes of a 32-bit integer, `readInt` returns
-- the integer and leaves what follows.
pub Reads-int : (value : ℤ) → IsInt32 value → Reads read_int (int_bytes value) value
unfolding big_endian
Reads-int value h =
    let w = to_word (2 ^ 31) value in
    let e =
      or_bytes_32 (w / 256 ^ 3 % 256) (w / 256 ^ 2 % 256) (w / 256 ^ 1 % 256) (w / 256 ^ 0 % 256)
        (omega arith) (omega arith) (omega arith) (omega arith) in
    let back =
      ap (of_word (2 ^ 31)) (e ∙ digits_of_word_32 w (to_word-lt_32 value))
      ∙ of_word-to_word_32 value h in
    subst (Reads read_int (int_bytes value)) back (read_four_bytes _ _ _ _)

abbrev or_64 : (b7 b6 b5 b4 b3 b2 b1 b0 : ℕ) → ℕ
or_64 b7 b6 b5 b4 b3 b2 b1 b0 =
    bit_or
      (bit_or
        (bit_or
          (bit_or
            (bit_or
              (bit_or (bit_or (bit_or 0 (shifted_64 b7 56)) (shifted_64 b6 48)) (shifted_64 b5 40))
              (shifted_64 b4 32))
            (shifted_64 b3 24))
          (shifted_64 b2 16))
        (shifted_64 b1 8))
      b0

or_bytes_64 :
    (b7 b6 b5 b4 b3 b2 b1 b0 : ℕ)
    → b7 < 256
    → b6 < 256
    → b5 < 256
    → b4 < 256
    → b3 < 256
    → b2 < 256
    → b1 < 256
    → b0 < 256
    → or_64 b7 b6 b5 b4 b3 b2 b1 b0
      ≡ b7 * 2 ^ 56
        + b6 * 2 ^ 48
        + b5 * 2 ^ 40
        + b4 * 2 ^ 32
        + b3 * 2 ^ 24
        + b2 * 2 ^ 16
        + b1 * 2 ^ 8
        + b0
or_bytes_64 b7 b6 b5 b4 b3 b2 b1 b0 h7 h6 h5 h4 h3 h2 h1 h0 =
    let e7 : bit_or 0 (shifted_64 b7 56) ≡ b7 * 2 ^ 56 =
      omega (arith, bit_or-shift 64 0 (shifted_64 b7 56) (omega arith)) in
    let e6 : bit_or (b7 * 2 ^ 56) (shifted_64 b6 48) ≡ (b7 * 256 + b6) * 2 ^ 48 =
      omega (arith, bit_or-shift 56 b7 (shifted_64 b6 48) (omega arith)) in
    let e5 : bit_or ((b7 * 256 + b6) * 2 ^ 48) (shifted_64 b5 40)
        ≡ ((b7 * 256 + b6) * 256 + b5) * 2 ^ 40 =
      omega (arith, bit_or-shift 48 (b7 * 256 + b6) (shifted_64 b5 40) (omega arith)) in
    let e4 : bit_or (((b7 * 256 + b6) * 256 + b5) * 2 ^ 40) (shifted_64 b4 32)
        ≡ (((b7 * 256 + b6) * 256 + b5) * 256 + b4) * 2 ^ 32 =
      omega
        (arith, bit_or-shift 40 ((b7 * 256 + b6) * 256 + b5) (shifted_64 b4 32) (omega arith)) in
    let e3 : bit_or ((((b7 * 256 + b6) * 256 + b5) * 256 + b4) * 2 ^ 32) (shifted_64 b3 24)
        ≡ ((((b7 * 256 + b6) * 256 + b5) * 256 + b4) * 256 + b3) * 2 ^ 24 =
      omega (
        arith,
        bit_or-shift 32 (((b7 * 256 + b6) * 256 + b5) * 256 + b4) (shifted_64 b3 24) (omega arith),
      ) in
    let e2 : bit_or (((((b7 * 256 + b6) * 256 + b5) * 256 + b4) * 256 + b3) * 2 ^ 24)
          (shifted_64 b2 16)
        ≡ (((((b7 * 256 + b6) * 256 + b5) * 256 + b4) * 256 + b3) * 256 + b2) * 2 ^ 16 =
      omega (
        arith,
        bit_or-shift 24 ((((b7 * 256 + b6) * 256 + b5) * 256 + b4) * 256 + b3) (shifted_64 b2 16)
            (omega arith),
      ) in
    let e1 : bit_or ((((((b7 * 256 + b6) * 256 + b5) * 256 + b4) * 256 + b3) * 256 + b2) * 2 ^ 16)
          (shifted_64 b1 8)
        ≡ ((((((b7 * 256 + b6) * 256 + b5) * 256 + b4) * 256 + b3) * 256 + b2) * 256 + b1) * 2 ^ 8 =
      omega (
        arith,
        bit_or-shift 16 (((((b7 * 256 + b6) * 256 + b5) * 256 + b4) * 256 + b3) * 256 + b2)
            (shifted_64 b1 8) (omega arith),
      ) in
    rw (e7, e6, e5, e4, e3, e2, e1)
      (omega (
        arith,
        bit_or-shift 8
            ((((((b7 * 256 + b6) * 256 + b5) * 256 + b4) * 256 + b3) * 256 + b2) * 256 + b1) b0 h0,
      ))

read_eight_bytes :
    (b7 b6 b5 b4 b3 b2 b1 b0 : ℕ)
    → Reads read_long
        (b7 ∷ b6 ∷ b5 ∷ b4 ∷ b3 ∷ b2 ∷ b1 ∷ b0 ∷ [])
        (of_word (2 ^ 63) (or_64 b7 b6 b5 b4 b3 b2 b1 b0))
unfolding read_long
read_eight_bytes b7 b6 b5 b4 b3 b2 b1 b0 = Reads-bind _ (Reads-byte b7) (
    Reads-bind _ (Reads-byte b6) (
      Reads-bind _ (Reads-byte b5) (
        Reads-bind _ (Reads-byte b4) (
          Reads-bind _ (Reads-byte b3) (
            Reads-bind _ (Reads-byte b2)
              (Reads-bind _ (Reads-byte b1) (Reads-bind _ (Reads-byte b0) (Reads-pure _))))))))

digits_of_word_64 :
    (w : ℕ)
    → w < 2 ^ 64
    → w / 256 ^ 7 % 256 * 2 ^ 56
        + w / 256 ^ 6 % 256 * 2 ^ 48
        + w / 256 ^ 5 % 256 * 2 ^ 40
        + w / 256 ^ 4 % 256 * 2 ^ 32
        + w / 256 ^ 3 % 256 * 2 ^ 24
        + w / 256 ^ 2 % 256 * 2 ^ 16
        + w / 256 ^ 1 % 256 * 2 ^ 8
        + w / 256 ^ 0 % 256
      ≡ w
digits_of_word_64 w h = omega arith

-- Where the unread bytes begin with the eight big-endian bytes of a 64-bit integer, `readLong`
-- returns the integer and leaves what follows.
pub Reads-long : (value : ℤ) → IsInt64 value → Reads read_long (long_bytes value) value
unfolding big_endian
Reads-long value h =
    let w = to_word (2 ^ 63) value in
    let e =
      or_bytes_64 (w / 256 ^ 7 % 256) (w / 256 ^ 6 % 256) (w / 256 ^ 5 % 256) (w / 256 ^ 4 % 256)
        (w / 256 ^ 3 % 256) (w / 256 ^ 2 % 256) (w / 256 ^ 1 % 256) (w / 256 ^ 0 % 256)
        (omega arith) (omega arith) (omega arith) (omega arith) (omega arith) (omega arith)
        (omega arith) (omega arith) in
    let back =
      ap (of_word (2 ^ 63)) (e ∙ digits_of_word_64 w (to_word-lt_64 value))
      ∙ of_word-to_word_64 value h in
    subst (Reads read_long (long_bytes value)) back (read_eight_bytes _ _ _ _ _ _ _ _)

word_of_double : (bits : ℕ) → bits < 2 ^ 64 → to_word (2 ^ 63) (of_word (2 ^ 63) bits) ≡ bits
word_of_double bits h = ground arith

IsInt64-of_word : (bits : ℕ) → bits < 2 ^ 64 → IsInt64 (of_word (2 ^ 63) bits)
IsInt64-of_word bits h = ground arith

-- Where the unread bytes begin with the eight big-endian bytes of a pattern of 64 bits, `readDouble`
-- returns the pattern and leaves what follows.
pub Reads-double :
    (bits : ℕ) → bits < 2 ^ 64 → Reads read_double (long_bytes (of_word (2 ^ 63) bits)) bits
unfolding read_double
Reads-double bits h =
    let value = of_word (2 ^ 63) bits in
    Reads-bind_last _ (Reads-long value (IsInt64-of_word bits h)) (
      subst (λ a. Reads (pure (to_word (2 ^ 63) value)) [] a) (word_of_double bits h)
        (Reads-pure _))

Reads-chars : (str acc : Bytes) → Reads (read_chars (length str) acc) str (acc ++ str)
unfolding read_chars
Reads-chars [] acc = subst (Reads (pure acc) []) (sym (append-nil acc)) (Reads-pure acc)
Reads-chars (c ∷ str) acc =
    subst (Reads (read_chars (suc (length str)) acc) (c ∷ str)) (append_assoc acc (c ∷ []) str)
      (Reads-bind _ (Reads-byte c) (Reads-chars str (acc ++ c ∷ [])))

-- Where the unread bytes begin with the length of a text, below 2^31, as a 32-bit integer, and the
-- text, `readString` returns the text, whatever its characters are, and leaves what follows.
pub Reads-string : (str : Bytes) → length str < 2 ^ 31 → Reads read_string (string_bytes str) str
unfolding read_string read_chars_of
Reads-string str h = Reads-bind _ (Reads-int (pos (length str)) h) (Reads-chars str [])
