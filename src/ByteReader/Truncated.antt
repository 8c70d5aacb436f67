-- ===== src/ByteReader/Truncated.antt =====
-- The readers on a buffer that ends too early.
use sc4051_dist_system_proj.Prelude.{
  ℕ, zero, suc, ◌^◌, ◌<◌, ◌≤◌, ◌≡◌, refl, ◌∙◌, [], ◌∷◌, ◌++◌, Bytes, length, arith, drop,
}
use sc4051_dist_system_proj.Prelude.Int.{pos}
use sc4051_dist_system_proj.Result.{Error, ok, err, buffer_overflow}
use sc4051_dist_system_proj.ByteBuffer.Layout.{int_bytes}
use sc4051_dist_system_proj.ByteReader.{
  ByteReader, Reader, read_int, ◌>>=◌, get_buffer, read_byte, read_chars, read_chars_of,
  read_string,
}
use sc4051_dist_system_proj.ByteReader.Reads.{Reads-byte}
use sc4051_dist_system_proj.ByteReader.RoundTrip.{Reads-int}

drop-nil : (xs : Bytes) (n : ℕ) → drop n xs ≡ [] → length xs ≤ n
drop-nil [] n h = omega arith
drop-nil (x ∷ xs) zero h = cc
drop-nil (x ∷ xs) (suc n) h = omega (arith, drop-nil xs n h)

read_byte-nil : (r : ByteReader) → get_buffer r ≡ [] → read_byte r ≡ err buffer_overflow
unfolding read_byte get_buffer
read_byte-nil r h = ground (arith, drop-nil r.buffer r.position h)

pub bind-ok :
    {A B : Type 0} (m : Reader A) (f : A → Reader B) (r r' : ByteReader) (a : A)
    → m r ≡ ok (a, r')
    → (m >>= f) r ≡ f a r'
unfolding ◌>>=◌
bind-ok m f r r' a h = rw (h, ◌>>=◌) refl

bind-err :
    {A B : Type 0} (m : Reader A) (f : A → Reader B) (r : ByteReader) (e : Error)
    → m r ≡ err e
    → (m >>= f) r ≡ err e
unfolding ◌>>=◌
bind-err m f r e h = rw (h, ◌>>=◌) refl

read_chars-short :
    (n : ℕ) (acc left : Bytes) (r : ByteReader)
    → get_buffer r ≡ left
    → length left < n
    → read_chars n acc r ≡ err buffer_overflow
unfolding read_chars
read_chars-short zero acc left r e h = absurd (omega arith)
read_chars-short (suc n) acc [] r e h = bind-err read_byte _ r buffer_overflow (read_byte-nil r e)
read_chars-short (suc n) acc (c ∷ left) r e h =
    let first = (Reads-byte c).at r left e in
    bind-ok read_byte _ r first.after c first.returned
    ∙ (read_chars-short n (acc ++ c ∷ []) left first.after first.left (omega arith))

-- Where the unread bytes begin with a length that an `int32_t` holds, and fewer bytes than that
-- follow, `readString` throws the buffer overflow.
pub read_string-short :
    (n : ℕ) (left : Bytes) (r : ByteReader)
    → get_buffer r ≡ int_bytes (pos n) ++ left
    → n < 2 ^ 31
    → length left < n
    → read_string r ≡ err buffer_overflow
unfolding read_string read_chars_of
read_string-short n left r e small short =
    let size = (Reads-int (pos n) small).at r left e in
    bind-ok read_int _ r size.after (pos n) size.returned
    ∙ (read_chars-short n [] left size.after size.left short)
