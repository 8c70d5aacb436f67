-- ===== src/ByteReader/Written.antt =====
-- Client/src/ByteBuffer.cpp and Client/src/ByteReader.cpp together.
use sc4051_dist_system_proj.Prelude.{ℕ, ◌^◌, ◌<◌, sym, subst, Bytes, length}
use sc4051_dist_system_proj.Prelude.Int.{ℤ, IsInt32, IsInt64, of_word}
use sc4051_dist_system_proj.ByteBuffer.{empty, write_int, write_long, write_double, write_string}
use sc4051_dist_system_proj.ByteBuffer.Layout.{write_int_lem, write_long_lem, write_string_lem}
use sc4051_dist_system_proj.ByteReader.{read_int, read_long, read_double, read_string}
use sc4051_dist_system_proj.ByteReader.Reads.{Reads}
use sc4051_dist_system_proj.ByteReader.RoundTrip.{Reads-int, Reads-long, Reads-double, Reads-string}

-- Where the unread bytes begin with what `writeInt`, `writeLong`, `writeDouble` or `writeString` has
-- written, the reader of the same name returns the value and leaves what follows. The integers are
-- in the range of their type, a double is its pattern of 64 bits, and a text may have any characters
-- and is shorter than 2^31.
pub Reads-written :
    (int long : ℤ) (bits : ℕ) (str : Bytes)
    → IsInt32 int
    → IsInt64 long
    → bits < 2 ^ 64
    → length str < 2 ^ 31
    → Reads read_int (write_int int empty).buffer int
      × Reads read_long (write_long long empty).buffer long
      × Reads read_double (write_double bits empty).buffer bits
      × Reads read_string (write_string str empty).buffer str
unfolding write_double
Reads-written int long bits str h k l m = (
  subst (λ bs. Reads read_int bs int) (sym (write_int_lem int empty)) (Reads-int int h),
  subst (λ bs. Reads read_long bs long) (sym (write_long_lem long empty)) (Reads-long long k),
  subst (λ bs. Reads read_double bs bits) (sym (write_long_lem (of_word (2 ^ 63) bits) empty))
      (Reads-double bits l),
  subst (λ bs. Reads read_string bs str) (sym (write_string_lem str empty)) (Reads-string str m),
)
