-- ===== src/ByteReader/Reads.antt =====
-- `Reads m bs a`: before any further bytes, `m` takes the bytes `bs` and returns `a`.
use sc4051_dist_system_proj.Prelude.{
  ℕ, ◌+◌, ◌≡◌, refl, ◌∙◌, [], ◌∷◌, ◌++◌, Bytes, drop-cons, append_assoc, append-nil, subst, arith,
}
use sc4051_dist_system_proj.Result.{ok}
use sc4051_dist_system_proj.ByteReader.{ByteReader, Reader, pure, ◌>>=◌, get_buffer, read_byte}

-- The outcome of `m` on the reader `r`: it returns `a`, and `rest` is left.
pub record Returns {A : Type 0} (m : Reader A) (r : ByteReader) (a : A) (rest : Bytes)
    : Type 0 where
  pub after : ByteReader
  pub returned : m r ≡ ok (a, after)
  pub left : get_buffer after ≡ rest

pub record Reads {A : Type 0} (m : Reader A) (bs : Bytes) (a : A) : Type 0 where
  pub at : (r : ByteReader) (rest : Bytes) → get_buffer r ≡ bs ++ rest → Returns m r a rest

pub Reads-pure : {A : Type 0} (a : A) → Reads (pure a) [] a
Reads-pure a = record { at = λ r rest e. record { after = r; returned = refl; left = e } }

pub Reads-bind :
    {A B : Type 0} {m : Reader A} (f : A → Reader B) {bs cs : Bytes} {a : A} {b : B}
    → Reads m bs a
    → Reads (f a) cs b
    → Reads (m >>= f) (bs ++ cs) b
unfolding ◌>>=◌
Reads-bind {m = m} f {bs} {cs} {a} {b} x y = record { at = run }
  where
    run :
        (r : ByteReader) (rest : Bytes)
        → get_buffer r ≡ bs ++ cs ++ rest
        → Returns (m >>= f) r b rest
    run r rest e =
        let first = x.at r (cs ++ rest) (e ∙ append_assoc bs cs rest) in
        let second = y.at first.after rest first.left in
        record {
          after = second.after;
          returned = rw (first.returned, ◌>>=◌) second.returned;
          left = second.left;
        }

-- The same where `f` reads nothing.
pub Reads-bind_last :
    {A B : Type 0} {m : Reader A} (f : A → Reader B) {bs : Bytes} {a : A} {b : B}
    → Reads m bs a
    → Reads (f a) [] b
    → Reads (m >>= f) bs b
Reads-bind_last {m = m} f {bs} {b = b} x y =
    subst (λ l. Reads (m >>= f) l b) (append-nil bs) (Reads-bind f x y)

pub Reads-byte : (c : ℕ) → Reads read_byte (c ∷ []) c
unfolding read_byte get_buffer
Reads-byte c = record {
  at = λ r rest e.
      let inside = drop-cons r.buffer r.position 0 c rest e in
      record {
        after = record r { position = r.position + 1 };
        returned = ground (arith, inside);
        left = ground (arith, inside);
      };
}
