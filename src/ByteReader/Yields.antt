-- ===== src/ByteReader/Yields.antt =====
-- `Yields m P`: whatever bytes `m` reads, a value that it returns has the property `P`.
use sc4051_dist_system_proj.Prelude.{◌≡◌, subst, Bool, true, false, if◌then◌else◌}
use sc4051_dist_system_proj.Result.{Error, Result, ok, err}
use sc4051_dist_system_proj.ByteReader.{ByteReader, Reader, pure, throw, ◌>>=◌}

pub record Yields {A : Type 0} (m : Reader A) (P : A → Type 0) : Type 0 where
  pub at : (r r' : ByteReader) (a : A) → m r ≡ ok (a, r') → P a

same_value : {A : Type 0} (a a' : A) (r r' : ByteReader) → pure a r ≡ ok (a', r') → a ≡ a'
same_value a a' r r' e = cc

pub Yields-pure : {A : Type 0} (P : A → Type 0) (a : A) → P a → Yields (pure a) P
Yields-pure P a h = record { at = λ r r' a' e. subst P (same_value a a' r r' e) h }

pub err-ne-ok : {B : Type 0} (e : Error) (b : B) → ¬ (err e ≡ ok b)
err-ne-ok e b h = cc

pub Yields-throw : {A : Type 0} (P : A → Type 0) (e : Error) → Yields (throw e) P
Yields-throw P e = record { at = λ r r' a h. absurd (err-ne-ok e (a, r') h) }

-- A value of a sequence comes from some value of its first part.
bind-eq-ok :
    {A B : Type 0} (x : Result (A × ByteReader)) (f : A → Reader B) (b : B) (last : ByteReader)
    → elim x [ ok (a, r) ↦ f a r | err e ↦ err e ] ≡ ok (b, last)
    → (a : A) × (r : ByteReader) × (f a r ≡ ok (b, last))
bind-eq-ok (ok (a, r)) f b last h = (a, r, h)
bind-eq-ok (err e) f b last h = absurd (err-ne-ok e (b, last) h)

pub Yields-bind :
    {A B : Type 0} (m : Reader A) (f : A → Reader B) (P : B → Type 0)
    → ((a : A) → Yields (f a) P)
    → Yields (m >>= f) P
unfolding ◌>>=◌
Yields-bind m f P h = record {
  at = λ r r' b e. let (a, s, e') = bind-eq-ok (m r) f b r' e in (h a).at s r' b e';
}

pub Yields-if :
    {A : Type 0} (P : A → Type 0) (test : Bool) (m n : Reader A)
    → Yields m P
    → Yields n P
    → Yields (if test then m else n) P
Yields-if P true m n hm hn = hm
Yields-if P false m n hm hn = hn
