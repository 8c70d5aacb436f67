-- ===== src/Serializer/Corruption.antt =====
-- A corrupted bit anywhere in a packet is refused.
use sc4051_dist_system_proj.Prelude.{
  ℕ, zero, suc, ◌^◌, ◌<◌, ◌≡◌, refl, ap, [], ◌∷◌, ◌++◌, Bytes, true, false, length, get_or, set,
  bit_xor, inl, inr, ◌⊎◌, ==_iff, arith,
}
use sc4051_dist_system_proj.Result.{err, parity_check_failed}
use sc4051_dist_system_proj.Parity.{calculate_even_parity_bit, verify_even_parity}
use sc4051_dist_system_proj.Parity.Detect.{
  BitPosition, IsBitOf, IsByteString, flip, flip_byte, verify_even_parity-flip,
}
use sc4051_dist_system_proj.Serializer.{JavaSerializable}
use sc4051_dist_system_proj.Serializer.ObjectFactory.{Creators}
use sc4051_dist_system_proj.Serializer.JavaDeserializer.{split_last, split_last-append, deserialize}

set-append_left : (xs ys : Bytes) (i v : ℕ) → i < length xs → set (xs ++ ys) i v ≡ set xs i v ++ ys
set-append_left [] ys i v h = absurd (omega arith)
set-append_left (x ∷ xs) ys zero v h = refl
set-append_left (x ∷ xs) ys (suc i) v h = ap (λ l. x ∷ l) (set-append_left xs ys i v (omega arith))

get_or-append_left :
    (xs ys : Bytes) (i d : ℕ) → i < length xs → get_or (xs ++ ys) i d ≡ get_or xs i d
get_or-append_left [] ys i d h = absurd (omega arith)
get_or-append_left (x ∷ xs) ys zero d h = refl
get_or-append_left (x ∷ xs) ys (suc i) d h = get_or-append_left xs ys i d (omega arith)

-- A position in a packet lies in its body, or is its last byte.
last_or_before :
    (xs : Bytes) (x i : ℕ)
    → i < length (xs ++ x ∷ [])
    → (i < length xs)
      ⊎ ((get_or (xs ++ x ∷ []) i 0 ≡ x) × ((v : ℕ) → set (xs ++ x ∷ []) i v ≡ xs ++ v ∷ []))
last_or_before [] x zero h = inr (refl, λ v. refl)
last_or_before [] x (suc i) h = absurd (omega arith)
last_or_before (y ∷ xs) x zero h = inl (omega arith)
last_or_before (y ∷ xs) x (suc i) h = elim (last_or_before xs x i (omega arith)) [
  | inl before ↦ inl (omega arith)
  | inr (value, written) ↦ inr (value, λ v. ap (λ l. y ∷ l) (written v))
]

other_bit :
    (body : Bytes) (parity_bit place : ℕ)
    → verify_even_parity body parity_bit ≡ true
    → parity_bit < 256
    → place < 8
    → verify_even_parity body (bit_xor parity_bit (2 ^ place)) ≡ false
unfolding verify_even_parity
other_bit body parity_bit place right small h = ground (arith, flip_byte parity_bit place small h)

module _ {O : Type 0} ⦃j : JavaSerializable O⦄ (creators : Creators O) where
  bad_parity :
      (body : Bytes) (parity_bit : ℕ)
      → verify_even_parity body parity_bit ≡ false
      → deserialize creators (body ++ parity_bit ∷ []) ≡ err parity_check_failed
  unfolding deserialize split_last
  bad_parity [] parity_bit h = rw h
  bad_parity (x ∷ xs) parity_bit h = rw (split_last-append x xs parity_bit, h)

  -- A packet of bytes whose parity bit is right, with any one of its bits flipped, the bits of the
  -- parity byte included, is refused by the parity check.
  pub deserialize-flip :
      (body : Bytes) (parity_bit : ℕ) (p : BitPosition)
      → IsByteString body
      → parity_bit < 256
      → verify_even_parity body parity_bit ≡ true
      → IsBitOf (body ++ parity_bit ∷ []) p
      → deserialize creators (flip (body ++ parity_bit ∷ []) p) ≡ err parity_check_failed
  deserialize-flip body parity_bit p bytes small right inside =
      let own : calculate_even_parity_bit body ≡ parity_bit =
        unfold verify_even_parity in (==_iff _ _).0 right in
      elim (last_or_before body parity_bit p.index inside.0) [
        | inl before ↦
            rw (set-append_left, get_or-append_left)
              (bad_parity (flip body p) parity_bit
                (rw own at (verify_even_parity-flip body p bytes (before, inside.1))))
        | inr (value, written) ↦
            rw (written, value)
              (bad_parity body _ (other_bit body parity_bit p.place right small inside.1))
      ]
