-- ===== src/Parity/Detect.antt =====
-- Which corruptions of a packet the parity bit shows.
use sc4051_dist_system_proj.Prelude.{
  ℕ, zero, suc, ◌+◌, ◌%◌, ◌^◌, ◌<◌, ◌≡◌, refl, ap, bit_xor, Bool, true, false, ◌&&◌, Bytes, List,
  [], ◌∷◌, All, length, get_or, set, arith, ltb, ◌==◌,
}
use sc4051_dist_system_proj.Parity.{calculate_even_parity_bit, verify_even_parity}
use sc4051_dist_system_proj.Parity.Count.{ones, total_ones, calculate_even_parity_bit_lem}

-- One bit of the packet: the index of its byte, and its place in the byte.
pub record BitPosition : Type 0 where
  pub index : ℕ
  pub place : ℕ

abbrev pub IsBitOf : Bytes → BitPosition → Type 0
IsBitOf bytes p = (p.index < length bytes) × (p.place < 8)

-- Corrupts one bit.
abbrev pub flip : Bytes → BitPosition → Bytes
flip bytes p = set bytes p.index (bit_xor (get_or bytes p.index 0) (2 ^ p.place))

-- Corrupts the bits one after the other; the same bit may come again.
pub flip_all : Bytes → List BitPosition → Bytes
flip_all bytes [] = bytes
flip_all bytes (p ∷ ps) = flip_all (flip bytes p) ps

all_below : ℕ → (ℕ → Bool) → Bool
all_below zero test = true
all_below (suc n) test = test n && all_below n test

all_below_sound :
    (n : ℕ) (test : ℕ → Bool) (x : ℕ) → all_below n test ≡ true → x < n → test x ≡ true
unfolding all_below
all_below_sound zero test x h lt = absurd (omega arith)
all_below_sound (suc n) test x h lt = ground (arith, all_below_sound n test x)

-- Every byte with every place: the flipped value is a byte, and has one bit more or less.
abbrev flips_parity : ℕ → ℕ → Bool
flips_parity byte place =
    ltb (bit_xor byte (2 ^ place)) 256 && (ones 8 (bit_xor byte (2 ^ place)) + ones 8 byte) % 2 == 1

flip_table : all_below 256 (λ byte. all_below 8 (flips_parity byte)) ≡ true
unfolding all_below ones
flip_table = refl

pub flip_byte :
    (byte place : ℕ)
    → byte < 256
    → place < 8
    → (bit_xor byte (2 ^ place) < 256) × ((ones 8 (bit_xor byte (2 ^ place)) + ones 8 byte) % 2 ≡ 1)
flip_byte byte place hb hp =
    let row = all_below_sound 256 (λ b. all_below 8 (flips_parity b)) byte flip_table hb in
    let cell = all_below_sound 8 (flips_parity byte) place row hp in (ground arith, ground arith)

pub length-set : (bytes : Bytes) (i v : ℕ) → length (set bytes i v) ≡ length bytes
length-set [] i v = refl
length-set (x ∷ xs) zero v = refl
length-set (x ∷ xs) (suc i) v = ap suc (length-set xs i v)

All-set : (P : ℕ → Type 0) (bytes : Bytes) (i v : ℕ) → All P bytes → P v → All P (set bytes i v)
All-set P [] i v h hv = tt
All-set P (x ∷ xs) zero v h hv = (hv, h.1)
All-set P (x ∷ xs) (suc i) v h hv = (h.0, All-set P xs i v h.1 hv)

All-get_or : (bytes : Bytes) (i d : ℕ) → All (λ b. b < 256) bytes → d < 256 → get_or bytes i d < 256
All-get_or [] i d h hd = hd
All-get_or (x ∷ xs) zero d h hd = h.0
All-get_or (x ∷ xs) (suc i) d h hd = All-get_or xs i d h.1 hd

total_ones-set :
    (bytes : Bytes) (i v : ℕ)
    → i < length bytes
    → total_ones (set bytes i v) + ones 8 (get_or bytes i 0) ≡ total_ones bytes + ones 8 v
unfolding total_ones
total_ones-set [] i v h = absurd (omega arith)
total_ones-set (x ∷ xs) zero v h = omega arith
total_ones-set (x ∷ xs) (suc i) v h = omega (arith, total_ones-set xs i v (omega arith))

abbrev pub IsByteString : Bytes → Type 0
IsByteString = All (λ b. b < 256)

pub flip-IsByteString :
    (bytes : Bytes) (p : BitPosition)
    → IsByteString bytes
    → IsBitOf bytes p
    → IsByteString (flip bytes p)
flip-IsByteString bytes p h inside =
    let byte = get_or bytes p.index 0 in
    let changed = flip_byte byte p.place (All-get_or bytes p.index 0 h (omega arith)) inside.1 in
    All-set (λ b. b < 256) bytes p.index (bit_xor byte (2 ^ p.place)) h changed.0

pub total_ones-flip :
    (bytes : Bytes) (p : BitPosition)
    → IsByteString bytes
    → IsBitOf bytes p
    → total_ones (flip bytes p) % 2 ≡ (total_ones bytes + 1) % 2
total_ones-flip bytes p h inside =
    let byte = get_or bytes p.index 0 in
    let changed = flip_byte byte p.place (All-get_or bytes p.index 0 h (omega arith)) inside.1 in
    let sum = total_ones-set bytes p.index (bit_xor byte (2 ^ p.place)) inside.0 in
    omega (arith, sum, changed.1)

keeps_inside :
    (bytes : Bytes) (i v : ℕ) (ps : List BitPosition)
    → All (IsBitOf bytes) ps
    → All (IsBitOf (set bytes i v)) ps
keeps_inside bytes i v [] h = tt
keeps_inside bytes i v (p ∷ ps) h =
    ((omega (arith, length-set bytes i v), h.0.1), keeps_inside bytes i v ps h.1)

flip_all-total_ones :
    (ps : List BitPosition) (bytes : Bytes)
    → IsByteString bytes
    → All (IsBitOf bytes) ps
    → IsByteString (flip_all bytes ps)
      × (total_ones (flip_all bytes ps) % 2 ≡ (total_ones bytes + length ps) % 2)
unfolding flip_all
flip_all-total_ones [] bytes h inside = (h, omega arith)
flip_all-total_ones (p ∷ ps) bytes h inside =
    let changed = bit_xor (get_or bytes p.index 0) (2 ^ p.place) in
    let rest =
      flip_all-total_ones ps (flip bytes p) (flip-IsByteString bytes p h inside.0)
        (keeps_inside bytes p.index changed ps inside.1) in
    (rest.0, omega (arith, rest.1, total_ones-flip bytes p h inside.0))

-- A packet of bytes with the parity bit that was calculated for it, of which any bits are flipped
-- one after the other: the check passes exactly when the number of flips is even.
pub verify_even_parity-flip_all :
    (bytes : Bytes) (ps : List BitPosition)
    → IsByteString bytes
    → All (IsBitOf bytes) ps
    → verify_even_parity (flip_all bytes ps) (calculate_even_parity_bit bytes)
      ≡ (length ps % 2 == 0)
unfolding verify_even_parity
verify_even_parity-flip_all bytes ps h inside =
    let after = flip_all-total_ones ps bytes h inside in
    ground (
      arith,
      after.1,
      calculate_even_parity_bit_lem bytes h,
      calculate_even_parity_bit_lem (flip_all bytes ps) after.0,
    )

-- One flipped bit.
pub verify_even_parity-flip :
    (bytes : Bytes) (p : BitPosition)
    → IsByteString bytes
    → IsBitOf bytes p
    → verify_even_parity (flip bytes p) (calculate_even_parity_bit bytes) ≡ false
unfolding flip_all
verify_even_parity-flip bytes p h inside = verify_even_parity-flip_all bytes (p ∷ []) h (inside, tt)
