-- ===== src/Parity/Count.antt =====
-- The loop counts one-bits modulo 2.
use mathlib.Core.Logic.{dif_neg}
use mathlib.Core.WellFounded.{Acc}
use native.Mathlib.Decide.{dec_lt}
use native.Mathlib.Nat.{pow-suc}
use sc4051_dist_system_proj.Prelude.{
  ℕ, zero, suc, ◌+◌, ◌/◌, ◌%◌, ◌^◌, ◌<◌, ◌≡◌, refl, ap, ◌∙◌, bit_and, bit_xor, Bytes, foldl, [],
  ◌∷◌, All, arith,
}
use sc4051_dist_system_proj.Prelude.Bits.{bit_and-one, bit_xor-bits}
use sc4051_dist_system_proj.Prelude.Order.{lt_wf}
use sc4051_dist_system_proj.Parity.{parity_loop, add_byte, calculate_even_parity_bit}

-- The number of ones among the lowest `width` bits.
unfoldable pub ones : ℕ → ℕ → ℕ
ones zero n = 0
ones (suc width) n = n % 2 + ones width (n / 2)

-- The number of ones in all the bytes.
unfoldable pub total_ones : Bytes → ℕ
total_ones [] = 0
total_ones (byte ∷ bytes) = ones 8 byte + total_ones bytes

xor_low_bit : (p n : ℕ) → p < 2 → bit_xor p (bit_and n 1) ≡ (p + n % 2) % 2
xor_low_bit p n h = ap (bit_xor p) (bit_and-one n) ∙ bit_xor-bits p (n % 2) h (omega arith)

ones-zero : (width : ℕ) → ones width 0 ≡ 0
unfolding ones
ones-zero zero = refl
ones-zero (suc width) = omega (arith, ones-zero width)

parity_loop_lem :
    (width temp : ℕ) (w : Acc ◌<◌ temp) (p : ℕ)
    → temp < 2 ^ width
    → p < 2
    → parity_loop temp w p ≡ (p + ones width temp) % 2
unfolding parity_loop ones
parity_loop_lem width zero (Acc.intro _ smaller) p h hp =
    rw (dif_neg (dec_lt 0 0) (omega arith), ones-zero) (omega arith)
parity_loop_lem zero (suc temp) w p h hp = absurd (omega arith)
parity_loop_lem (suc width) (suc temp) (Acc.intro _ smaller) p h hp =
    let p' : ℕ = bit_xor p (bit_and (suc temp) 1) in
    let next : p' ≡ (p + suc temp % 2) % 2 = xor_low_bit p (suc temp) hp in
    grind (
      arith,
      next,
      λ (q : suc temp / 2 < suc temp).
          parity_loop_lem width (suc temp / 2) (smaller (suc temp / 2) q) p'
            (omega (arith, pow-suc 2 width)) (omega (arith, next)),
    )

-- The inner loop ends with the parity of what it began with and of the ones of the byte.
add_byte_lem : (p byte : ℕ) → p < 2 → byte < 256 → add_byte p byte ≡ (p + ones 8 byte) % 2
add_byte_lem p byte hp h = parity_loop_lem 8 byte (lt_wf.apply byte) p h hp

foldl-add_byte :
    (bytes : Bytes) (p : ℕ)
    → p < 2
    → All (λ b. b < 256) bytes
    → foldl add_byte p bytes ≡ (p + total_ones bytes) % 2
unfolding total_ones
foldl-add_byte [] p hp h = omega arith
foldl-add_byte (byte ∷ bytes) p hp h =
    let first = add_byte_lem p byte hp h.0 in
    omega (arith, first, foldl-add_byte bytes (add_byte p byte) (omega (arith, first)) h.1)

-- For a packet of bytes, the parity bit is the number of its one-bits modulo 2.
pub calculate_even_parity_bit_lem :
    (bytes : Bytes)
    → All (λ b. b < 256) bytes
    → calculate_even_parity_bit bytes ≡ total_ones bytes % 2
unfolding calculate_even_parity_bit
calculate_even_parity_bit_lem bytes h = omega (arith, foldl-add_byte bytes 0 (omega arith) h)
