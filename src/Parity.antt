-- ===== src/Parity.antt =====
-- Client/src/Parity.cpp: the even parity bit of a packet.
pub mod Count
pub mod Detect
use mathlib.Core.Logic.{dite}
use mathlib.Core.WellFounded.{Acc}
use native.Mathlib.Decide.{dec_lt}
use sc4051_dist_system_proj.Prelude.{ℕ, ◌/◌, ◌<◌, bit_and, bit_xor, Bool, Bytes, foldl, ◌==◌, arith}
use sc4051_dist_system_proj.Prelude.Order.{lt_wf}

-- `while (temp) { parityBit ^= (temp & 1); temp >>= 1; }`
parity_loop : (temp : ℕ) → Acc ◌<◌ temp → ℕ → ℕ
parity_loop temp (Acc.intro _ smaller) parity_bit =
    dite (dec_lt 0 temp)
      (λ h.
        parity_loop (temp / 2) (smaller (temp / 2) (omega arith))
          (bit_xor parity_bit (bit_and temp 1)))
      (λ _. parity_bit)

-- The body of the loop over the bytes.
abbrev add_byte : ℕ → ℕ → ℕ
add_byte parity_bit byte = parity_loop byte (lt_wf.apply byte) parity_bit

unfoldable pub calculate_even_parity_bit : Bytes → ℕ
unfolding parity_loop lt_wf dec_lt
calculate_even_parity_bit data_bytes = foldl add_byte 0 data_bytes

unfoldable pub verify_even_parity : Bytes → ℕ → Bool
verify_even_parity data_bytes parity_bit = calculate_even_parity_bit data_bytes == parity_bit
