-- ===== src/Prelude/Int.antt =====
-- Signed integers over the native numbers, under the library's names, and the two's complement
-- patterns of a machine integer whose values lie in [-half, half).
use Prim.Native.Nat.{ℕ, ◌+◌, ◌-◌, ◌*◌, ◌/◌, ◌%◌, ◌^◌, ◌<◌}
use mathlib.Core.Path.{◌≡◌}
use native.Mathlib.Omega.{arith}
use sc4051_dist_system_proj.Prelude.Tests.{ltb, if◌then◌else◌}

-- `negsuc n` is -(n + 1).
pub data ℤ : Type 0 where
  pos : ℕ → ℤ
  negsuc : ℕ → ℤ

abbrev pub IsSigned : ℕ → ℤ → Type 0
IsSigned half (pos n) = n < half
IsSigned half (negsuc n) = n < half

abbrev pub IsInt32 : ℤ → Type 0
IsInt32 = IsSigned (2 ^ 31)

abbrev pub IsInt64 : ℤ → Type 0
IsInt64 = IsSigned (2 ^ 63)

-- The pattern of an integer, as the conversion to the unsigned type gives it.
abbrev pub to_word : ℕ → ℤ → ℕ
to_word half (pos n) = n % (half * 2)
to_word half (negsuc n) = half * 2 - 1 - n % (half * 2)

-- The integer that a pattern stands for.
abbrev pub of_word : ℕ → ℕ → ℤ
of_word half w = if ltb w half then pos w else negsuc (half * 2 - 1 - w)

-- `>>` of a signed integer, on patterns: the sign is copied into the places that get free.
abbrev pub shift_right : ℕ → ℕ → ℕ → ℕ
shift_right half w k = if ltb w half then w / 2 ^ k else w / 2 ^ k + (half * 2 - half * 2 / 2 ^ k)

pub of_word-to_word_32 : (z : ℤ) → IsInt32 z → of_word (2 ^ 31) (to_word (2 ^ 31) z) ≡ z
of_word-to_word_32 (pos n) h = ground arith
of_word-to_word_32 (negsuc n) h = ground arith

pub of_word-to_word_64 : (z : ℤ) → IsInt64 z → of_word (2 ^ 63) (to_word (2 ^ 63) z) ≡ z
of_word-to_word_64 (pos n) h = ground arith
of_word-to_word_64 (negsuc n) h = ground arith

pub to_word-lt_32 : (z : ℤ) → to_word (2 ^ 31) z < 2 ^ 32
to_word-lt_32 (pos n) = omega arith
to_word-lt_32 (negsuc n) = omega arith

pub to_word-lt_64 : (z : ℤ) → to_word (2 ^ 63) z < 2 ^ 64
to_word-lt_64 (pos n) = omega arith
to_word-lt_64 (negsuc n) = omega arith
