-- ===== src/Text/Input.antt =====
-- What the client's code uses of `std::cin`: the input is the text that has not been extracted.
pub mod Shorter
use sc4051_dist_system_proj.Prelude.{
  ℕ, zero, suc, ◌+◌, ◌≤◌, ◌<◌, ◌≡◌, [], ◌∷◌, Bytes, Bool, ◌||◌, ◌^◌, Option, none, some, length,
  drop, ltb, leb, ◌==◌, if◌then◌else◌, arith, Bool-cases, inl, inr,
}
use sc4051_dist_system_proj.Prelude.Int.{ℤ, pos, negsuc}
use sc4051_dist_system_proj.Text.{split_at, getline, newline}
use sc4051_dist_system_proj.Text.Numbers.{is_space, is_digit, read_digits, negate}

unfoldable pub skip_spaces : Bytes → Bytes
skip_spaces [] = []
skip_spaces (c ∷ s) = let later = skip_spaces s in if is_space c then later else c ∷ s

-- The characters before the first space, and the text from there on.
unfoldable pub split_word : Bytes → Bytes × Bytes
split_word [] = ([], [])
split_word (c ∷ s) =
    let (word, rest) = split_word s in if is_space c then ([], c ∷ s) else (c ∷ word, rest)

-- `std::cin >> word`; `none` is the end of the input.
abbrev pub word_in : Bytes → Option (Bytes × Bytes)
word_in [] = none
word_in (c ∷ s) = some (split_word (c ∷ s))

unfoldable pub extract_word : Bytes → Option (Bytes × Bytes)
extract_word input = word_in (skip_spaces input)

unfoldable pub split_digits : Bytes → Bytes × Bytes
split_digits [] = ([], [])
split_digits (c ∷ s) =
    let (digits, rest) = split_digits s in if is_digit c then (c ∷ digits, rest) else ([], c ∷ s)

-- What `std::cin >> number` gets: an `int`, or it fails.
pub data Extraction : Type 0 where
  number : ℤ → Extraction
  fails : Extraction

-- `int` holds the number.
abbrev pub is_int : ℤ → Bool
is_int (pos n) = ltb n (2 ^ 31)
is_int (negsuc n) = ltb n (2 ^ 31)

abbrev pub int_of : (ℕ → ℤ) → Bytes → Extraction
int_of signed [] = fails
int_of signed (c ∷ digits) =
    let n = signed (read_digits 0 (c ∷ digits)) in if is_int n then number n else fails

abbrev pub signed_in : (ℕ → ℤ) → Bytes × Bytes → Option (Extraction × Bytes)
signed_in signed (digits, rest) = some (int_of signed digits, rest)

abbrev pub int_in : Bytes → Option (Extraction × Bytes)
int_in [] = none
int_in (c ∷ s) =
    if c == b'-'
    then signed_in negate (split_digits s)
    else signed_in pos (split_digits (if c == b'+' then s else c ∷ s))

-- `std::cin >> number`; `none` is the end of the input.
unfoldable pub extract_int : Bytes → Option (Extraction × Bytes)
extract_int input = int_in (skip_spaces input)

-- `std::getline(std::cin, line)`, which fails at the end of the input.
abbrev pub extract_line : Bytes → Option (Bytes × Bytes)
extract_line input = getline newline input

-- `std::cin.ignore(max, '\n')`
abbrev pub ignore_line : Bytes → Bytes
ignore_line input = (split_at newline input).1
