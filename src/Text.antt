-- ===== src/Text.antt =====
-- What the client's code uses of `std::string` and of `std::getline` on a string stream, on lists
-- of bytes. A stream is the part of its text that has not been extracted.
pub mod Lines
pub mod Numbers
pub mod Input
use sc4051_dist_system_proj.Prelude.{
  ℕ, zero, suc, ◌+◌, ◌-◌, ◌≡◌, refl, [], ◌∷◌, ◌++◌, List, Bytes, Bool, true, false, ◌&&◌, Option,
  none, some, take, drop, length, ◌==◌, if◌then◌else◌,
}
use mathlib.Core.Option

-- Whether the text begins with the pattern.
abbrev pub starts_with : Bytes → Bytes → Bool
starts_with [] s = true
starts_with (p ∷ ps) [] = false
starts_with (p ∷ ps) (c ∷ s) = p == c && starts_with ps s

-- `s.find(pattern)`: the first position at which the pattern stands; `none` is `npos`.
unfoldable pub find : Bytes → Bytes → Option ℕ
find pattern [] = if starts_with pattern [] then some 0 else none
find pattern (c ∷ s) =
    let later = Option.map suc (find pattern s) in
    if starts_with pattern (c ∷ s) then some 0 else later

-- `s.find(pattern) == 0`
abbrev pub is_zero : Option ℕ → Bool
is_zero none = false
is_zero (some zero) = true
is_zero (some (suc n)) = false

unfoldable pub found_at_start : Bytes → Bytes → Bool
found_at_start pattern s = is_zero (find pattern s)

-- `s.substr(pos, n)` at a position inside the text, and to its end with no `n`.
abbrev pub substr : Bytes → ℕ → ℕ → Bytes
substr s start n = take n (drop start s)

abbrev pub suffix : Bytes → ℕ → Bytes
suffix s start = drop start s

-- The characters before the first delimiter, and those behind it.
unfoldable pub split_at : ℕ → Bytes → Bytes × Bytes
split_at delim [] = ([], [])
split_at delim (c ∷ s) =
    let (before, after) = split_at delim s in if c == delim then ([], s) else (c ∷ before, after)

-- `std::getline(stream, line, delim)`: it fails where nothing is left to extract. A last line
-- needs no delimiter.
unfoldable pub getline : ℕ → Bytes → Option (Bytes × Bytes)
getline delim [] = none
getline delim (c ∷ s) = some (split_at delim (c ∷ s))

-- `while (std::getline(stream, line, delim))` collects its lines: the list of them that the body
-- sees, in order. Every round extracts a character, so the length is fuel enough.
unfoldable pub getlines_upto : ℕ → ℕ → Bytes → List Bytes
getlines_upto zero delim s = []
getlines_upto (suc fuel) delim [] = []
getlines_upto (suc fuel) delim (c ∷ s) =
    let (line, rest) = split_at delim (c ∷ s) in line ∷ getlines_upto fuel delim rest

unfoldable pub getlines : ℕ → Bytes → List Bytes
getlines delim s = getlines_upto (length s) delim s

abbrev pub newline : ℕ
newline = 10

abbrev pub comma : ℕ
comma = 44
