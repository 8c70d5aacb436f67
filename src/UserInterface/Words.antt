-- ===== src/UserInterface/Words.antt =====
-- The other prompts of Client/src/UserInterface.cpp, which ask for an identifier, an address or a
-- number. The input is the list of the words, or of the lines, that are extracted; `none` says that
-- it is over before there is an answer.
-- A `float` is a value of a type that is given, with the numbers 1 and 5 and the comparison `<`.
use sc4051_dist_system_proj.Prelude.{
  ℕ, zero, suc, [], ◌∷◌, ◌++◌, List, Bytes, Bool, true, false, ◌&&◌, ◌||◌, not, Option, none, some,
  codes, same, length, drop, replicate, leb, ◌==◌, if◌then◌else◌,
}
use sc4051_dist_system_proj.Prelude.Int.{ℤ}
use sc4051_dist_system_proj.Text.{split_at, newline}
use sc4051_dist_system_proj.Text.Numbers.{is_digit, stoi}
use sc4051_dist_system_proj.UserInterface.Prompts.{in_range}

-- A regular expression that is a sequence of character classes.
unfoldable pub matches : List (ℕ → Bool) → Bytes → Bool
matches [] [] = true
matches [] (c ∷ s) = false
matches (class ∷ classes) [] = false
matches (class ∷ classes) (c ∷ s) = class c && matches classes s

-- `[0-9a-f]`, `4` and `[89ab]`, where the case of a letter does not matter.
abbrev pub is_hex : ℕ → Bool
is_hex c = is_digit c || (leb b'a' c && leb c b'f') || (leb b'A' c && leb c b'F')

abbrev pub is_dash : ℕ → Bool
is_dash c = c == b'-'

abbrev pub is_four : ℕ → Bool
is_four c = c == b'4'

abbrev pub is_variant : ℕ → Bool
is_variant c = c == b'8' || c == b'9' || c == b'a' || c == b'b' || c == b'A' || c == b'B'

-- `bookingIDRegex`
abbrev pub booking_id_classes : List (ℕ → Bool)
booking_id_classes =
    replicate 8 is_hex
    ++ is_dash ∷ replicate 4 is_hex
    ++ is_dash ∷ is_four ∷ replicate 3 is_hex
    ++ is_dash ∷ is_variant ∷ replicate 3 is_hex
    ++ is_dash ∷ replicate 12 is_hex

unfoldable pub is_booking_id : Bytes → Bool
is_booking_id word = matches booking_id_classes word

unfoldable pub prompt_booking_id : List Bytes → Option (Bytes × List Bytes)
prompt_booking_id [] = none
prompt_booking_id (booking_id ∷ input) =
    let rest = prompt_booking_id input in
    if not (is_booking_id booking_id) then rest else some (booking_id, input)

-- `std::all_of` with `isdigit`.
unfoldable pub all_digits : Bytes → Bool
all_digits [] = true
all_digits (c ∷ s) = is_digit c && all_digits s

-- `\d{1,3}`
abbrev pub is_octet : Bytes → Bool
is_octet s = leb 1 (length s) && leb (length s) 3 && all_digits s

-- `(\d{1,3}\.){n}\d{1,3}`
unfoldable pub dotted : ℕ → Bytes → Bool
dotted zero s = is_octet s
dotted (suc n) s = let (octet, rest) = split_at b'.' s in is_octet octet && dotted n rest

unfoldable pub is_server_ip : Bytes → Bool
is_server_ip word = dotted 3 word || same word (codes "localhost")

unfoldable pub prompt_server_ip : List Bytes → Option (Bytes × List Bytes)
prompt_server_ip [] = none
prompt_server_ip (server_ip ∷ input) =
    let rest = prompt_server_ip input in
    if is_server_ip server_ip then some (server_ip, input) else rest

-- What a number is taken to be: both exceptions of `stoi` lead to another round.
unfoldable pub number_in : ℕ → ℕ → Option ℤ → Option ℤ
number_in lowest highest none = none
number_in lowest highest (some n) = if in_range lowest highest n then some n else none

unfoldable pub server_port_of : Bytes → Option ℤ
server_port_of word = number_in 1 65535 (stoi word)

-- The prompt returns the answer if there is one, and goes on otherwise.
abbrev pub or_again : {A B : Type 0} → Option B → List A → Option (B × List A) → Option (B × List A)
or_again none input again = again
or_again (some b) input again = some (b, input)

unfoldable pub prompt_server_port : List Bytes → Option (ℤ × List Bytes)
prompt_server_port [] = none
prompt_server_port (word ∷ input) = or_again (server_port_of word) input (prompt_server_port input)

-- `INT_MAX` is the last number that `stoi` returns.
unfoldable pub duration_of : Bytes → Option ℤ
duration_of line =
    if leb 1 (length line) && all_digits line then number_in 1 0x7fff_ffff (stoi line) else none

unfoldable pub prompt_duration : List Bytes → Option (ℤ × List Bytes)
prompt_duration [] = none
prompt_duration (line ∷ input) = or_again (duration_of line) input (prompt_duration input)

-- `ignore` drops a character, and `getline` takes the rest of the line. The input is the text that
-- has not been extracted.
unfoldable pub prompt_facility_name : Bytes → Bytes × Bytes
prompt_facility_name input = split_at newline (drop 1 input)

module _ {F : Type 0} (lt : F → F → Bool) (one five : F) where
  -- `!(rating < 1 || rating > 5)`
  abbrev pub is_rating : F → Bool
  is_rating rating = not (lt rating one || lt five rating)

  -- What `std::cin >> rating` gets, or `none` where it fails.
  unfoldable pub rating_of : Option F → Option F
  rating_of none = none
  rating_of (some rating) = if is_rating rating then some rating else none

  unfoldable pub prompt_rating : List (Option F) → Option (F × List (Option F))
  prompt_rating [] = none
  prompt_rating (extracted ∷ input) = or_again (rating_of extracted) input (prompt_rating input)
