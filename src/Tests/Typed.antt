-- ===== src/Tests/Typed.antt =====
-- The theorems on the prompts at concrete inputs.
use sc4051_dist_system_proj.Prelude.{
  ℕ, Option, none, ◌≡◌, refl, [], ◌∷◌, ◌++◌, List, Bytes, length, some, codes,
}
use sc4051_dist_system_proj.Prelude.Int.{pos}
use sc4051_dist_system_proj.Text.{getlines, getlines_upto, split_at, comma, newline}
use sc4051_dist_system_proj.Text.Lines.{Lacks}
use sc4051_dist_system_proj.Text.Numbers.{stoi, unsigned_number, read_digits}
use sc4051_dist_system_proj.Text.Input.{Extraction, number, fails}
use sc4051_dist_system_proj.UserInterface.Prompts.{
  is_time, prompt_time, not_caught, select_day, select_days, days_answer, prompt_days_of_week,
}
use sc4051_dist_system_proj.UserInterface.Words.{matches, is_booking_id, prompt_booking_id}
use sc4051_dist_system_proj.UserInterface.BookingIds.{prompt_booking_id-fields}

typed : prompt_time (codes "2460" ∷ codes "0930" ∷ []) ≡ some (codes "0930", [])
unfolding prompt_time is_time
typed = refl

-- A number that no `int` holds.
large_number : prompt_days_of_week (codes "4294967296" ∷ []) ≡ not_caught
unfolding prompt_days_of_week days_answer select_days select_day stoi unsigned_number read_digits
    getlines getlines_upto split_at
large_number = refl

abbrev some_numbers : List Extraction
some_numbers = fails ∷ number (pos 0) ∷ number (pos 12) ∷ number (pos 7) ∷ []

abbrev some_words : List Bytes
some_words = codes "2460" ∷ codes "127.0.0.1" ∷ codes "8080" ∷ codes "yes" ∷ []

-- Whole numbers stand for the floats.
abbrev some_ratings : List (Option ℕ)
some_ratings = none ∷ some 6 ∷ some 4 ∷ []

abbrev an_id : Bytes
an_id = codes "123e4567-e89b-42d3-a456-426614174000"

typed_id : prompt_booking_id (codes "17" ∷ an_id ∷ []) ≡ some (an_id, [])
unfolding prompt_booking_id is_booking_id matches
typed_id = refl

prompt_booking_id-fields_example :
    (length an_id ≡ 36)
    × Lacks newline an_id
    × (getlines comma (codes "booking," ++ an_id) ≡ codes "booking" ∷ an_id ∷ [])
prompt_booking_id-fields_example =
    prompt_booking_id-fields (codes "17" ∷ an_id ∷ []) [] an_id typed_id

-- A text that is no number, one that is too small, and the rest of a session.
abbrev some_text : Bytes
some_text = codes "gym\n0 9\n0930 yes\n2222 60\n"
