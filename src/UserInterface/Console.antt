-- ===== src/UserInterface/Console.antt =====
-- The prompts of Client/src/UserInterface.cpp on the text of `std::cin`: each gets the text that has
-- not been extracted, and returns its answer with what is left. What is printed is left out.
pub mod Rounds
pub mod Reads
use sc4051_dist_system_proj.Prelude.{
  ℕ, zero, suc, [], ◌∷◌, Bytes, Bool, true, false, not, Option, none, some, length, if◌then◌else◌,
}
use sc4051_dist_system_proj.Prelude.Int.{ℤ, pos}
use sc4051_dist_system_proj.Text.{getlines, comma}
use sc4051_dist_system_proj.Text.Input.{
  Extraction, number, fails, extract_word, extract_int, extract_line, ignore_line,
}
use sc4051_dist_system_proj.UserInterface.Prompts.{
  in_range, is_zero_offset, chosen_day, is_time, is_answer, says_yes, Selection, selected, refused,
  out_of_range, select_days, joined,
}
use sc4051_dist_system_proj.UserInterface.Words.{
  prompt_facility_name, is_booking_id, is_server_ip, server_port_of, duration_of,
}

-- How a prompt ends: with an answer and the rest of the input, with an exception, or by reading an
-- element that is not there; or it asks for ever, since the input is over.
pub data Asked (A : Type 0) : Type 0 where
  answered : A → Bytes → Asked A
  asks_on uncaught undefined : Asked A

-- A client, and the input of its user.
pub record Typing (S : Type 0) : Type 0 where
  pub client : S
  pub input : Bytes

-- What the body of a prompt makes of what was extracted.
pub data Judged (A : Type 0) : Type 0 where
  accepted : A → Judged A
  again out_of_bounds no_element : Judged A

abbrev pub judged : {A : Type 0} → Judged A → Bytes → Asked A → Asked A
judged (accepted a) rest later = answered a rest
judged again rest later = later
judged out_of_bounds rest later = uncaught
judged no_element rest later = undefined

-- The loop of a prompt: `discard` is what is done with the input before the next round. Every round
-- extracts a character, so the length is fuel enough.
unfoldable pub asking :
    {A B : Type 0}
    → (Bytes → Option (A × Bytes))
    → (A → Judged B)
    → (A → Bytes → Bytes)
    → ℕ
    → Bytes
    → Asked B
asking extract judge discard zero input = asks_on
asking extract judge discard (suc fuel) input = elim (extract input) [
  | none ↦ asks_on
  | some (a, rest) ↦ judged (judge a) rest (asking extract judge discard fuel (discard a rest))
]

abbrev pub keep_rest : {A : Type 0} → A → Bytes → Bytes
keep_rest a rest = rest

abbrev pub accept_if : {A B : Type 0} → (A → Bool) → (A → B) → A → Judged B
accept_if test value a = if test a then accepted (value a) else again

abbrev pub accept_some : {A : Type 0} → Option A → Judged A
accept_some none = again
accept_some (some a) = accepted a

-- A prompt that extracts words.
abbrev pub ask_word : {B : Type 0} → (Bytes → Judged B) → Bytes → Asked B
ask_word judge input = asking extract_word judge keep_rest (suc (length input)) input

-- A prompt that extracts an `int`.
abbrev pub accept_int : {B : Type 0} → (ℤ → Bool) → (ℤ → B) → Extraction → Judged B
accept_int test value fails = again
accept_int test value (number n) = if test n then accepted (value n) else again

-- The line is discarded where the extraction failed.
abbrev pub after_failure : Extraction → Bytes → Bytes
after_failure fails rest = ignore_line rest
after_failure (number n) rest = rest

abbrev pub the_word : Bytes → Bytes
the_word word = word

abbrev pub the_number : ℤ → ℤ
the_number n = n

unfoldable pub ask_server_ip : Bytes → Asked Bytes
ask_server_ip input = ask_word (accept_if is_server_ip the_word) input

unfoldable pub ask_server_port : Bytes → Asked ℤ
ask_server_port input = ask_word (λ word. accept_some (server_port_of word)) input

unfoldable pub ask_choice : Bytes → Asked ℤ
ask_choice input =
    asking extract_int (accept_int (in_range 1 11) the_number) after_failure (suc (length input))
      input

unfoldable pub ask_facility_name : Bytes → Asked Bytes
ask_facility_name input = let (name, rest) = prompt_facility_name input in answered name rest

abbrev pub skip_line : Extraction → Bytes → Bytes
skip_line e rest = ignore_line rest

-- The rest of the line is discarded also where the number is none of a day.
unfoldable pub ask_day_of_week : Bytes → Asked Bytes
ask_day_of_week input =
    asking extract_int (accept_int (in_range 1 7) chosen_day) skip_line (suc (length input)) input

abbrev pub judge_days : Selection → Judged Bytes
judge_days (selected []) = no_element
judge_days (selected (day ∷ days)) = accepted (joined day days)
judge_days refused = again
judge_days out_of_range = out_of_bounds

unfoldable pub ask_days_of_week : Bytes → Asked Bytes
ask_days_of_week input = ask_word (λ word. judge_days (select_days (getlines comma word))) input

unfoldable pub ask_time : Bytes → Asked Bytes
ask_time input = ask_word (accept_if is_time the_word) input

unfoldable pub ask_booking_id : Bytes → Asked Bytes
ask_booking_id input = ask_word (accept_if is_booking_id the_word) input

unfoldable pub ask_offset : Bytes → Asked ℤ
ask_offset input =
    asking extract_int (accept_int (λ n. not (is_zero_offset n)) the_number) after_failure
      (suc (length input)) input

unfoldable pub ask_confirmation : Bytes → Asked Bool
ask_confirmation input = ask_word (accept_if is_answer says_yes) input

unfoldable pub ask_duration : Bytes → Asked ℤ
ask_duration input =
    asking extract_line (λ line. accept_some (duration_of line)) keep_rest (suc (length input))
      input
