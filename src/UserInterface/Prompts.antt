-- ===== src/UserInterface/Prompts.antt =====
-- The prompts of Client/src/UserInterface.cpp. The input is the list of the words that `std::cin >>`
-- extracts into a string, or of what it makes of them as an `int`; `none` says that the input is
-- over before a prompt has an answer. What is printed is left out.
use sc4051_dist_system_proj.Prelude.{
  ℕ, zero, suc, ◌+◌, ◌-◌, [], ◌∷◌, ◌++◌, List, Bytes, Bool, false, ◌&&◌, ◌||◌, not, Option, none,
  some, codes, same, map, leb, ◌==◌, if◌then◌else◌,
}
use sc4051_dist_system_proj.Prelude.Int.{ℤ, pos, negsuc}
use sc4051_dist_system_proj.Text.{getlines, comma}
use sc4051_dist_system_proj.Text.Numbers.{is_digit, stoi}
use sc4051_dist_system_proj.Text.Input.{Extraction, number, fails, is_int}
use sc4051_dist_system_proj.ResponseParser.Availability.{days_of_week}

-- `lowest <= number && number <= highest`
abbrev pub in_range : ℕ → ℕ → ℤ → Bool
in_range lowest highest (pos n) = leb lowest n && leb n highest
in_range lowest highest (negsuc n) = false

abbrev pub is_zero_offset : ℤ → Bool
is_zero_offset (pos n) = n == 0
is_zero_offset (negsuc n) = false

unfoldable pub prompt_choice : List Extraction → Option (ℤ × List Extraction)
prompt_choice [] = none
prompt_choice (fails ∷ input) = prompt_choice input
prompt_choice (number choice ∷ input) =
    let rest = prompt_choice input in if in_range 1 11 choice then some (choice, input) else rest

unfoldable pub prompt_offset : List Extraction → Option (ℤ × List Extraction)
prompt_offset [] = none
prompt_offset (fails ∷ input) = prompt_offset input
prompt_offset (number offset ∷ input) =
    let rest = prompt_offset input in if is_zero_offset offset then rest else some (offset, input)

-- The element at an index that is known to be inside.
abbrev pub day_at : List Bytes → ℕ → Bytes
day_at [] i = []
day_at (day ∷ days) zero = day
day_at (day ∷ days) (suc i) = day_at days i

-- `Constants::DAYS_OF_WEEK[choice - 1]`
abbrev pub chosen_day : ℤ → Bytes
chosen_day (pos n) = day_at days_of_week (n - 1)
chosen_day (negsuc n) = []

unfoldable pub prompt_day_of_week : List Extraction → Option (Bytes × List Extraction)
prompt_day_of_week [] = none
prompt_day_of_week (fails ∷ input) = prompt_day_of_week input
prompt_day_of_week (number choice ∷ input) =
    let rest = prompt_day_of_week input in
    if in_range 1 7 choice then some (chosen_day choice, input) else rest

-- The regular expression `([01]\d|2[0-3])[0-5]\d`.
unfoldable pub is_time : Bytes → Bool
is_time (a ∷ b ∷ c ∷ d ∷ []) =
    (((a == b'0' || a == b'1') && is_digit b) || (a == b'2' && (leb b'0' b && leb b b'3')))
    && (leb b'0' c && leb c b'5')
    && is_digit d
is_time _ = false

unfoldable pub prompt_time : List Bytes → Option (Bytes × List Bytes)
prompt_time [] = none
prompt_time (time ∷ input) =
    let rest = prompt_time input in if not (is_time time) then rest else some (time, input)

-- `yes`, `y`, `no` and `n` in any case, on a word, which has no spaces around it.
abbrev pub lower : ℕ → ℕ
lower c = if leb b'A' c && leb c b'Z' then c + 32 else c

unfoldable pub is_answer : Bytes → Bool
is_answer word =
    let text = map lower word in
    same text (codes "yes")
    || same text (codes "y")
    || same text (codes "no")
    || same text (codes "n")

abbrev pub says_yes : Bytes → Bool
says_yes [] = false
says_yes (c ∷ word) = c == b'y' || c == b'Y'

unfoldable pub prompt_confirmation : List Bytes → Option (Bool × List Bytes)
prompt_confirmation [] = none
prompt_confirmation (response ∷ input) =
    let rest = prompt_confirmation input in
    if not (is_answer response) then rest else some (says_yes response, input)

-- The outcome of one pass of `promptDaysOfWeek`: the days, another round, the exception
-- `std::out_of_range` that the loop does not catch, or `selectedDays[0]` of no days.
pub data Selection : Type 0 where
  selected : List Bytes → Selection
  refused : Selection
  out_of_range : Selection

abbrev pub add_day : Bytes → Selection → Selection
add_day day (selected days) = selected (day ∷ days)
add_day day refused = refused
add_day day out_of_range = out_of_range

-- The body of the loop over the tokens, on the selection that the later tokens give.
unfoldable pub select_day : Option ℤ → Selection → Selection
select_day none later = refused
select_day (some choice) later =
    if not (is_int choice)
    then out_of_range
    else if in_range 1 7 choice
    then add_day (chosen_day choice) later
    else refused

unfoldable pub select_days : List Bytes → Selection
select_days [] = selected []
select_days (token ∷ tokens) = select_day (stoi token) (select_days tokens)

-- `std::accumulate` with a comma between the days.
unfoldable pub joined : Bytes → List Bytes → Bytes
joined result [] = result
joined result (day ∷ days) = joined (result ++ comma ∷ day) days

-- How the prompt ends.
pub data DaysAnswer : Type 0 where
  answer : Bytes → List Bytes → DaysAnswer
  not_caught : DaysAnswer
  undefined_behaviour : DaysAnswer
  no_input : DaysAnswer

unfoldable pub days_answer : Selection → List Bytes → DaysAnswer → DaysAnswer
days_answer (selected []) input again = undefined_behaviour
days_answer (selected (day ∷ days)) input again = answer (joined day days) input
days_answer refused input again = again
days_answer out_of_range input again = not_caught

unfoldable pub prompt_days_of_week : List Bytes → DaysAnswer
prompt_days_of_week [] = no_input
prompt_days_of_week (word ∷ input) =
    days_answer (select_days (getlines comma word)) input (prompt_days_of_week input)
