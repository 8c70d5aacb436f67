-- ===== src/UserInterface/Console/Reads.antt =====
-- The prompts on the text of `std::cin` and those on the list of what is extracted from it.
use sc4051_dist_system_proj.Prelude.{
  ℕ, zero, suc, ◌<◌, ◌≡◌, refl, ap, ◌∙◌, [], ◌∷◌, List, Bytes, Option, none, some, length, arith,
}
use sc4051_dist_system_proj.Text.{getlines, comma}
use sc4051_dist_system_proj.Text.Input.{Extraction, extract_word, extract_int, extract_line}
use sc4051_dist_system_proj.UserInterface.Prompts.{
  in_range, prompt_choice, prompt_offset, chosen_day, prompt_day_of_week, is_time, prompt_time,
  is_answer, says_yes, prompt_confirmation, Selection, selected, refused, out_of_range, select_days,
  DaysAnswer, answer, not_caught, undefined_behaviour, no_input, days_answer, prompt_days_of_week,
}
use sc4051_dist_system_proj.UserInterface.Words.{
  is_booking_id, prompt_booking_id, is_server_ip, prompt_server_ip, server_port_of,
  prompt_server_port, duration_of, prompt_duration,
}
use sc4051_dist_system_proj.UserInterface.Returns.{
  is_offset, choice_step, offset_step, day_step, passes, passes_not-not,
}
use sc4051_dist_system_proj.UserInterface.Console.{
  Asked, answered, asks_on, uncaught, undefined, Judged, judged, asking, keep_rest, after_failure,
  skip_line, judge_days, the_word, the_number, ask_server_ip, ask_server_port, ask_choice,
  ask_day_of_week, ask_days_of_week, ask_time, ask_booking_id, ask_offset, ask_confirmation,
  ask_duration,
}
use sc4051_dist_system_proj.UserInterface.Console.Rounds.{
  extractions, answer_in, first_of, extractions_enough, reads, word-Progresses, line-Progresses,
  number-Progresses, day-Progresses, accept_passing, accept_extracted,
}

abbrev pub words_in : ℕ → Bytes → List Bytes
words_in fuel input = extractions extract_word keep_rest fuel input

abbrev pub lines_in : ℕ → Bytes → List Bytes
lines_in fuel input = extractions extract_line keep_rest fuel input

-- The line is ignored behind a text that is no number.
abbrev pub numbers_in : ℕ → Bytes → List Extraction
numbers_in fuel input = extractions extract_int after_failure fuel input

-- The line is ignored behind every number.
abbrev pub first_numbers_in : ℕ → Bytes → List Extraction
first_numbers_in fuel input = extractions extract_int skip_line fuel input

-- How the prompt for days ends, without what is left of the input.
abbrev pub end_of : Asked Bytes → DaysAnswer
end_of (answered days rest) = answer days []
end_of asks_on = no_input
end_of uncaught = not_caught
end_of undefined = undefined_behaviour

abbrev pub without_input : DaysAnswer → DaysAnswer
without_input (answer days input) = answer days []
without_input not_caught = not_caught
without_input undefined_behaviour = undefined_behaviour
without_input no_input = no_input

abbrev judge_word : Bytes → Judged Bytes
judge_word word = judge_days (select_days (getlines comma word))

asking-days :
    (fuel : ℕ) (input : Bytes)
    → end_of (asking extract_word judge_word keep_rest fuel input)
      ≡ without_input (prompt_days_of_week (words_in fuel input))
unfolding asking extractions prompt_days_of_week days_answer
asking-days zero input = refl
asking-days (suc fuel) input = next (λ s. asking-days fuel s) (extract_word input)
  where
    chosen :
        (days : Selection) (rest : Bytes)
        → end_of (asking extract_word judge_word keep_rest fuel rest)
          ≡ without_input (prompt_days_of_week (words_in fuel rest))
        → end_of
            (judged (judge_days days) rest (asking extract_word judge_word keep_rest fuel rest))
          ≡ without_input
              (days_answer days (words_in fuel rest) (prompt_days_of_week (words_in fuel rest)))
    chosen (selected []) rest later = refl
    chosen (selected (day ∷ days)) rest later = refl
    chosen refused rest later = later
    chosen out_of_range rest later = refl

    next :
        ((s : Bytes)
          → end_of (asking extract_word judge_word keep_rest fuel s)
            ≡ without_input (prompt_days_of_week (words_in fuel s)))
        → (o : Option (Bytes × Bytes))
        → end_of (elim o [
          | none ↦ asks_on
          | some (word, rest) ↦
              judged (judge_word word) rest (asking extract_word judge_word keep_rest fuel rest)
        ])
          ≡ without_input (
              prompt_days_of_week
                (elim o [ none ↦ [] | some (word, rest) ↦ word ∷ words_in fuel rest ]))
    next later none = refl
    next later (some (word, rest)) = chosen (select_days (getlines comma word)) rest (later rest)

pub prompts-read :
    (fuel : ℕ) (input : Bytes)
    → length input < fuel
    → (answer_in (ask_choice input) ≡ first_of (prompt_choice (numbers_in fuel input)))
      × (answer_in (ask_offset input) ≡ first_of (prompt_offset (numbers_in fuel input)))
      × (answer_in (ask_day_of_week input)
          ≡ first_of (prompt_day_of_week (first_numbers_in fuel input)))
      × (answer_in (ask_time input) ≡ first_of (prompt_time (words_in fuel input)))
      × (answer_in (ask_confirmation input) ≡ first_of (prompt_confirmation (words_in fuel input)))
      × (answer_in (ask_booking_id input) ≡ first_of (prompt_booking_id (words_in fuel input)))
      × (answer_in (ask_server_ip input) ≡ first_of (prompt_server_ip (words_in fuel input)))
      × (answer_in (ask_server_port input) ≡ first_of (prompt_server_port (words_in fuel input)))
      × (answer_in (ask_duration input) ≡ first_of (prompt_duration (lines_in fuel input)))
      × (end_of (ask_days_of_week input)
          ≡ without_input (prompt_days_of_week (words_in fuel input)))
unfolding ask_choice ask_offset ask_day_of_week ask_time ask_confirmation ask_booking_id
    ask_server_ip ask_server_port ask_duration ask_days_of_week prompt_choice prompt_offset
    prompt_day_of_week prompt_time prompt_confirmation prompt_booking_id prompt_server_ip
    prompt_server_port prompt_duration
prompts-read fuel input h = (
  reads extract_int after_failure number-Progresses _ _
      (accept_extracted (in_range 1 11) the_number) prompt_choice refl choice_step fuel input h,
  reads extract_int after_failure number-Progresses _ _ (accept_extracted is_offset the_number)
      prompt_offset refl offset_step fuel input h,
  reads extract_int skip_line day-Progresses _ _ (accept_extracted (in_range 1 7) chosen_day)
      prompt_day_of_week refl day_step fuel input h,
  reads extract_word keep_rest word-Progresses _ _ (accept_passing is_time the_word) prompt_time
      refl (λ a rest. passes_not-not (is_time a) a rest (prompt_time rest)) fuel input h,
  reads extract_word keep_rest word-Progresses _ _ (accept_passing is_answer says_yes)
      prompt_confirmation refl
      (λ a rest. passes_not-not (is_answer a) (says_yes a) rest (prompt_confirmation rest)) fuel
      input h,
  reads extract_word keep_rest word-Progresses _ _ (accept_passing is_booking_id the_word)
      prompt_booking_id refl
      (λ a rest. passes_not-not (is_booking_id a) a rest (prompt_booking_id rest)) fuel input h,
  reads extract_word keep_rest word-Progresses _ _ (accept_passing is_server_ip the_word)
      prompt_server_ip refl (λ a rest. passes (is_server_ip a) a rest (prompt_server_ip rest)) fuel
      input h,
  reads extract_word keep_rest word-Progresses _ server_port_of (λ a. refl) prompt_server_port refl
      (λ a rest. refl) fuel input h,
  reads extract_line keep_rest line-Progresses _ duration_of (λ a. refl) prompt_duration refl
      (λ a rest. refl) fuel input h,
  asking-days (suc (length input)) input
      ∙ ap (λ l. without_input (prompt_days_of_week l))
          (extractions_enough extract_word keep_rest word-Progresses (suc (length input)) fuel input
            (omega arith) h),
)
