-- ===== src/UserInterface/Returns.antt =====
-- The prompts return: each takes the first of the inputs that is valid.
use sc4051_dist_system_proj.Prelude.{
  ◌≡◌, refl, [], ◌∷◌, List, Bytes, Bool, true, false, ◌||◌, not, Option, none, some, if◌then◌else◌,
}
use sc4051_dist_system_proj.Prelude.Int.{ℤ}
use sc4051_dist_system_proj.Text.Input.{Extraction, number, fails}
use sc4051_dist_system_proj.UserInterface.Prompts.{
  in_range, is_zero_offset, prompt_choice, prompt_offset, chosen_day, prompt_day_of_week,
}
use sc4051_dist_system_proj.UserInterface.Words.{or_again}

abbrev pub has_answer : {A : Type 0} → Option A → Bool
has_answer none = false
has_answer (some a) = true

-- Whether one of the inputs passes.
pub any : {A : Type 0} → (A → Bool) → List A → Bool
any test [] = false
any test (a ∷ input) = test a || any test input

-- The answer of an input that passes a test.
abbrev pub passing : {A B : Type 0} → (A → Bool) → (A → B) → A → Option B
passing test value a = if test a then some (value a) else none

abbrev pub extracted : {B : Type 0} → (ℤ → Bool) → (ℤ → B) → Extraction → Option B
extracted test value fails = none
extracted test value (number n) = passing test value n

pub passes :
    {A B : Type 0} (test : Bool) (b : B) (input : List A) (again : Option (B × List A))
    → (if test then some (b, input) else again)
      ≡ or_again (if test then some b else none) input again
passes true b input again = refl
passes false b input again = refl

passes_not :
    {A B : Type 0} (test : Bool) (b : B) (input : List A) (again : Option (B × List A))
    → (if test then again else some (b, input))
      ≡ or_again (if not test then some b else none) input again
passes_not true b input again = refl
passes_not false b input again = refl

pub passes_not-not :
    {A B : Type 0} (test : Bool) (b : B) (input : List A) (again : Option (B × List A))
    → (if not test then again else some (b, input))
      ≡ or_again (if test then some b else none) input again
passes_not-not true b input again = refl
passes_not-not false b input again = refl

abbrev same_word : Bytes → Bytes
same_word word = word

abbrev same_number : ℤ → ℤ
same_number n = n

abbrev pub is_offset : ℤ → Bool
is_offset n = not (is_zero_offset n)

pub choice_step :
    (a : Extraction) (input : List Extraction)
    → prompt_choice (a ∷ input)
      ≡ or_again (extracted (in_range 1 11) same_number a) input (prompt_choice input)
unfolding prompt_choice
choice_step fails input = refl
choice_step (number n) input = passes (in_range 1 11 n) n input (prompt_choice input)

pub offset_step :
    (a : Extraction) (input : List Extraction)
    → prompt_offset (a ∷ input)
      ≡ or_again (extracted is_offset same_number a) input (prompt_offset input)
unfolding prompt_offset
offset_step fails input = refl
offset_step (number n) input = passes_not (is_zero_offset n) n input (prompt_offset input)

pub day_step :
    (a : Extraction) (input : List Extraction)
    → prompt_day_of_week (a ∷ input)
      ≡ or_again (extracted (in_range 1 7) chosen_day a) input (prompt_day_of_week input)
unfolding prompt_day_of_week
day_step fails input = refl
day_step (number n) input = passes (in_range 1 7 n) (chosen_day n) input (prompt_day_of_week input)

abbrev pub is_number_of : (ℤ → Bool) → Extraction → Bool
is_number_of test a = has_answer (extracted test same_number a)

abbrev pub is_rating_in : {F : Type 0} → (F → Bool) → Option F → Bool
is_rating_in test none = false
is_rating_in test (some rating) = test rating
