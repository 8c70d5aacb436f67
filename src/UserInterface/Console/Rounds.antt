-- ===== src/UserInterface/Console/Rounds.antt =====
-- The rounds of the prompts on the text of `std::cin`, and the list of what they extract from it.
use sc4051_dist_system_proj.Prelude.{
  ℕ, zero, suc, ◌<◌, ◌≡◌, refl, ap, sym, ◌∙◌, [], ◌∷◌, List, Bytes, Bool, Option, none, some,
  length, arith, Bool-cases, inl, inr,
}
use sc4051_dist_system_proj.Prelude.Int.{ℤ}
use sc4051_dist_system_proj.Text.Input.{
  Extraction, number, fails, extract_word, extract_int, extract_line,
}
use sc4051_dist_system_proj.Text.Input.Shorter.{
  Shortens, extract_word-Shortens, extract_line-Shortens, Consumes, extract_int-Consumes,
  ignore_line-shorter,
}
use sc4051_dist_system_proj.UserInterface.Words.{or_again}
use sc4051_dist_system_proj.UserInterface.Returns.{passing, extracted}
use sc4051_dist_system_proj.UserInterface.Console.{
  Asked, answered, asks_on, uncaught, undefined, Judged, judged, asking, keep_rest, after_failure,
  skip_line, accept_if, accept_some, accept_int,
}

-- What the rounds of a prompt extract from the input if none of it is accepted.
unfoldable pub extractions :
    {A : Type 0} → (Bytes → Option (A × Bytes)) → (A → Bytes → Bytes) → ℕ → Bytes → List A
extractions extract discard zero input = []
extractions extract discard (suc fuel) input = elim (extract input) [
  | none ↦ []
  | some (a, rest) ↦ a ∷ extractions extract discard fuel (discard a rest)
]

-- The answer of a prompt, without what is left of the input.
abbrev pub answer_in : {B : Type 0} → Asked B → Option B
answer_in (answered b rest) = some b
answer_in asks_on = none
answer_in uncaught = none
answer_in undefined = none

abbrev pub first_of : {A B : Type 0} → Option (B × List A) → Option B
first_of none = none
first_of (some (b, input)) = some b

abbrev pub Progresses : {A : Type 0} → (A → Bytes → Bytes) → Bytes → Option (A × Bytes) → Type 0
Progresses discard input none = input ≡ input
Progresses discard input (some (a, rest)) = length (discard a rest) < length input

module _ {A : Type 0} (extract : Bytes → Option (A × Bytes)) (discard : A → Bytes → Bytes)
    (progresses : (input : Bytes) → Progresses discard input (extract input)) where
  -- Every round takes something from the input: more fuel than its length changes nothing.
  pub extractions_enough :
      (n m : ℕ) (input : Bytes)
      → length input < n
      → length input < m
      → extractions extract discard n input ≡ extractions extract discard m input
  unfolding extractions
  extractions_enough zero m input p q = absurd (omega (arith, p))
  extractions_enough (suc n) zero input p q = absurd (omega (arith, q))
  extractions_enough (suc n) (suc m) input p q =
      next (λ s a b. extractions_enough n m s a b) (extract input) (progresses input)
    where
      next :
          ((s : Bytes)
            → length s < n
            → length s < m
            → extractions extract discard n s ≡ extractions extract discard m s)
          → (o : Option (A × Bytes)) → Progresses discard input o
          → (elim o [
            | none ↦ []
            | some (a, rest) ↦ a ∷ extractions extract discard n (discard a rest)
          ])
            ≡ (elim o [
              | none ↦ []
              | some (a, rest) ↦ a ∷ extractions extract discard m (discard a rest)
            ])
      next later none h = refl
      next later (some (a, rest)) h =
          ap (λ l. a ∷ l) (later (discard a rest) (omega (arith, h, p)) (omega (arith, h, q)))

  module _ {B : Type 0} (judge : A → Judged B) (answer_of : A → Option B)
      (judges : (a : A) → judge a ≡ accept_some (answer_of a))
      (prompt : List A → Option (B × List A)) (stop : prompt [] ≡ none)
      (step : (a : A) (input : List A)
        → prompt (a ∷ input) ≡ or_again (answer_of a) input (prompt input)) where
    asking-extractions :
        (fuel : ℕ) (input : Bytes)
        → answer_in (asking extract judge discard fuel input)
          ≡ first_of (prompt (extractions extract discard fuel input))
    unfolding asking extractions
    asking-extractions zero input = sym (ap first_of stop)
    asking-extractions (suc fuel) input = next (λ s. asking-extractions fuel s) (extract input)
      where
        chosen :
            (o : Option B) (rest s : Bytes)
            → answer_in (asking extract judge discard fuel s)
              ≡ first_of (prompt (extractions extract discard fuel s))
            → answer_in (judged (accept_some o) rest (asking extract judge discard fuel s))
              ≡ first_of (
                  or_again o
                    (extractions extract discard fuel s)
                    (prompt (extractions extract discard fuel s)))
        chosen none rest s later = later
        chosen (some b) rest s later = refl

        next :
            ((s : Bytes)
              → answer_in (asking extract judge discard fuel s)
                ≡ first_of (prompt (extractions extract discard fuel s)))
            → (o : Option (A × Bytes))
            → answer_in (elim o [
              | none ↦ asks_on
              | some (a, rest) ↦
                  judged (judge a) rest (asking extract judge discard fuel (discard a rest))
            ])
              ≡ first_of (
                  prompt (elim o [
                    | none ↦ []
                    | some (a, rest) ↦ a ∷ extractions extract discard fuel (discard a rest)
                  ]))
        next later none = sym (ap first_of stop)
        next later (some (a, rest)) =
            rw (judges a, step a (extractions extract discard fuel (discard a rest)))
              (chosen (answer_of a) rest (discard a rest) (later (discard a rest)))

    pub reads :
        (fuel : ℕ) (input : Bytes)
        → length input < fuel
        → answer_in (asking extract judge discard (suc (length input)) input)
          ≡ first_of (prompt (extractions extract discard fuel input))
    reads fuel input h =
        asking-extractions (suc (length input)) input
        ∙ ap (λ l. first_of (prompt l))
            (extractions_enough (suc (length input)) fuel input (omega arith) h)

keep-Progresses :
    {A : Type 0} (input : Bytes) (o : Option (A × Bytes))
    → Shortens input o
    → Progresses keep_rest input o
keep-Progresses input none h = refl
keep-Progresses input (some (a, rest)) h = h

pub word-Progresses : (input : Bytes) → Progresses keep_rest input (extract_word input)
word-Progresses input = keep-Progresses input (extract_word input) (extract_word-Shortens input)

pub line-Progresses : (input : Bytes) → Progresses keep_rest input (extract_line input)
line-Progresses input = keep-Progresses input (extract_line input) (extract_line-Shortens input)

pub number-Progresses : (input : Bytes) → Progresses after_failure input (extract_int input)
number-Progresses input = as_progress (extract_int input) (extract_int-Consumes input)
  where
    as_progress :
        (o : Option (Extraction × Bytes)) → Consumes input o → Progresses after_failure input o
    as_progress none h = refl
    as_progress (some (number n, rest)) h = h
    as_progress (some (fails, rest)) h = ignore_line-shorter input rest h.0 h.1

pub day-Progresses : (input : Bytes) → Progresses skip_line input (extract_int input)
day-Progresses input = as_progress (extract_int input) (extract_int-Consumes input)
  where
    as_progress :
        (o : Option (Extraction × Bytes)) → Consumes input o → Progresses skip_line input o
    as_progress none h = refl
    as_progress (some (number n, rest)) h =
        ignore_line-shorter input rest (omega (arith, h)) (omega (arith, h))
    as_progress (some (fails, rest)) h = ignore_line-shorter input rest h.0 h.1

-- The tests of the loops, as an answer or none.
pub accept_passing :
    {A B : Type 0} (test : A → Bool) (value : A → B) (a : A)
    → accept_if test value a ≡ accept_some (passing test value a)
accept_passing test value a = elim (Bool-cases (test a)) [ inl h ↦ rw h refl | inr h ↦ rw h refl ]

pub accept_extracted :
    {B : Type 0} (test : ℤ → Bool) (value : ℤ → B) (e : Extraction)
    → accept_int test value e ≡ accept_some (extracted test value e)
accept_extracted test value fails = refl
accept_extracted test value (number n) = accept_passing test value n
