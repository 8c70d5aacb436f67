-- ===== src/Text/Input/Shorter.antt =====
-- Extraction takes something from the input.
use sc4051_dist_system_proj.Prelude.{
  ℕ, suc, ◌≤◌, ◌<◌, ◌≡◌, refl, [], ◌∷◌, Bytes, false, Option, none, some, length, ◌==◌, arith,
  Bool-cases, inl, inr,
}
use sc4051_dist_system_proj.Prelude.Int.{ℤ, pos}
use sc4051_dist_system_proj.Text.{split_at, getline, newline}
use sc4051_dist_system_proj.Text.Lines.{split_at-shorter}
use sc4051_dist_system_proj.Text.Numbers.{is_space, is_digit, negate}
use sc4051_dist_system_proj.Text.Input.{
  skip_spaces, split_word, word_in, extract_word, split_digits, Extraction, number, fails, int_of,
  signed_in, int_in, extract_int, extract_line, ignore_line,
}

skip_spaces-length : (s : Bytes) → length (skip_spaces s) ≤ length s
unfolding skip_spaces
skip_spaces-length [] = omega arith
skip_spaces-length (c ∷ s) = ground (arith, skip_spaces-length s)

-- What is left after the spaces is empty or begins with another character.
skip_spaces-cons : (s : Bytes) (c : ℕ) (t : Bytes) → skip_spaces s ≡ c ∷ t → is_space c ≡ false
unfolding skip_spaces
skip_spaces-cons [] c t e = cc
skip_spaces-cons (a ∷ s) c t e = elim (Bool-cases (is_space a)) [
  | inl space ↦ skip_spaces-cons s c t (rw space at e)
  | inr other ↦ let e' = rw other at e in cc
]

split_word-length : (s : Bytes) → length (split_word s).1 ≤ length s
unfolding split_word
split_word-length [] = omega arith
split_word-length (c ∷ s) = ground (arith, split_word-length s)

split_word-shorter :
    (c : ℕ) (s : Bytes) → is_space c ≡ false → length (split_word (c ∷ s)).1 ≤ length s
unfolding split_word
split_word-shorter c s h = rw h (split_word-length s)

split_digits-length : (s : Bytes) → length (split_digits s).1 ≤ length s
unfolding split_digits
split_digits-length [] = omega arith
split_digits-length (c ∷ s) = ground (arith, split_digits-length s)

-- What is extracted leaves less.
abbrev pub Shortens : {A : Type 0} → Bytes → Option (A × Bytes) → Type 0
Shortens input none = input ≡ input
Shortens input (some (a, rest)) = length rest < length input

pub extract_word-Shortens : (input : Bytes) → Shortens input (extract_word input)
unfolding extract_word
extract_word-Shortens input = taken (skip_spaces input) refl
  where
    taken : (s : Bytes) → skip_spaces input ≡ s → Shortens input (word_in s)
    taken [] e = refl
    taken (c ∷ s) e =
        let fewer : length s < length input =
          (let all : length (skip_spaces input) ≤ length input = skip_spaces-length input in
            let h = rw e at all in omega (arith, h)) in
        let h = split_word-shorter c s (skip_spaces-cons input c s e) in omega (arith, h, fewer)

pub extract_line-Shortens : (input : Bytes) → Shortens input (extract_line input)
unfolding getline
extract_line-Shortens [] = refl
extract_line-Shortens (c ∷ s) = let h = split_at-shorter newline c s in omega (arith, h)

-- The same of a number; where no number is read there was some text at least.
abbrev pub Consumes : Bytes → Option (Extraction × Bytes) → Type 0
Consumes input none = input ≡ input
Consumes input (some (number n, rest)) = length rest < length input
Consumes input (some (fails, rest)) = (length rest ≤ length input) × (0 < length input)

consumed :
    (input rest : Bytes) (e : Extraction)
    → length rest < length input
    → Consumes input (some (e, rest))
consumed input rest (number n) h = h
consumed input rest fails h = (omega (arith, h), omega (arith, h))

signed_in-Consumes :
    (input : Bytes) (signed : ℕ → ℤ) (s : Bytes)
    → length s < length input
    → Consumes input (signed_in signed (split_digits s))
signed_in-Consumes input signed s h =
    consumed input (split_digits s).1 (int_of signed (split_digits s).0)
      (let shorter = split_digits-length s in omega (arith, h, shorter))

unsigned-Consumes :
    (input : Bytes) (c : ℕ) (s : Bytes)
    → suc (length s) ≤ length input
    → Consumes input (signed_in pos (split_digits (c ∷ s)))
unfolding split_digits
unsigned-Consumes input c s h = elim (Bool-cases (is_digit c)) [
  | inl digit ↦ rw digit (
      consumed input (split_digits s).1 (int_of pos (c ∷ (split_digits s).0))
        (let shorter = split_digits-length s in omega (arith, h, shorter)))
  | inr other ↦ rw other (omega (arith, h), omega (arith, h))
]

pub extract_int-Consumes : (input : Bytes) → Consumes input (extract_int input)
unfolding extract_int
extract_int-Consumes input = taken (skip_spaces input) (skip_spaces-length input)
  where
    taken : (s : Bytes) → length s ≤ length input → Consumes input (int_in s)
    taken [] h = refl
    taken (c ∷ s) h = elim (Bool-cases (c == b'-')) [
      | inl minus ↦ rw minus (signed_in-Consumes input negate s h)
      | inr no_minus ↦ elim (Bool-cases (c == b'+')) [
        | inl plus ↦ rw (no_minus, plus) (signed_in-Consumes input pos s h)
        | inr no_plus ↦ rw (no_minus, no_plus) (unsigned-Consumes input c s h)
      ]
    ]

-- What is left of a line that is ignored is shorter than the text before the failure.
pub ignore_line-shorter :
    (input rest : Bytes)
    → length rest ≤ length input
    → 0 < length input
    → length (ignore_line rest) < length input
unfolding split_at
ignore_line-shorter input [] h positive = positive
ignore_line-shorter input (c ∷ s) h positive =
    let shorter = split_at-shorter newline c s in omega (arith, h, shorter)
